-- ===== src/Session.antt =====
-- The state that a run of the engine works on, and its actions: the machine, the SQLite file of
-- database/connection.py, the audit file, and a log of the calls made so far, which the code does
-- not keep and which the theorems speak of.
pub mod Frames
pub mod Inversion
pub mod Finishing
pub mod Rows
unfoldable pub use Rows.*
use pudge_gaming_manager.Prelude.{ℕ, ◌+◌, String, Bool, Option, none, some, List, [], ◌∷◌, ◌++◌}
use pudge_gaming_manager.Tweak.{Result, ok, raised, killed, Exception, pgm_error, Phase, Value}

-- How the next SQL statement ends: it commits, SQLite refuses it (`sqlite3.Error`), or the process
-- dies before it commits.
pub data Fate : Type 0 where
  commits : Fate
  refuses : String → Fate
  dies : Fate

-- A call that a tweak received, with the backups that were committed when it was made.
pub record Call : Type 0 where
  pub method : Phase
  pub tweak_id : String
  pub committed : List BackupRow

pub record Session (M : Type 0) : Type 0 where
  pub machine : M
  pub tables : Tables
  pub audit_file : List AuditEvent
  pub run_id : String
  pub clock : ℕ → String
  pub ticks : ℕ
  pub fates : ℕ → Fate
  pub statements : ℕ
  pub is_admin : Bool
  pub calls : List Call

abbrev pub Action : Type 0 → Type 0 → Type 0
Action M A = Session M → Result A × Session M

module _ {M A : Type 0} where
  abbrev pub pure : A → Action M A
  pure a s = (ok a, s)

  abbrev pub raise : Exception → Action M A
  raise e s = (raised e, s)

  -- `try: body` / `except Exception as exc: handler`. A dead process runs no handler.
  abbrev pub handle : Result A → (Exception → Action M A) → Action M A
  handle (ok a) handler = pure a
  handle (raised e) handler = handler e
  handle killed handler = λ s. (killed, s)

  abbrev pub try_except : Action M A → (Exception → Action M A) → Action M A
  try_except body handler s = let (r, s') = body s in handle r handler s'

module _ {M A B : Type 0} where
  abbrev pub after_result : Result A → (A → Action M B) → Action M B
  after_result (ok a) f = f a
  after_result (raised e) f = λ s. (raised e, s)
  after_result killed f = λ s. (killed, s)

  infixl 5 ◌>>=◌ ◌>>◌
  abbrev pub ◌>>=◌ : Action M A → (A → Action M B) → Action M B
  ◌>>=◌ m f s = let (r, s') = m s in after_result r f s'

  abbrev pub ◌>>◌ : Action M A → Action M B → Action M B
  ◌>>◌ m n s = let (r, s') = m s in after_result r (λ _. n) s'

-- The `StorageError` that `Database.execute` raises from a `sqlite3.Error`.
abbrev pub storage_error : String → Exception
storage_error why =
    pgm_error "Операция с базой данных не удалась" why
      (some "Проверьте свободное место на диске и перезапустите программу.")

module _ {M : Type 0} where
  abbrev pub gets : {A : Type 0} → (Session M → A) → Action M A
  gets f s = (ok (f s), s)

  -- `utc_now()`
  unfoldable pub utc_now : Action M String
  utc_now s = (ok (s.clock s.ticks), record s { ticks = s.ticks + 1 })

  -- What a statement leaves, by its fate and by the tables that it would write. `none` is a
  -- statement that breaks a constraint of the schema.
  abbrev pub settle : Fate → Option Tables → Action M Unit
  settle commits (some tables) s = (ok tt, record s { tables = tables })
  settle commits none s = (raised (storage_error "constraint failed"), s)
  settle (refuses why) _ s = (raised (storage_error why), s)
  settle dies _ s = (killed, s)

  -- `Database.execute`
  unfoldable pub execute : (Tables → Option Tables) → Action M Unit
  execute statement s =
      settle (s.fates s.statements) (statement s.tables)
        (record s { statements = s.statements + 1 })

  -- A method call of a tweak: it acts on the machine alone.
  unfoldable pub on_machine : {A : Type 0} → Phase → String → (M → Result A × M) → Action M A
  on_machine method tweak_id call s =
      let (r, m) = call s.machine in
      let c : Call = record {
        method = method;
        tweak_id = tweak_id;
        committed = s.tables.backups;
      } in
      (r, record s { machine = m; calls = s.calls ++ c ∷ [] })
