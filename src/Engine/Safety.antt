-- ===== src/Engine/Safety.antt =====
-- The backup of a change and the calls of `apply`: the order of the steps of `_execute`.
use pudge_gaming_manager.Prelude.{
  ◌≡◌, refl, sym, ◌∙◌, ap, subst, ◌≢◌, ◌+◌, String, Bool, true, false, Option, none, some, List, [],
  ◌∷◌, ◌++◌, In, In-append_right, inl, inr, ◌⊎◌, arith, if◌then◌else◌, any, ◌is◌,
}
use pudge_gaming_manager.Tweak.{
  Tweak, TweakState, BackupRecord, Phase, Result, ok, Exception, error_text, is_success,
  is_no_scope, skipped,
}
use pudge_gaming_manager.Session.{
  Session, Tables, BackupRow, Call, pure, try_except, ◌>>=◌, on_machine, utc_now,
}
use pudge_gaming_manager.Session.Inversion.{bind-ok, try_except-ok, execute-ok}
use pudge_gaming_manager.Session.Frames.{bind_at, try_except_at}
use pudge_gaming_manager.Store.{backup_row, insert_backup, persist_backup, record_application}
use pudge_gaming_manager.Store.Keeping.{Admits, calls}
use pudge_gaming_manager.Engine.{
  TweakReport, take_backup, backup_failed, save_backup, call_apply, try_apply, carry_out,
  after_apply, after_backup, after_recheck, recheck, set_run_id, execute_change, PlannedChange,
}
use pudge_gaming_manager.Engine.Keeping.{
  set_run_id-Keeps, recheck-Keeps, stand_down-Keeps, save_backup-Keeps, after_apply-Keeps,
}
use pudge_gaming_manager.Engine.Calls.{Logs, Logs-frame, Logs-Admits}

-- The committed rows hold, in state APPLYING, what the tweak's own `backup` returned.
pub record IsBackedUp {M : Type 0} (tweak : Tweak M) (state : TweakState) (rows : List BackupRow)
    : Type 0 where
  pub machine : M
  pub backup : BackupRecord
  pub returned : (tweak.backup state machine).0 ≡ ok backup
  pub run_id : String
  pub at : String
  pub stored : In (backup_row backup run_id at) rows

-- A call of `apply` goes to this tweak, and is covered by a backup unless nothing can be lost.
pub record IsCovered {M : Type 0} (tweak : Tweak M) (state : TweakState) (c : Call) : Type 0 where
  pub addressed : c.tweak_id ≡ tweak.id
  pub covered : is_no_scope tweak.scope ≡ false → IsBackedUp tweak state c.committed

abbrev pub Guarded : {M : Type 0} → Tweak M → TweakState → Call → Type 0
Guarded tweak state c = c.method ≡ Phase.apply → IsCovered tweak state c

unless-some :
    {A : Type 0} (b : Bool) {x u : A}
    → (if b then none else some x) ≡ some u
    → (u ≡ x) × (b ≡ false)
unless-some true e = cc
unless-some false e = (cc, refl)

-- A new backup leaves every row that is there, comes last, and had no namesake.
pub insert_backup-some :
    (row : BackupRow) (t u : Tables)
    → insert_backup row t ≡ some u
    → (u ≡ record t { backups = t.backups ++ row ∷ [] })
      × (any (λ (r : BackupRow). r.backup_id is row.backup_id) t.backups ≡ false)
unfolding insert_backup
insert_backup-some row t u e = unless-some _ e

pub persisted :
    {M : Type 0} (b : BackupRecord) (run_id : String) (s : Session M)
    → (persist_backup b run_id s).0 ≡ ok tt
    → let row = backup_row b run_id (s.clock s.ticks) in
      ((persist_backup b run_id s).1.tables
        ≡ record s.tables { backups = s.tables.backups ++ row ∷ [] })
      × (any (λ (r : BackupRow). r.backup_id is row.backup_id) s.tables.backups ≡ false)
unfolding persist_backup utc_now
persisted b run_id s e =
    let row = backup_row b run_id (s.clock s.ticks) in
    let (u, inserted, written) =
      execute-ok (insert_backup row) (record s { ticks = s.ticks + 1 }) e in
    let (grown, fresh) = insert_backup-some row s.tables u inserted in (written ∙ grown, fresh)

module _ {M : Type 0} (run_id : String) (tweak : Tweak M) (state : TweakState) where
  pub save_backup-none :
      (s : Session M)
      → (save_backup run_id tweak state s).0 ≡ ok (inr none)
      → is_no_scope tweak.scope ≡ true
  unfolding save_backup take_backup backup_failed
  save_backup-none s e = ground arith

  abbrev asked : Session M → Result BackupRecord × Session M
  asked = on_machine Phase.backup tweak.id (tweak.backup state)

  -- What has happened when a backup could be taken.
  pub take_backup-ok :
      (s : Session M) {x : TweakReport ⊎ Option BackupRecord}
      → (take_backup run_id tweak state s).0 ≡ ok x
      → (b : BackupRecord) × ((asked s).0 ≡ ok b)
        × ((persist_backup b run_id (asked s).1).0 ≡ ok tt)
        × (x ≡ inr (some b))
        × ((take_backup run_id tweak state s).1 ≡ (persist_backup b run_id (asked s).1).1)
  unfolding take_backup
  take_backup-ok s e =
      let (b, got, rest) = bind-ok asked _ s e in
      let (_, kept, last) =
        bind-ok (persist_backup b run_id) (λ _. pure (inr (some b))) (asked s).1
          (ap (λ r. r.0) (sym rest) ∙ e) in
      let whole = rest ∙ last in (b, got, kept, cc (ap (λ r. r.0) whole, e), ap (λ r. r.1) whole)

  save_backup-guarded :
      is_no_scope tweak.scope ≡ false
      → save_backup run_id tweak state
        ≡ try_except (take_backup run_id tweak state) (backup_failed run_id tweak state)
  unfolding save_backup
  save_backup-guarded kept = rw kept

  backup_failed-inl :
      (x : Exception) (s : Session M) {b : Option BackupRecord}
      → (backup_failed run_id tweak state x s).0 ≢ ok (inr b)
  unfolding backup_failed
  backup_failed-inl x s e =
      let (_, _, rest) =
        bind-ok (record_application run_id tweak Phase.backup skipped state _) _ s e in
      cc (ap (λ r. r.0) rest, e)

  pub save_backup-some :
      (s : Session M) (b : BackupRecord)
      → is_no_scope tweak.scope ≡ false
      → (save_backup run_id tweak state s).0 ≡ ok (inr (some b))
      → ((asked s).0 ≡ ok b)
        × ((persist_backup b run_id (asked s).1).0 ≡ ok tt)
        × ((save_backup run_id tweak state s).1 ≡ (persist_backup b run_id (asked s).1).1)
  save_backup-some s b kept e =
      rw (save_backup-guarded kept)
        (elim (try_except-ok (take_backup run_id tweak state) (backup_failed run_id tweak state) s
          guarded) [
            | inl (taken, same) ↦
                let (b', got, stored, is_b, left) = take_backup-ok s taken in
                let same_b : b' ≡ b = cc in
                (rw same_b at got, rw same_b at stored, same ∙ rw same_b at left)
            | inr (x, _, by_handler) ↦
                absurd (backup_failed-inl x _ (ap (λ r. r.0) (sym by_handler) ∙ guarded))
          ])
    where
      guarded :
          (try_except (take_backup run_id tweak state) (backup_failed run_id tweak state) s).0
          ≡ ok (inr (some b))
      guarded = rw (save_backup-guarded kept) at e

module _ {M : Type 0} (run_id : String) (tweak : Tweak M) (state : TweakState) where
  admitted : Admits {M = M} (Logs (Guarded tweak state)) (λ e. e ≢ calls Phase.apply)
  admitted = Logs-Admits (Guarded tweak state) (λ c other is_apply. absurd (other is_apply))

  abbrev Covered : Session M → Type 0
  Covered s = is_no_scope tweak.scope ≡ false → IsBackedUp tweak state s.tables.backups

  apply_call-Logs :
      (s : Session M)
      → Covered s
      → Logs (Guarded tweak state) s (on_machine Phase.apply tweak.id (tweak.apply state) s).1
  unfolding on_machine
  apply_call-Logs s covered = record {
    made = _;
    logged = refl;
    each = (λ _. record { addressed = refl; covered = covered }, tt);
  }

  call_apply-Logs :
      (s : Session M) → Covered s → Logs (Guarded tweak state) s (call_apply tweak state s).1
  unfolding call_apply
  call_apply-Logs s covered =
      bind_at Logs-frame (on_machine Phase.apply tweak.id (tweak.apply state))
        (λ result. pure (if is_success result.outcome then inr result else inl result.detail)) s
        (apply_call-Logs s covered) (λ _ _. Logs-frame.stay _)

  try_apply-Logs :
      (s : Session M) → Covered s → Logs (Guarded tweak state) s (try_apply tweak state s).1
  unfolding try_apply
  try_apply-Logs s covered =
      try_except_at Logs-frame (call_apply tweak state) (λ exc. pure (inl (error_text exc))) s
        (call_apply-Logs s covered) (λ _ _. Logs-frame.stay _)

  carry_out-Logs :
      (backup : Option BackupRecord) (s : Session M)
      → Covered s
      → Logs (Guarded tweak state) s (carry_out run_id tweak state backup s).1
  unfolding carry_out
  carry_out-Logs backup s covered =
      bind_at Logs-frame (try_apply tweak state) (after_apply run_id tweak state backup) s
        (try_apply-Logs s covered)
        λ tried _.
          (after_apply-Keeps admitted run_id tweak state backup tried (λ e. cc) (λ e. cc)
              (λ e. cc)).at
            _

  save_backup-Covered :
      (s : Session M) (backup : Option BackupRecord)
      → (save_backup run_id tweak state s).0 ≡ ok (inr backup)
      → Covered (save_backup run_id tweak state s).1
  unfolding on_machine
  save_backup-Covered s none e kept = cc (save_backup-none run_id tweak state s e)
  save_backup-Covered s (some b) e kept =
      let (got, stored, left) = save_backup-some run_id tweak state s b kept e in
      let t = (asked run_id tweak state s).1 in
      let row = backup_row b run_id (t.clock t.ticks) in
      let (grown, _) = persisted b run_id t stored in
      record {
        machine = s.machine;
        backup = b;
        returned = got;
        run_id = run_id;
        at = t.clock t.ticks;
        stored =
            subst (In row) (sym (ap (λ u. u.tables.backups) left ∙ ap (λ u. u.backups) grown))
              (In-append_right row t.tables.backups (row ∷ []) (inl refl));
      }

  after_backup-Logs :
      (saved : TweakReport ⊎ Option BackupRecord) (s : Session M)
      → (save_backup run_id tweak state s).0 ≡ ok saved
      → let t = (save_backup run_id tweak state s).1 in
        Logs (Guarded tweak state) t (after_backup run_id tweak state saved t).1
  unfolding after_backup
  after_backup-Logs (inl report) s e = Logs-frame.stay _
  after_backup-Logs (inr backup) s e = carry_out-Logs backup _ (save_backup-Covered s backup e)

  after_recheck-Logs :
      (drift : Option String) (s : Session M)
      → Logs (Guarded tweak state) s (after_recheck run_id tweak state drift s).1
  unfolding after_recheck
  after_recheck-Logs (some why) s = (stand_down-Keeps admitted run_id tweak state why).at s
  after_recheck-Logs none s =
      bind_at Logs-frame (save_backup run_id tweak state) (after_backup run_id tweak state) s
        ((save_backup-Keeps admitted run_id tweak state (λ e. cc) (λ e. cc)).at s)
        (λ saved e. after_backup-Logs saved s e)

-- Whatever the tweak, the machine and the database do, every `apply` that one change leads to is
-- made when the backup that the tweak returned stands committed in state APPLYING, unless the
-- tweak's scope is NONE.
pub apply_is_backed_up :
    {M : Type 0} (change : PlannedChange M) (run_id : String) (s : Session M)
    → Logs (Guarded change.tweak change.state) s (execute_change change run_id s).1
unfolding execute_change
apply_is_backed_up change run_id s =
    let a = admitted run_id change.tweak change.state in
    let tweak = change.tweak in
    let state = change.state in
    bind_at Logs-frame (set_run_id run_id)
      (λ _. recheck tweak state >>= after_recheck run_id tweak state) s
      ((set_run_id-Keeps a run_id).at s)
      λ _ _.
        bind_at Logs-frame (recheck tweak state) (after_recheck run_id tweak state) _
          ((recheck-Keeps a run_id change.tweak change.state (λ e. cc)).at _)
          (λ drift _. after_recheck-Logs run_id change.tweak change.state drift _)
