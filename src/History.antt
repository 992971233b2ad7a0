-- ===== src/History.antt =====
-- core/optimization/history.py: the list of changes, and undoing a change after its run. `str` and
-- `int` on the texts of numbers, and the tweaks by which `_tweak_for` undoes a change, are
-- parameters; a tweak comes with its context.
pub mod Ending
pub mod Restoring
pub mod Marking
pub mod Listing
pub mod Everything
pub mod Decoding
use pudge_gaming_manager.Prelude.{
  ℕ, zero, suc, String, Bool, true, false, not, ◌&&◌, ◌||◌, Option, none, some, List, [], ◌∷◌, map,
  any, ltb, ◌is◌, ◌<>◌, or_text, at_most, if◌then◌else◌,
}
use pudge_gaming_manager.Tweak.{
  Value, null, number, text, other, BackupScope, is_no_scope, Phase, Tweak, BackupRecord,
  ApplyResult, is_success, error_text, ok,
}
use pudge_gaming_manager.Session.{
  Action, pure, gets, try_except, ◌>>=◌, ◌>>◌, execute, on_machine, Tables, BackupRow, BackupState,
  applying, applied, restored, not_confirmed, TweakRow,
}
use pudge_gaming_manager.Store.{mark_backup, audit}

pub record ChangeRecord : Type 0 where
  pub backup_id : String
  pub tweak_id : String
  pub name : String
  pub created_at : String
  pub scope : BackupScope
  pub target : String
  pub old_value : Value
  pub old_value_absent : Bool
  pub old_value_kind : String
  pub new_value : Value
  pub state : BackupState
  pub restored_at : Option String

unfoldable pub is_applied_state : BackupState → Bool
is_applied_state applied = true
is_applied_state _ = false

unfoldable pub is_applied : ChangeRecord → Bool
is_applied record_ = is_applied_state record_.state

unfoldable pub state_label : BackupState → String
state_label applied = "действует"
state_label restored = "откачено"
state_label not_confirmed = "не подтвердилось"
state_label applying = "прервано"

pub record RestoreResult : Type 0 where
  pub backup_id : String
  pub name : String
  pub is_ok : Bool
  pub message : String

-- The newest version of a tweak in the catalogue.
unfoldable pub newest_tweak : String → List TweakRow → Option TweakRow
newest_tweak tweak_id [] = none
newest_tweak tweak_id (row ∷ rows) =
    let rest = newest_tweak tweak_id rows in
    if row.tweak_id is tweak_id
    then (elim rest [
      | none ↦ some row
      | some found ↦ if ltb row.version found.version then some found else some row
    ])
    else rest

unfoldable pub name_of : String → List TweakRow → String
name_of tweak_id rows = elim (newest_tweak tweak_id rows) [
  | none ↦ tweak_id
  | some row ↦ or_text row.name tweak_id
]

-- `_SELECT` and `_record`
unfoldable pub record_of : List TweakRow → BackupRow → ChangeRecord
record_of catalogue row = record {
  backup_id = row.backup_id;
  tweak_id = row.tweak_id;
  name = name_of row.tweak_id catalogue;
  created_at = row.created_at;
  scope = row.scope;
  target = row.target;
  old_value = row.old_value;
  old_value_absent = row.old_value_absent;
  old_value_kind = row.old_value_kind;
  new_value = row.new_value;
  state = row.state;
  restored_at = row.restored_at;
}

-- `ORDER BY b.created_at DESC, b.rowid DESC`, which stands before the `LIMIT` of `list_changes`: a row comes behind those that are later in the table
-- and not older.
unfoldable pub insert_newest : BackupRow → List BackupRow → List BackupRow
insert_newest row [] = row ∷ []
insert_newest row (r ∷ rows) =
    let rest = insert_newest row rows in
    if at_most row.created_at r.created_at then r ∷ rest else row ∷ r ∷ rows

unfoldable pub newest_first : List BackupRow → List BackupRow
newest_first [] = []
newest_first (row ∷ rows) = insert_newest row (newest_first rows)

-- `LIMIT ?`
unfoldable pub limited : {A : Type 0} → ℕ → List A → List A
limited zero xs = []
limited (suc n) [] = []
limited (suc n) (x ∷ xs) = x ∷ limited n xs

-- `WHERE b.backup_id=?`
unfoldable pub find_row : String → List BackupRow → Option BackupRow
find_row backup_id [] = none
find_row backup_id (row ∷ rows) =
    let rest = find_row backup_id rows in if row.backup_id is backup_id then some row else rest

-- The rows behind the one with this identifier: those with a larger rowid.
unfoldable pub rows_after : String → List BackupRow → List BackupRow
rows_after backup_id [] = []
rows_after backup_id (row ∷ rows) =
    let rest = rows_after backup_id rows in if row.backup_id is backup_id then rows else rest

-- An applied change of the same target under another identifier.
unfoldable pub is_rival : ChangeRecord → BackupRow → Bool
is_rival record_ row =
    is_applied_state row.state
    && ((row.target is record_.target) && not (row.backup_id is record_.backup_id))

-- `_newer_applied`, on the rows.
unfoldable pub has_newer : ChangeRecord → List BackupRow → Bool
has_newer record_ rows =
    any (λ (r : BackupRow). is_rival record_ r && not (at_most r.created_at record_.created_at))
      rows
    || any (λ (r : BackupRow). is_rival record_ r && (r.created_at is record_.created_at))
        (rows_after record_.backup_id rows)

abbrev refused : ChangeRecord → String → RestoreResult
refused record_ message = record {
  backup_id = record_.backup_id;
  name = record_.name;
  is_ok = false;
  message = message;
}

module _ (digits : ℕ → String) (int : String → Option ℕ) where
  -- `_text`, as the store writes a value.
  unfoldable pub stored_text : Value → Option String
  stored_text null = none
  stored_text (number n) = some (digits n)
  stored_text (text s) = some s
  stored_text (other s) = some s

  -- A column of texts, as it is read back.
  unfoldable pub column : Value → Value
  column v = elim (stored_text v) [ none ↦ null | some s ↦ text s ]

  unfoldable pub decode_text : String → Bool → Value
  decode_text s false = text s
  decode_text s true = elim (int s) [ none ↦ text s | some n ↦ number n ]

  unfoldable pub decode : Option String → (kind : String) → Value
  decode none kind = null
  decode (some s) kind = decode_text s ((kind is "REG_DWORD") || (kind is "REG_QWORD"))

  -- What the rollback is given.
  unfoldable pub backup_of : ChangeRecord → BackupRecord
  backup_of record_ = record {
    backup_id = record_.backup_id;
    tweak_id = record_.tweak_id;
    tweak_version = 0;
    scope = record_.scope;
    target = record_.target;
    old_value = decode (stored_text record_.old_value) record_.old_value_kind;
    old_value_absent = record_.old_value_absent;
    old_value_kind = record_.old_value_kind;
    new_value = column record_.new_value;
  }

  unfoldable pub shown_old : ChangeRecord → String
  shown_old record_ =
      if record_.old_value_absent
      then "не задано"
      else (elim (stored_text record_.old_value) [ none ↦ "None" | some s ↦ s ])

  module _ {M : Type 0} where
    -- A query is a statement that writes nothing, and may be refused too.
    unfoldable pub query : Action M Unit
    query = execute (λ t. some t)

    unfoldable pub list_changes : ℕ → Action M (List ChangeRecord)
    list_changes limit = do
      query
      gets (λ s. map (record_of s.tables.tweaks) (limited limit (newest_first s.tables.backups)))

    unfoldable pub find_change : String → Action M (Option ChangeRecord)
    find_change backup_id = do
      query
      gets (λ s. elim (find_row backup_id s.tables.backups) [
        | none ↦ none
        | some row ↦ some (record_of s.tables.tweaks row)
      ])

    unfoldable pub newer_applied : ChangeRecord → Action M Bool
    newer_applied record_ = do query; gets (λ s. has_newer record_ s.tables.backups)

    -- The rollback, whatever it raises: whether it succeeded, and the message.
    unfoldable pub call_rollback : Tweak M → ChangeRecord → Action M (Bool × String)
    call_rollback tweak record_ =
        try_except
          (do
            result ← on_machine Phase.rollback tweak.id (tweak.rollback (backup_of record_))
            pure (is_success result.outcome, result.detail))
          (λ exc. pure (false, error_text exc))

    unfoldable pub conclude : ChangeRecord → Bool × String → Action M RestoreResult
    conclude record_ (good, message) = do
      if good then mark_backup record_.backup_id restored true else pure tt
      audit (record {
        subsystem = "history";
        operation = "restore";
        target = record_.target;
        old_state = column record_.new_value;
        new_state = if record_.old_value_absent then null else column record_.old_value;
        result = if good then "SUCCESS" else "FAILED";
        error = if good then none else some message;
      })
      pure (record {
        backup_id = record_.backup_id;
        name = record_.name;
        is_ok = good;
        message = message;
      })

    unfoldable pub roll_back : Option (Tweak M) → ChangeRecord → Action M RestoreResult
    roll_back none record_ = pure (
        refused record_ (
          "Программа не знает, как откатить это изменение (твик удалён или переименован). Старое значение: "
          <> (shown_old record_ <> ".")))
    roll_back (some tweak) record_ = do done ← call_rollback tweak record_; conclude record_ done

    module _ (resolve : ChangeRecord → Option (Tweak M)) where
      unfoldable pub unless_newer : ChangeRecord → Bool → Action M RestoreResult
      unless_newer record_ true = pure (
          refused record_
            "Эту настройку потом меняли ещё раз. Сначала откатите более позднее изменение — иначе вернётся не то значение.")
      unless_newer record_ false = roll_back (resolve record_) record_

      unfoldable pub after_checks : Bool → ChangeRecord → Action M RestoreResult
      after_checks true record_ = do newer ← newer_applied record_; unless_newer record_ newer
      after_checks false record_ = roll_back (resolve record_) record_

      unfoldable pub restore_found : Bool → ChangeRecord → Action M RestoreResult
      restore_found check_newer record_ =
          if not (is_applied record_)
          then pure (
              refused record_ (
                "Изменение уже в состоянии «"
                <> (state_label record_.state <> "» — откатывать нечего.")))
          else if is_no_scope record_.scope
          then pure (refused record_ "Это изменение необратимо.")
          else after_checks check_newer record_

      unfoldable pub after_find : String → Bool → Option ChangeRecord → Action M RestoreResult
      after_find backup_id check_newer none = pure (record {
        backup_id = backup_id;
        name = "?";
        is_ok = false;
        message = "Такой записи нет.";
      })
      after_find backup_id check_newer (some record_) = restore_found check_newer record_

      unfoldable pub restore : String → (check_newer : Bool) → Action M RestoreResult
      restore backup_id check_newer = do
        found ← find_change backup_id
        after_find backup_id check_newer found

      unfoldable pub is_undoable : ChangeRecord → Bool
      is_undoable record_ = is_applied record_ && not (is_no_scope record_.scope)

      unfoldable pub restore_each : List ChangeRecord → Action M (List RestoreResult)
      restore_each [] = pure []
      restore_each (record_ ∷ records) =
          if is_undoable record_
          then (do
            result ← restore record_.backup_id false
            results ← restore_each records
            pure (result ∷ results))
          else restore_each records

      unfoldable pub restore_all : Action M (List RestoreResult)
      restore_all = do records ← list_changes 100000; restore_each records
