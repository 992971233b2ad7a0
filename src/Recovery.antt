-- ===== src/Recovery.antt =====
-- core/optimization/recovery.py: changes that a previous run started and never finished.
pub mod Reporting
pub mod Acknowledging
use pudge_gaming_manager.Prelude.{
  ℕ, String, Bool, true, false, Option, none, some, List, [], ◌∷◌, map, select, ◌is◌, ◌&&◌, at_most,
  if◌then◌else◌,
}
use pudge_gaming_manager.Tweak.{Value, null}
use pudge_gaming_manager.Session.{
  Action, pure, gets, ◌>>=◌, ◌>>◌, utc_now, execute, Tables, BackupRow, is_applying, not_confirmed,
}
use pudge_gaming_manager.Store.{record_audit}

pub record InterruptedChange : Type 0 where
  pub backup_id : String
  pub tweak_id : String
  pub target : String
  pub old_value : Value
  pub old_value_absent : Bool
  pub started_at : String

unfoldable pub interrupted : BackupRow → InterruptedChange
interrupted row = record {
  backup_id = row.backup_id;
  tweak_id = row.tweak_id;
  target = row.target;
  old_value = row.old_value;
  old_value_absent = row.old_value_absent;
  started_at = row.created_at;
}

-- `ORDER BY created_at`, on the rows in the order of the table.
unfoldable pub insert_by_time : BackupRow → List BackupRow → List BackupRow
insert_by_time row [] = row ∷ []
insert_by_time row (r ∷ rows) =
    if at_most row.created_at r.created_at then row ∷ r ∷ rows else r ∷ insert_by_time row rows

unfoldable pub order_by_time : List BackupRow → List BackupRow
unfolding insert_by_time
order_by_time [] = []
order_by_time (row ∷ rows) = insert_by_time row (order_by_time rows)

-- `WHERE state='APPLYING'`
unfoldable pub pending : Tables → List BackupRow
unfolding is_applying
pending t = select (λ (r : BackupRow). is_applying r.state) t.backups

-- `UPDATE backups SET state='FAILED', restored_at=? WHERE backup_id=? AND state='APPLYING'`
unfoldable pub give_up : String → String → BackupRow → BackupRow
unfolding is_applying
give_up backup_id at row =
    if (row.backup_id is backup_id) && is_applying row.state
    then record row { state = not_confirmed; restored_at = some at }
    else row

unfoldable pub give_up_backup : String → String → Tables → Option Tables
give_up_backup backup_id at t = some (record t { backups = map (give_up backup_id at) t.backups })

module _ {M : Type 0} where
  -- A query is a statement that writes nothing, and may be refused too.
  unfoldable pub find_interrupted : Action M (List InterruptedChange)
  find_interrupted = do
    execute (λ t. some t)
    gets (λ s. map interrupted (order_by_time (pending s.tables)))

  unfoldable pub acknowledge_one : InterruptedChange → Action M Unit
  acknowledge_one change = do
    at ← utc_now
    execute (give_up_backup change.backup_id at)
    record_audit
        (record {
          subsystem = "recovery";
          operation = "interrupted_change";
          target = change.target;
          old_state = if change.old_value_absent then null else change.old_value;
          new_state = null;
          result = "FAILED";
          error =
              some
                "The process ended before this change was verified; reported to the operator at the next start.";
        })
        false

  unfoldable pub acknowledge : List InterruptedChange → Action M Unit
  acknowledge [] = pure tt
  acknowledge (change ∷ changes) = do acknowledge_one change; acknowledge changes
