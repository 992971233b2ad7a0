-- ===== src/Store.antt =====
-- core/optimization/store.py: everything that the tweak engine writes down, one SQL statement to a
-- function. The `_of` functions are the statements themselves, on the tables.
pub mod Keeping
pub mod Finishing
pub mod Admitted
pub mod History
pub mod SameBackups
use pudge_gaming_manager.Prelude.{
  ℕ, String, Bool, true, false, not, ◌&&◌, Option, none, some, List, [], ◌∷◌, ◌++◌, any, select,
  map, ◌is◌, ◌==◌, if◌then◌else◌,
}
use pudge_gaming_manager.Tweak.{Tweak, TweakState, BackupRecord, Phase, Outcome, is_no_scope, ok}
use pudge_gaming_manager.Session.{
  Action, pure, gets, try_except, ◌>>=◌, ◌>>◌, utc_now, execute, Tables, BackupRow, BackupState,
  applying, RunRow, running, completed, run_failed, ApplicationRow, TweakRow, AuditRow, AuditEvent,
}

-- `backup_id` is the primary key.
unfoldable pub insert_backup : BackupRow → Tables → Option Tables
insert_backup row t =
    if any (λ (r : BackupRow). r.backup_id is row.backup_id) t.backups
    then none
    else some (record t { backups = t.backups ++ row ∷ [] })

-- `UPDATE backups SET state=? [, restored_at=?] WHERE backup_id=?`
unfoldable pub move_backup : String → BackupState → Option String → BackupRow → BackupRow
move_backup backup_id state restored_at row =
    if row.backup_id is backup_id
    then (elim restored_at [
      | none ↦ record row { state = state }
      | some at ↦ record row { state = state; restored_at = some at }
    ])
    else row

unfoldable pub update_backup : String → BackupState → Option String → Tables → Option Tables
unfolding move_backup
update_backup backup_id state restored_at t =
    some (record t { backups = map (move_backup backup_id state restored_at) t.backups })

-- `INSERT OR REPLACE` on the primary key `run_id`: the replaced row goes, the new one comes last.
unfoldable pub replace_run : RunRow → Tables → Option Tables
replace_run row t = some (record t {
  optimization_runs =
      select (λ (r : RunRow). not (r.run_id is row.run_id)) t.optimization_runs ++ row ∷ [];
})

unfoldable pub finish_run : String → String → ℕ → ℕ → ℕ → Tables → Option Tables
finish_run run_id finished_at applied failed rolled_back t = some (record t {
  optimization_runs =
      map
        (λ (r : RunRow).
          if r.run_id is run_id
          then record r {
            finished_at = some finished_at;
            status = if failed == 0 then completed else run_failed;
            applied_count = applied;
            failed_count = failed;
            rolled_back = rolled_back;
          }
          else r)
        t.optimization_runs;
})

-- The foreign key: the run of an application has to exist.
unfoldable pub insert_application : ApplicationRow → Tables → Option Tables
insert_application row t =
    if any (λ (r : RunRow). r.run_id is row.run_id) t.optimization_runs
    then some (record t { tweak_applications = t.tweak_applications ++ row ∷ [] })
    else none

-- The primary key of the catalogue is the pair of identifier and version.
unfoldable pub replace_tweak : TweakRow → Tables → Option Tables
replace_tweak row t = some (record t {
  tweaks =
      select (λ (r : TweakRow). not ((r.tweak_id is row.tweak_id) && (r.version == row.version)))
        t.tweaks
      ++ row ∷ [];
})

unfoldable pub insert_audit : AuditRow → Tables → Option Tables
insert_audit row t = some (record t { audit_log = t.audit_log ++ row ∷ [] })

-- The row that protects a change: it starts in state APPLYING.
abbrev pub backup_row : BackupRecord → (run_id at : String) → BackupRow
backup_row backup run_id at = record {
  backup_id = backup.backup_id;
  run_id = run_id;
  tweak_id = backup.tweak_id;
  tweak_version = backup.tweak_version;
  created_at = at;
  scope = backup.scope;
  target = backup.target;
  old_value = backup.old_value;
  old_value_absent = backup.old_value_absent;
  old_value_kind = backup.old_value_kind;
  new_value = backup.new_value;
  state = applying;
  restored_at = none;
}

module _ {M : Type 0} where
  unfoldable pub persist_backup : BackupRecord → String → Action M Unit
  persist_backup backup run_id = do
    at ← utc_now
    execute (insert_backup (backup_row backup run_id at))

  -- `mark_backup(backup_id, state)` and `mark_backup(backup_id, state, finished=True)`
  unfoldable pub mark_backup : String → BackupState → Bool → Action M Unit
  mark_backup backup_id state true = do
    at ← utc_now
    execute (update_backup backup_id state (some at))
  mark_backup backup_id state false = execute (update_backup backup_id state none)

  unfoldable pub open_run : String → Bool → ℕ → Action M Unit
  open_run run_id dry_run planned = do
    at ← utc_now
    execute (
        replace_run (record {
          run_id = run_id;
          started_at = at;
          finished_at = none;
          dry_run = dry_run;
          status = running;
          planned_count = planned;
          applied_count = 0;
          failed_count = 0;
          rolled_back = 0;
        }))

  unfoldable pub close_run : String → ℕ → ℕ → ℕ → Action M Unit
  close_run run_id applied failed rolled_back = do
    at ← utc_now
    execute (finish_run run_id at applied failed rolled_back)

  unfoldable pub record_application :
      String → Tweak M → Phase → Outcome → TweakState → Option String → Action M Unit
  record_application run_id tweak phase outcome state error = do
    started ← utc_now
    finished ← utc_now
    execute (
        insert_application (record {
          run_id = run_id;
          tweak_id = tweak.id;
          tweak_version = tweak.version;
          started_at = started;
          finished_at = finished;
          phase = phase;
          result = outcome;
          before_state = state.current_value;
          after_state = state.desired_value;
          error = error;
        }))

  unfoldable pub register : List (Tweak M) → Action M Unit
  register [] = pure tt
  register (tweak ∷ tweaks) = do
    execute (
        replace_tweak (record {
          tweak_id = tweak.id;
          version = tweak.version;
          name = tweak.name;
          description = tweak.description;
          rationale = tweak.rationale;
          risk = tweak.risk;
          subsystem = tweak.subsystem;
          reversible = not (is_no_scope tweak.scope);
        }))
    register tweaks

  -- `audit_event`: one line of the audit file.
  unfoldable pub audit_event : AuditEvent → Action M Unit
  audit_event event s = (ok tt, record s { audit_file = s.audit_file ++ event ∷ [] })

  -- `Database.record_audit`
  unfoldable pub record_audit : AuditEvent → Bool → Action M Unit
  record_audit event elevated = do
    at ← utc_now
    execute (insert_audit (record { occurred_at = at; event = event; elevated = elevated }))

  -- A failure to write the table is logged, never raised.
  unfoldable pub audit : AuditEvent → Action M Unit
  audit event = do
    audit_event event
    elevated ← gets (λ s. s.is_admin)
    try_except (record_audit event elevated) (λ _. pure tt)
