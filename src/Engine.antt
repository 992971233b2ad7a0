-- ===== src/Engine.antt =====
-- core/optimization/engine.py: planning, the gate, and the lifecycle of one change. Progress reports
-- are left out: `guarded` keeps them from raising, and they touch neither machine nor database.
pub mod Gate
pub mod Undoing
pub mod Preview
pub mod Safety
pub mod Calls
pub mod Closing
pub mod Selection
pub mod Trail
pub mod DryRun
pub mod Keeping
pub mod Planning
unfoldable pub use Planning.*
use pudge_gaming_manager.Prelude.{
  ℕ, ◌+◌, String, ◌<>◌, Bool, true, false, not, ◌||◌, Option, none, some, List, [], ◌∷◌, ◌++◌, ◌is◌,
  filled, or_text, length, count, any, ◌⊎◌, inl, inr, if◌then◌else◌,
}
use pudge_gaming_manager.Tweak.{
  Tweak, TweakState, Validation, BackupRecord, ApplyResult, Verification, Phase, Outcome, Value,
  null, success, failed, skipped, rolled_back, not_needed, is_success, is_failed, is_rolled_back,
  auto_applicable, is_no_scope, already_desired, or_value, truthy, Exception, error_text, ok,
}
use pudge_gaming_manager.Session.{
  Session, Action, pure, gets, try_except, ◌>>=◌, ◌>>◌, on_machine, applied, restored,
  not_confirmed, AuditEvent,
}
use pudge_gaming_manager.Store.{
  persist_backup, mark_backup, open_run, close_run, record_application, audit,
}

pub record TweakReport : Type 0 where
  pub tweak_id : String
  pub name : String
  pub outcome : Outcome
  pub phase : Phase
  pub detail : String
  pub before : Value
  pub after : Value
  pub needs_restart : Bool

pub record RunReport : Type 0 where
  pub run_id : String
  pub dry_run : Bool
  pub results : List TweakReport

unfoldable pub applied_count : List TweakReport → ℕ
applied_count results = count (λ (r : TweakReport). is_success r.outcome) results

unfoldable pub failed_count : List TweakReport → ℕ
failed_count results = count (λ (r : TweakReport). is_failed r.outcome) results

unfoldable pub rolled_back_count : List TweakReport → ℕ
rolled_back_count results = count (λ (r : TweakReport). is_rolled_back r.outcome) results

-- A report with the default `before`, `after` and `needs_restart`.
abbrev pub brief : {M : Type 0} → Tweak M → Outcome → Phase → String → TweakReport
brief tweak outcome phase detail = record {
  tweak_id = tweak.id;
  name = tweak.name;
  outcome = outcome;
  phase = phase;
  detail = detail;
  before = null;
  after = null;
  needs_restart = false;
}

abbrev pub subsystem_of : {M : Type 0} → Tweak M → String
subsystem_of tweak = or_text tweak.subsystem "tweak"

abbrev no_backup_text : String → String
no_backup_text why =
    "Prior state could not be saved, so the change was not attempted. (" <> (why <> ")")

module _ {M : Type 0} where
  -- `_fail_and_rollback` where no backup was taken.
  unfoldable pub fail_without_backup : String → Tweak M → TweakState → String → Action M TweakReport
  fail_without_backup run_id tweak state detail = do
    record_application run_id tweak Phase.apply failed state (some detail)
    audit (record {
      subsystem = subsystem_of tweak;
      operation = "apply";
      target = tweak.id;
      old_state = null;
      new_state = null;
      result = "FAILED";
      error = some detail;
    })
    pure (brief tweak failed Phase.apply detail)

  -- Whether the rollback restored the old state, and the detail with what went wrong in it.
  unfoldable pub try_rollback : Tweak M → BackupRecord → String → Action M (Bool × String)
  try_rollback tweak backup detail =
      try_except
        (do
          undone ← on_machine Phase.rollback tweak.id (tweak.rollback backup)
          pure (is_success undone.outcome, detail))
        (λ exc. pure (false, detail <> (" Rollback also failed: " <> error_text exc)))

  unfoldable pub record_rollback :
      String → Tweak M → TweakState → BackupRecord → Bool → String → Action M TweakReport
  record_rollback run_id tweak state backup back detail = do
    mark_backup backup.backup_id (if back then restored else not_confirmed) true
    let outcome = if back then rolled_back else failed
    record_application run_id tweak Phase.rollback outcome state (some detail)
    audit (record {
      subsystem = subsystem_of tweak;
      operation = "rollback";
      target = tweak.id;
      old_state = state.desired_value;
      new_state = backup.old_value;
      result = if back then "SUCCESS" else "FAILED";
      error = some detail;
    })
    pure (brief tweak outcome Phase.rollback detail)

  unfoldable pub fail_and_rollback :
      String → Tweak M → TweakState → Option BackupRecord → String → Action M TweakReport
  fail_and_rollback run_id tweak state none detail = fail_without_backup run_id tweak state detail
  fail_and_rollback run_id tweak state (some backup) detail = do
    undone ← try_rollback tweak backup detail
    record_rollback run_id tweak state backup undone.0 undone.1

  -- The re-check: a failed re-read counts as drift.
  unfoldable pub recheck : Tweak M → TweakState → Action M (Option String)
  recheck tweak state =
      try_except (on_machine Phase.validate tweak.id (tweak.drift_since_plan state)) (λ exc.
        pure (some ("не удалось перечитать перед применением (" <> (error_text exc <> ")"))))

  unfoldable pub stand_down : String → Tweak M → TweakState → String → Action M TweakReport
  stand_down run_id tweak state drift = do
    let outcome = if drift is already_desired then not_needed else skipped
    record_application run_id tweak Phase.validate outcome state (some drift)
    pure (brief tweak outcome Phase.validate drift)

  unfoldable pub take_backup :
      String → Tweak M → TweakState → Action M (TweakReport ⊎ Option BackupRecord)
  take_backup run_id tweak state = do
    backup ← on_machine Phase.backup tweak.id (tweak.backup state)
    persist_backup backup run_id
    pure (inr (some backup))

  unfoldable pub backup_failed :
      String → Tweak M → TweakState → Exception → Action M (TweakReport ⊎ Option BackupRecord)
  backup_failed run_id tweak state exc = do
    record_application run_id tweak Phase.backup skipped state (some (error_text exc))
    pure (inl (brief tweak skipped Phase.backup (no_backup_text (error_text exc))))

  -- Either the report of a change that could not be backed up, or the backup (`None` for a tweak
  -- whose scope is NONE).
  unfoldable pub save_backup :
      String → Tweak M → TweakState → Action M (TweakReport ⊎ Option BackupRecord)
  save_backup run_id tweak state =
      if is_no_scope tweak.scope
      then pure (inr none)
      else try_except (take_backup run_id tweak state) (backup_failed run_id tweak state)

  unfoldable pub call_apply : Tweak M → TweakState → Action M (String ⊎ ApplyResult)
  call_apply tweak state = do
    result ← on_machine Phase.apply tweak.id (tweak.apply state)
    pure (if is_success result.outcome then inr result else inl result.detail)

  -- The change itself. The left side says why it has to be undone.
  unfoldable pub try_apply : Tweak M → TweakState → Action M (String ⊎ ApplyResult)
  try_apply tweak state = try_except (call_apply tweak state) (λ exc. pure (inl (error_text exc)))

  unfoldable pub call_verify : Tweak M → TweakState → Action M (String ⊎ Verification)
  call_verify tweak state = do
    seen ← on_machine Phase.verify tweak.id (tweak.verify state)
    pure (
        if seen.confirmed
        then inr seen
        else inl (or_text seen.detail "The setting did not hold after it was applied."))

  unfoldable pub try_verify : Tweak M → TweakState → Action M (String ⊎ Verification)
  try_verify tweak state =
      try_except (call_verify tweak state)
        (λ exc. pure (inl ("verification error: " <> error_text exc)))

  unfoldable pub mark_applied : Option BackupRecord → Action M Unit
  mark_applied none = pure tt
  mark_applied (some backup) = mark_backup backup.backup_id applied false

  unfoldable pub confirm :
      String
      → Tweak M
      → TweakState
      → Option BackupRecord
      → ApplyResult
      → Verification
      → Action M TweakReport
  confirm run_id tweak state backup result seen = do
    mark_applied backup
    record_application run_id tweak Phase.verify success state none
    audit (record {
      subsystem = subsystem_of tweak;
      operation = "apply";
      target = tweak.id;
      old_state = state.current_value;
      new_state = or_value seen.observed_value state.desired_value;
      result = "SUCCESS";
      error = none;
    })
    pure (record {
      tweak_id = tweak.id;
      name = tweak.name;
      outcome = success;
      phase = Phase.verify;
      detail = result.detail;
      before = state.current_value;
      after = or_value seen.observed_value state.desired_value;
      needs_restart = result.needs_restart;
    })

  unfoldable pub after_verify :
      String
      → Tweak M
      → TweakState
      → Option BackupRecord
      → ApplyResult
      → String ⊎ Verification
      → Action M TweakReport
  after_verify run_id tweak state backup result (inl why) =
      fail_and_rollback run_id tweak state backup why
  after_verify run_id tweak state backup result (inr seen) =
      confirm run_id tweak state backup result seen

  unfoldable pub after_apply :
      String
      → Tweak M
      → TweakState
      → Option BackupRecord
      → String ⊎ ApplyResult
      → Action M TweakReport
  after_apply run_id tweak state backup (inl why) = fail_and_rollback run_id tweak state backup why
  after_apply run_id tweak state backup (inr result) = do
    checked ← try_verify tweak state
    after_verify run_id tweak state backup result checked

  -- From the backup on: apply, verify, and commit or undo.
  unfoldable pub carry_out :
      String → Tweak M → TweakState → Option BackupRecord → Action M TweakReport
  carry_out run_id tweak state backup = do
    tried ← try_apply tweak state
    after_apply run_id tweak state backup tried

  unfoldable pub after_backup :
      String → Tweak M → TweakState → TweakReport ⊎ Option BackupRecord → Action M TweakReport
  after_backup run_id tweak state (inl report) = pure report
  after_backup run_id tweak state (inr backup) = carry_out run_id tweak state backup

  unfoldable pub after_recheck :
      String → Tweak M → TweakState → Option String → Action M TweakReport
  after_recheck run_id tweak state (some why) = stand_down run_id tweak state why
  after_recheck run_id tweak state none = do
    saved ← save_backup run_id tweak state
    after_backup run_id tweak state saved

  -- `self.context.run_id = run_id`
  unfoldable pub set_run_id : String → Action M Unit
  set_run_id run_id s = (ok tt, record s { run_id = run_id })

  -- `_execute`
  unfoldable pub execute_change : PlannedChange M → String → Action M TweakReport
  execute_change change run_id = do
    set_run_id run_id
    drift ← recheck change.tweak change.state
    after_recheck run_id change.tweak change.state drift

  -- The report of a change that the plan does not apply.
  unfoldable pub skipped_report : PlannedChange M → TweakReport
  skipped_report change =
      brief change.tweak (if not change.state.needs_change then not_needed else skipped)
        Phase.validate change.skip_reason

  unfoldable pub dry_report : PlannedChange M → TweakReport
  dry_report change =
      record (brief change.tweak skipped Phase.validate "dry run: no changes made") {
        before = change.state.current_value;
        after = change.state.desired_value;
      }

  -- One turn of the loop of `apply`.
  unfoldable pub apply_one : String → Bool → PlannedChange M → Action M TweakReport
  apply_one run_id dry_run change =
      if not change.will_apply
      then pure (skipped_report change)
      else if dry_run
      then pure (dry_report change)
      else execute_change change run_id

  unfoldable pub apply_changes :
      String → Bool → List (PlannedChange M) → Action M (List TweakReport)
  apply_changes run_id dry_run [] = pure []
  apply_changes run_id dry_run (change ∷ changes) = do
    report ← apply_one run_id dry_run change
    reports ← apply_changes run_id dry_run changes
    pure (report ∷ reports)

  unfoldable pub apply : Plan M → Bool → Action M RunReport
  apply plan dry_run = do
    open_run plan.run_id dry_run (length (applicable plan))
    results ← apply_changes plan.run_id dry_run plan.changes
    close_run plan.run_id (applied_count results) (failed_count results) (rolled_back_count results)
    pure (record { run_id = plan.run_id; dry_run = dry_run; results = results })
