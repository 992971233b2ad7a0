-- ===== src/Samples/Fixtures.antt =====
-- A tweak that sets a machine of one number to 1, and the sessions, plans and scans of the samples.
use pudge_gaming_manager.Prelude.{ℕ, true, false, none, [], ◌∷◌, ◌==◌}
use pudge_gaming_manager.Tweak.{
  Tweak, TweakState, low, registry, allow, BackupRecord, ApplyResult, success, number, ok,
}
use pudge_gaming_manager.Session.{Session, Tables, BackupRow, RunRow, running, applying, commits}
use pudge_gaming_manager.Store.{backup_row}
use pudge_gaming_manager.Engine.{PlannedChange, Plan}

abbrev pub done_well : ApplyResult
done_well = record { outcome = success; detail = ""; needs_restart = false }

abbrev pub planned : TweakState
planned = record {
  current_value = number 0;
  desired_value = number 1;
  needs_change = true;
  current_absent = false;
  summary = "a switch";
}

abbrev pub copy : BackupRecord
copy = record {
  backup_id = "b1";
  tweak_id = "switch";
  tweak_version = 1;
  scope = registry;
  target = "HKCU/Switch";
  old_value = number 0;
  old_value_absent = false;
  old_value_kind = "REG_DWORD";
  new_value = number 1;
}

abbrev pub switch : Tweak ℕ
switch = record {
  id = "switch";
  version = 1;
  name = "Switch";
  description = "turns the switch on";
  rationale = "it is faster";
  risk = low;
  subsystem = "registry";
  scope = registry;
  requires_admin = false;
  scan = λ m. (ok planned, m);
  validate = λ s m. (ok (allow false), m);
  drift_since_plan = λ s m. (ok none, m);
  backup = λ s m. (ok copy, m);
  apply = λ s m. (ok done_well, 1);
  verify = λ s m. (ok (record { confirmed = m == 1; observed_value = number m; detail = "" }), m);
  rollback = λ b m. (ok done_well, 0);
}

-- A change that an earlier process left behind.
abbrev pub left_behind : BackupRow
left_behind = record {
  backup_id = "b0";
  run_id = "r0";
  tweak_id = "switch";
  tweak_version = 1;
  created_at = "2026-01-01";
  scope = registry;
  target = "HKCU/Other";
  old_value = number 7;
  old_value_absent = false;
  old_value_kind = "REG_DWORD";
  new_value = number 8;
  state = applying;
  restored_at = none;
}

abbrev pub run : RunRow
run = record {
  run_id = "r1";
  started_at = "2026-02-01";
  finished_at = none;
  dry_run = false;
  status = running;
  planned_count = 2;
  applied_count = 0;
  failed_count = 0;
  rolled_back = 0;
}

abbrev pub tables : Tables
tables = record {
  backups = left_behind ∷ [];
  optimization_runs = run ∷ [];
  tweak_applications = [];
  tweaks = [];
  audit_log = [];
}

abbrev pub session : Session ℕ
session = record {
  machine = 0;
  tables = tables;
  audit_file = [];
  run_id = "";
  clock = λ n. "2026-02-01";
  ticks = 0;
  fates = λ n. commits;
  statements = 0;
  is_admin = false;
  calls = [];
}

abbrev pub change : PlannedChange ℕ
change = record {
  tweak = switch;
  state = planned;
  validation = allow false;
  will_apply = true;
  skip_reason = "";
  blocked_by_risk = false;
}

abbrev pub two_changes : Plan ℕ
two_changes = record { run_id = "r1"; changes = change ∷ change ∷ [] }

-- The session after the backup of the change has been stored.
abbrev pub backed_up : Session ℕ
backed_up = record session {
  tables = record tables { backups = left_behind ∷ backup_row copy "r1" "2026-02-01" ∷ [] };
}
