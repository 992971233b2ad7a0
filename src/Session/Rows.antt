-- ===== src/Session/Rows.antt =====
-- database/schema.py: the tables that the optimisation engine writes, one record for a row.
-- A column that holds `str(value)` or JSON of a value holds the value itself here.
use pudge_gaming_manager.Prelude.{ℕ, String, Bool, Option, List}
use pudge_gaming_manager.Tweak.{Value, BackupScope, Phase, Outcome, RiskLevel}

pub data BackupState : Type 0 where
  applying applied restored not_confirmed : BackupState

unfoldable pub is_applying : BackupState → Bool
is_applying applying = Bool.true
is_applying _ = Bool.false

pub record BackupRow : Type 0 where
  pub backup_id : String
  pub run_id : String
  pub tweak_id : String
  pub tweak_version : ℕ
  pub created_at : String
  pub scope : BackupScope
  pub target : String
  pub old_value : Value
  pub old_value_absent : Bool
  pub old_value_kind : String
  pub new_value : Value
  pub state : BackupState
  pub restored_at : Option String

pub data RunStatus : Type 0 where
  running completed run_failed : RunStatus

pub record RunRow : Type 0 where
  pub run_id : String
  pub started_at : String
  pub finished_at : Option String
  pub dry_run : Bool
  pub status : RunStatus
  pub planned_count : ℕ
  pub applied_count : ℕ
  pub failed_count : ℕ
  pub rolled_back : ℕ

pub record ApplicationRow : Type 0 where
  pub run_id : String
  pub tweak_id : String
  pub tweak_version : ℕ
  pub started_at : String
  pub finished_at : String
  pub phase : Phase
  pub result : Outcome
  pub before_state : Value
  pub after_state : Value
  pub error : Option String

pub record TweakRow : Type 0 where
  pub tweak_id : String
  pub version : ℕ
  pub name : String
  pub description : String
  pub rationale : String
  pub risk : RiskLevel
  pub subsystem : String
  pub reversible : Bool

-- One record of the audit file, and the part of a row of the table that repeats it.
pub record AuditEvent : Type 0 where
  pub subsystem : String
  pub operation : String
  pub target : String
  pub old_state : Value
  pub new_state : Value
  pub result : String
  pub error : Option String

pub record AuditRow : Type 0 where
  pub occurred_at : String
  pub event : AuditEvent
  pub elevated : Bool

pub record Tables : Type 0 where
  pub backups : List BackupRow
  pub optimization_runs : List RunRow
  pub tweak_applications : List ApplicationRow
  pub tweaks : List TweakRow
  pub audit_log : List AuditRow
