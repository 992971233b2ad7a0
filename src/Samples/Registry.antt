-- ===== src/Samples/Registry.antt =====
-- The theorems on the registry, at one of a single value that refuses the number 1.
use pudge_gaming_manager.Prelude.{
  ◌≡◌, refl, subst, ap, ℕ, String, Bool, true, false, Option, none, some, [], ◌∷◌, All, begins_with,
  split_on, replace_char,
}
use pudge_gaming_manager.Tweak.{
  Tweak, TweakState, Value, number, text, null, same_value, low, rolled_back, Phase, allow, ok,
  Result,
}
use pudge_gaming_manager.Session.{Session, on_machine, commits}
use pudge_gaming_manager.Samples.Fixtures.{planned, tables}
use pudge_gaming_manager.Registry.{
  Winreg, Place, Machine, RegistryValue, Answer, got, missing, denied, hkcu, bit64, backup, restore,
  read_answer, found_value, shown_type, name_of_type, write, write_typed, set_value, check_allowed,
  is_allowed_key, segments, restored, written, place_of, type_of_name, covers, allowed_keys, holds,
  read,
}
use pudge_gaming_manager.Registry.Allowlist.{
  writing, deleting, restoring, serve_all, IsAllowed, serve_all-IsAllowed,
}
use pudge_gaming_manager.Registry.Restoring.{IsRegistry, IsSupported, restore-backup}
use pudge_gaming_manager.RegistryTweak.{Spec, registry_value_tweak}
use pudge_gaming_manager.RegistryTweak.Undoing.{Fits, at_place, registry_value_tweak-Undoes}
use pudge_gaming_manager.Engine.{PlannedChange, execute_change, brief}
use pudge_gaming_manager.Engine.Undoing.{Undoes, execute_change-Undoes}

abbrev Cell : Type 0
Cell = Option (Value × ℕ)

abbrev seen_in : Cell → Answer (Value × ℕ)
seen_in none = missing
seen_in (some x) = got x

abbrev stored : ℕ → Value → Cell → Bool → Answer Unit × Cell
stored code v r true = (denied, r)
stored code v r false = (got tt, some (v, code))

abbrev one_cell : Winreg
one_cell = record {
  R = Cell;
  query = λ p r. seen_in r;
  set = λ p c code v r. stored code v r (same_value v (number 1));
  delete = λ p r. (got tt, none);
}

stored-seen_in :
    (code : ℕ) (v : Value) (r : Cell) (b : Bool)
    → (stored code v r b).0 ≡ got tt
    → seen_in (stored code v r b).1 ≡ got (v, code)
stored-seen_in code v r true e = cc e
stored-seen_in code v r false e = refl

one_cell-IsRegistry : IsRegistry one_cell
one_cell-IsRegistry = record {
  set_get = λ p c code v r e. stored-seen_in code v r _ e;
  delete_get = λ p r e. refl;
  missing_get = λ p r e. refl;
}

-- Python's `str.lower` on keys that are in lower case.
abbrev same : String → String
same s = s

abbrev digits : ℕ → String
digits n = "n"

abbrev spot : Place
spot = record { hive = hkcu; subkey = "software\\microsoft\\games"; name = "Switch"; view = bit64 }

abbrev elsewhere : Place
elsewhere = record spot { subkey = "software\\classes" }

abbrev machine : Machine one_cell
machine = record { keys = some (number 0, 4); audit_file = []; touched = [] }

abbrev changed : Machine one_cell
changed = record machine { keys = some (number 5, 11) }

abbrev kept : RegistryValue
kept = record {
  hive = hkcu;
  subkey = "software\\microsoft\\games";
  name = "Switch";
  data_ = number 0;
  type_name = "REG_DWORD";
  absent = false;
}

serve_all-IsAllowed_example :
    All
      (IsAllowed one_cell same digits)
      (serve_all one_cell same digits
        (writing spot (number 3) "REG_DWORD" true ∷ deleting elsewhere ∷ restoring kept bit64 ∷ [])
        machine).touched
serve_all-IsAllowed_example =
    serve_all-IsAllowed one_cell same digits
      (writing spot (number 3) "REG_DWORD" true ∷ deleting elsewhere ∷ restoring kept bit64 ∷ [])
      machine tt

abbrev code_in : Answer (Value × ℕ) → ℕ
code_in (got (v, code)) = code
code_in _ = 0

dword-IsSupported : Fits (got (number 0, 4))
unfolding name_of_type
dword-IsSupported v code e = subst IsSupported (ap code_in e) ("REG_DWORD", refl)

restore-backup_example :
    (read one_cell same digits true spot (restore one_cell same digits true kept bit64 changed).1).0
    ≡ ok kept
unfolding backup read read_answer found_value shown_type name_of_type restore write write_typed
    set_value check_allowed is_allowed_key segments restored written place_of type_of_name covers
    allowed_keys holds begins_with split_on replace_char same_value
restore-backup_example =
    restore-backup one_cell same digits true one_cell-IsRegistry spot machine changed kept refl
      dword-IsSupported refl

-- A tweak of the value to 1, which this registry refuses.
abbrev refused : Spec
refused = record {
  id = "switch";
  version = 1;
  name = "Switch";
  description = "turns the switch on";
  rationale = "it is faster";
  risk = low;
  subsystem = "registry";
  requires_admin = false;
  hive = hkcu;
  subkey = "software\\microsoft\\games";
  value_name = "Switch";
  desired_data = number 1;
  value_type = "REG_DWORD";
  restart_required = false;
  describe = λ v. "n";
}

abbrev refused_tweak : Tweak (Machine one_cell)
refused_tweak = registry_value_tweak one_cell same digits true false "b1" (λ v. "n") refused

registry_value_tweak-Undoes_example :
    Undoes
      (at_place one_cell same digits true one_cell-IsRegistry false "b1" (λ v. "n") refused)
      Fits
      refused_tweak
registry_value_tweak-Undoes_example =
    registry_value_tweak-Undoes one_cell same digits true one_cell-IsRegistry false "b1" (λ v. "n")
      refused

abbrev refused_change : PlannedChange (Machine one_cell)
refused_change = record {
  tweak = refused_tweak;
  state = planned;
  validation = allow false;
  will_apply = true;
  skip_reason = "";
  blocked_by_risk = false;
}

abbrev at_keys : Session (Machine one_cell)
at_keys = record {
  machine = machine;
  tables = tables;
  audit_file = [];
  run_id = "";
  clock = λ n. "2026-02-01";
  ticks = 0;
  fates = λ n. commits;
  statements = 0;
  is_admin = false;
  calls = [];
}

-- The write is refused, and the rollback puts the old value back.
execute_change-Undoes_example :
    at_place one_cell same digits true one_cell-IsRegistry false "b1"
      (λ v. "n")
      refused
      (execute_change refused_change "r1" at_keys).1.machine
    ≡ got (number 0, 4)
unfolding execute_change pudge_gaming_manager.Engine.set_run_id pudge_gaming_manager.Engine.recheck
    on_machine registry_value_tweak pudge_gaming_manager.Tweak.default_drift_since_plan
    pudge_gaming_manager.RegistryTweak.scan pudge_gaming_manager.RegistryTweak.on_pgm_error
    pudge_gaming_manager.RegistryTweak.then_result pudge_gaming_manager.RegistryTweak.look read
    read_answer pudge_gaming_manager.Engine.after_recheck
    pudge_gaming_manager.RegistryTweak.state_of pudge_gaming_manager.RegistryTweak.matches
    found_value pudge_gaming_manager.RegistryTweak.observed pudge_gaming_manager.Engine.save_backup
    pudge_gaming_manager.Tweak.is_no_scope pudge_gaming_manager.Engine.take_backup
    pudge_gaming_manager.RegistryTweak.backup pudge_gaming_manager.Store.persist_backup
    pudge_gaming_manager.Session.utc_now pudge_gaming_manager.Session.execute
    pudge_gaming_manager.Store.insert_backup pudge_gaming_manager.RegistryTweak.backup_of
    pudge_gaming_manager.Engine.after_backup pudge_gaming_manager.Engine.carry_out
    pudge_gaming_manager.Engine.try_apply pudge_gaming_manager.Engine.call_apply
    pudge_gaming_manager.RegistryTweak.apply write check_allowed is_allowed_key allowed_keys covers
    holds pudge_gaming_manager.RegistryTweak.place begins_with segments split_on replace_char
    write_typed type_of_name written set_value pudge_gaming_manager.Engine.after_apply
    pudge_gaming_manager.Engine.fail_and_rollback pudge_gaming_manager.Engine.try_rollback
    pudge_gaming_manager.RegistryTweak.rollback pudge_gaming_manager.RegistryTweak.check_back
    pudge_gaming_manager.RegistryTweak.put_back shown_type name_of_type
    pudge_gaming_manager.Registry.note pudge_gaming_manager.Engine.record_rollback
    pudge_gaming_manager.Store.mark_backup pudge_gaming_manager.Store.update_backup
    pudge_gaming_manager.Store.record_application pudge_gaming_manager.Store.insert_application
    pudge_gaming_manager.Store.audit pudge_gaming_manager.Store.audit_event
    pudge_gaming_manager.Store.record_audit pudge_gaming_manager.Store.insert_audit
    pudge_gaming_manager.RegistryTweak.rollback_result pudge_gaming_manager.Engine.Undoing.is_undone
execute_change-Undoes_example =
    execute_change-Undoes refused_change
      (registry_value_tweak-Undoes one_cell same digits true one_cell-IsRegistry false "b1"
        (λ v. "n") refused)
      "r1" at_keys (brief refused_tweak rolled_back Phase.rollback "Отказано в доступе.")
      dword-IsSupported refl refl
