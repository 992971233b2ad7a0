-- ===== src/RegistryTweak.antt =====
-- core/optimization/tweaks/registry_value.py: the tweak that sets one registry value. A subclass is a
-- `Spec`; `TweakContext.dry_run` and the fresh `uuid4` of a backup are parameters.
pub mod Undoing
use pudge_gaming_manager.Prelude.{
  ℕ, String, Bool, true, false, not, ◌&&◌, Option, none, some, ◌<>◌, filled, or_text, if◌then◌else◌,
}
use pudge_gaming_manager.Tweak.{
  Value, null, text, same_value, RiskLevel, registry, TweakState, Validation, allow, refuse,
  BackupRecord, ApplyResult, Verification, success, failed, Tweak, Method, default_drift_since_plan,
  Exception, pgm_error, other_error, Result, ok, raised, killed,
}
use pudge_gaming_manager.Registry.{
  Winreg, Hive, bit64, Place, RegistryValue, Machine, path_of, needs_admin, read, write,
  delete_value,
}

-- The class attributes, and `describe`.
pub record Spec : Type 0 where
  pub id : String
  pub version : ℕ
  pub name : String
  pub description : String
  pub rationale : String
  pub risk : RiskLevel
  pub subsystem : String
  pub requires_admin : Bool
  pub hive : Hive
  pub subkey : String
  pub value_name : String
  pub desired_data : Value
  pub value_type : String
  pub restart_required : Bool
  pub describe : Value → String

abbrev pub absent_marker : Value
absent_marker = text "<absent>"

unfoldable pub place : Spec → Place
place t = record { hive = t.hive; subkey = t.subkey; name = t.value_name; view = bit64 }

-- `ABSENT if current.absent else current.data`
unfoldable pub observed : RegistryValue → Value
observed current = if current.absent then absent_marker else current.data_

-- `not current.absent and current.data == self.desired_data`
unfoldable pub matches : Spec → RegistryValue → Bool
matches t current = not current.absent && same_value current.data_ t.desired_data

-- A `PgmError` is answered by `handler`, from `exc.reason or exc.what`; nothing else is caught.
unfoldable pub on_pgm_error : {A : Type 0} → (String → A) → Result A → Result A
on_pgm_error handler (ok a) = ok a
on_pgm_error handler (raised (pgm_error what reason remedy)) = ok (handler (or_text reason what))
on_pgm_error handler (raised (other_error message)) = raised (other_error message)
on_pgm_error handler killed = killed

unfoldable pub then_result : {A B : Type 0} → (A → B) → Result A → Result B
then_result f (ok a) = ok (f a)
then_result f (raised e) = raised e
then_result f killed = killed

abbrev pub result : Bool → String → ApplyResult
result good detail = record {
  outcome = if good then success else failed;
  detail = detail;
  needs_restart = false;
}

unfoldable pub state_of : Spec → RegistryValue → TweakState
state_of t current = record {
  current_value = observed current;
  desired_value = t.desired_data;
  needs_change = not (matches t current);
  current_absent = false;
  summary =
      if matches t current
      then t.name <> ": уже " <> t.describe t.desired_data
      else t.name <> ": " <> t.describe (observed current) <> " -> " <> t.describe t.desired_data;
}

unfoldable pub unread_state : Spec → String → TweakState
unread_state t why = record {
  current_value = null;
  desired_value = null;
  needs_change = false;
  current_absent = true;
  summary = t.name <> ": не удалось прочитать — " <> why;
}

unfoldable pub backup_of : Spec → (new_id : String) → RegistryValue → BackupRecord
backup_of t new_id current = record {
  backup_id = new_id;
  tweak_id = t.id;
  tweak_version = t.version;
  scope = registry;
  target = path_of t.hive t.subkey t.value_name;
  old_value = observed current;
  old_value_absent = current.absent;
  old_value_kind = or_text current.type_name t.value_type;
  new_value = t.desired_data;
}

unfoldable pub applied_result : Spec → ApplyResult
applied_result t = record {
  outcome = success;
  detail =
      t.name
      <> ": "
      <> t.describe t.desired_data
      <> "."
      <> (if t.restart_required then " Вступит в силу после перезагрузки." else "");
  needs_restart = t.restart_required;
}

unfoldable pub verification_of : Spec → RegistryValue → Verification
verification_of t current =
    if matches t current
    then record {
      confirmed = true;
      observed_value = current.data_;
      detail =
          if t.restart_required
          then "Значение записано; вступит в силу после перезагрузки."
          else "Windows подтверждает новое значение.";
    }
    else record {
      confirmed = false;
      observed_value = observed current;
      detail =
          "Ожидалось "
          <> t.describe t.desired_data
          <> ", а реестр сообщает "
          <> t.describe (observed current)
          <> ".";
    }

-- The read-back that ends a rollback.
unfoldable pub rollback_result : Spec → BackupRecord → RegistryValue → ApplyResult
rollback_result t b current =
    if b.old_value_absent
    then if current.absent
      then result true (t.name <> ": значение удалено.")
      else result false (t.name <> ": значение должно было исчезнуть, но оно на месте.")
    else if same_value current.data_ b.old_value
    then result true (t.name <> ": восстановлено " <> t.describe b.old_value <> ".")
    else result false (
        t.name
        <> ": пытались вернуть "
        <> t.describe b.old_value
        <> ", а реестр сообщает "
        <> t.describe current.data_
        <> ".")

module _ (W : Winreg) (lower : String → String) (digits : ℕ → String) (enforce_allowlist : Bool)
    (dry_run : Bool) (new_id : String) (repr : Value → String) (t : Spec) where
  abbrev Call : Type 0 → Type 0
  Call A = Method (Machine W) A

  unfoldable pub look : Call RegistryValue
  look m = read W lower digits enforce_allowlist (place t) m

  unfoldable pub scan : Call TweakState
  scan m = let (r, m') = look m in (on_pgm_error (unread_state t) (then_result (state_of t) r), m')

  unfoldable pub validate : TweakState → Call Validation
  validate state m = (
    ok (
        if state.current_absent
        then refuse (
            "Не удалось прочитать текущее значение «" <> t.value_name
            <> "», поэтому вернуть его обратно будет нечем.")
        else allow (needs_admin t.hive)),
    m,
  )

  unfoldable pub backup : TweakState → Call BackupRecord
  backup state m = let (r, m') = look m in (then_result (backup_of t new_id) r, m')

  unfoldable pub apply : TweakState → Call ApplyResult
  apply state m =
      if dry_run
      then (ok (result true "Пробный прогон: значение не изменено."), m)
      else let (r, m') =
          write W lower digits enforce_allowlist (place t) t.desired_data t.value_type true m in
        (on_pgm_error (result false) (then_result (λ _. applied_result t) r), m')

  unfoldable pub verify : TweakState → Call Verification
  verify state m =
      let (r, m') = look m in
      (
        on_pgm_error (λ why. record { confirmed = false; observed_value = null; detail = why })
            (then_result (verification_of t) r),
        m',
      )

  unfoldable pub delete_old : Call Unit
  delete_old m =
      let (r, m') = delete_value W lower digits enforce_allowlist (place t) m in
      (then_result (λ _. tt) r, m')

  -- The write or the deletion that puts the old value back.
  unfoldable pub put_back : BackupRecord → Call Unit
  put_back b m =
      if b.old_value_absent
      then delete_old m
      else write W lower digits enforce_allowlist (place t) b.old_value
          (or_text b.old_value_kind t.value_type) true m

  unfoldable pub check_back :
      BackupRecord → Result Unit × Machine W → Result ApplyResult × Machine W
  check_back b (ok _, m) =
      let (r, m') = look m in
      (on_pgm_error (result false) (then_result (rollback_result t b) r), m')
  check_back b (raised (pgm_error what reason remedy), m) =
      (ok (result false (or_text reason what)), m)
  check_back b (raised (other_error message), m) = (raised (other_error message), m)
  check_back b (killed, m) = (killed, m)

  unfoldable pub rollback : BackupRecord → Call ApplyResult
  rollback b m = check_back b (put_back b m)

  -- The methods together, with the base class's `drift_since_plan`.
  unfoldable pub registry_value_tweak : Tweak (Machine W)
  registry_value_tweak = record {
    id = t.id;
    version = t.version;
    name = t.name;
    description = t.description;
    rationale = t.rationale;
    risk = t.risk;
    subsystem = t.subsystem;
    scope = registry;
    requires_admin = t.requires_admin;
    scan = scan;
    validate = validate;
    drift_since_plan = default_drift_since_plan repr scan;
    backup = backup;
    apply = apply;
    verify = verify;
    rollback = rollback;
  }
