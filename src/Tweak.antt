-- ===== src/Tweak.antt =====
-- core/optimization/tweak.py: the vocabulary of a change and the contract that every tweak meets.
-- A tweak is the record of its class's methods. They act on an unknown machine, may raise, and may
-- never return, which is how a power cut or a killed process shows.
pub mod Errors
unfoldable pub use Errors.*
use pudge_gaming_manager.Prelude.{
  ℕ, String, Bool, true, false, ◌&&◌, ◌||◌, not, Option, none, some, ◌<>◌, ◌is◌, filled, ◌==◌,
  if◌then◌else◌,
}

pub data RiskLevel : Type 0 where
  safe low medium high critical : RiskLevel

unfoldable pub auto_applicable : RiskLevel → Bool
auto_applicable safe = true
auto_applicable low = true
auto_applicable _ = false

unfoldable pub rank : RiskLevel → ℕ
rank safe = 0
rank low = 1
rank medium = 2
rank high = 3
rank critical = 4

-- The texts of the enumeration, as they are shown and stored.
unfoldable pub risk_value : RiskLevel → String
risk_value safe = "SAFE"
risk_value low = "LOW"
risk_value medium = "MEDIUM"
risk_value high = "HIGH"
risk_value critical = "CRITICAL"

pub data BackupScope : Type 0 where
  registry service power display file device network no_scope : BackupScope

unfoldable pub is_no_scope : BackupScope → Bool
is_no_scope no_scope = true
is_no_scope _ = false

pub data Phase : Type 0 where
  scan validate backup apply verify rollback : Phase

pub data Outcome : Type 0 where
  success failed skipped rolled_back not_needed : Outcome

-- `outcome is Outcome.SUCCESS`, and so on.
abbrev pub is_success : Outcome → Bool
is_success success = true
is_success _ = false

abbrev pub is_failed : Outcome → Bool
is_failed failed = true
is_failed _ = false

abbrev pub is_rolled_back : Outcome → Bool
is_rolled_back rolled_back = true
is_rolled_back _ = false

-- What a tweak observes: `None`, a whole number, a text, or another value of Python, such as the
-- bytes of a REG_BINARY or the list of a REG_MULTI_SZ, which stands here by the text that `str`
-- makes of it.
pub data Value : Type 0 where
  null : Value
  number : ℕ → Value
  text : String → Value
  other : String → Value

-- `a == b`
unfoldable pub same_value : Value → Value → Bool
same_value null null = true
same_value (number m) (number n) = m == n
same_value (text s) (text t) = s is t
same_value (other s) (other t) = s is t
same_value _ _ = false

-- `bool(a)`
unfoldable pub truthy : Value → Bool
truthy null = false
truthy (number n) = not (n == 0)
truthy (text s) = filled s
truthy (other s) = not (s is "b''") && not (s is "[]")

-- `a or b`
unfoldable pub or_value : Value → Value → Value
unfolding truthy
or_value a b = if truthy a then a else b

pub record TweakState : Type 0 where
  pub current_value : Value
  pub desired_value : Value
  pub needs_change : Bool
  pub current_absent : Bool
  pub summary : String

-- `TweakState(summary=…)`: every other field has its default.
abbrev pub only_summary : String → TweakState
only_summary s = record {
  current_value = null;
  desired_value = null;
  needs_change = false;
  current_absent = false;
  summary = s;
}

pub record Validation : Type 0 where
  pub accepted : Bool
  pub reason : String
  pub requires_admin : Bool

unfoldable pub allow : Bool → Validation
allow requires_admin = record { accepted = true; reason = ""; requires_admin = requires_admin }

unfoldable pub refuse : String → Validation
refuse reason = record { accepted = false; reason = reason; requires_admin = false }

pub record BackupRecord : Type 0 where
  pub backup_id : String
  pub tweak_id : String
  pub tweak_version : ℕ
  pub scope : BackupScope
  pub target : String
  pub old_value : Value
  pub old_value_absent : Bool
  pub old_value_kind : String
  pub new_value : Value

pub record ApplyResult : Type 0 where
  pub outcome : Outcome
  pub detail : String
  pub needs_restart : Bool

pub record Verification : Type 0 where
  pub confirmed : Bool
  pub observed_value : Value
  pub detail : String

-- One method call on the machine.
abbrev pub Method : Type 0 → Type 0 → Type 0
Method M A = M → Result A × M

pub record Tweak (M : Type 0) : Type 0 where
  pub id : String
  pub version : ℕ
  pub name : String
  pub description : String
  pub rationale : String
  pub risk : RiskLevel
  pub subsystem : String
  pub scope : BackupScope
  pub requires_admin : Bool
  pub scan : Method M TweakState
  pub validate : TweakState → Method M Validation
  pub drift_since_plan : TweakState → Method M (Option String)
  pub backup : TweakState → Method M BackupRecord
  pub apply : TweakState → Method M ApplyResult
  pub verify : TweakState → Method M Verification
  pub rollback : BackupRecord → Method M ApplyResult

abbrev pub already_desired : String
already_desired = "уже в нужном состоянии"

-- The drift message with `repr` of both values, which nothing compares.
abbrev moved_text : (repr : Value → String) → Value → Value → String
moved_text repr before now =
    "изменилось после превью (было "
    <> (repr before
        <> (", стало "
            <> (repr now <> "); ничего не изменено — пересканируйте и проверьте заново")))

-- What the fresh scan of the default `drift_since_plan` is compared to.
unfoldable pub compare_to_plan : (repr : Value → String) → TweakState → TweakState → Option String
unfolding same_value
compare_to_plan repr planned fresh =
    if not fresh.needs_change
    then some already_desired
    else if not (same_value fresh.current_value planned.current_value)
        || not (same_value fresh.desired_value planned.desired_value)
    then some (moved_text repr planned.current_value fresh.current_value)
    else none

-- The base class's `drift_since_plan` and `validate`, over a class's own `scan`.
unfoldable pub default_drift_since_plan :
    {M : Type 0} (repr : Value → String)
    → Method M TweakState
    → TweakState
    → Method M (Option String)
unfolding compare_to_plan
default_drift_since_plan repr look planned m =
    let (r, m') = look m in (map_result (compare_to_plan repr planned) r, m')

unfoldable pub default_validate : {M : Type 0} → Bool → TweakState → Method M Validation
unfolding allow
default_validate requires_admin state m = (ok (allow requires_admin), m)
