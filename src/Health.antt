-- ===== src/Health.antt =====
-- hardware/models.py: readings, thresholds and the records that a hardware scan fills, in the float
-- `F` of their measurements.
pub mod Grading
use pudge_gaming_manager.Prelude.{
  ◌≡◌, ℕ, String, Bool, true, false, ◌||◌, Option, none, some, List, [], ◌∷◌, length, any, ltb,
  ◌<>◌, filled, if◌then◌else◌,
}
use pudge_gaming_manager.Floats.{Floats}

pub data HealthStatus : Type 0 where
  good warning critical unavailable : HealthStatus

abbrev pub is_actionable : HealthStatus → Bool
is_actionable warning = true
is_actionable critical = true
is_actionable good = false
is_actionable unavailable = false

pub data ThresholdKind : Type 0 where
  vendor heuristic derived : ThresholdKind

pub record Reading (T : Type 0) : Type 0 where
  pub value : Option T
  pub unit : String
  pub source : String
  pub unavailable_reason : String

pub record Threshold (F : Type 0) : Type 0 where
  pub warning_at : F
  pub critical_at : F
  pub kind : ThresholdKind
  pub source : String
  pub higher_is_worse : Bool

-- A method of a threshold compares floats, so it stands over the floats of the program.
module _ (N : Floats) where
  open N use {F, at_most}

  unfoldable pub evaluate : Threshold F → Option F → HealthStatus
  evaluate t none = unavailable
  evaluate t (some v) =
      if t.higher_is_worse
      then if at_most t.critical_at v
        then critical
        else if at_most t.warning_at v
        then warning
        else good
      else if at_most v t.critical_at
      then critical
      else if at_most v t.warning_at
      then warning
      else good

abbrev pub kind_label : ThresholdKind → String
kind_label vendor = "предел производителя"
kind_label heuristic = "эвристика"
kind_label derived = "вычислено"

unfoldable pub describe : {F : Type 0} → Threshold F → String
describe t = if filled t.source then kind_label t.kind <> ": " <> t.source else kind_label t.kind

pub record CpuInfo (F : Type 0) : Type 0 where
  pub manufacturer : String
  pub model : String
  pub physical_cores : Reading ℕ
  pub logical_processors : Reading ℕ
  pub base_clock_mhz : Reading F
  pub current_clock_mhz : Reading F
  pub utilization_percent : Reading F
  pub temperature_c : Reading F

pub record GpuInfo (F : Type 0) : Type 0 where
  pub vendor_name : String
  pub model : String
  pub driver_version : String
  pub driver_date : String
  pub vram_total_mb : Reading ℕ
  pub temperature_c : Reading F
  pub utilization_percent : Reading F
  pub vram_used_mb : Reading ℕ
  pub vram_used_percent : Reading F
  pub fan_percent : Reading F
  pub power_watts : Reading F
  pub power_limit_watts : Reading F
  pub clock_sm_mhz : Reading ℕ
  pub max_clock_sm_mhz : Reading ℕ
  pub performance_state : Reading ℕ
  pub throttle_reasons : List String
  pub thermal_throttling : Bool
  pub power_throttling : Bool
  pub temperature_threshold : Option (Threshold F)

pub record RamModule : Type 0 where
  pub manufacturer : String
  pub capacity_mb : ℕ
  pub speed_mhz : ℕ
  pub part_number : String

pub record RamInfo (F : Type 0) : Type 0 where
  pub total_mb : Reading ℕ
  pub available_mb : Reading ℕ
  pub used_mb : Reading ℕ
  pub usage_percent : Reading F
  pub speed_mhz : Reading ℕ
  pub modules : List RamModule

pub record DiskInfo (F : Type 0) : Type 0 where
  pub device_id : String
  pub model : String
  pub media_type : String
  pub bus_type : String
  pub total_gb : Reading F
  pub free_gb : Reading F
  pub free_percent : Reading F
  pub filesystem : String
  pub smart_healthy : Reading Bool
  pub temperature_c : Reading F
  pub is_system_disk : Bool

pub record DisplayMode : Type 0 where
  pub width : ℕ
  pub height : ℕ
  pub refresh_hz : ℕ

pub record MonitorInfo : Type 0 where
  pub device_name : String
  pub friendly_name : String
  pub is_primary : Bool
  pub current_mode : Option DisplayMode
  pub max_refresh_hz : Reading ℕ
  pub max_refresh_at_current_resolution : Reading ℕ
  pub supported_modes : List DisplayMode
  pub hdr_enabled : Reading Bool
  pub vrr_enabled : Reading Bool

unfoldable pub is_running_below_capability : MonitorInfo → Bool
is_running_below_capability m = elim m.max_refresh_at_current_resolution.value [
  | none ↦ false
  | some best ↦ elim m.current_mode [ none ↦ false | some mode ↦ ltb mode.refresh_hz best ]
]

pub record OsInfo : Type 0 where
  pub caption : String
  pub version : String
  pub build : String
  pub architecture : String
  pub machine_name : String
  pub is_windows_11 : Bool

pub record HardwareSnapshot (F : Type 0) : Type 0 where
  pub captured_at : String
  pub os : OsInfo
  pub cpu : CpuInfo F
  pub gpus : List (GpuInfo F)
  pub ram : RamInfo F
  pub disks : List (DiskInfo F)
  pub monitors : List MonitorInfo
  pub scan_duration_s : F
  pub warnings : List String

-- `for x in xs: if p(x): return x`, and then `xs[0] if xs else None`.
module _ {A : Type 0} where
  unfoldable pub first_where : (A → Bool) → List A → Option A
  first_where p [] = none
  first_where p (x ∷ xs) = if p x then some x else first_where p xs

  unfoldable pub head : List A → Option A
  head [] = none
  head (x ∷ xs) = some x

  unfoldable pub first_or_head : (A → Bool) → List A → Option A
  first_or_head p xs = elim (first_where p xs) [ some x ↦ some x | none ↦ head xs ]

module _ {F : Type 0} where
  -- `"nvidia" in text.lower()` is the caller's test.
  unfoldable pub is_nvidia : (says_nvidia : String → Bool) → GpuInfo F → Bool
  is_nvidia says_nvidia gpu = says_nvidia gpu.vendor_name || says_nvidia gpu.model

  unfoldable pub primary_gpu :
      (says_nvidia : String → Bool) → HardwareSnapshot F → Option (GpuInfo F)
  primary_gpu says_nvidia s = first_or_head (is_nvidia says_nvidia) s.gpus

  unfoldable pub system_disk : HardwareSnapshot F → Option (DiskInfo F)
  system_disk s = first_or_head (λ d. d.is_system_disk) s.disks

  unfoldable pub primary_monitor : HardwareSnapshot F → Option MonitorInfo
  primary_monitor s = first_or_head (λ m. m.is_primary) s.monitors
