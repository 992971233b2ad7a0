-- ===== src/Golden.antt =====
-- core/profiles/golden.py: capturing the sections of a profile that `compare` reads, and comparing a
-- machine with it. `mentions known vendor` is Python's `known.lower() in vendor.lower()`, `lower` its
-- `str.lower`, `half` is 0.5 and `round_tenth x` is `round(x, 1)`.
pub mod Comparing
pub mod Capturing
use pudge_gaming_manager.Prelude.{
  ℕ, ◌+◌, ◌-◌, ◌/◌, String, ◌<>◌, Bool, true, false, not, ◌&&◌, Option, none, some, List, [], ◌∷◌,
  ◌++◌, ltb, leb, ◌==◌, ◌is◌, filled, select, length, if◌then◌else◌,
}
use pudge_gaming_manager.Floats.{Floats}
use pudge_gaming_manager.Health.{
  HardwareSnapshot, GpuInfo, DiskInfo, MonitorInfo, DisplayMode, primary_gpu, system_disk,
  is_running_below_capability, Reading,
}

pub data DriftSeverity : Type 0 where
  matched drift unknown : DriftSeverity

unfoldable pub is_drift : DriftSeverity → Bool
is_drift drift = true
is_drift _ = false

unfoldable pub is_unknown_severity : DriftSeverity → Bool
is_unknown_severity unknown = true
is_unknown_severity _ = false

-- An expected or an actual value: `None`, a whole number, a float or a text.
pub data Shown (F : Type 0) : Type 0 where
  nothing : Shown F
  count : ℕ → Shown F
  measure : F → Shown F
  words : String → Shown F

pub record Difference (F : Type 0) : Type 0 where
  pub section : String
  pub setting : String
  pub expected : Shown F
  pub actual : Shown F
  pub severity : DriftSeverity
  pub detail : String
  pub fixable : Bool

-- `HardwareExpectations`; the vendor is one of the three literals.
pub record HardwareExpectations (F : Type 0) : Type 0 where
  pub min_ram_gb : Option ℕ
  pub min_vram_gb : Option ℕ
  pub min_free_disk_percent : Option F
  pub require_ssd_system_disk : Option Bool
  pub gpu_vendor : Option String
  pub min_cpu_cores : Option ℕ

pub record PowerPolicy : Type 0 where
  pub scheme_guid : Option String
  pub scheme_name : String

pub record DisplayPolicy : Type 0 where
  pub require_maximum_refresh_rate : Bool
  pub minimum_refresh_hz : Option ℕ

-- The sections of `GoldenProfile` that `compare` reads.
pub record GoldenProfile (F : Type 0) : Type 0 where
  pub name : String
  pub hardware : HardwareExpectations F
  pub power : PowerPolicy
  pub display : DisplayPolicy

pub record ComparisonResult (F : Type 0) : Type 0 where
  pub profile_name : String
  pub differences : List (Difference F)
  pub checked : ℕ

-- What a check adds to the count and to the differences.
abbrev pub Checked : Type 0 → Type 0
Checked F = ℕ × List (Difference F)

unfoldable pub unchecked : {F : Type 0} → Checked F
unchecked = (0, [])

unfoldable pub also : {F : Type 0} → Checked F → Checked F → Checked F
also (m, ds) (n, es) = (m + n, ds ++ es)

unfoldable pub drifted : {F : Type 0} → ComparisonResult F → List (Difference F)
drifted r = select (λ d. is_drift d.severity) r.differences

unfoldable pub unknown_ones : {F : Type 0} → ComparisonResult F → List (Difference F)
unknown_ones r = select (λ d. is_unknown_severity d.severity) r.differences

-- `Annotated[int, Field(ge=low, le=high)] | None`
unfoldable pub in_range : ℕ → ℕ → Option ℕ → Bool
in_range low high none = true
in_range low high (some n) = leb low n && leb n high

module _ (N : Floats) (half : N.F) (round_tenth : N.F → N.F) (lower : String → String)
    (mentions : String → String → Bool) where
  open N use {F, whole, sub, div, below}

  unfoldable pub difference :
      String → String → Shown F → Shown F → DriftSeverity → String → Bool → Difference F
  difference section setting expected actual severity detail fixable = record {
    section = section;
    setting = setting;
    expected = expected;
    actual = actual;
    severity = severity;
    detail = detail;
    fixable = fixable;
  }

  -- One check: a difference that was found, or none.
  unfoldable pub found : String → Shown F → Shown F → DriftSeverity → String → Bool → Checked F
  found setting expected actual severity detail fixable =
      (1, difference "hardware" setting expected actual severity detail fixable ∷ [])

  unfoldable pub fits : Checked F
  fits = (1, [])

  unfoldable pub after_reason : String → String
  after_reason reason = if filled reason then ": " <> reason else "."

  unfoldable pub check_ram : Option ℕ → Reading ℕ → Checked F
  check_ram none total = unchecked
  check_ram (some gb) total = elim total.value [
    | none ↦
        found "min_ram_gb" (count gb) nothing unknown
          ("Не удалось прочитать объём памяти" <> after_reason total.unavailable_reason) false
    | some mb ↦
        if below (div (whole mb) (whole 1024)) (sub (whole gb) half)
        then found "min_ram_gb" (count gb) (measure (round_tenth (div (whole mb) (whole 1024))))
            drift "У этого ПК меньше памяти, чем у эталона." false
        else fits
  ]

  unfoldable pub vram_of : Option (GpuInfo F) → Option ℕ
  vram_of none = none
  vram_of (some gpu) = gpu.vram_total_mb.value

  unfoldable pub check_vram : Option ℕ → Option ℕ → Checked F
  check_vram none vram = unchecked
  check_vram (some gb) none =
      found "min_vram_gb" (count gb) nothing unknown "Не удалось прочитать видеопамять." false
  check_vram (some gb) (some mb) =
      if below (div (whole mb) (whole 1024)) (whole gb)
      then found "min_vram_gb" (count gb) (count (mb / 1024)) drift
          "У этой видеокарты меньше видеопамяти, чем у эталона." false
      else fits

  unfoldable pub free_of : Option (DiskInfo F) → Option F
  free_of none = none
  free_of (some disk) = disk.free_percent.value

  unfoldable pub check_free : Option F → Option F → Checked F
  check_free none free = unchecked
  check_free (some least) none =
      found "min_free_disk_percent" (measure least) nothing unknown
        "Не удалось прочитать свободное место." false
  check_free (some least) (some free) =
      if below free least
      then found "min_free_disk_percent" (measure least) (measure (round_tenth free)) drift
          "На системном диске меньше свободного места, чем требует профиль." true
      else fits

  unfoldable pub media_of : Option (DiskInfo F) → String
  media_of none = ""
  media_of (some disk) = disk.media_type

  unfoldable pub check_ssd : Option Bool → String → Checked F
  check_ssd none media = unchecked
  check_ssd (some false) media = unchecked
  check_ssd (some true) media =
      if not (filled media)
      then found "require_ssd_system_disk" (words "SSD") nothing unknown
          "Не удалось определить тип носителя." false
      else if not (media is "SSD")
      then found "require_ssd_system_disk" (words "SSD") (words media) drift
          "Системный диск — не SSD." false
      else fits

  -- `_vendor_literal`
  unfoldable pub vendor_literal : String → Option String
  vendor_literal vendor =
      if mentions "NVIDIA" vendor
      then some "NVIDIA"
      else if mentions "AMD" vendor
      then some "AMD"
      else if mentions "Intel" vendor
      then some "Intel"
      else none

  unfoldable pub vendor_of : Option (GpuInfo F) → String
  vendor_of none = ""
  vendor_of (some gpu) = gpu.vendor_name

  unfoldable pub check_vendor : Option String → Option String → Checked F
  check_vendor none vendor = unchecked
  check_vendor (some wanted) none =
      found "gpu_vendor" (words wanted) nothing unknown
        "Не удалось определить производителя видеокарты." false
  check_vendor (some wanted) (some vendor) =
      if not (vendor is wanted)
      then found "gpu_vendor" (words wanted) (words vendor) drift "Другой производитель видеокарты."
          false
      else fits

  unfoldable pub check_cores : Option ℕ → Option ℕ → Checked F
  check_cores none cores = unchecked
  check_cores (some least) none =
      found "min_cpu_cores" (count least) nothing unknown "Не удалось прочитать число ядер." false
  check_cores (some least) (some cores) =
      if ltb cores least
      then found "min_cpu_cores" (count least) (count cores) drift "Меньше ядер ЦП, чем у эталона."
          false
      else fits

  unfoldable pub gpu_of : HardwareSnapshot F → Option (GpuInfo F)
  gpu_of s = primary_gpu (mentions "nvidia") s

  -- `_compare_hardware`
  unfoldable pub compare_hardware : HardwareExpectations F → HardwareSnapshot F → Checked F
  compare_hardware e s = also (check_ram e.min_ram_gb s.ram.total_mb) (
      also (check_vram e.min_vram_gb (vram_of (gpu_of s))) (
        also (check_free e.min_free_disk_percent (free_of (system_disk s))) (
          also (check_ssd e.require_ssd_system_disk (media_of (system_disk s))) (
            also (check_vendor e.gpu_vendor (vendor_literal (vendor_of (gpu_of s))))
              (check_cores e.min_cpu_cores s.cpu.physical_cores.value)))))
