-- ===== src/Golden/Comparing.antt =====
-- core/profiles/golden.py: the power and display sections, `compare`, and `capture` with the ranges that
-- core/profiles/schema.py checks.
use pudge_gaming_manager.Prelude.{
  ℕ, ◌/◌, String, ◌<>◌, Bool, true, false, not, ◌&&◌, Option, none, some, List, [], ◌∷◌, ltb, ◌==◌,
  ◌is◌, or_text, if◌then◌else◌,
}
use pudge_gaming_manager.Floats.{Floats}
use pudge_gaming_manager.Health.{
  HardwareSnapshot, DiskInfo, MonitorInfo, DisplayMode, system_disk, is_running_below_capability,
}
use pudge_gaming_manager.Golden.{
  drift, unknown, Shown, nothing, count, words, HardwareExpectations, PowerPolicy, DisplayPolicy,
  GoldenProfile, ComparisonResult, Checked, unchecked, also, in_range, difference, vram_of,
  vendor_literal, vendor_of, gpu_of, compare_hardware,
}

-- `best`, where it is read.
unfoldable pub best_rate : {F : Type 0} → Option ℕ → Shown F
best_rate none = nothing
best_rate (some best) = count best

module _ (N : Floats) (half : N.F) (round_tenth : N.F → N.F) (lower : String → String)
    (mentions : String → String → Bool) where
  open N use {F, whole}

  -- `_compare_power`
  unfoldable pub compare_power : PowerPolicy → Option String → Checked F
  compare_power policy active = elim policy.scheme_guid [
    | none ↦ unchecked
    | some guid ↦ elim active [
      | none ↦ (
        1,
        difference N half round_tenth lower mentions "power" "scheme_guid" (words guid) nothing
              unknown "Не удалось прочитать активную схему питания." false
            ∷ [],
      )
      | some now ↦
          if not (lower now is guid)
          then (
            1,
            difference N half round_tenth lower mentions "power" "scheme_guid" (words guid)
                  (words now) drift
                  ("Ожидалась схема «" <> (or_text policy.scheme_name "из профиля" <> "».")) true
                ∷ [],
          )
          else (1, [])
    ]
  ]

  unfoldable pub check_maximum : Bool → MonitorInfo → DisplayMode → Checked F
  check_maximum required monitor mode =
      if not required
      then unchecked
      else if is_running_below_capability monitor
      then (
        1,
        difference N half round_tenth lower mentions "display"
              ("refresh_hz[" <> (monitor.friendly_name <> "]"))
              (best_rate monitor.max_refresh_at_current_resolution.value) (count mode.refresh_hz)
              drift "Монитор поддерживает большую частоту обновления на этом разрешении." true
            ∷ [],
      )
      else (1, [])

  unfoldable pub check_minimum : Option ℕ → MonitorInfo → DisplayMode → Checked F
  check_minimum none monitor mode = unchecked
  check_minimum (some least) monitor mode =
      if ltb mode.refresh_hz least
      then (
        1,
        difference N half round_tenth lower mentions "display"
              ("minimum_refresh_hz[" <> (monitor.friendly_name <> "]")) (count least)
              (count mode.refresh_hz) drift "Ниже минимальной частоты обновления клуба." true
            ∷ [],
      )
      else (1, [])

  unfoldable pub check_monitor : DisplayPolicy → MonitorInfo → Option DisplayMode → Checked F
  check_monitor policy monitor none = unchecked
  check_monitor policy monitor (some mode) =
      also (check_maximum policy.require_maximum_refresh_rate monitor mode)
        (check_minimum policy.minimum_refresh_hz monitor mode)

  -- `_compare_display`
  unfoldable pub compare_display : DisplayPolicy → List MonitorInfo → Checked F
  compare_display policy [] = unchecked
  compare_display policy (monitor ∷ monitors) =
      also (check_monitor policy monitor monitor.current_mode) (compare_display policy monitors)

  unfoldable pub compare : GoldenProfile F → HardwareSnapshot F → Option String → ComparisonResult F
  compare profile s active =
      let (checked, differences) =
        also (compare_hardware N half round_tenth lower mentions profile.hardware s) (
          also (compare_power profile.power active) (compare_display profile.display s.monitors)) in
      record { profile_name = profile.name; differences = differences; checked = checked }

  -- `value // 1024`, of a value that is read and not zero.
  unfoldable pub whole_gb : Option ℕ → Option ℕ
  whole_gb none = none
  whole_gb (some mb) = if mb == 0 then none else some (mb / 1024)

  unfoldable pub is_ssd : Option (DiskInfo F) → Option Bool
  is_ssd none = none
  is_ssd (some disk) = some (disk.media_type is "SSD")

  unfoldable pub expectations : HardwareSnapshot F → HardwareExpectations F
  expectations s =
      let gpu = gpu_of N half round_tenth lower mentions s in
      record {
        min_ram_gb = whole_gb s.ram.total_mb.value;
        min_vram_gb = whole_gb (vram_of N half round_tenth lower mentions gpu);
        min_free_disk_percent = some (whole 20);
        require_ssd_system_disk = is_ssd (system_disk s);
        gpu_vendor =
            vendor_literal N half round_tenth lower mentions
              (vendor_of N half round_tenth lower mentions gpu);
        min_cpu_cores = s.cpu.physical_cores.value;
      }

  -- The ranges of the fields, which raise a `ValidationError`; 20.0 is in the range of its own.
  unfoldable pub are_valid : HardwareExpectations F → Bool
  are_valid e =
      in_range 1 1024 e.min_ram_gb
      && (in_range 1 256 e.min_vram_gb && in_range 1 256 e.min_cpu_cores)

  unfoldable pub pinned : Option (String × String) → PowerPolicy
  pinned none = record { scheme_guid = none; scheme_name = "" }
  pinned (some (guid, name)) = record { scheme_guid = some (lower guid); scheme_name = name }

  unfoldable pub valid_scheme : (is_guid : String → Bool) → Option (String × String) → Bool
  valid_scheme is_guid none = true
  valid_scheme is_guid (some (guid, name)) = is_guid guid

  unfoldable pub profile_of :
      String → Option (String × String) → HardwareSnapshot F → GoldenProfile F
  profile_of name scheme s = record {
    name = name;
    hardware = expectations s;
    power = pinned scheme;
    display = record { require_maximum_refresh_rate = true; minimum_refresh_hz = none };
  }

  -- `capture`: none is a `ValidationError`. `is_guid` is the match of `_GUID`.
  unfoldable pub capture :
      (is_guid : String → Bool)
      → String
      → Option (String × String)
      → HardwareSnapshot F
      → Option (GoldenProfile F)
  capture is_guid name scheme s =
      if are_valid (expectations s) && valid_scheme is_guid scheme
      then some (profile_of name scheme s)
      else none
