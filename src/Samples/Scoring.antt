-- ===== src/Samples/Scoring.antt =====
-- The theorems on scores and grades, at a scan whose floats are whole numbers.
use pudge_gaming_manager.Prelude.{
  List, [], ◌∷◌, ◌≡◌, refl, ℕ, ◌+◌, ◌-◌, ◌*◌, ◌/◌, true, false, Option, none, some, [], ◌∷◌, ◌++◌,
  All, leb, ltb, arith,
}
use pudge_gaming_manager.Floats.{Floats, IsOrdered}
use pudge_gaming_manager.Health.{Reading, Threshold, vendor, HardwareSnapshot, GpuInfo}
use pudge_gaming_manager.Score.{Component, Key, compute_score, overall}
use pudge_gaming_manager.Score.Range.{InRange, compute_score-InRange}
use pudge_gaming_manager.Score.Exclusion.{overall-excluded}

abbrev pub sum : List ℕ → ℕ
sum [] = 0
sum (x ∷ xs) = x + sum xs

abbrev pub wholes : Floats
wholes = record {
  F = ℕ;
  whole = λ n. n;
  sub = λ a b. a - b;
  mul = λ a b. a * b;
  div = λ a b. a / b;
  total = sum;
  below = ltb;
  at_most = leb;
  rounded = λ x. "n";
  tenths = λ x. "n";
  digits = λ n. "n";
}

wholes-IsOrdered : IsOrdered wholes
wholes-IsOrdered = record {
  below_le = λ a b h. ground (arith, h);
  at_most_trans = λ a b c h g. ground (arith, h, g);
  whole_le = λ m n h. ground (arith, h);
}

abbrev limits : Threshold ℕ
limits = record {
  warning_at = 80;
  critical_at = 90;
  kind = vendor;
  source = "driver";
  higher_is_worse = true;
}

abbrev pub reading : {A : Type 0} → A → Reading A
reading a = record { value = some a; unit = ""; source = "probe"; unavailable_reason = "" }

abbrev pub unread : {A : Type 0} → Reading A
unread = record { value = none; unit = ""; source = ""; unavailable_reason = "no probe" }

abbrev card : GpuInfo ℕ
card = record {
  vendor_name = "nvidia";
  model = "card";
  driver_version = "";
  driver_date = "";
  vram_total_mb = reading 12288;
  temperature_c = reading 85;
  utilization_percent = unread;
  vram_used_mb = unread;
  vram_used_percent = unread;
  fan_percent = unread;
  power_watts = unread;
  power_limit_watts = unread;
  clock_sm_mhz = unread;
  max_clock_sm_mhz = unread;
  performance_state = unread;
  throttle_reasons = [];
  thermal_throttling = false;
  power_throttling = true;
  temperature_threshold = some limits;
}

abbrev pub snapshot : HardwareSnapshot ℕ
snapshot = record {
  captured_at = "";
  os = record {
    caption = "";
    version = "";
    build = "";
    architecture = "";
    machine_name = "";
    is_windows_11 = true;
  };
  cpu = record {
    manufacturer = "";
    model = "";
    physical_cores = unread;
    logical_processors = unread;
    base_clock_mhz = unread;
    current_clock_mhz = unread;
    utilization_percent = reading 8;
    temperature_c = unread;
  };
  gpus = card ∷ [];
  ram = record {
    total_mb = unread;
    available_mb = unread;
    used_mb = unread;
    usage_percent = reading 50;
    speed_mhz = unread;
    modules = [];
  };
  disks = [];
  monitors = [];
  scan_duration_s = 0;
  warnings = "a probe timed out" ∷ [];
}

abbrev no_weights : Key → Option ℕ
no_weights k = none

compute_score-InRange_example :
    All (InRange wholes) (compute_score wholes (λ s. true) snapshot no_weights [] none).components
compute_score-InRange_example =
    compute_score-InRange wholes wholes-IsOrdered (λ s. true) snapshot no_weights [] none tt

abbrev system_part : Component ℕ
system_part = record { key = "system"; label = ""; score = some 75; weight = 10; explanation = "" }

abbrev blind_part : Component ℕ
blind_part = record { key = "gpu"; label = ""; score = none; weight = 25; explanation = "" }

overall-excluded_example :
    overall wholes ((system_part ∷ []) ++ blind_part ∷ system_part ∷ [])
    ≡ overall wholes ((system_part ∷ []) ++ system_part ∷ [])
overall-excluded_example =
    overall-excluded wholes (system_part ∷ []) (system_part ∷ []) blind_part refl
