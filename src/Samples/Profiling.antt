-- ===== src/Samples/Profiling.antt =====
-- The theorem on profiles, at the scan of Samples/Scoring.
use pudge_gaming_manager.Prelude.{
  ◌≡◌, refl, ℕ, String, Bool, true, Option, some, [], ◌∷◌, ◌is◌, All, arith,
}
use pudge_gaming_manager.Golden.{GoldenProfile}
use pudge_gaming_manager.Golden.Comparing.{compare, capture, profile_of}
use pudge_gaming_manager.Golden.Capturing.{IsScaled, IsMovable, compare-capture}
use pudge_gaming_manager.Health.{HardwareSnapshot}
use pudge_gaming_manager.Samples.Scoring.{wholes, snapshot, reading, unread}

wholes-IsScaled : IsScaled wholes 0
wholes-IsScaled = record {
  div_whole = λ m n h. ground (arith, h);
  div_half = λ m n h. ground (arith, h);
}

abbrev as_it_is : ℕ → ℕ
as_it_is n = n

abbrev same_case : String → String
same_case s = s

abbrev equals : String → String → Bool
equals s t = s is t

abbrev any_guid : String → Bool
any_guid s = true

abbrev balanced : Option (String × String)
balanced = some ("381b4222", "Balanced")

-- The scan with its memory, its system disk, nearly full, and a display below its best rate.
abbrev equipped : HardwareSnapshot ℕ
equipped = record snapshot {
  cpu = record snapshot.cpu { physical_cores = reading 8 };
  ram = record snapshot.ram { total_mb = reading 16384 };
  disks =
      (record {
        device_id = "0";
        model = "disk";
        media_type = "SSD";
        bus_type = "NVMe";
        total_gb = reading 500;
        free_gb = reading 25;
        free_percent = reading 5;
        filesystem = "NTFS";
        smart_healthy = unread;
        temperature_c = unread;
        is_system_disk = true;
      })
      ∷ [];
  monitors =
      (record {
        device_name = "display";
        friendly_name = "display";
        is_primary = true;
        current_mode = some (record { width = 1920; height = 1080; refresh_hz = 60 });
        max_refresh_hz = reading 240;
        max_refresh_at_current_resolution = reading 240;
        supported_modes = [];
        hdr_enabled = unread;
        vrr_enabled = unread;
      })
      ∷ [];
}

abbrev reference : GoldenProfile ℕ
reference = profile_of wholes 0 as_it_is same_case equals "Club profile" balanced equipped

captured_reference :
    capture wholes 0 as_it_is same_case equals any_guid "Club profile" balanced equipped
    ≡ some reference
unfolding capture pudge_gaming_manager.Golden.Comparing.are_valid
    pudge_gaming_manager.Golden.in_range pudge_gaming_manager.Golden.Comparing.expectations
    pudge_gaming_manager.Golden.Comparing.whole_gb pudge_gaming_manager.Golden.vram_of
    pudge_gaming_manager.Golden.gpu_of pudge_gaming_manager.Health.primary_gpu
    pudge_gaming_manager.Health.first_or_head pudge_gaming_manager.Health.first_where
    pudge_gaming_manager.Health.is_nvidia pudge_gaming_manager.Golden.Comparing.valid_scheme
captured_reference = refl

compare-capture_example :
    All IsMovable
      (compare wholes 0 as_it_is same_case equals reference equipped (some "381b4222")).differences
compare-capture_example =
    compare-capture wholes 0 wholes-IsScaled as_it_is same_case equals any_guid "Club profile"
      balanced equipped reference (some "381b4222") captured_reference ("381b4222", refl, refl)
