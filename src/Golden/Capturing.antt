-- ===== src/Golden/Capturing.antt =====
-- What a machine shows when it is compared with the profile that was captured from it.
use pudge_gaming_manager.Prelude.{
  ◌≡◌, inl, inr, refl, sym, subst, ◌⊎◌, ℕ, ◌*◌, ◌/◌, ◌≤◌, String, Bool, true, false, not, ◌&&◌,
  Option, none, some, List, [], ◌∷◌, All, All-append, ◌==◌, ◌is◌, eq_refl, eq_iff, if_ind,
  Bool-cases, Option-cases, ltb, arith, if◌then◌else◌, some-injective,
}
use pudge_gaming_manager.Floats.{Floats}
use pudge_gaming_manager.Health.{
  HardwareSnapshot, DiskInfo, MonitorInfo, DisplayMode, Reading, system_disk,
  is_running_below_capability,
}
use pudge_gaming_manager.Golden.{
  Difference, DisplayPolicy, GoldenProfile, Checked, unchecked, also, fits, found, difference,
  check_ram, check_vram, check_free, check_ssd, check_vendor, check_cores, media_of,
  compare_hardware,
}
use pudge_gaming_manager.Golden.Comparing.{
  compare_power, check_maximum, check_minimum, check_monitor, compare_display, compare, whole_gb,
  is_ssd, expectations, are_valid, pinned, profile_of, capture,
}

-- What the comparison relies on of floats: dividing by 1024 does not round down past a whole number.
pub record IsScaled (N : Floats) (half : N.F) : Type 0 where
  pub div_whole :
      (m n : ℕ) → n * 1024 ≤ m → N.below (N.div (N.whole m) (N.whole 1024)) (N.whole n) ≡ false
  pub div_half :
      (m n : ℕ)
      → n * 1024 ≤ m
      → N.below (N.div (N.whole m) (N.whole 1024)) (N.sub (N.whole n) half) ≡ false

-- A difference in what changes by itself: the free space, or the mode of a display.
abbrev pub IsMovable : {F : Type 0} → Difference F → Type 0
IsMovable d = (d.setting ≡ "min_free_disk_percent") ⊎ (d.section ≡ "display")

also-All :
    {F : Type 0} (P : Difference F → Type 0) (a b : Checked F)
    → All P a.1
    → All P b.1
    → All P (also a b).1
unfolding also
also-All P (m, ds) (n, es) h k = All-append P ds es h k

guarded : {A : Type 0} (b : Bool) (p q : A) → (if b then some p else none) ≡ some q → p ≡ q
guarded true p q e = some-injective _ _ e
guarded false p q e = cc e

below_half : (mb : ℕ) → mb / 1024 * 1024 ≤ mb
below_half mb = omega arith

module _ (N : Floats) (half : N.F) (scaled : IsScaled N half) (round_tenth : N.F → N.F)
    (lower : String → String) (mentions : String → String → Bool) where
  open N use {F, whole}

  check_ram-whole_gb :
      (total : Reading ℕ)
      → (check_ram N half round_tenth lower mentions
          (whole_gb N half round_tenth lower mentions total.value)
          total).1
        ≡ []
  unfolding check_ram whole_gb unchecked fits
  check_ram-whole_gb total = elim (Option-cases total.value) [
    | inl e ↦ rw e refl
    | inr (mb, e) ↦ elim (Bool-cases (mb == 0)) [
      | inl z ↦ rw (e, z) refl
      | inr z ↦ rw (e, z, scaled.div_half mb (mb / 1024) (below_half mb)) refl
    ]
  ]

  check_vram-whole_gb :
      (vram : Option ℕ)
      → (check_vram N half round_tenth lower mentions
          (whole_gb N half round_tenth lower mentions vram)
          vram).1
        ≡ []
  unfolding check_vram whole_gb unchecked fits
  check_vram-whole_gb none = refl
  check_vram-whole_gb (some mb) = elim (Bool-cases (mb == 0)) [
    | inl z ↦ rw z refl
    | inr z ↦ rw (z, scaled.div_whole mb (mb / 1024) (below_half mb)) refl
  ]

  check_free-IsMovable :
      (least free : Option F)
      → All IsMovable (check_free N half round_tenth lower mentions least free).1
  unfolding check_free unchecked fits found difference
  check_free-IsMovable none free = tt
  check_free-IsMovable (some least) none = (inl refl, tt)
  check_free-IsMovable (some least) (some free) =
      if_ind (λ (c : Checked F). All IsMovable c.1) (N.below free least) (λ _. (inl refl, tt))
        (λ _. tt)

  check_ssd-is_ssd :
      (disk : Option (DiskInfo F))
      → (check_ssd N half round_tenth lower mentions
          (is_ssd N half round_tenth lower mentions disk)
          (media_of N half round_tenth lower mentions disk)).1
        ≡ []
  unfolding check_ssd is_ssd media_of unchecked fits
  check_ssd-is_ssd none = refl
  check_ssd-is_ssd (some disk) = elim (Bool-cases (disk.media_type is "SSD")) [
    | inl e ↦
        subst
          (λ media.
            (check_ssd N half round_tenth lower mentions (some (media is "SSD")) media).1 ≡ [])
          (sym ((eq_iff disk.media_type "SSD").0 e)) refl
    | inr e ↦ rw e refl
  ]

  check_vendor-same :
      (vendor : Option String)
      → (check_vendor N half round_tenth lower mentions vendor vendor).1 ≡ []
  unfolding check_vendor unchecked fits
  check_vendor-same none = refl
  check_vendor-same (some v) = rw (eq_refl v) refl

  check_cores-same :
      (cores : Option ℕ) → (check_cores N half round_tenth lower mentions cores cores).1 ≡ []
  unfolding check_cores unchecked fits
  check_cores-same none = refl
  check_cores-same (some n) = ground arith

  All-nil : (ds : List (Difference F)) → ds ≡ [] → All IsMovable ds
  All-nil ds e = subst (All IsMovable) (sym e) tt

  compare_hardware-IsMovable :
      (s : HardwareSnapshot F)
      → All IsMovable
          (compare_hardware N half round_tenth lower mentions
            (expectations N half round_tenth lower mentions s)
            s).1
  unfolding compare_hardware expectations
  compare_hardware-IsMovable s =
      also-All IsMovable _ _ (All-nil _ (check_ram-whole_gb s.ram.total_mb)) (
        also-All IsMovable _ _ (All-nil _ (check_vram-whole_gb _)) (
          also-All IsMovable _ _ (check_free-IsMovable _ _) (
            also-All IsMovable _ _ (All-nil _ (check_ssd-is_ssd (system_disk s))) (
              also-All IsMovable _ _ (All-nil _ (check_vendor-same _))
                (All-nil _ (check_cores-same _))))))

  -- The active power scheme is the one that was captured, in any case of its letters.
  abbrev pub IsActive : Option (String × String) → Option String → Type 0
  IsActive none active = Unit
  IsActive (some (guid, name)) active =
      (now : String) × (active ≡ some now) × (lower now ≡ lower guid)

  compare_power-pinned :
      (scheme : Option (String × String)) (active : Option String)
      → IsActive scheme active
      → (compare_power N half round_tenth lower mentions
          (pinned N half round_tenth lower mentions scheme)
          active).1
        ≡ []
  unfolding compare_power pinned unchecked
  compare_power-pinned none active h = refl
  compare_power-pinned (some (guid, name)) active (now, e, same) =
      rw (e, same, eq_refl (lower guid)) refl

  check_maximum-IsMovable :
      (required : Bool) (monitor : MonitorInfo) (mode : DisplayMode)
      → All IsMovable (check_maximum N half round_tenth lower mentions required monitor mode).1
  unfolding check_maximum unchecked difference
  check_maximum-IsMovable required monitor mode =
      if_ind (λ (c : Checked F). All IsMovable c.1) (not required) (λ _. tt)
        (λ _.
          if_ind (λ (c : Checked F). All IsMovable c.1) (is_running_below_capability monitor)
            (λ _. (inr refl, tt)) (λ _. tt))

  check_minimum-IsMovable :
      (least : Option ℕ) (monitor : MonitorInfo) (mode : DisplayMode)
      → All IsMovable (check_minimum N half round_tenth lower mentions least monitor mode).1
  unfolding check_minimum unchecked difference
  check_minimum-IsMovable none monitor mode = tt
  check_minimum-IsMovable (some least) monitor mode =
      if_ind (λ (c : Checked F). All IsMovable c.1) (ltb mode.refresh_hz least)
        (λ _. (inr refl, tt)) (λ _. tt)

  check_monitor-IsMovable :
      (policy : DisplayPolicy) (monitor : MonitorInfo) (mode : Option DisplayMode)
      → All IsMovable (check_monitor N half round_tenth lower mentions policy monitor mode).1
  unfolding check_monitor unchecked
  check_monitor-IsMovable policy monitor none = tt
  check_monitor-IsMovable policy monitor (some mode) =
      also-All IsMovable _ _ (check_maximum-IsMovable _ monitor mode)
        (check_minimum-IsMovable _ monitor mode)

  compare_display-IsMovable :
      (policy : DisplayPolicy) (monitors : List MonitorInfo)
      → All IsMovable (compare_display N half round_tenth lower mentions policy monitors).1
  unfolding compare_display unchecked
  compare_display-IsMovable policy [] = tt
  compare_display-IsMovable policy (monitor ∷ monitors) =
      also-All IsMovable _ _ (check_monitor-IsMovable policy monitor _)
        (compare_display-IsMovable policy monitors)

  compare-profile_of :
      (name : String) (scheme : Option (String × String)) (s : HardwareSnapshot F)
      (active : Option String)
      → IsActive scheme active
      → All IsMovable
          (compare N half round_tenth lower mentions
            (profile_of N half round_tenth lower mentions name scheme s)
            s
            active).differences
  unfolding compare profile_of
  compare-profile_of name scheme s active same =
      also-All IsMovable _ _ (compare_hardware-IsMovable s) (
        also-All IsMovable _ _ (All-nil _ (compare_power-pinned scheme active same))
          (compare_display-IsMovable _ s.monitors))

  -- A machine that is compared with the profile that was captured from it, while the same power scheme
  -- is active, shows no difference, not even a value that cannot be read, except in the free space of
  -- the system disk and in the modes of its displays, if dividing by 1024 does not round down past a
  -- whole number.
  pub compare-capture :
      (is_guid : String → Bool) (name : String) (scheme : Option (String × String))
      (s : HardwareSnapshot F) (profile : GoldenProfile F) (active : Option String)
      → capture N half round_tenth lower mentions is_guid name scheme s ≡ some profile
      → IsActive scheme active
      → All IsMovable (compare N half round_tenth lower mentions profile s active).differences
  unfolding capture
  compare-capture is_guid name scheme s profile active captured same =
      subst (λ p. All IsMovable (compare N half round_tenth lower mentions p s active).differences)
        (guarded (are_valid N half round_tenth lower mentions _ && _) _ profile captured)
        (compare-profile_of name scheme s active same)
