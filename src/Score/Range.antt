-- ===== src/Score/Range.antt =====
-- The range of each component of the Gaming Score.
use pudge_gaming_manager.Prelude.{
  ◌≡◌, refl, inl, inr, ℕ, ◌≤◌, String, Bool, true, false, not, ◌&&◌, ◌is◌, Option, none, some, List,
  [], ◌∷◌, map, select, All, Bool-cases, filled, arith, if◌then◌else◌,
}
use pudge_gaming_manager.Floats.{Floats, IsOrdered, lesser, greater}
use pudge_gaming_manager.Health.{
  HealthStatus, good, warning, critical, unavailable, Threshold, GpuInfo, DiskInfo,
  HardwareSnapshot, evaluate, primary_gpu, system_disk,
}
use pudge_gaming_manager.Network.{NetworkSnapshot, connected, is_some}
use pudge_gaming_manager.Score.{
  Component, component, clamp, running, penalised, score_cpu, score_ram, space_score, is_failing,
  score_disk, score_storage, penalty_text, score_display, thermal_cap, graded, after_thermals,
  after_throttling, score_vram, score_gpu, score_system, tally, score_connected, score_network, Key,
  components_of, compute_score,
}

module _ (N : Floats) where
  open N use {F, whole, at_most, below}

  abbrev pub IsScore : F → Type 0
  IsScore v = (at_most (whole 0) v ≡ true) × (at_most v (whole 100) ≡ true)

  -- A component that has a score has one between 0 and 100.
  abbrev pub InRange : Component F → Type 0
  InRange c = elim c.score [ none ↦ Unit | some v ↦ IsScore v ]

module _ (N : Floats) (ordered : IsOrdered N) where
  open N use {F, whole, at_most, below}
  open ordered use {below_le, at_most_trans, whole_le}

  option_ind {ℓ} :
      {A B : Type 0} (P : B → Type ℓ) (o : Option A) {x : B} {f : A → B}
      → P x
      → ((a : A) → P (f a))
      → P (elim o [ none ↦ x | some a ↦ f a ])
  option_ind P none h g = h
  option_ind P (some a) h g = g a

  list_ind {ℓ} :
      {A B : Type 0} (P : B → Type ℓ) (xs : List A) {x : B} {f : A → List A → B}
      → P x
      → ((a : A) (rest : List A) → P (f a rest))
      → P (elim xs [ [] ↦ x | a ∷ rest ↦ f a rest ])
  list_ind P [] h g = h
  list_ind P (a ∷ rest) h g = g a rest

  if_ind {ℓ} :
      {B : Type 0} (P : B → Type ℓ) (b : Bool) {x y : B}
      → (b ≡ true → P x)
      → (b ≡ false → P y)
      → P (if b then x else y)
  if_ind P true f g = f refl
  if_ind P false f g = g refl

  if_IsScore :
      (b : Bool) (x y : F)
      → (b ≡ true → IsScore N x)
      → (b ≡ false → IsScore N y)
      → IsScore N (if b then x else y)
  if_IsScore true x y f g = f refl
  if_IsScore false x y f g = g refl

  whole-IsScore : (n : ℕ) → n ≤ 100 → IsScore N (whole n)
  whole-IsScore n h = (whole_le 0 n (omega arith), whole_le n 100 h)

  clamp-IsScore : (v : F) → IsScore N (clamp N v)
  unfolding clamp lesser greater
  clamp-IsScore v =
      let m = if below v (whole 100) then v else whole 100 in
      let upper : at_most m (whole 100) ≡ true = elim (Bool-cases (below v (whole 100))) [
        | inl e ↦ rw e (below_le v (whole 100) e)
        | inr e ↦ rw e (whole_le 100 100 (omega arith))
      ] in
      if_IsScore (below (whole 0) m) m (whole 0) (λ e. (below_le (whole 0) m e, upper))
        (λ _. whole-IsScore 0 (omega arith))

  lesser-IsScore : (v : F) (n : ℕ) → n ≤ 100 → IsScore N v → IsScore N (lesser N v (whole n))
  unfolding lesser
  lesser-IsScore v n h range =
      if_IsScore (below (whole n) v) (whole n) v (λ _. whole-IsScore n h) (λ _. range)

  thermal_cap-IsScore : (h : HealthStatus) (v : F) → IsScore N v → IsScore N (thermal_cap N h v)
  unfolding thermal_cap
  thermal_cap-IsScore good v r = r
  thermal_cap-IsScore unavailable v r = r
  thermal_cap-IsScore warning v r = lesser-IsScore v 60 (omega arith) r
  thermal_cap-IsScore critical v r = lesser-IsScore v 20 (omega arith) r

  thermals-IsScore :
      (g : Option (Threshold F × F)) (v : F) → IsScore N v → IsScore N (after_thermals N g v)
  unfolding after_thermals
  thermals-IsScore none v r = r
  thermals-IsScore (some (t, c)) v r = thermal_cap-IsScore (evaluate N t (some c)) v r

  throttling-IsScore :
      (gpu : GpuInfo F) (v : F) → IsScore N v → IsScore N (after_throttling N gpu v)
  unfolding after_throttling
  throttling-IsScore gpu v r =
      if_IsScore gpu.thermal_throttling _ _ (λ _. lesser-IsScore v 25 (omega arith) r)
        λ _. if_IsScore gpu.power_throttling _ _ (λ _. lesser-IsScore v 70 (omega arith) r) (λ _. r)

  module _ (s : HardwareSnapshot F) (weight : F) where
    cpu_InRange : InRange N (score_cpu N s weight)
    unfolding score_cpu component
    cpu_InRange = option_ind (InRange N) s.cpu.utilization_percent.value tt (λ u. clamp-IsScore _)

    ram_InRange : InRange N (score_ram N s weight)
    unfolding score_ram component
    ram_InRange = option_ind (InRange N) s.ram.usage_percent.value tt λ u.
        if_IsScore (below (whole 40) u) _ _ (λ _. clamp-IsScore _)
          (λ _. whole-IsScore 100 (omega arith))

    space_IsScore : (disk : DiskInfo F) (free : F) → IsScore N (space_score N disk free)
    unfolding space_score
    space_IsScore disk free =
        if_IsScore (disk.media_type is "HDD") _ _
          (λ _. lesser-IsScore _ 60 (omega arith) (clamp-IsScore _)) (λ _. clamp-IsScore _)

    storage_InRange : InRange N (score_storage N s weight)
    unfolding score_storage score_disk component
    storage_InRange = option_ind (InRange N) (system_disk s) tt λ disk.
        option_ind (InRange N) disk.free_percent.value tt λ free.
          if_IsScore (is_failing N disk) _ _ (λ _. whole-IsScore 0 (omega arith))
            (λ _. space_IsScore disk free)

    gpu_InRange : (says_nvidia : String → Bool) → InRange N (score_gpu N says_nvidia s weight)
    unfolding score_gpu score_vram component
    gpu_InRange says_nvidia = option_ind (InRange N) (primary_gpu says_nvidia s) tt λ gpu.
        option_ind (InRange N) gpu.vram_total_mb.value tt
          λ vram. throttling-IsScore gpu _ (thermals-IsScore (graded N gpu) _ (clamp-IsScore _))

    system_InRange : InRange N (score_system N s weight)
    unfolding score_system component
    system_InRange =
        list_ind (InRange N) s.warnings (whole-IsScore 100 (omega arith)) (λ w ws. clamp-IsScore _)

    display_InRange : InRange N (score_display N s weight)
    unfolding score_display component
    display_InRange = list_ind (InRange N) (running s.monitors) tt λ m ms.
        list_ind (InRange N) (map (penalty_text N) (select penalised (m ∷ ms)))
          (whole-IsScore 100 (omega arith)) (λ t ts. clamp-IsScore _)

  network_InRange :
      (scan : Option (NetworkSnapshot F)) (weight : F) → InRange N (score_network N scan weight)
  unfolding score_network score_connected component
  network_InRange none weight = tt
  network_InRange (some n) weight =
      if_ind (InRange N) (filled n.unavailable_reason) (λ _. tt)
        λ _.
          if_ind (InRange N) (not (connected n)) (λ _. whole-IsScore 0 (omega arith))
            λ _.
              if_ind (InRange N) (not (is_some n.uplink) && not (tally N n).measured) (λ _. tt)
                (λ _. clamp-IsScore _)

  -- Where the comparisons of floats are ordered, each component that a computed score shows either
  -- has no score or has one from 0 to 100, if the additional components do.
  pub compute_score-InRange :
      (says_nvidia : String → Bool) (s : HardwareSnapshot F) (weights : Key → Option F)
      (extra : List (Component F)) (scan : Option (NetworkSnapshot F))
      → All (InRange N) extra
      → All (InRange N) (compute_score N says_nvidia s weights extra scan).components
  unfolding compute_score components_of
  compute_score-InRange says_nvidia s weights extra scan h = (
    network_InRange scan _,
    (
      gpu_InRange s _ says_nvidia,
      (
        cpu_InRange s _,
        (ram_InRange s _, (storage_InRange s _, (display_InRange s _, (system_InRange s _, h)))),
      ),
    ),
  )
