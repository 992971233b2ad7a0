-- ===== src/Health/Grading.antt =====
-- The grades of `Threshold.evaluate`.
use pudge_gaming_manager.Prelude.{
  ◌≡◌, refl, inl, inr, ℕ, ◌≤◌, Bool, true, false, some, Bool-cases, arith, if◌then◌else◌,
}
use pudge_gaming_manager.Floats.{Floats, IsOrdered}
use pudge_gaming_manager.Health.{
  HealthStatus, good, warning, critical, unavailable, Threshold, evaluate,
}

abbrev pub severity : HealthStatus → ℕ
severity unavailable = 0
severity good = 0
severity warning = 1
severity critical = 2

grade_le :
    (c1 w1 c2 w2 : Bool)
    → (c1 ≡ true → c2 ≡ true)
    → (w1 ≡ true → w2 ≡ true)
    → severity (if c1 then critical else if w1 then warning else good)
      ≤ severity (if c2 then critical else if w2 then warning else good)
grade_le c1 w1 true w2 h g = ground arith
grade_le c1 true c2 true h g = ground (arith, h)
grade_le c1 true c2 false h g = ground (arith, g refl)
grade_le false false c2 w2 h g = ground arith
grade_le true false false w2 h g = ground (arith, h refl)

module _ (N : Floats) (ordered : IsOrdered N) where
  open N use {F, at_most}

  -- The value `a` is no worse than `b` on the threshold's scale.
  abbrev pub no_worse : Threshold F → F → F → Bool
  no_worse t a b = if t.higher_is_worse then at_most a b else at_most b a

  -- Where the comparisons of floats are ordered, a measurement that is no worse than another on
  -- the threshold's scale gets a grade that is no more severe.
  pub evaluate-monotone :
      (t : Threshold F) (a b : F)
      → no_worse t a b ≡ true
      → severity (evaluate N t (some a)) ≤ severity (evaluate N t (some b))
  unfolding evaluate
  evaluate-monotone t a b h = elim (Bool-cases t.higher_is_worse) [
    | inl up ↦
        let le : at_most a b ≡ true = rw up at h in
        rw up (
          grade_le _ _ _ _ (λ e. ordered.at_most_trans _ a b e le)
            (λ e. ordered.at_most_trans _ a b e le))
    | inr down ↦
        let le : at_most b a ≡ true = rw down at h in
        rw down (
          grade_le _ _ _ _ (λ e. ordered.at_most_trans b a _ le e)
            (λ e. ordered.at_most_trans b a _ le e))
  ]
