-- ===== src/Score/Exclusion.antt =====
-- Components without a score in `compute_score`.
use pudge_gaming_manager.Prelude.{
  ◌≡◌, refl, ap, inl, inr, Bool, none, List, [], ◌∷◌, ◌++◌, select, Bool-cases,
}
use pudge_gaming_manager.Floats.{Floats}
use pudge_gaming_manager.Score.{Component, available, mean, overall}

module _ (N : Floats) where
  open N use {F}

  select_again :
      (p : Component F → Bool) (cs : List (Component F)) → select p (select p cs) ≡ select p cs
  select_again p [] = refl
  select_again p (c ∷ cs) = elim (Bool-cases (p c)) [
    | inl e ↦ rw (e, e, select_again p cs)
    | inr e ↦ rw (e, select_again p cs)
  ]

  select-append :
      (p : Component F → Bool) (xs ys : List (Component F))
      → select p (xs ++ ys) ≡ select p xs ++ select p ys
  select-append p [] ys = refl
  select-append p (c ∷ xs) ys = elim (Bool-cases (p c)) [
    | inl e ↦ rw (e, select-append p xs ys)
    | inr e ↦ rw (e, select-append p xs ys)
  ]

  overall_of_usable :
      (xs ys : List (Component F))
      → select (available N) xs ≡ select (available N) ys
      → overall N xs ≡ overall N ys
  unfolding overall
  overall_of_usable xs ys e = ap (mean N) e

  -- Wherever a component without a score stands, the overall value is the one without it: its
  -- weight is taken from the divisor too, and it does not count as zero.
  pub overall-excluded :
      (xs ys : List (Component F)) (c : Component F)
      → c.score ≡ none
      → overall N (xs ++ c ∷ ys) ≡ overall N (xs ++ ys)
  unfolding available
  overall-excluded xs ys c e =
      overall_of_usable (xs ++ c ∷ ys) (xs ++ ys)
        (rw (select-append (available N) xs (c ∷ ys), select-append (available N) xs ys, e))
