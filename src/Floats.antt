-- ===== src/Floats.antt =====
-- Python's float and its formatting, which the scoring uses: a parameter of the definitions, with
-- the documented behaviour of the comparisons as laws. No law says that arithmetic is exact, and
-- none is stated of a value that is not a number.
use pudge_gaming_manager.Prelude.{◌≡◌, ℕ, ◌≤◌, String, Bool, true, List, if◌then◌else◌}

pub record Floats : Type 1 where
  pub F : Type 0
  -- `float(n)` and the literals `n.0`
  pub whole : ℕ → F
  pub sub : F → F → F
  pub mul : F → F → F
  pub div : F → F → F
  -- `sum(xs)`, whose rounding depends on the version of Python
  pub total : List F → F
  -- `a < b` and `a <= b`
  pub below : F → F → Bool
  pub at_most : F → F → Bool
  -- `f"{x:.0f}"` and `f"{x:.1f}"`
  pub rounded : F → String
  pub tenths : F → String
  -- `str(n)`
  pub digits : ℕ → String

module _ (N : Floats) where
  open N use {F, whole, below, at_most}

  -- `min(a, b)` and `max(a, b)` return the first argument unless the second is strictly better.
  unfoldable pub lesser : F → F → F
  lesser a b = if below b a then b else a

  unfoldable pub greater : F → F → F
  greater a b = if below a b then b else a

  pub record IsOrdered : Type 0 where
    pub below_le : (a b : F) → below a b ≡ true → at_most a b ≡ true
    pub at_most_trans : (a b c : F) → at_most a b ≡ true → at_most b c ≡ true → at_most a c ≡ true
    pub whole_le : (m n : ℕ) → m ≤ n → at_most (whole m) (whole n) ≡ true
