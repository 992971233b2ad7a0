-- ===== src/Prelude/Order.antt =====
-- SQLite's order of texts is total and transitive.
use Prim.Native.Nat.{ℕ, compare as compare_ℕ, Ordering}
use Prim.Native.Char.{Char, code}
use Prim.Native.String.{String, then}
use Prim.Native.String.compare
use mathlib.Core.Path.{◌≡◌, refl, sym, ap, ◌∙◌}
use mathlib.Core.Bool.{Bool, true, false}
use native.Mathlib.Omega.{arith}
use pudge_gaming_manager.Prelude.Texts.{at_most}

abbrev by_code : Ordering → Bool → Bool
by_code Ordering.lt b = true
by_code Ordering.eq b = b
by_code Ordering.gt b = false

of_then :
    (o r : Ordering)
    → (elim (then o r) [ Ordering.gt ↦ false | _ ↦ true ])
      ≡ by_code o (elim r [ Ordering.gt ↦ false | _ ↦ true ])
of_then Ordering.lt r = refl
of_then Ordering.eq r = refl
of_then Ordering.gt r = refl

at_most-cons :
    (c d : Char) (s t : String)
    → at_most (String.◌∷◌ c s) (String.◌∷◌ d t)
      ≡ by_code (compare_ℕ (code c) (code d)) (at_most s t)
at_most-cons c d s t =
    ap (λ o. elim o as (λ _. Bool) [ Ordering.gt ↦ false | _ ↦ true ]) (compare.cons-cons c d s t)
    ∙ of_then _ _

at_most-nil : (d : Char) (t : String) → at_most String.[] (String.◌∷◌ d t) ≡ true
at_most-nil d t =
    ap (λ o. elim o as (λ _. Bool) [ Ordering.gt ↦ false | _ ↦ true ]) (compare.nil-cons d t)

cons-at_most : (c : Char) (s : String) → at_most (String.◌∷◌ c s) String.[] ≡ false
cons-at_most c s =
    ap (λ o. elim o as (λ _. Bool) [ Ordering.gt ↦ false | _ ↦ true ]) (compare.cons-nil c s)

by_code_total :
    (m n : ℕ) (b b' : Bool)
    → by_code (compare_ℕ m n) b ≡ false
    → (b ≡ false → b' ≡ true)
    → by_code (compare_ℕ n m) b' ≡ true
by_code_total m n b b' e h = ground (arith, e, h)

by_code_trans :
    (l m n : ℕ) (p q r : Bool)
    → by_code (compare_ℕ l m) p ≡ true
    → by_code (compare_ℕ m n) q ≡ true
    → (p ≡ true → q ≡ true → r ≡ true)
    → by_code (compare_ℕ l n) r ≡ true
by_code_trans l m n p q r e f h = ground (arith, e, f, h)

pub at_most_total : (s t : String) → at_most s t ≡ false → at_most t s ≡ true
at_most_total String.[] String.[] e = refl
at_most_total String.[] (String.◌∷◌ d t) e = absurd (ground (arith, e, at_most-nil d t))
at_most_total (String.◌∷◌ c s) String.[] e = at_most-nil c s
at_most_total (String.◌∷◌ c s) (String.◌∷◌ d t) e =
    at_most-cons d c t s
    ∙ by_code_total (code c) (code d) (at_most s t) (at_most t s) (sym (at_most-cons c d s t) ∙ e)
        (at_most_total s t)

pub at_most_trans : (s t u : String) → at_most s t ≡ true → at_most t u ≡ true → at_most s u ≡ true
at_most_trans String.[] t String.[] e f = refl
at_most_trans String.[] t (String.◌∷◌ b u) e f = at_most-nil b u
at_most_trans (String.◌∷◌ c s) String.[] u e f = cc (e, cons-at_most c s)
at_most_trans (String.◌∷◌ c s) (String.◌∷◌ d t) String.[] e f = cc (f, cons-at_most d t)
at_most_trans (String.◌∷◌ c s) (String.◌∷◌ d t) (String.◌∷◌ b u) e f =
    at_most-cons c b s u
    ∙ by_code_trans (code c) (code d) (code b) (at_most s t) (at_most t u) (at_most s u)
        (sym (at_most-cons c d s t) ∙ e) (sym (at_most-cons d b t u) ∙ f) (at_most_trans s t u)
