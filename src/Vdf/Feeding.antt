-- ===== src/Vdf/Feeding.antt =====
-- The fuel of the reader: how much of the text each step of it leaves.
use pudge_gaming_manager.Prelude.{
  ◌≡◌, refl, subst, ◌≢◌, ℕ, zero, suc, ◌≤◌, ◌<◌, Bool, true, false, ◌&&◌, [], ◌∷◌, ◌++◌, length,
  ◌==◌, arith, if◌then◌else◌,
}
use pudge_gaming_manager.Vdf.{
  Text, Dict, empty, put, Parsed, got, bad, starved, ◌>>=◌, is_space, starts_with_slash,
  skip_trivia, skip_line, unescaped, read_chars, open_string, read_string, read_leaf, as_object,
  read_value, read_members, read_root, loads,
}

-- The reader ended, and left at most `n` characters.
abbrev Leaves : {A : Type 0} → ℕ → Parsed A → Type 0
Leaves n (got a rest) = length rest ≤ n
Leaves n (bad e) = Unit
Leaves n starved = ⊥

Leaves-bind :
    {A B : Type 0} (n : ℕ) (p : Parsed A) (f : A → Text → Parsed B)
    → Leaves n p
    → ((a : A) (rest : Text) → length rest ≤ n → Leaves n (f a rest))
    → Leaves n (p >>= f)
Leaves-bind n (got a rest) f h g = g a rest h
Leaves-bind n (bad e) f h g = tt
Leaves-bind n starved f h g = absurd h

Leaves-le : {A : Type 0} (m n : ℕ) (p : Parsed A) → m ≤ n → Leaves m p → Leaves n p
Leaves-le m n (got a rest) le h = omega (arith, le, h)
Leaves-le m n (bad e) le h = tt
Leaves-le m n starved le h = absurd h

bool_ind :
    {A : Type 0} (P : A → Type 0) (b : Bool) {x y : A}
    → P x
    → P y
    → P (elim b [ true ↦ x | false ↦ y ])
bool_ind P true f g = f
bool_ind P false f g = g

if_ind : {A : Type 0} (P : A → Type 0) (b : Bool) {x y : A} → P x → P y → P (if b then x else y)
if_ind P true f g = f
if_ind P false f g = g

text_ind :
    {A : Type 0} (P : A → Type 0) (t : Text) {x : A} {f : ℕ → Text → A}
    → P x
    → ((c : ℕ) (rest : Text) → t ≡ c ∷ rest → P (f c rest))
    → P (elim t [ [] ↦ x | c ∷ rest ↦ f c rest ])
text_ind P [] h g = h
text_ind P (c ∷ rest) h g = g c rest refl

mutual
  unfolding skip_trivia skip_line

  skip_trivia-le : (cs : Text) → length (skip_trivia cs) ≤ length cs
  skip_trivia-le [] = omega arith
  skip_trivia-le (c ∷ cs) =
      bool_ind (λ (t : Text). length t ≤ suc (length cs)) (is_space c)
        (omega (arith, skip_trivia-le cs))
        (bool_ind (λ (t : Text). length t ≤ suc (length cs)) (c == 47 && starts_with_slash cs)
          (omega (arith, skip_line-le cs)) (omega arith))

  skip_line-le : (cs : Text) → length (skip_line cs) ≤ length cs
  skip_line-le [] = omega arith
  skip_line-le (c ∷ cs) =
      bool_ind (λ (t : Text). length t ≤ suc (length cs)) (c == 10)
        (omega (arith, skip_trivia-le cs)) (omega (arith, skip_line-le cs))

read_chars-Leaves : (chars cs : Text) → Leaves (length cs) (read_chars chars cs)
unfolding read_chars
read_chars-Leaves chars [] = tt
read_chars-Leaves chars (c ∷ []) =
    if_ind (Leaves 1) (c == 92) tt (if_ind (Leaves 1) (c == 34) (omega arith) tt)
read_chars-Leaves chars (c ∷ d ∷ cs) =
    let n = length (c ∷ d ∷ cs) in
    bool_ind (Leaves n) (c == 92)
      (Leaves-le (length cs) n _ (omega arith) (read_chars-Leaves (chars ++ unescaped d) cs))
      (bool_ind (Leaves n) (c == 34) (omega arith) (
        Leaves-le (length (d ∷ cs)) n _ (omega arith)
          (read_chars-Leaves (chars ++ c ∷ []) (d ∷ cs))))

-- A text takes its opening quote at least.
open_string-Leaves : (n : ℕ) (c : ℕ) (cs : Text) → length cs ≤ n → Leaves n (open_string (c ∷ cs))
unfolding open_string
open_string-Leaves n c cs le =
    if_ind (Leaves n) (c == 34) (Leaves-le (length cs) n _ le (read_chars-Leaves [] cs)) tt

read_string-Leaves : (n : ℕ) (cs : Text) → length cs ≤ suc n → Leaves n (read_string cs)
unfolding read_string open_string
read_string-Leaves n cs le = opened (skip_trivia cs) (skip_trivia-le cs)
  where
    opened : (t : Text) → length t ≤ length cs → Leaves n (open_string t)
    opened [] h = tt
    opened (c ∷ t) h = open_string-Leaves n c t (omega (arith, h, le))

mutual
  unfolding read_value read_members as_object read_leaf

  read_value-Leaves :
      (fuel : ℕ) (cs : Text) → length cs < fuel → Leaves (length cs) (read_value fuel cs)
  read_value-Leaves zero cs h = absurd (omega (arith, h))
  read_value-Leaves (suc fuel) cs h = text_ind (Leaves (length cs)) (skip_trivia cs) tt λ c rest e.
      let le : suc (length rest) ≤ length cs =
        subst (λ (t : Text). length t ≤ length cs) e (skip_trivia-le cs) in
      bool_ind (Leaves (length cs)) (c == 123)
        (Leaves-bind _ (read_members fuel empty rest) _
          (Leaves-le (length rest) _ _ (omega (arith, le))
            (read_members-Leaves fuel empty rest (omega (arith, le, h))))
          (λ a after k. k))
        (Leaves-bind _ (read_string (c ∷ rest)) _
          (read_string-Leaves _ (c ∷ rest) (omega (arith, le))) (λ a after k. k))

  read_members-Leaves :
      (fuel : ℕ) (obj : Dict) (cs : Text)
      → length cs < fuel
      → Leaves (length cs) (read_members fuel obj cs)
  read_members-Leaves zero obj cs h = absurd (omega (arith, h))
  read_members-Leaves (suc fuel) obj cs h =
      text_ind (Leaves (length cs)) (skip_trivia cs) tt λ c rest e.
        let le : suc (length rest) ≤ length cs =
          subst (λ (t : Text). length t ≤ length cs) e (skip_trivia-le cs) in
        bool_ind (Leaves (length cs)) (c == 125) (omega (arith, le)) (
          Leaves-le (length rest) _ _ (omega (arith, le)) (
            Leaves-bind _ (read_string (c ∷ rest)) _ (read_string-Leaves _ (c ∷ rest) (omega arith))
              λ key t k.
                Leaves-bind _ (read_value fuel t) _
                  (Leaves-le (length t) _ _ k (read_value-Leaves fuel t (omega (arith, k, le, h))))
                  λ value u j.
                    Leaves-le (length u) _ _ j
                      (read_members-Leaves fuel (put key value obj) u (omega (arith, j, le, h)))))

read_root-Leaves :
    (fuel : ℕ) (root : Dict) (cs : Text)
    → length cs < fuel
    → Leaves (length cs) (read_root fuel root cs)
unfolding read_root
read_root-Leaves zero root cs h = absurd (omega (arith, h))
read_root-Leaves (suc fuel) root cs h =
    text_ind (Leaves (length cs)) (skip_trivia cs) (omega arith) λ c rest e.
      let le : suc (length rest) ≤ length cs =
        subst (λ (t : Text). length t ≤ length cs) e (skip_trivia-le cs) in
      Leaves-le (length rest) _ _ (omega (arith, le)) (
        Leaves-bind _ (read_string (c ∷ rest)) _ (read_string-Leaves _ (c ∷ rest) (omega arith))
          λ key t k.
            Leaves-bind _ (read_value fuel t) _
              (Leaves-le (length t) _ _ k (read_value-Leaves fuel t (omega (arith, k, le, h))))
              λ value u j.
                Leaves-le (length u) _ _ j
                  (read_root-Leaves fuel (put key value root) u (omega (arith, j, le, h))))

-- Every text is read to a dict or refused with an error: the fuel that `loads` gives never runs out.
pub loads_ends : (text : Text) → loads text ≢ starved
unfolding loads
loads_ends text e =
    subst (Leaves (length text)) e (read_root-Leaves (suc (length text)) empty text (omega arith))
