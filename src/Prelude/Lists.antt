-- ===== src/Prelude/Lists.antt =====
-- Lists measured by native numbers, and the loops that the program writes over lists.
use Prim.Native.Nat.{ℕ, zero, suc, ◌+◌, ◌≤◌}
use mathlib.Core.Path.{◌≡◌, refl, ap}
use mathlib.Core.Logic.{◌⊎◌, ◌≢◌, inl, inr}
use mathlib.Core.Bool.{Bool, true, false, ◌&&◌, ◌||◌}
use mathlib.Core.Option.{Option, none, some}
use mathlib.Core.List.{List, [], ◌∷◌, ◌++◌, map}
use native.Mathlib.Omega.{arith}
use pudge_gaming_manager.Prelude.Tests.{if◌then◌else◌, Bool-cases}

module _ {ℓ} {A : Type ℓ} where
  abbrev pub length : List A → ℕ
  length [] = 0
  length (x ∷ xs) = suc (length xs)

  abbrev pub get_elem? : List A → ℕ → Option A
  get_elem? [] i = none
  get_elem? (x ∷ xs) zero = some x
  get_elem? (x ∷ xs) (suc i) = get_elem? xs i

  -- `[x for x in xs if p(x)]`
  abbrev pub select : (A → Bool) → List A → List A
  select p [] = []
  select p (x ∷ xs) = if p x then x ∷ select p xs else select p xs

  -- `any(p(x) for x in xs)` and `all(p(x) for x in xs)`
  abbrev pub any : (A → Bool) → List A → Bool
  any p [] = false
  any p (x ∷ xs) = p x || any p xs

  abbrev pub all : (A → Bool) → List A → Bool
  all p [] = true
  all p (x ∷ xs) = p x && all p xs

  -- `sum(1 for x in xs if p(x))`
  abbrev pub count : (A → Bool) → List A → ℕ
  count p [] = 0
  count p (x ∷ xs) = (if p x then 1 else 0) + count p xs

  abbrev pub All {κ} : (A → Type κ) → List A → Type κ
  All P [] = Unit
  All P (x ∷ xs) = P x × All P xs

module _ {ℓ} {A : Type ℓ} where
  pub length-append : (xs ys : List A) → length (xs ++ ys) ≡ length xs + length ys
  length-append [] ys = omega arith
  length-append (x ∷ xs) ys = omega (arith, length-append xs ys)

  pub length-select-le : (p : A → Bool) (xs : List A) → length (select p xs) ≤ length xs
  length-select-le p [] = omega arith
  length-select-le p (x ∷ xs) = ground (arith, length-select-le p xs)

  pub count-eq-length-select : (p : A → Bool) (xs : List A) → count p xs ≡ length (select p xs)
  count-eq-length-select p [] = refl
  count-eq-length-select p (x ∷ xs) = ground (arith, count-eq-length-select p xs)

  pub All-append {κ} : (P : A → Type κ) (xs ys : List A) → All P xs → All P ys → All P (xs ++ ys)
  All-append P [] ys h k = k
  All-append P (x ∷ xs) ys h k = (h.0, All-append P xs ys h.1 k)

module _ {ℓ κ} {A : Type ℓ} where
  pub All-map : (P Q : A → Type κ) (xs : List A) → ((x : A) → P x → Q x) → All P xs → All Q xs
  All-map P Q [] f h = h
  All-map P Q (x ∷ xs) f h = (f x h.0, All-map P Q xs f h.1)

module _ {A : Type 0} where
  -- `x` stands in the list. Taken apart by cases, unlike the library's truncated `Mem`.
  abbrev pub In : A → List A → Type 0
  In a [] = ⊥
  In a (x ∷ xs) = (a ≡ x) ⊎ In a xs

  pub In-append_left : (a : A) (xs ys : List A) → In a xs → In a (xs ++ ys)
  In-append_left a [] ys h = absurd h
  In-append_left a (x ∷ xs) ys (inl e) = inl e
  In-append_left a (x ∷ xs) ys (inr h) = inr (In-append_left a xs ys h)

  pub In-append_right : (a : A) (xs ys : List A) → In a ys → In a (xs ++ ys)
  In-append_right a [] ys h = h
  In-append_right a (x ∷ xs) ys h = inr (In-append_right a xs ys h)

  pub In-append : (a : A) (xs ys : List A) → In a (xs ++ ys) → In a xs ⊎ In a ys
  In-append a [] ys h = inr h
  In-append a (x ∷ xs) ys (inl e) = inl (inl e)
  In-append a (x ∷ xs) ys (inr h) = elim (In-append a xs ys h) [
    | inl l ↦ inl (inr l)
    | inr r ↦ inr r
  ]

module _ {A : Type 0} (p : A → Bool) where
  pub In-select : (x : A) (xs : List A) → In x xs → p x ≡ true → In x (select p xs)
  In-select x [] h e = absurd h
  In-select x (y ∷ xs) (inl same) e = rw (rw same at e) (inl same)
  In-select x (y ∷ xs) (inr h) e = elim (Bool-cases (p y)) [
    | inl taken ↦ rw taken (inr (In-select x xs h e))
    | inr left ↦ rw left (In-select x xs h e)
  ]

  pub In-of_select : (x : A) (xs : List A) → In x (select p xs) → In x xs × (p x ≡ true)
  In-of_select x [] h = absurd h
  In-of_select x (y ∷ xs) h = elim (Bool-cases (p y)) [
    | inl taken ↦ elim (let h' : (x ≡ y) ⊎ In x (select p xs) = rw taken at h in h') [
      | inl same ↦ (inl same, rw same taken)
      | inr later ↦ let (found, e) = In-of_select x xs later in (inr found, e)
    ]
    | inr left ↦ let (found, e) = In-of_select x xs (rw left at h) in (inr found, e)
  ]

module _ {A B : Type 0} (f : A → B) where
  pub In-map : (x : A) (xs : List A) → In x xs → In (f x) (map f xs)
  In-map x [] h = absurd h
  In-map x (y ∷ xs) (inl same) = inl (ap f same)
  In-map x (y ∷ xs) (inr h) = inr (In-map x xs h)

  pub In-of_map : (b : B) (xs : List A) → In b (map f xs) → (x : A) × In x xs × (b ≡ f x)
  In-of_map b [] h = absurd h
  In-of_map b (y ∷ xs) (inl e) = (y, inl refl, e)
  In-of_map b (y ∷ xs) (inr h) = let (x, found, e) = In-of_map b xs h in (x, inr found, e)

module _ {A : Type 0} (p : A → Bool) where
  pub none_selected : (xs : List A) → ((x : A) → In x xs → p x ≢ true) → select p xs ≡ []
  none_selected [] h = refl
  none_selected (x ∷ xs) h = elim (Bool-cases (p x)) [
    | inl taken ↦ absurd (h x (inl refl) taken)
    | inr left ↦ rw left (none_selected xs (λ y there. h y (inr there)))
  ]

  pub any_of_In : (x : A) (xs : List A) → In x xs → p x ≡ true → any p xs ≡ true
  any_of_In x [] h e = absurd h
  any_of_In x (y ∷ xs) (inl same) e = rw (rw same at e)
  any_of_In x (y ∷ xs) (inr h) e = ground (arith, any_of_In x xs h e)
