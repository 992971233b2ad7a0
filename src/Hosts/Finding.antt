-- ===== src/Hosts/Finding.antt =====
-- What `text.find` finds.
use pudge_gaming_manager.Prelude.{
  ◌≡◌, inl, inr, refl, ap, ◌∙◌, ℕ, Bool, true, false, Option, none, some, [], ◌∷◌, ◌++◌,
  append_assoc, any, ◌==◌, Bool-cases, arith, Text,
}
use pudge_gaming_manager.Hosts.{begins, find, after_char, drop_length}

-- A character that does not occur in a text.
abbrev pub IsAbsent : ℕ → Text → Type 0
IsAbsent d t = any (λ c. c == d) t ≡ false

abbrev pub prepend : Text → Option (Text × Text) → Option (Text × Text)
prepend w none = none
prepend w (some (before, from)) = some (w ++ before, from)

begins-before : (sub p t : Text) (d : ℕ) → IsAbsent d sub → begins sub (p ++ d ∷ t) ≡ begins sub p
unfolding begins
begins-before [] p t d h = refl
begins-before (c ∷ s) [] t d h = ground (arith, h)
begins-before (c ∷ s) (e ∷ p) t d h = ground (arith, h, begins-before s p t d)

begins-append : (sub p t : Text) → begins sub p ≡ true → begins sub (p ++ t) ≡ true
unfolding begins
begins-append [] p t h = refl
begins-append (c ∷ s) [] t h = absurd (ground (arith, h))
begins-append (c ∷ s) (e ∷ p) t h = ground (arith, h, begins-append s p t)

pub begins_self : (sub t : Text) → begins sub (sub ++ t) ≡ true
unfolding begins
begins_self [] t = refl
begins_self (c ∷ s) t = ground (arith, begins_self s t)

pub drop_length-append : (sub t : Text) → drop_length sub (sub ++ t) ≡ t
unfolding drop_length
drop_length-append [] t = refl
drop_length-append (c ∷ s) t = drop_length-append s t

after_char-none : (c : ℕ) (o : Option (Text × Text)) → after_char c o ≡ none → o ≡ none
after_char-none c none h = refl
after_char-none c (some (b, f)) h = cc h

-- The head of a text where nothing is found, and the rest.
find-uncons :
    (sub : Text) (c : ℕ) (cs : Text)
    → find sub (c ∷ cs) ≡ none
    → (begins sub (c ∷ cs) ≡ false) × (find sub cs ≡ none)
unfolding find
find-uncons sub c cs h = elim (Bool-cases (begins sub (c ∷ cs))) [
  | inl e ↦ cc (let h' : ◌≡◌ {A = Option (Text × Text)} (some ([], c ∷ cs)) none = rw e at h in h')
  | inr e ↦ (e, after_char-none c (find sub cs) (rw e at h))
]

find-cons :
    (sub : Text) (c : ℕ) (cs : Text)
    → begins sub (c ∷ cs) ≡ false
    → find sub (c ∷ cs) ≡ after_char c (find sub cs)
unfolding find
find-cons sub c cs h = rw h

after_char-prepend :
    (c : ℕ) (w : Text) (o : Option (Text × Text)) → after_char c (prepend w o) ≡ prepend (c ∷ w) o
after_char-prepend c w none = refl
after_char-prepend c w (some (b, f)) = refl

pub prepend-prepend :
    (v w : Text) (o : Option (Text × Text)) → prepend v (prepend w o) ≡ prepend (v ++ w) o
prepend-prepend v w none = refl
prepend-prepend v w (some (b, f)) = rw append_assoc

find-nil : (sub : Text) → find sub [] ≡ none → begins sub [] ≡ false
unfolding find
find-nil sub h = elim (Bool-cases (begins sub [])) [
  | inl e ↦ cc (let h' : ◌≡◌ {A = Option (Text × Text)} (some ([], [])) none = rw e at h in h')
  | inr e ↦ e
]

-- Nothing that ends before a character that it does not hold, or begins after it, crosses it.
pub find-past :
    (sub p t : Text) (d : ℕ)
    → IsAbsent d sub
    → find sub p ≡ none
    → find sub (p ++ d ∷ t) ≡ prepend (p ++ d ∷ []) (find sub t)
find-past sub [] t d absent h =
    find-cons sub d t (begins-before sub [] t d absent ∙ find-nil sub h) ∙ single (find sub t)
  where
    single : (o : Option (Text × Text)) → after_char d o ≡ prepend (d ∷ []) o
    single none = refl
    single (some (b, f)) = refl
find-past sub (c ∷ p) t d absent h =
    let (here, later) = find-uncons sub c p h in
    find-cons sub c (p ++ d ∷ t) (begins-before sub (c ∷ p) t d absent ∙ here)
    ∙ ap (after_char c) (find-past sub p t d absent later)
    ∙ after_char-prepend c (p ++ d ∷ []) (find sub t)

find-begins : (sub t : Text) → begins sub t ≡ true → find sub t ≡ some ([], t)
unfolding find
find-begins sub [] h = rw h
find-begins sub (c ∷ cs) h = rw h

pub find-here : (sub t : Text) → find sub (sub ++ t) ≡ some ([], sub ++ t)
find-here sub t = find-begins sub (sub ++ t) (begins_self sub t)

not_begun :
    (sub p t : Text) (b : Bool)
    → begins sub p ≡ b
    → begins sub (p ++ t) ≡ false
    → begins sub p ≡ false
not_begun sub p t false e h = e
not_begun sub p t true e h = absurd (ground (arith, begins-append sub p t e, h))

-- A part at the start of a text where nothing is found.
pub find-prefix : (sub p t : Text) → find sub (p ++ t) ≡ none → find sub p ≡ none
find-prefix sub [] [] h = h
find-prefix sub [] (c ∷ t) h = find-prefix sub [] t (find-uncons sub c t h).1
find-prefix sub (c ∷ p) t h =
    let (here, later) = find-uncons sub c (p ++ t) h in
    find-cons sub c p (not_begun sub (c ∷ p) t _ refl here)
    ∙ ap (after_char c) (find-prefix sub p t later)

abbrev pub before_of : Option (Text × Text) → Text
before_of none = []
before_of (some (before, from)) = before

before_of-after_char :
    (c : ℕ) (o : Option (Text × Text)) (cs : Text)
    → ((rest : Text) × (cs ≡ before_of o ++ rest))
    → (rest : Text) × (c ∷ cs ≡ before_of (after_char c o) ++ rest)
before_of-after_char c none cs h = (c ∷ cs, refl)
before_of-after_char c (some (b, f)) cs (rest, e) = (rest, ap (λ t. c ∷ t) e)

find-splits : (sub t : Text) → (rest : Text) × (t ≡ before_of (find sub t) ++ rest)
unfolding find
find-splits sub [] = elim (Bool-cases (begins sub [])) [
  | inl e ↦ rw e ([], refl)
  | inr e ↦ rw e ([], refl)
]
find-splits sub (c ∷ cs) = elim (Bool-cases (begins sub (c ∷ cs))) [
  | inl e ↦ rw e (c ∷ cs, refl)
  | inr e ↦ rw e (before_of-after_char c (find sub cs) cs (find-splits sub cs))
]

module _ (sub : Text) (filled : begins sub [] ≡ false) where
  find-none : find sub [] ≡ none
  unfolding find
  find-none = rw filled

  find-kept :
      (c : ℕ) (cs : Text) (o : Option (Text × Text))
      → begins sub (c ∷ cs) ≡ false
      → ((rest : Text) × (cs ≡ before_of o ++ rest))
      → find sub (before_of o) ≡ none
      → find sub (before_of (after_char c o)) ≡ none
  find-kept c cs none h e k = find-none
  find-kept c cs (some (b, f)) h (rest, e) k =
      find-cons sub c b (not_begun sub (c ∷ b) rest _ refl (rw e at h)) ∙ rw k

  -- What stands before the first occurrence holds none.
  pub find-first : (t : Text) → find sub (before_of (find sub t)) ≡ none
  unfolding find
  find-first [] = rw filled find-none
  find-first (c ∷ cs) = elim (Bool-cases (begins sub (c ∷ cs))) [
    | inl e ↦ rw e find-none
    | inr e ↦ rw e (find-kept c cs (find sub cs) e (find-splits sub cs) (find-first cs))
  ]
