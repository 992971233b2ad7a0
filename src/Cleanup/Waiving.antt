-- ===== src/Cleanup/Waiving.antt =====
-- What `component_is_protected` refuses.
use pudge_gaming_manager.Prelude.{
  ◌≡◌, ◌↔◌, refl, sym, subst, ◌⊎◌, inl, inr, String, ◌<>◌, Bool, true, false, List, [], ◌∷◌, ◌++◌,
  map, any, among, In, In-map, In-append_left, In-append_right, In-append, In-of_map, any_of_In,
  ◌is◌, eq_iff, starts_with, Bool-cases, if_ind, arith,
}
use pudge_gaming_manager.Cleanup.Rules.{
  protected_path_fragments, fragment_separators, prefixes_of, matches_unwaived, matches_any,
  is_protected_name, component_is_protected,
}

In-of_any :
    {A : Type 0} (p : A → Bool) (xs : List A) → any p xs ≡ true → (x : A) × In x xs × (p x ≡ true)
In-of_any p [] e = cc e
In-of_any p (x ∷ xs) e = elim (Bool-cases (p x)) [
  | inl here ↦ (x, inl refl, here)
  | inr other ↦ let (y, found, f) = In-of_any p xs (rw other at e) in (y, inr found, f)
]

-- The name is the fragment, or begins with it and a separator.
abbrev pub Matches : String → String → Type 0
Matches lowered fragment =
    (lowered ≡ fragment)
    ⊎ ((separator : String) × In separator fragment_separators
        × (starts_with (fragment <> separator) lowered ≡ true))

-- A fragment that is not waived matches.
abbrev pub MatchesUnwaived : List String → String → List String → Type 0
MatchesUnwaived allowed lowered fragments =
    (fragment : String) × In fragment fragments
    × (among fragment allowed ≡ false)
    × Matches lowered fragment

loop-MatchesUnwaived :
    (allowed : List String) (lowered : String) (fragments : List String)
    → matches_unwaived allowed lowered fragments ≡ true
    → MatchesUnwaived allowed lowered fragments
unfolding matches_unwaived
loop-MatchesUnwaived allowed lowered [] e = cc e
loop-MatchesUnwaived allowed lowered (f ∷ fs) e =
    let later : matches_unwaived allowed lowered fs ≡ true
        → MatchesUnwaived allowed lowered (f ∷ fs) =
      λ e.
        let (g, found, u, m) = loop-MatchesUnwaived allowed lowered fs e in (g, inr found, u, m) in
    if_ind (λ (b : Bool). b ≡ true → MatchesUnwaived allowed lowered (f ∷ fs)) (among f allowed)
      (λ _. later)
      (λ u.
        if_ind (λ (b : Bool). b ≡ true → MatchesUnwaived allowed lowered (f ∷ fs)) (lowered is f)
          (λ same _. (f, inl refl, u, inl ((eq_iff lowered f).0 same)))
          (λ _.
            if_ind (λ (b : Bool). b ≡ true → MatchesUnwaived allowed lowered (f ∷ fs))
              (any (λ separator. starts_with (f <> separator) lowered) fragment_separators)
              (λ begins _.
                let (sep, found, starts) =
                  In-of_any (λ separator. starts_with (f <> separator) lowered) fragment_separators
                    begins in
                (f, inl refl, u, inr (sep, found, starts)))
              (λ _. later)))
      e

MatchesUnwaived-loop :
    (allowed : List String) (lowered : String) (fragments : List String)
    → MatchesUnwaived allowed lowered fragments
    → matches_unwaived allowed lowered fragments ≡ true
unfolding matches_unwaived
MatchesUnwaived-loop allowed lowered [] (g, found, u, m) = absurd found
MatchesUnwaived-loop allowed lowered (f ∷ fs) (g, inr found, u, m) =
    let rest = MatchesUnwaived-loop allowed lowered fs (g, found, u, m) in
    if_ind (λ (b : Bool). b ≡ true) (among f allowed) (λ _. rest)
      (λ _.
        if_ind (λ (b : Bool). b ≡ true) (lowered is f) (λ _. refl)
          (λ _.
            if_ind (λ (b : Bool). b ≡ true)
              (any (λ separator. starts_with (f <> separator) lowered) fragment_separators)
              (λ _. refl) (λ _. rest)))
MatchesUnwaived-loop allowed lowered (f ∷ fs) (g, inl here, u, m) =
    if_ind (λ (b : Bool). b ≡ true) (among f allowed) (λ w. cc (here, u, w))
      (λ _.
        if_ind (λ (b : Bool). b ≡ true) (lowered is f) (λ _. refl)
          (λ other.
            if_ind (λ (b : Bool). b ≡ true)
              (any (λ separator. starts_with (f <> separator) lowered) fragment_separators)
              (λ _. refl) (λ never. missed (subst (Matches lowered) here m) other never)))
  where
    missed :
        Matches lowered f
        → (lowered is f) ≡ false
        → any (λ separator. starts_with (f <> separator) lowered) fragment_separators ≡ false
        → matches_unwaived allowed lowered fs ≡ true
    missed (inl same) other never = cc ((eq_iff lowered f).1 same, other)
    missed (inr (sep, found, starts)) other never = cc (
      any_of_In (λ separator. starts_with (f <> separator) lowered) sep fragment_separators found
          starts,
      never,
    )

among-In : (t : String) (ts : List String) → among t ts ≡ true → In t ts
unfolding among
among-In t [] e = cc e
among-In t (u ∷ us) e = elim (Bool-cases (t is u)) [
  | inl same ↦ inl ((eq_iff t u).0 same)
  | inr other ↦ inr (among-In t us (rw other at e))
]

among-of_In : (t : String) (ts : List String) → In t ts → among t ts ≡ true
unfolding among
among-of_In t [] h = absurd h
among-of_In t (u ∷ us) (inl same) = rw ((eq_iff t u).1 same)
among-of_In t (u ∷ us) (inr found) =
    if_ind (λ (b : Bool). b ≡ true) (t is u) (λ _. refl) (λ _. among-of_In t us found)

In-prefixes_of :
    (p : String) (fragments : List String)
    → In p (prefixes_of fragments)
    → (f : String) × In f fragments × (sep : String) × In sep fragment_separators × (p ≡ f <> sep)
unfolding prefixes_of
In-prefixes_of p [] h = absurd h
In-prefixes_of p (f ∷ fs) h =
    elim (In-append p (map (λ sep. f <> sep) fragment_separators) (prefixes_of fs) h) [
      | inl here ↦
          let (sep, found, e) = In-of_map (λ sep. f <> sep) p fragment_separators here in
          (f, inl refl, sep, found, e)
      | inr there ↦
          let (g, found, sep, is_sep, e) = In-prefixes_of p fs there in
          (g, inr found, sep, is_sep, e)
    ]

prefix-In :
    (f sep : String) (fragments : List String)
    → In f fragments
    → In sep fragment_separators
    → In (f <> sep) (prefixes_of fragments)
unfolding prefixes_of
prefix-In f sep [] h found = absurd h
prefix-In f sep (g ∷ fs) (inl here) found =
    subst (λ h. In (h <> sep) (map (λ s. g <> s) fragment_separators ++ prefixes_of fs)) (sym here)
      (In-append_left (g <> sep) (map (λ s. g <> s) fragment_separators) _
        (In-map (λ s. g <> s) sep fragment_separators found))
prefix-In f sep (g ∷ fs) (inr there) found =
    In-append_right (f <> sep) (map (λ s. g <> s) fragment_separators) _
      (prefix-In f sep fs there found)

fast-MatchesUnwaived :
    (lowered : String) (fragments : List String)
    → (matches_any lowered fragments ≡ true) ↔ MatchesUnwaived [] lowered fragments
unfolding matches_any among
fast-MatchesUnwaived lowered fragments = (
  λ e. elim (Bool-cases (among lowered fragments)) [
    | inl listed ↦ (lowered, among-In lowered fragments listed, refl, inl refl)
    | inr other ↦
        let (p, found, starts) =
          In-of_any (λ prefix. starts_with prefix lowered) (prefixes_of fragments)
            (rw other at e) in
        let (f, listed, sep, is_sep, same) = In-prefixes_of p fragments found in
        (f, listed, refl, inr (sep, is_sep, rw same at starts))
  ],
  λ (f, listed, u, m). matched f listed m,
)
  where
    matched :
        (f : String) → In f fragments → Matches lowered f → matches_any lowered fragments ≡ true
    matched f listed (inl same) =
        ground
          (arith, among-of_In lowered fragments (subst (λ g. In g fragments) (sym same) listed))
    matched f listed (inr (sep, is_sep, starts)) = ground (
      arith,
      any_of_In (λ prefix. starts_with prefix lowered) (f <> sep) (prefixes_of fragments)
          (prefix-In f sep fragments listed is_sep) starts,
    )

-- A component is protected exactly if it equals a fragment that is not waived, or begins with one
-- and a separator, whether the look-ups or the loop decide it.
pub component_is_protected-MatchesUnwaived :
    (lower : String → String) (component : String) (allowed : List String)
    → (component_is_protected lower component allowed ≡ true)
      ↔ MatchesUnwaived allowed (lower component) protected_path_fragments
unfolding component_is_protected is_protected_name
component_is_protected-MatchesUnwaived lower component [] =
    fast-MatchesUnwaived (lower component) protected_path_fragments
component_is_protected-MatchesUnwaived lower component (a ∷ allowed) = (
  loop-MatchesUnwaived (a ∷ allowed) (lower component) protected_path_fragments,
  MatchesUnwaived-loop (a ∷ allowed) (lower component) protected_path_fragments,
)
