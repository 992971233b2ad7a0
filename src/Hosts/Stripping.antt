-- ===== src/Hosts/Stripping.antt =====
-- `rstrip`, `lstrip` and the newline at the end, applied twice.
use pudge_gaming_manager.Prelude.{
  ◌≡◌, inl, inr, refl, ap, ℕ, Bool, true, false, ◌&&◌, not, [], ◌∷◌, ◌++◌, Bool-cases, Text,
}
use pudge_gaming_manager.Hosts.{is_empty, lstrip, rstrip, ends_with_newline, newline, ended, is_eol}
use pudge_gaming_manager.Hosts.Rewriting.{and_false, lead}

module _ (p : ℕ → Bool) where
  pub rstrip-trailing : (v w : Text) → rstrip p w ≡ [] → rstrip p (v ++ w) ≡ rstrip p v
  unfolding rstrip
  rstrip-trailing [] w h = h
  rstrip-trailing (c ∷ v) w h = rw (rstrip-trailing v w h)

  pub rstrip_idem : (v : Text) → rstrip p (rstrip p v) ≡ rstrip p v
  unfolding rstrip
  rstrip_idem [] = refl
  rstrip_idem (c ∷ v) = elim (Bool-cases (is_empty (rstrip p v) && p c)) [
    | inl e ↦ rw e
    | inr e ↦ rw (e, rstrip_idem v, e)
  ]

  pub rstrip-splits : (v : Text) → (rest : Text) × (v ≡ rstrip p v ++ rest)
  unfolding rstrip
  rstrip-splits [] = ([], refl)
  rstrip-splits (c ∷ v) = elim (Bool-cases (is_empty (rstrip p v) && p c)) [
    | inl e ↦ rw e (c ∷ v, refl)
    | inr e ↦ let (rest, same) = rstrip-splits v in rw e (rest, ap (λ t. c ∷ t) same)
  ]

pub rstrip-lead : (before : Text) → rstrip is_eol (lead before) ≡ rstrip is_eol before
unfolding newline is_eol rstrip is_empty
rstrip-lead [] = refl
rstrip-lead (c ∷ cs) = rstrip-trailing is_eol (c ∷ cs) (newline ++ newline) refl

ends-newline : (t : Text) → ends_with_newline (t ++ newline) ≡ true
unfolding ends_with_newline newline
ends-newline [] = refl
ends-newline (c ∷ []) = refl
ends-newline (c ∷ d ∷ []) = refl
ends-newline (c ∷ d ∷ e ∷ t) = ends-newline (d ∷ e ∷ t)

pub ended_idem : (t : Text) → ended (ended t) ≡ ended t
unfolding ended
ended_idem t = elim (Bool-cases (not (is_empty t) && not (ends_with_newline t))) [
  | inl e ↦ rw (e, ends-newline t, and_false (not (is_empty (t ++ newline))))
  | inr e ↦ rw (e, e)
]

lstrip-ended_cons :
    (c : ℕ) (cs : Text) → is_eol c ≡ false → lstrip is_eol (ended (c ∷ cs)) ≡ ended (c ∷ cs)
unfolding ended lstrip
lstrip-ended_cons c cs h =
    elim (Bool-cases (not (is_empty (c ∷ cs)) && not (ends_with_newline (c ∷ cs)))) [
      | inl e ↦ rw (e, h)
      | inr e ↦ rw (e, h)
    ]

-- A text without newlines at its start has none when one is put at its end.
pub lstrip-ended : (t : Text) → lstrip is_eol (ended (lstrip is_eol t)) ≡ ended (lstrip is_eol t)
unfolding lstrip ended is_empty
lstrip-ended [] = refl
lstrip-ended (c ∷ t) = elim (Bool-cases (is_eol c)) [
  | inl e ↦ rw e (lstrip-ended t)
  | inr e ↦ rw e (lstrip-ended_cons c t e)
]

pub lstrip-newline : (t : Text) → lstrip is_eol (newline ++ t) ≡ lstrip is_eol t
unfolding lstrip is_eol newline
lstrip-newline t = refl
