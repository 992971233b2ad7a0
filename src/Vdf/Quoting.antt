-- ===== src/Vdf/Quoting.antt =====
-- Quoted texts and what `_read_string` makes of them.
use pudge_gaming_manager.Prelude.{
  ◌≡◌, refl, ◌∙◌, inl, inr, ℕ, Bool, true, false, ◌||◌, [], ◌∷◌, ◌++◌, append_assoc, append-nil,
  ◌==◌, Bool-cases, neither, arith, if◌then◌else◌,
}
use pudge_gaming_manager.Vdf.{
  Text, got, unescaped, read_chars, open_string, read_string, skip_trivia, is_space,
}

-- The text as Steam writes it between quotes: `"` and `\` have a backslash before them.
abbrev pub escape : Text → Text
escape [] = []
escape (c ∷ cs) = if c == 34 || c == 92 then 92 ∷ c ∷ escape cs else c ∷ escape cs

is_filled : Text → Bool
is_filled [] = false
is_filled (c ∷ cs) = true

filled-append : (s t : Text) → is_filled t ≡ true → is_filled (s ++ t) ≡ true
unfolding is_filled
filled-append [] t h = h
filled-append (c ∷ s) t h = refl

elim_false : {A : Type 0} (b : Bool) (x y : A) → b ≡ false → (elim b [ true ↦ x | false ↦ y ]) ≡ y
elim_false false x y e = refl
elim_false true x y e = absurd (ground (arith, e))

read_plain :
    (c : ℕ) (chars tail : Text)
    → (c == 34 || c == 92) ≡ false
    → is_filled tail ≡ true
    → read_chars chars (c ∷ tail) ≡ read_chars (chars ++ c ∷ []) tail
unfolding read_chars is_filled
read_plain c chars [] e h = absurd (ground (arith, h))
read_plain c chars (d ∷ tail) e h =
    let (q, b) = neither (c == 34) (c == 92) e in
    elim_false (c == 92) _ _ b ∙ elim_false (c == 34) _ _ q

read_escaped :
    (c : ℕ) (chars tail : Text)
    → (c == 34 || c == 92) ≡ true
    → read_chars chars (92 ∷ c ∷ tail) ≡ read_chars (chars ++ c ∷ []) tail
unfolding read_chars unescaped
read_escaped c chars tail e = rw e

read_end : (chars rest : Text) → read_chars chars (34 ∷ rest) ≡ got chars rest
unfolding read_chars
read_end chars [] = refl
read_end chars (d ∷ rest) = refl

read_chars-escape :
    (s chars rest : Text) → read_chars chars (escape s ++ 34 ∷ rest) ≡ got (chars ++ s) rest
unfolding is_filled
read_chars-escape [] chars rest = rw (read_end chars rest, append-nil chars)
read_chars-escape (c ∷ s) chars rest =
    let ih = read_chars-escape s (chars ++ c ∷ []) rest in
    let same : (chars ++ c ∷ []) ++ s ≡ chars ++ c ∷ s = append_assoc chars (c ∷ []) s in
    elim (Bool-cases (c == 34 || c == 92)) [
      | inl e ↦ rw (e, read_escaped c chars (escape s ++ 34 ∷ rest) e, ih, same)
      | inr e ↦ rw (
        e,
        read_plain c chars (escape s ++ 34 ∷ rest) e (filled-append (escape s) (34 ∷ rest) refl),
        ih,
        same,
      )
    ]

-- A text that is quoted, with a backslash before each `"` and each `\` of it, reads back as itself,
-- and the reader stops right after it, whatever follows.
pub read_string-quoted : (s rest : Text) → read_string (34 ∷ escape s ++ 34 ∷ rest) ≡ got s rest
unfolding read_string open_string skip_trivia is_space
read_string-quoted s rest = read_chars-escape s [] rest
