-- ===== src/Hosts/Reading.antt =====
-- What Python reads in the lines of the block: `text.splitlines()`, `text.split()` and `text.strip()`.
use pudge_gaming_manager.Prelude.{
  ◌≡◌, refl, ap, subst, ◌∙◌, ℕ, Bool, false, List, [], ◌∷◌, ◌++◌, append_assoc, append-nil, any,
  neither, arith, Text,
}
use pudge_gaming_manager.Hosts.{
  is_empty, is_white, is_break, lstrip, rstrip, strip, non_empty, words, lines, begins, is_comment,
  names_of, hosts_in, entry, blackhole,
}

-- A name that an entry can hold: not empty, and without white space.
pub record IsHost (name : Text) : Type 0 where
  pub filled : is_empty name ≡ false
  pub solid : any is_white name ≡ false

is_break-is_white : (c : ℕ) → is_white c ≡ false → is_break c ≡ false
unfolding is_break is_white
is_break-is_white c h = ground (arith, h)

pub lines-plain :
    (w line t : Text)
    → any is_break w ≡ false
    → lines false line (w ++ t) ≡ lines false (line ++ w) t
unfolding lines
lines-plain [] line t h = rw append-nil
lines-plain (c ∷ w) line t h =
    let (here, later) = neither (is_break c) (any is_break w) h in
    rw (here, lines) (lines-plain w (line ++ c ∷ []) t later ∙ rw append_assoc)

words-plain : (w word t : Text) → any is_white w ≡ false → words word (w ++ t) ≡ words (word ++ w) t
unfolding words
words-plain [] word t h = rw append-nil
words-plain (c ∷ w) word t h =
    let (here, later) = neither (is_white c) (any is_white w) h in
    rw (here, words) (words-plain w (word ++ c ∷ []) t later ∙ rw append_assoc)

rstrip-solid : (p : ℕ → Bool) (w : Text) → any p w ≡ false → rstrip p w ≡ w
unfolding rstrip
rstrip-solid p [] h = refl
rstrip-solid p (c ∷ w) h = ground (arith, h, rstrip-solid p w)

is_empty-append : (v w : Text) → is_empty w ≡ false → is_empty (v ++ w) ≡ false
unfolding is_empty
is_empty-append [] w h = h
is_empty-append (c ∷ v) w h = refl

rstrip-append :
    (p : ℕ → Bool) (v w : Text)
    → is_empty (rstrip p w) ≡ false
    → rstrip p (v ++ w) ≡ v ++ rstrip p w
unfolding rstrip
rstrip-append p [] w h = refl
rstrip-append p (c ∷ v) w h = rw (rstrip-append p v w h, is_empty-append v (rstrip p w) h)

solid-unbroken : (w : Text) → any is_white w ≡ false → any is_break w ≡ false
solid-unbroken [] h = refl
solid-unbroken (c ∷ w) h =
    let (here, later) = neither (is_white c) (any is_white w) h in
    rw (is_break-is_white c here, solid-unbroken w later)

module _ (name : Text) (host : IsHost name) where
  open host use {filled, solid}

  pub entry-unbroken : any is_break (entry name) ≡ false
  unfolding entry blackhole is_break
  entry-unbroken = solid-unbroken name solid

  strip-entry : strip (entry name) ≡ entry name
  unfolding strip entry rstrip lstrip blackhole is_white is_empty
  strip-entry = rw (rstrip-solid is_white name solid, filled)

  words-name : words [] name ≡ name ∷ []
  unfolding words non_empty
  words-name =
      subst (λ t. words [] t ≡ name ∷ []) (append-nil name)
        (words-plain name [] [] solid ∙ rw filled)

  words-entry : words [] (entry name) ≡ blackhole ∷ name ∷ []
  unfolding entry blackhole words is_white non_empty is_empty
  words-entry = ap (λ ws. blackhole ∷ ws) words-name

  entry-commented : is_comment (entry name) ≡ false
  unfolding is_comment is_empty begins entry blackhole
  entry-commented = refl

  pub names-entry : (rest : List Text) → hosts_in (entry name ∷ rest) ≡ name ∷ hosts_in rest
  unfolding hosts_in names_of
  names-entry rest = rw (strip-entry, entry-commented, words-entry)
