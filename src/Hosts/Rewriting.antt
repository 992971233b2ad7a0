-- ===== src/Hosts/Rewriting.antt =====
-- The text that `set_block` writes: what `_split` finds in it, and what another `set_block` makes of it.
use pudge_gaming_manager.Prelude.{
  ◌≡◌, inl, inr, refl, sym, ap, subst, ◌∙◌, ℕ, Bool, true, false, ◌&&◌, none, some, List, [], ◌∷◌,
  ◌++◌, append_assoc, any, map, ◌==◌, ==_iff, Bool-cases, neither, if◌then◌else◌, Text, All,
}
use pudge_gaming_manager.Hosts.{
  is_empty, non_empty, is_white, is_break, lines, begins, find, begin_marker, end_marker, newline,
  cut_block, split_at, split, hosts_in, entry, blackhole, body, block, rebuild, ended,
}
use pudge_gaming_manager.Hosts.Finding.{prepend, find-past, find-here, drop_length-append}
use pudge_gaming_manager.Hosts.Reading.{IsHost, lines-plain, entry-unbroken, names-entry}

pub and_false : (b : Bool) → (b && false) ≡ false
and_false true = refl
and_false false = refl

-- The lines of a block between its markers, without the CR before the first.
abbrev between : List Text → Text
between [] = 10 ∷ []
between (name ∷ names) = 10 ∷ entry name ++ 13 ∷ between names

not_space : (c : ℕ) → is_white c ≡ false → (32 == c) ≡ false
unfolding is_white
not_space c h = elim (Bool-cases (32 == c)) [
  | inl e ↦
      let same : 32 ≡ c = (==_iff 32 c).0 e in
      let white : true ≡ false = subst (λ d. is_white d ≡ false) (sym same) h in cc white
  | inr e ↦ e
]

-- The second character of the marker is a space.
not_marked : (s w : Text) → any is_white w ≡ false → begins (35 ∷ 32 ∷ s) w ≡ false
unfolding begins
not_marked s [] h = refl
not_marked s (c ∷ []) h = and_false (35 == c)
not_marked s (c ∷ d ∷ w) h =
    let (later, rest) = neither (is_white d) (any is_white w) (neither (is_white c) _ h).1 in
    rw (not_space d later) (and_false (35 == c))

no_mark : (s w : Text) → any is_white w ≡ false → find (35 ∷ 32 ∷ s) w ≡ none
unfolding find begins
no_mark s [] h = refl
no_mark s (c ∷ w) h =
    rw (not_marked s (c ∷ w) h, no_mark s w (neither (is_white c) (any is_white w) h).1)

no_end_in_entry :
    (name : Text) → any is_white name ≡ false → find end_marker (10 ∷ entry name) ≡ none
unfolding find end_marker begins entry blackhole
no_end_in_entry name h = rw (no_mark _ name h)

find-body :
    (hosts : List Text) (t : Text)
    → All IsHost hosts
    → find end_marker (10 ∷ body hosts ++ t) ≡ some (between hosts, end_marker ++ (newline ++ t))
unfolding body find begins end_marker newline
find-body [] t h = refl
find-body (name ∷ names) t (host, more) =
    let shape : (10 ∷ body (name ∷ names) ++ t) ≡ (10 ∷ entry name) ++ 13 ∷ (10 ∷ body names ++ t) =
      append_assoc (10 ∷ entry name) (13 ∷ 10 ∷ body names) t in
    ap (find end_marker) shape
    ∙ find-past end_marker (10 ∷ entry name) (10 ∷ body names ++ t) 13 refl
        (no_end_in_entry name host.solid)
    ∙ ap (prepend ((10 ∷ entry name) ++ 13 ∷ [])) (find-body names t more)
    ∙ rw (append_assoc (10 ∷ entry name) (13 ∷ []) (between names))

lines-between :
    (hosts : List Text) → All IsHost hosts → lines true [] (between hosts) ≡ map entry hosts
unfolding lines non_empty is_empty is_break
lines-between [] h = refl
lines-between (name ∷ names) (host, more) =
    lines-plain (entry name) [] (13 ∷ between names) (entry-unbroken name host)
    ∙ rw (lines-between names more)

pub hosts_in-entries : (hosts : List Text) → All IsHost hosts → hosts_in (map entry hosts) ≡ hosts
unfolding hosts_in
hosts_in-entries [] h = refl
hosts_in-entries (name ∷ names) (host, more) =
    names-entry name host _ ∙ rw (hosts_in-entries names more)

block-append :
    (hosts : List Text) (t : Text) → block hosts ++ t ≡ begin_marker ++ (13 ∷ 10 ∷ body hosts ++ t)
unfolding block newline
block-append hosts t = append_assoc begin_marker (13 ∷ 10 ∷ body hosts) t

find-begin_marker :
    (hosts : List Text) (t : Text)
    → All IsHost hosts
    → find end_marker (begin_marker ++ (13 ∷ 10 ∷ body hosts ++ t))
      ≡ some (begin_marker ++ 13 ∷ between hosts, end_marker ++ (newline ++ t))
unfolding find end_marker begin_marker begins
find-begin_marker hosts t good =
    find-past end_marker begin_marker (10 ∷ body hosts ++ t) 13 refl refl
    ∙ ap (prepend (begin_marker ++ 13 ∷ [])) (find-body hosts t good)

-- The block, as `_split` finds it where the marker is.
cut_block-block :
    (before : Text) (hosts : List Text) (t : Text)
    → All IsHost hosts
    → cut_block before (block hosts ++ t) (find end_marker (block hosts ++ t))
      ≡ (record { before = before; block_lines = [] ∷ map entry hosts; after = newline ++ t })
unfolding cut_block lines is_break
cut_block-block before hosts t good = rw (
  block-append hosts t,
  find-begin_marker hosts t good,
  drop_length-append begin_marker (13 ∷ between hosts),
  drop_length-append end_marker (newline ++ t),
  lines-between hosts good,
)

-- What separates the block from the text before it.
abbrev pub lead : Text → Text
lead before = if is_empty before then [] else before ++ (newline ++ newline)

find-block :
    (hosts : List Text) (t : Text)
    → find begin_marker (block hosts ++ t) ≡ some ([], block hosts ++ t)
find-block hosts t =
    subst (λ x. find begin_marker x ≡ some ([], x)) (sym (block-append hosts t))
      (find-here begin_marker (13 ∷ 10 ∷ body hosts ++ t))

find-after_lines :
    (before rest : Text)
    → find begin_marker before ≡ none
    → find begin_marker rest ≡ some ([], rest)
    → find begin_marker ((before ++ (newline ++ newline)) ++ rest)
      ≡ some (before ++ (newline ++ newline), rest)
unfolding newline begin_marker find begins
find-after_lines before rest free found =
    ap (find begin_marker) (append_assoc before (newline ++ newline) rest)
    ∙ find-past begin_marker before (10 ∷ 13 ∷ 10 ∷ rest) 13 refl free
    ∙ rw (found, append_assoc before (13 ∷ []) (10 ∷ 13 ∷ 10 ∷ []))

-- Where `_split` finds the block that follows a text without a marker.
find-lead :
    (before : Text) (hosts : List Text) (t : Text)
    → find begin_marker before ≡ none
    → find begin_marker (lead before ++ (block hosts ++ t)) ≡ some (lead before, block hosts ++ t)
unfolding is_empty
find-lead [] hosts t free = find-block hosts t
find-lead (c ∷ cs) hosts t free = find-after_lines (c ∷ cs) _ free (find-block hosts t)

pub split-rebuild :
    (name : Text) (names : List Text) (before after : Text)
    → All IsHost (name ∷ names)
    → find begin_marker before ≡ none
    → split (rebuild (name ∷ names) before after) ≡ (record {
      before = lead before;
      block_lines = [] ∷ map entry (name ∷ names);
      after = newline ++ ended after;
    })
unfolding split split_at rebuild newline
split-rebuild name names before after good free =
    rw (find-lead before (name ∷ names) (ended after) free, cut_block-block _ _ _ good)
