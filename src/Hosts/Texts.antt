-- ===== src/Hosts/Texts.antt =====
-- Python's operations on texts that windows/hosts.py uses, on the list of a text's code points.
use pudge_gaming_manager.Prelude.{
  ℕ, Bool, true, false, ◌&&◌, ◌||◌, Option, none, some, List, [], ◌∷◌, ◌++◌, ◌==◌, leb,
  if◌then◌else◌, Text, same_text,
}

unfoldable pub is_empty : Text → Bool
is_empty [] = true
is_empty (c ∷ cs) = false

-- `text.startswith(prefix)`
unfoldable pub begins : (prefix text : Text) → Bool
begins [] t = true
begins (c ∷ p) [] = false
begins (c ∷ p) (d ∷ t) = c == d && begins p t

-- `text[len(prefix):]`
unfoldable pub drop_length : (prefix text : Text) → Text
drop_length [] t = t
drop_length (c ∷ p) [] = []
drop_length (c ∷ p) (d ∷ t) = drop_length p t

abbrev pub after_char : ℕ → Option (Text × Text) → Option (Text × Text)
after_char c none = none
after_char c (some (before, from)) = some (c ∷ before, from)

-- `text.find(sub)`, as what stands before the first occurrence and what begins with it.
unfoldable pub find : (sub text : Text) → Option (Text × Text)
find sub [] = if begins sub [] then some ([], []) else none
find sub (c ∷ cs) = if begins sub (c ∷ cs) then some ([], c ∷ cs) else after_char c (find sub cs)

-- A character that `str.isspace` accepts.
unfoldable pub is_white : ℕ → Bool
is_white c =
    leb 9 c && leb c 13
    || leb 28 c && leb c 32
    || c == 133
    || c == 160
    || c == 5760
    || leb 8192 c && leb c 8202
    || c == 8232
    || c == 8233
    || c == 8239
    || c == 8287
    || c == 12288

-- A character at which `str.splitlines` ends a line.
unfoldable pub is_break : ℕ → Bool
is_break c = leb 10 c && leb c 13 || leb 28 c && leb c 30 || c == 133 || c == 8232 || c == 8233

-- `text.lstrip(chars)` and `text.rstrip(chars)`, for the characters that a test accepts.
unfoldable pub lstrip : (ℕ → Bool) → Text → Text
lstrip p [] = []
lstrip p (c ∷ cs) = if p c then lstrip p cs else c ∷ cs

unfoldable pub rstrip : (ℕ → Bool) → Text → Text
rstrip p [] = []
rstrip p (c ∷ cs) = let rest = rstrip p cs in if is_empty rest && p c then [] else c ∷ rest

-- `text.strip()`
unfoldable pub strip : Text → Text
strip t = rstrip is_white (lstrip is_white t)

unfoldable pub non_empty : Text → List Text
non_empty t = if is_empty t then [] else t ∷ []

-- `text.split()`, with the characters of the word so far.
unfoldable pub words : Text → Text → List Text
words word [] = non_empty word
words word (c ∷ cs) = elim (is_white c) [
  | true ↦ non_empty word ++ words [] cs
  | false ↦ words (word ++ c ∷ []) cs
]

-- `text.splitlines()`, with whether the last character was a CR, which takes a LF with it, and the
-- characters of the line so far.
unfoldable pub lines : Bool → Text → Text → List Text
lines after_cr line [] = non_empty line
lines after_cr line (c ∷ cs) = elim (after_cr && c == 10) [
  | true ↦ lines false line cs
  | false ↦ elim (is_break c) [
    | true ↦ line ∷ lines (c == 13) [] cs
    | false ↦ lines false (line ++ c ∷ []) cs
  ]
]

-- `text.endswith("\r\n")`
unfoldable pub ends_with_newline : Text → Bool
ends_with_newline [] = false
ends_with_newline (c ∷ []) = false
ends_with_newline (c ∷ d ∷ []) = c == 13 && d == 10
ends_with_newline (c ∷ d ∷ e ∷ t) = ends_with_newline (d ∷ e ∷ t)

-- `text in texts`
unfoldable pub text_among : Text → List Text → Bool
text_among t [] = false
text_among t (u ∷ us) = if same_text u t then true else text_among t us
