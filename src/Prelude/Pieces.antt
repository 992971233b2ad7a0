-- ===== src/Prelude/Pieces.antt =====
-- Python's operations on the characters and the pieces of texts.
use Prim.Native.Char as C
use Prim.Native.Char.{Char}
use Prim.Native.String.{String}
use mathlib.Core.Bool.{Bool, true, false, ◌&&◌}
use mathlib.Core.List.{List, [], ◌∷◌}
use pudge_gaming_manager.Prelude.Tests.{◌==◌, if◌then◌else◌}
use pudge_gaming_manager.Prelude.Texts.{◌is◌}

abbrev pub same_char : Char → Char → Bool
same_char c d = C.code c == C.code d

-- `text.replace(a, b)`, for single characters.
unfoldable pub replace_char : (a b : Char) → String → String
replace_char a b String.[] = String.[]
replace_char a b (String.◌∷◌ c s) = String.◌∷◌ (if same_char c a then b else c) (replace_char a b s)

abbrev first_longer : Char → List String → List String
first_longer c [] = (String.◌∷◌ c String.[]) ∷ []
first_longer c (t ∷ ts) = (String.◌∷◌ c t) ∷ ts

-- `text.split(sep)`, for a separator of one character.
unfoldable pub split_on : Char → String → List String
split_on sep String.[] = String.[] ∷ []
split_on sep (String.◌∷◌ c s) =
    let rest = split_on sep s in if same_char c sep then String.[] ∷ rest else first_longer c rest

-- `text.startswith(prefix)`
unfoldable pub starts_with : (prefix text : String) → Bool
starts_with String.[] t = true
starts_with (String.◌∷◌ c p) String.[] = false
starts_with (String.◌∷◌ c p) (String.◌∷◌ d t) = same_char c d && starts_with p t

-- `parts[: len(prefix)] == prefix`
unfoldable pub begins_with : (prefix parts : List String) → Bool
begins_with [] parts = true
begins_with (p ∷ ps) [] = false
begins_with (p ∷ ps) (q ∷ qs) = (q is p) && begins_with ps qs

-- `text in texts`
unfoldable pub among : String → List String → Bool
among t [] = false
among t (u ∷ us) = if t is u then true else among t us
