-- ===== src/Samples/Texts.antt =====
-- The theorems on Steam's files, at small texts.
use pudge_gaming_manager.Prelude.{◌≡◌, ◌≢◌, [], ◌∷◌, ◌++◌}
use pudge_gaming_manager.Vdf.{Text, got, starved, read_string, loads}
use pudge_gaming_manager.Vdf.Quoting.{escape, read_string-quoted}
use pudge_gaming_manager.Vdf.Feeding.{loads_ends}

-- `a"b`, and `"a" { "b" "c" }`
abbrev with_quote : Text
with_quote = 97 ∷ 34 ∷ 98 ∷ []

abbrev nested : Text
nested = 34 ∷ 97 ∷ 34 ∷ 32 ∷ 123 ∷ 32 ∷ 34 ∷ 98 ∷ 34 ∷ 32 ∷ 34 ∷ 99 ∷ 34 ∷ 32 ∷ 125 ∷ []

read_string-quoted_example :
    read_string (34 ∷ escape with_quote ++ 34 ∷ 32 ∷ []) ≡ got with_quote (32 ∷ [])
read_string-quoted_example = read_string-quoted with_quote (32 ∷ [])

loads_ends_example : loads nested ≢ starved
loads_ends_example = loads_ends nested
