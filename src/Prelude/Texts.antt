-- ===== src/Prelude/Texts.antt =====
-- Python's operations on whole texts.
use Prim.Native.Nat.{Ordering}
use Prim.Native.String.{String, ◌++◌}
use Prim.Native.String as S
use mathlib.Core.Bool.{Bool, true, false}
use text.Mathlib.Text
use pudge_gaming_manager.Prelude.Tests.{if◌then◌else◌}

infix 50 ◌is◌
abbrev pub ◌is◌ : String → String → Bool
s is t = Text.◌==◌ s t

-- `bool(s)`
abbrev pub filled : String → Bool
filled String.[] = false
filled (String.◌∷◌ c s) = true

-- `a or b` on texts
abbrev pub or_text : String → String → String
or_text a b = if filled a then a else b

-- `s.endswith(t)`, for a `t` of one character.
abbrev pub ends_with : String → String → Bool
ends_with String.[] t = false
ends_with (String.◌∷◌ c String.[]) t = (String.◌∷◌ c String.[]) is t
ends_with (String.◌∷◌ c (String.◌∷◌ d s)) t = ends_with (String.◌∷◌ d s) t

-- SQLite's order of texts.
abbrev pub at_most : String → String → Bool
at_most s t = elim (S.compare s t) [ Ordering.gt ↦ false | _ ↦ true ]
