-- ===== src/Tweak/Errors.antt =====
-- utilities/exceptions.py: the errors that the program raises, and how a call ends.
use pudge_gaming_manager.Prelude.{
  ◌≡◌, String, Option, none, some, ◌<>◌, filled, ends_with, ◌||◌, if◌then◌else◌,
}

-- `PgmError` and its subclasses differ in the texts that they are built with. Any other exception
-- is known by `str(exc)`.
pub data Exception : Type 0 where
  pgm_error : (what reason : String) (remedy : Option String) → Exception
  other_error : String → Exception

-- A call returns, raises, or never comes back because the process ended inside it.
pub data Result (A : Type 0) : Type 0 where
  ok : A → Result A
  raised : Exception → Result A
  killed : Result A

abbrev pub map_result : {A B : Type 0} → (A → B) → Result A → Result B
map_result f (ok a) = ok (f a)
map_result f (raised e) = raised e
map_result f killed = killed

remedy_line : Option String → String
remedy_line none = ""
remedy_line (some remedy) = if filled remedy then "\nНужно:    " <> remedy else ""

-- `PgmError.user_message`: the lines are joined by a line feed.
unfoldable pub user_message : String → String → Option String → String
unfolding remedy_line
user_message what reason remedy =
    (if ends_with what "." || (ends_with what "!" || ends_with what "?") then what else what <> ".")
    <> ((if filled reason then "\n\nПричина:  " <> reason else "") <> remedy_line remedy)

-- `str(exc)`
unfoldable pub error_text : Exception → String
unfolding user_message
error_text (pgm_error what reason remedy) = user_message what reason remedy
error_text (other_error message) = message

pub ok-injective : {A : Type 0} {a b : A} → ok a ≡ ok b → a ≡ b
ok-injective e = cc e
