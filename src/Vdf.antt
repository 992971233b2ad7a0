-- ===== src/Vdf.antt =====
-- games/steam/vdf.py: the reader of Valve's KeyValues text. A text is the list of its code points,
-- and the reader's position is the part of the text that is left.
pub mod Feeding
pub mod Quoting
unfoldable pub use pudge_gaming_manager.Prelude.{Text, same_text}
use pudge_gaming_manager.Prelude.{
  ◌≡◌, refl, ℕ, zero, suc, Bool, true, false, ◌&&◌, ◌||◌, List, [], ◌∷◌, ◌++◌, length, ◌==◌,
  if◌then◌else◌,
}

-- A value is a text or a dict, which keeps the order of its insertions.
mutual
  pub data Value : Type 0 where
    leaf : Text → Value
    object : Dict → Value

  pub data Dict : Type 0 where
    empty : Dict
    entry : Text → Value → Dict → Dict

-- `obj[key] = value`
unfoldable pub put : Text → Value → Dict → Dict
put key value empty = entry key value empty
put key value (entry k v rest) =
    if same_text k key then entry k value rest else entry k v (put key value rest)

-- `VdfError`; the third holds how many characters are left.
pub data VdfError : Type 0 where
  no_value unterminated_object unterminated_string : VdfError
  expected_quote : ℕ → VdfError

-- What a reader returns, with the text that is left. `starved` is the end of the fuel, which the
-- code does not have.
pub data Parsed (A : Type 0) : Type 0 where
  got : A → Text → Parsed A
  bad : VdfError → Parsed A
  starved : Parsed A

infixl 5 ◌>>=◌
abbrev pub ◌>>=◌ : {A B : Type 0} → Parsed A → (A → Text → Parsed B) → Parsed B
got a rest >>= f = f a rest
bad e >>= f = bad e
starved >>= f = starved

-- `ch in " \t\r\n"`
unfoldable pub is_space : ℕ → Bool
is_space c = c == 32 || c == 9 || c == 13 || c == 10

unfoldable pub starts_with_slash : Text → Bool
starts_with_slash [] = false
starts_with_slash (c ∷ cs) = c == 47

-- `_skip_trivia`, outside a comment and inside one.
unfoldable mutual
  pub skip_trivia : Text → Text
  skip_trivia [] = []
  skip_trivia (c ∷ cs) = elim (is_space c) [
    | true ↦ skip_trivia cs
    | false ↦ elim (c == 47 && starts_with_slash cs) [ true ↦ skip_line cs | false ↦ c ∷ cs ]
  ]

  pub skip_line : Text → Text
  skip_line [] = []
  skip_line (c ∷ cs) = elim (c == 10) [ true ↦ skip_trivia cs | false ↦ skip_line cs ]

-- What an escape stands for: `"` and `\` themselves, and any other character with its backslash.
unfoldable pub unescaped : ℕ → Text
unescaped d = if d == 34 || d == 92 then d ∷ [] else 92 ∷ d ∷ []

-- The loop of `_read_string`, with the characters so far. A backslash that comes last leaves nothing
-- to read.
unfoldable pub read_chars : Text → Text → Parsed Text
read_chars chars [] = bad unterminated_string
read_chars chars (c ∷ []) =
    if c == 92
    then bad unterminated_string
    else if c == 34
    then got chars []
    else bad unterminated_string
read_chars chars (c ∷ d ∷ cs) = elim (c == 92) [
  | true ↦ read_chars (chars ++ unescaped d) cs
  | false ↦ elim (c == 34) [
    | true ↦ got chars (d ∷ cs)
    | false ↦ read_chars (chars ++ c ∷ []) (d ∷ cs)
  ]
]

unfoldable pub open_string : Text → Parsed Text
open_string [] = bad (expected_quote 0)
open_string (c ∷ cs) = if c == 34 then read_chars [] cs else bad (expected_quote (length (c ∷ cs)))

-- `_read_string`
unfoldable pub read_string : Text → Parsed Text
read_string cs = open_string (skip_trivia cs)

unfoldable pub read_leaf : Text → Parsed Value
read_leaf cs = read_string cs >>= λ s rest. got (leaf s) rest

unfoldable pub as_object : Parsed Dict → Parsed Value
as_object p = p >>= λ d rest. got (object d) rest

unfoldable mutual
  -- `_read_value`, which reads a text or, after `{`, an object.
  pub read_value : ℕ → Text → Parsed Value
  read_value zero cs = starved
  read_value (suc fuel) cs = elim (skip_trivia cs) [
    | [] ↦ bad no_value
    | c ∷ rest ↦ elim (c == 123) [
      | true ↦ as_object (read_members fuel empty rest)
      | false ↦ read_leaf (c ∷ rest)
    ]
  ]

  -- The loop of `_read_object`, with the members so far.
  pub read_members : ℕ → Dict → Text → Parsed Dict
  read_members zero obj cs = starved
  read_members (suc fuel) obj cs = elim (skip_trivia cs) [
    | [] ↦ bad unterminated_object
    | c ∷ rest ↦ elim (c == 125) [
      | true ↦ got obj rest
      | false ↦ read_string (c ∷ rest) >>= λ key after_key.
          read_value fuel after_key >>= λ value after_value.
          read_members fuel (put key value obj) after_value
    ]
  ]

-- The loop of `parse`.
unfoldable pub read_root : ℕ → Dict → Text → Parsed Dict
read_root zero root cs = starved
read_root (suc fuel) root cs = elim (skip_trivia cs) [
  | [] ↦ got root []
  | c ∷ rest ↦ read_string (c ∷ rest) >>= λ key after_key.
      read_value fuel after_key >>= λ value after_value.
      read_root fuel (put key value root) after_value
]

-- `loads`, with one more than the length of the text as its fuel.
unfoldable pub loads : Text → Parsed Dict
loads text = read_root (suc (length text)) empty text
