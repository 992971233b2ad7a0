-- ===== src/History/Decoding.antt =====
-- `decode`, on what the store has written.
use pudge_gaming_manager.Prelude.{
  ◌≡◌, refl, ap, ℕ, String, Bool, true, false, Option, none, some, ◌is◌, ◌||◌, ◌↔◌,
}
use pudge_gaming_manager.Tweak.{Value, null, number, text, other}
use pudge_gaming_manager.History.{stored_text, decode, decode_text}

module _ (digits : ℕ → String) (int : String → Option ℕ) where
  -- What the text of a value still tells: a number under the kinds of numbers, and a text under the
  -- other kinds, or one that is no number. Nothing tells bytes or a list from their text.
  abbrev pub IsRecoverable : Value → (numeric : Bool) → Type 0
  IsRecoverable null b = Unit
  IsRecoverable (number n) b = b ≡ true
  IsRecoverable (text s) b = b ≡ true → int s ≡ none
  IsRecoverable (other s) b = ⊥

  abbrev read_as : String → Option ℕ → Value
  read_as s o = elim o [ none ↦ text s | some n ↦ number n ]

  read_as-text : (s : String) (o : Option ℕ) → (read_as s o ≡ text s) ↔ (true ≡ true → o ≡ none)
  read_as-text s none = (λ _ _. refl, λ _. refl)
  read_as-text s (some n) = (λ e. cc e, λ h. cc (h refl))

  read_as-other : (s : String) (o : Option ℕ) → (read_as s o ≡ other s) ↔ ⊥
  read_as-other s none = (λ e. cc e, λ h. absurd h)
  read_as-other s (some n) = (λ e. cc e, λ h. absurd h)

  module _ (reads : (n : ℕ) → int (digits n) ≡ some n) where
    decode_text-number :
        (n : ℕ) (b : Bool) → (decode_text digits int (digits n) b ≡ number n) ↔ (b ≡ true)
    unfolding decode_text
    decode_text-number n true = (λ _. refl, λ _. ap (read_as (digits n)) (reads n))
    decode_text-number n false = (λ e. cc e, λ e. cc e)

    decode_text-text :
        (s : String) (b : Bool) → (decode_text digits int s b ≡ text s) ↔ (b ≡ true → int s ≡ none)
    unfolding decode_text
    decode_text-text s true = read_as-text s (int s)
    decode_text-text s false = (λ _ e. cc e, λ _. refl)

    decode_text-other : (s : String) (b : Bool) → (decode_text digits int s b ≡ other s) ↔ ⊥
    unfolding decode_text
    decode_text-other s true = read_as-other s (int s)
    decode_text-other s false = (λ e. cc e, λ h. absurd h)

    -- Where `int` reads what `str` writes, a value comes back from the text that the store keeps of
    -- it exactly if it is None, a number whose kind is REG_DWORD or REG_QWORD, or a text that is not
    -- of these two kinds or that `int` does not read. Bytes and lists never do.
    pub decode-stored_text :
        (v : Value) (kind : String)
        → (decode digits int (stored_text digits int v) kind ≡ v)
          ↔ IsRecoverable v ((kind is "REG_DWORD") || (kind is "REG_QWORD"))
    unfolding decode stored_text
    decode-stored_text null kind = (λ _. tt, λ _. refl)
    decode-stored_text (number n) kind = decode_text-number n _
    decode-stored_text (text s) kind = decode_text-text s _
    decode-stored_text (other s) kind = decode_text-other s _
