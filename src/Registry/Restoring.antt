-- ===== src/Registry/Restoring.antt =====
-- `backup` and `restore` on a registry that keeps what is written to it.
use pudge_gaming_manager.Prelude.{
  ◌≡◌, refl, ap, subst, ◌∙◌, ◌⊎◌, inl, inr, ℕ, String, Bool, true, Option, none, some,
  some-injective, option_ind, Bool-cases, arith, ◌==◌, ==_iff, if◌then◌else◌,
}
use pudge_gaming_manager.Tweak.{Value, Result, ok, raised, killed, ok-injective}
use pudge_gaming_manager.Registry.{
  Winreg, Place, RegistryValue, Machine, Answer, got, missing, denied, broken, check_allowed, read,
  read_answer, found_value, absent_value, shown_type, set_value, erase, written, write_typed, write,
  erased, delete_value, restored, done_with, backup, restore, note, place_of, name_of_type,
  type_of_name,
}

-- Windows keeps a value that it accepted, with its type, and forgets one that it deleted.
pub record IsRegistry (W : Winreg) : Type 0 where
  pub set_get :
      (p : Place) (c : Bool) (code : ℕ) (v : Value) (r : W.R)
      → (W.set p c code v r).0 ≡ got tt
      → W.query p (W.set p c code v r).1 ≡ got (v, code)
  pub delete_get :
      (p : Place) (r : W.R) → (W.delete p r).0 ≡ got tt → W.query p (W.delete p r).1 ≡ missing
  pub missing_get :
      (p : Place) (r : W.R) → (W.delete p r).0 ≡ missing → W.query p (W.delete p r).1 ≡ missing

-- A type that the program can write back.
abbrev pub IsSupported : ℕ → Type 0
IsSupported code = (name : String) × (name_of_type code ≡ some name)

-- One branch of `name_of_type`.
one_type :
    (code k : ℕ) (s name : String) (rest : Option String)
    → (if code == k then some s else rest) ≡ some name
    → (name ≡ s) × (code ≡ k) ⊎ (rest ≡ some name)
one_type code k s name rest e = elim (Bool-cases (code == k)) [
  | inl same ↦ inl (let e' : some s ≡ some name = rw same at e in cc e', (==_iff code k).0 same)
  | inr other ↦ inr (rw other at e)
]

pub type_of_name-name :
    (code : ℕ) (name : String) → name_of_type code ≡ some name → type_of_name name ≡ some code
unfolding name_of_type type_of_name
type_of_name-name code name e = elim (one_type code 1 "REG_SZ" name _ e) [
  | inl (n, c) ↦ rw (n, c)
  | inr e ↦ elim (one_type code 2 "REG_EXPAND_SZ" name _ e) [
    | inl (n, c) ↦ rw (n, c)
    | inr e ↦ elim (one_type code 4 "REG_DWORD" name _ e) [
      | inl (n, c) ↦ rw (n, c)
      | inr e ↦ elim (one_type code 11 "REG_QWORD" name _ e) [
        | inl (n, c) ↦ rw (n, c)
        | inr e ↦ elim (one_type code 3 "REG_BINARY" name _ e) [
          | inl (n, c) ↦ rw (n, c)
          | inr e ↦ elim (one_type code 7 "REG_MULTI_SZ" name none e) [
            | inl (n, c) ↦ rw (n, c)
            | inr e ↦ cc e
          ]
        ]
      ]
    ]
  ]
]

module _ (W : Winreg) (lower : String → String) (digits : ℕ → String) (enforce : Bool)
    (registry : IsRegistry W) where
  module _ (p : Place) where
    -- If the call returned, the value reads so.
    abbrev pub Reads : {A : Type 0} → Answer (Value × ℕ) → Result A × Machine W → Type 0
    Reads {A} x r = (a : A) → r.0 ≡ ok a → W.query p r.1.keys ≡ x

    written-Reads :
        (x : Answer (Value × ℕ)) (v : Value) (a : Answer Unit) (m : Machine W)
        → (a ≡ got tt → W.query p m.keys ≡ x)
        → Reads x (written W lower digits enforce p v a m)
    unfolding written note
    written-Reads x v (got tt) m h u e = h refl
    written-Reads x v missing m h u e = cc e
    written-Reads x v denied m h u e = cc e
    written-Reads x v (broken why) m h u e = cc e

    write_typed-Reads :
        (v : Value) (t : String) (c : Bool) (m : Machine W) (code : ℕ) (o : Option ℕ)
        → o ≡ some code
        → Reads (got (v, code)) (write_typed W lower digits enforce p c v t o m)
    unfolding write_typed set_value
    write_typed-Reads v t c m code none same = absurd (ground (arith, same))
    write_typed-Reads v t c m code (some k) same =
        written-Reads (got (v, code)) v _ _
          λ a. registry.set_get p c k v m.keys a ∙ ap (λ n. got (v, n)) (some-injective k code same)

    -- A write that returns leaves the value with its type.
    pub write-Reads :
        (v : Value) (t : String) (c : Bool) (m : Machine W) (code : ℕ)
        → type_of_name t ≡ some code
        → Reads (got (v, code)) (write W lower digits enforce p v t c m)
    unfolding write
    write-Reads v t c m code known =
        option_ind (Reads (got (v, code))) (check_allowed W lower digits enforce p)
          (λ _. write_typed-Reads v t c m code (type_of_name t) known) (λ refusal _ u e. cc e)

    erased-Reads :
        (a : Answer Unit) (m : Machine W)
        → (a ≡ got tt → W.query p m.keys ≡ missing)
        → (a ≡ missing → W.query p m.keys ≡ missing)
        → Reads missing (erased W lower digits enforce p a m)
    unfolding erased note
    erased-Reads (got tt) m h g u e = h refl
    erased-Reads missing m h g u e = g refl
    erased-Reads denied m h g u e = cc e
    erased-Reads (broken why) m h g u e = cc e

    -- A deletion that returns, whatever it returns, leaves no value.
    pub delete_value-Reads :
        (m : Machine W) → Reads missing (delete_value W lower digits enforce p m)
    unfolding delete_value erase
    delete_value-Reads m =
        option_ind (Reads missing) (check_allowed W lower digits enforce p)
          (λ _. erased-Reads _ _ (registry.delete_get p m.keys) (registry.missing_get p m.keys))
          (λ refusal _ u e. cc e)

    restored-Reads :
        (x : Answer (Value × ℕ)) (target : String) (v : Value) (r : Result Unit × Machine W)
        → Reads x r
        → Reads x (restored W lower digits enforce target v r)
    unfolding restored note
    restored-Reads x target v (ok tt, m) h u e = h tt refl
    restored-Reads x target v (raised exc, m) h u e = cc e
    restored-Reads x target v (killed, m) h u e = cc e

    done_with-Reads :
        (x : Answer (Value × ℕ)) (r : Result Bool × Machine W)
        → Reads x r
        → Reads x (done_with W lower digits enforce r)
    unfolding done_with
    done_with-Reads x (ok b, m) h u e = h b refl
    done_with-Reads x (raised exc, m) h u e = cc e
    done_with-Reads x (killed, m) h u e = cc e

    pub shown_type-name :
        (code : ℕ)
        → IsSupported code
        → type_of_name (shown_type W lower digits enforce code) ≡ some code
    unfolding shown_type
    shown_type-name code (name, known) =
        option_ind (λ s. type_of_name s ≡ some code) (name_of_type code)
          (λ e. absurd (ground (arith, known, e))) (λ s e. type_of_name-name code s e)

    -- What a backup holds of what the registry answered.
    abbrev pub IsHeld : Answer (Value × ℕ) → RegistryValue → Type 0
    IsHeld x b =
        (read_answer W lower digits enforce p x ≡ ok b)
        × ((v : Value) (code : ℕ) → x ≡ got (v, code) → IsSupported code)

    restore-Reads :
        (x : Answer (Value × ℕ)) (b : RegistryValue) (m : Machine W)
        → IsHeld x b
        → Reads x (restore W lower digits enforce b p.view m)
    unfolding restore read_answer found_value absent_value place_of
    restore-Reads (got (v, code)) b m (held, supported) =
        subst (λ c. Reads (got (v, code)) (restore W lower digits enforce c p.view m))
          (ok-injective held)
          (restored-Reads (got (v, code)) _ v _
            (write-Reads v _ true m code (shown_type-name code (supported v code refl))))
    restore-Reads missing b m (held, supported) =
        subst (λ c. Reads missing (restore W lower digits enforce c p.view m)) (ok-injective held)
          (restored-Reads missing _ _ _ (done_with-Reads missing _ (delete_value-Reads m)))
    restore-Reads denied b m (held, supported) = cc held
    restore-Reads (broken why) b m (held, supported) = cc held

    -- Where Windows keeps what it accepts, a restore that returns puts the value back as `backup`
    -- found it, whatever has happened since: a later read returns the same, its absence and its
    -- type included, if the type is one that the program can write.
    pub restore-backup :
        (before now : Machine W) (b : RegistryValue)
        → (backup W lower digits enforce p before).0 ≡ ok b
        → ((v : Value) (code : ℕ) → W.query p before.keys ≡ got (v, code) → IsSupported code)
        → (restore W lower digits enforce b p.view now).0 ≡ ok tt
        → (read W lower digits enforce p (restore W lower digits enforce b p.view now).1).0 ≡ ok b
    unfolding backup read
    restore-backup before now b held supported e =
        ap (read_answer W lower digits enforce p)
          (restore-Reads (W.query p before.keys) b now (held, supported) tt e)
        ∙ held
