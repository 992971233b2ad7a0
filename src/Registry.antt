-- ===== src/Registry.antt =====
-- windows/registry/manager.py: reading and writing values of the registry. What `winreg` does is a
-- parameter.
pub mod Keys
pub mod Allowlist
pub mod Restoring
unfoldable pub use Keys.*
use pudge_gaming_manager.Prelude.{
  ◌≡◌, ℕ, String, Bool, true, false, not, Option, none, some, List, [], ◌∷◌, ◌++◌, ◌<>◌,
  if◌then◌else◌,
}
use pudge_gaming_manager.Tweak.{Value, null, text, Exception, pgm_error, Result, ok, raised, killed}
use pudge_gaming_manager.Session.{AuditEvent}

-- A value's key and name, under a view.
pub record Place : Type 0 where
  pub hive : Hive
  pub subkey : String
  pub name : String
  pub view : View

-- How a call of `winreg` ends: `FileNotFoundError`, `PermissionError` or any other `OSError`.
pub data Answer (A : Type 0) : Type 0 where
  got : A → Answer A
  missing denied : Answer A
  broken : String → Answer A

-- `winreg` on the registry `R`: `OpenKey` or `CreateKeyEx` with the call on the open key.
pub record Winreg : Type 1 where
  pub R : Type 0
  pub query : Place → R → Answer (Value × ℕ)
  pub set : Place → (create_missing : Bool) → ℕ → Value → R → Answer Unit × R
  pub delete : Place → R → Answer Unit × R

pub record RegistryValue : Type 0 where
  pub hive : Hive
  pub subkey : String
  pub name : String
  pub data_ : Value
  pub type_name : String
  pub absent : Bool

unfoldable pub path_of : Hive → String → String → String
path_of hive subkey name = hive_value hive <> "\\" <> subkey <> "\\" <> name

unfoldable pub absent_value : Place → RegistryValue
absent_value p = record {
  hive = p.hive;
  subkey = p.subkey;
  name = p.name;
  data_ = null;
  type_name = "";
  absent = true;
}

abbrev pub access_denied : String → Exception
access_denied what =
    pgm_error what "Отказано в доступе." (some "Запустите Pudge Cleaner от имени администратора.")

-- The registry, the audit file, and the places that a mutating call was made for, the last one
-- first, which the code does not keep.
pub record Machine (W : Winreg) : Type 0 where
  pub keys : W.R
  pub audit_file : List AuditEvent
  pub touched : List Place

module _ (W : Winreg) (lower : String → String) (digits : ℕ → String)
    (enforce_allowlist : Bool) where
  abbrev Step : Type 0 → Type 0
  Step A = Machine W → Result A × Machine W

  -- The name of a type that winreg reports.
  unfoldable pub shown_type : ℕ → String
  shown_type code = elim (name_of_type code) [
    | some name ↦ name
    | none ↦ "UNKNOWN(" <> digits code <> ")"
  ]

  unfoldable pub found_value : Place → Value → ℕ → RegistryValue
  found_value p value code = record {
    hive = p.hive;
    subkey = p.subkey;
    name = p.name;
    data_ = value;
    type_name = shown_type code;
    absent = false;
  }

  unfoldable pub read_answer : Place → Answer (Value × ℕ) → Result RegistryValue
  read_answer p (got (value, code)) = ok (found_value p value code)
  read_answer p missing = ok (absent_value p)
  read_answer p denied =
      raised (access_denied ("Не удалось прочитать «" <> path_of p.hive p.subkey p.name <> "»"))
  read_answer p (broken why) = raised (
      pgm_error ("Не удалось прочитать «" <> path_of p.hive p.subkey p.name <> "»") why
        (some "Проверьте в редакторе реестра, что настройка существует."))

  unfoldable pub read : Place → Step RegistryValue
  read p m = (read_answer p (W.query p m.keys), m)

  -- `exists`, for a named value.
  unfoldable pub exists : Place → Machine W → Bool
  exists p m = elim (W.query p m.keys) [
    | got found ↦ true
    | missing ↦ false
    | denied ↦ false
    | broken why ↦ false
  ]

  -- `_check_allowed`
  unfoldable pub check_allowed : Place → Option Exception
  check_allowed p =
      if not enforce_allowlist
      then none
      else if is_allowed_key lower p.hive p.subkey
      then none
      else some (
          pgm_error ("Отказано в доступе к ключу «" <> hive_value p.hive <> "\\" <> p.subkey <> "»")
            "Этого ключа нет в списке разрешённых для изменения."
            (some
              "Менять можно только настройки, встроенные в Pudge Cleaner. Профиль не может добавить новые пути реестра."))

  -- `audit_event`. The line of a write holds the data; in the code, the data and the type.
  unfoldable pub note : String → String → Value → Machine W → Machine W
  note operation target new_state m = record m {
    audit_file =
        m.audit_file
        ++ (record {
          subsystem = "registry";
          operation = operation;
          target = target;
          old_state = null;
          new_state = new_state;
          result = "SUCCESS";
          error = none;
        })
          ∷ [];
  }

  -- What `write` makes of the answer.
  unfoldable pub written : Place → Value → Answer Unit → Step Unit
  written p value (got _) m = (ok tt, note "write" (path_of p.hive p.subkey p.name) value m)
  written p value denied m =
      (raised (access_denied ("Не удалось изменить «" <> path_of p.hive p.subkey p.name <> "»")), m)
  written p value missing m = (
    raised (
        pgm_error ("Не удалось изменить «" <> path_of p.hive p.subkey p.name <> "»")
          "Такого ключа реестра нет." (some "Сделать ничего нельзя: этой настройки на ПК нет.")),
    m,
  )
  written p value (broken why) m = (
    raised (pgm_error ("Не удалось изменить «" <> path_of p.hive p.subkey p.name <> "»") why none),
    m,
  )

  -- The calls of `winreg` that change something.
  unfoldable pub set_value : Place → Bool → ℕ → Value → Machine W → Answer Unit × Machine W
  set_value p create_missing code value m =
      let (a, keys) = W.set p create_missing code value m.keys in
      (a, record m { keys = keys; touched = p ∷ m.touched })

  unfoldable pub erase : Place → Machine W → Answer Unit × Machine W
  erase p m =
      let (a, keys) = W.delete p m.keys in (a, record m { keys = keys; touched = p ∷ m.touched })

  -- The write, once the key is allowed and the type is known.
  unfoldable pub write_typed : Place → Bool → Value → String → Option ℕ → Step Unit
  write_typed p create_missing value type_name none m = (
    raised (
        pgm_error ("Не удалось записать «" <> p.name <> "»")
          ("Тип значения реестра «" <> type_name <> "» не поддерживается.")
          (some
            "Поддерживаются: REG_BINARY, REG_DWORD, REG_EXPAND_SZ, REG_MULTI_SZ, REG_QWORD, REG_SZ")),
    m,
  )
  write_typed p create_missing value type_name (some code) m =
      let (a, m') = set_value p create_missing code value m in written p value a m'

  unfoldable pub write : Place → Value → (type_name : String) → (create_missing : Bool) → Step Unit
  write p value type_name create_missing m = elim (check_allowed p) [
    | some refusal ↦ (raised refusal, m)
    | none ↦ write_typed p create_missing value type_name (type_of_name type_name) m
  ]

  unfoldable pub erased : Place → Answer Unit → Step Bool
  erased p (got _) m = (ok true, note "delete" (path_of p.hive p.subkey p.name) null m)
  erased p missing m = (ok false, m)
  erased p denied m =
      (raised (access_denied ("Не удалось удалить «" <> path_of p.hive p.subkey p.name <> "»")), m)
  erased p (broken why) m = (
    raised (pgm_error ("Не удалось удалить «" <> path_of p.hive p.subkey p.name <> "»") why none),
    m,
  )

  unfoldable pub delete_value : Place → Step Bool
  delete_value p m = elim (check_allowed p) [
    | some refusal ↦ (raised refusal, m)
    | none ↦ let (a, m') = erase p m in erased p a m'
  ]

  -- `backup`, and where a backup belongs under a view.
  unfoldable pub backup : Place → Step RegistryValue
  backup p m = read p m

  unfoldable pub place_of : RegistryValue → View → Place
  place_of b view = record { hive = b.hive; subkey = b.subkey; name = b.name; view = view }

  unfoldable pub restored : String → Value → Result Unit × Machine W → Result Unit × Machine W
  restored target new_state (ok _, m) = (ok tt, note "restore" target new_state m)
  restored target new_state (r, m) = (r, m)

  unfoldable pub done_with : Result Bool × Machine W → Result Unit × Machine W
  done_with (ok _, m) = (ok tt, m)
  done_with (raised e, m) = (raised e, m)
  done_with (killed, m) = (killed, m)

  unfoldable pub restore : RegistryValue → View → Step Unit
  restore b view m =
      if b.absent
      then restored (path_of b.hive b.subkey b.name) (text "absent (value removed)")
          (done_with (delete_value (place_of b view) m))
      else restored (path_of b.hive b.subkey b.name) b.data_
          (write (place_of b view) b.data_ b.type_name true m)
