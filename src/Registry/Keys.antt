-- ===== src/Registry/Keys.antt =====
-- windows/registry/manager.py: hives, views, value types, and the keys that may be written.
use pudge_gaming_manager.Prelude.{
  ℕ, String, Bool, true, false, ◌&&◌, Option, none, some, List, [], ◌∷◌, select, any, ◌==◌, ◌is◌,
  filled, replace_char, split_on, begins_with, if◌then◌else◌,
}

pub data Hive : Type 0 where
  hklm hkcu hkcr hku : Hive

unfoldable pub hive_value : Hive → String
hive_value hklm = "HKEY_LOCAL_MACHINE"
hive_value hkcu = "HKEY_CURRENT_USER"
hive_value hkcr = "HKEY_CLASSES_ROOT"
hive_value hku = "HKEY_USERS"

unfoldable pub needs_admin : Hive → Bool
needs_admin hkcu = false
needs_admin _ = true

pub data View : Type 0 where
  default_view bit64 bit32 : View

-- `SUPPORTED_TYPES`: the codes of winreg, and their names.
unfoldable pub name_of_type : ℕ → Option String
name_of_type code =
    if code == 1
    then some "REG_SZ"
    else if code == 2
    then some "REG_EXPAND_SZ"
    else if code == 4
    then some "REG_DWORD"
    else if code == 11
    then some "REG_QWORD"
    else if code == 3
    then some "REG_BINARY"
    else if code == 7
    then some "REG_MULTI_SZ"
    else none

-- `TYPES_BY_NAME`
unfoldable pub type_of_name : String → Option ℕ
type_of_name name =
    if name is "REG_SZ"
    then some 1
    else if name is "REG_EXPAND_SZ"
    then some 2
    else if name is "REG_DWORD"
    then some 4
    else if name is "REG_QWORD"
    then some 11
    else if name is "REG_BINARY"
    then some 3
    else if name is "REG_MULTI_SZ"
    then some 7
    else none

pub data Hives : Type 0 where
  user_or_machine machine_only user_only : Hives

unfoldable pub holds : Hives → Hive → Bool
holds user_or_machine hklm = true
holds user_or_machine hkcu = true
holds machine_only hklm = true
holds user_only hkcu = true
holds _ _ = false

-- `ALLOWED_KEYS`, each key in its segments.
unfoldable pub allowed_keys : List (Hives × List String)
allowed_keys =
    (user_or_machine, "software" ∷ "microsoft" ∷ "windows" ∷ "currentversion" ∷ "explorer" ∷ [])
    ∷ (
      user_or_machine,
      "software" ∷ "microsoft" ∷ "windows nt" ∷ "currentversion" ∷ "multimedia" ∷ [],
    )
    ∷ (user_or_machine, "software" ∷ "microsoft" ∷ "games" ∷ [])
    ∷ (user_or_machine, "software" ∷ "microsoft" ∷ "directx" ∷ [])
    ∷ (machine_only, "system" ∷ "currentcontrolset" ∷ "control" ∷ "graphicsdrivers" ∷ [])
    ∷ (machine_only, "system" ∷ "currentcontrolset" ∷ "control" ∷ "prioritycontrol" ∷ [])
    ∷ (user_only, "control panel" ∷ "desktop" ∷ [])
    ∷ (user_only, "control panel" ∷ "mouse" ∷ [])
    ∷ (user_only, "system" ∷ "gameconfigstore" ∷ [])
    ∷ (machine_only, "software" ∷ "policies" ∷ "microsoft" ∷ "windows" ∷ "gamedvr" ∷ [])
    ∷ (user_only, "software" ∷ "microsoft" ∷ "gamebar" ∷ [])
    ∷ (
      user_only,
      "software" ∷ "microsoft" ∷ "windows" ∷ "currentversion" ∷ "themes" ∷ "personalize" ∷ [],
    )
    ∷ []

-- The segments of a subkey. `lower` is Python's `str.lower`.
unfoldable pub segments : (lower : String → String) → String → List String
segments lower subkey = select filled (split_on "\\" (lower (replace_char "/" "\\" subkey)))

unfoldable pub covers : Hive → List String → Hives × List String → Bool
covers hive parts (hives, prefix) = holds hives hive && begins_with prefix parts

unfoldable pub is_allowed_key : (lower : String → String) → Hive → String → Bool
is_allowed_key lower hive subkey = any (covers hive (segments lower subkey)) allowed_keys
