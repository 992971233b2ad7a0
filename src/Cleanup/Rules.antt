-- ===== src/Cleanup/Rules.antt =====
-- windows/cleanup/rules.py: the names, extensions and roots that are never deleted from. `lower` is
-- Python's `str.lower`.
use pudge_gaming_manager.Prelude.{
  String, ◌<>◌, Bool, true, false, ◌||◌, Option, some, List, [], ◌∷◌, ◌++◌, map, any, among, ◌is◌,
  starts_with, ends_with, if◌then◌else◌,
}

unfoldable pub protected_path_fragments : List String
protected_path_fragments =
    "smartshell" ∷ "senet" ∷ "langame" ∷ "gizmo" ∷ "steamapps" ∷ "steamlibrary" ∷ "epic games"
    ∷ "riot games" ∷ "battle.net" ∷ "gog galaxy" ∷ "easyanticheat" ∷ "battleye" ∷ "vanguard"
    ∷ "faceit" ∷ "esea" ∷ "documents" ∷ "desktop" ∷ "pictures" ∷ "videos" ∷ "music" ∷ "onedrive"
    ∷ "saved games" ∷ "my games" ∷ "credentials" ∷ "protect" ∷ "vault" ∷ []

unfoldable pub fragment_separators : List String
fragment_separators = " " ∷ "-" ∷ "_" ∷ "." ∷ []

-- `PROTECTED_PREFIXES`
unfoldable pub prefixes_of : List String → List String
prefixes_of [] = []
prefixes_of (fragment ∷ fragments) =
    map (λ separator. fragment <> separator) fragment_separators ++ prefixes_of fragments

unfoldable pub credential_extensions : List String
credential_extensions =
    ".key" ∷ ".pem" ∷ ".pfx" ∷ ".p12" ∷ ".kdbx" ∷ ".psafe3" ∷ ".ovpn" ∷ ".ppk" ∷ []

unfoldable pub protected_extensions : (allow_user_files : Bool) → List String
protected_extensions true = credential_extensions
protected_extensions false =
    credential_extensions
    ++ ".sav" ∷ ".save" ∷ ".sgame" ∷ ".doc" ∷ ".docx" ∷ ".xls" ∷ ".xlsx" ∷ ".ppt" ∷ ".pptx" ∷ ".pdf"
      ∷ ".odt" ∷ ".sys" ∷ ".dll" ∷ ".exe" ∷ []

-- The loop over the fragments, where some are waived.
unfoldable pub matches_unwaived : (allowed : List String) → String → List String → Bool
matches_unwaived allowed lowered [] = false
matches_unwaived allowed lowered (fragment ∷ fragments) =
    let rest = matches_unwaived allowed lowered fragments in
    if among fragment allowed
    then rest
    else if lowered is fragment
    then true
    else if any (λ separator. starts_with (fragment <> separator) lowered) fragment_separators
    then true
    else rest

-- The two look-ups, where none is.
unfoldable pub matches_any : String → List String → Bool
matches_any lowered fragments =
    among lowered fragments || any (λ prefix. starts_with prefix lowered) (prefixes_of fragments)

unfoldable pub is_protected_name : String → (allowed : List String) → Bool
is_protected_name lowered [] = matches_any lowered protected_path_fragments
is_protected_name lowered (a ∷ allowed) =
    matches_unwaived (a ∷ allowed) lowered protected_path_fragments

unfoldable pub component_is_protected :
    (lower : String → String) → String → (allowed : List String) → Bool
component_is_protected lower component allowed = is_protected_name (lower component) allowed

-- `within`, on the texts that `normcase` gives; none if it raises.
unfoldable pub is_within : Option String → Option String → Bool
is_within (some candidate) (some root) =
    if candidate is root
    then true
    else starts_with (if ends_with root "\\" then root else root <> "\\") candidate
is_within _ _ = false
