-- ===== src/Cleanup.antt =====
-- windows/cleanup/engine.py: the gate that each item passes before it is deleted, with its cache of
-- parent directories. What the program reads of paths and of the disk is the parameter `Reads`, the
-- float arithmetic the parameter `Floats`.
pub mod Rules
pub mod Waiving
pub mod Approving
unfoldable pub use Rules.*
use pudge_gaming_manager.Prelude.{
  ℕ, ◌+◌, String, Bool, true, false, not, ◌||◌, Option, none, some, List, [], ◌∷◌, any, among, ◌is◌,
  if◌then◌else◌,
}
use pudge_gaming_manager.Floats.{Floats}

-- Two paths with one `key` are equal to pathlib. `normcase` is none if it raises; `modified` is none if
-- the file cannot be read.
pub record Reads (F : Floats) : Type 1 where
  pub Location : Type 0
  pub key : Location → String
  pub parts : Location → List String
  pub name : Location → String
  pub suffix : Location → String
  pub parent : Location → Location
  pub resolve : Location → Location
  pub normcase : Location → Option String
  pub modified : Location → Option F.F

-- The fields of `CleanupCategory` that the gate reads.
pub record Category (F : Floats) : Type 0 where
  pub min_age_hours : F.F
  pub clears_user_files : Bool
  pub allowed_path_fragments : List String

pub record Item (F : Floats) (D : Reads F) : Type 0 where
  pub path : D.Location
  pub size_bytes : ℕ

-- What is known of a parent: where it resolves to, and whether it is protected.
abbrev pub Known : (F : Floats) → Reads F → Type 0
Known F D = D.Location × Bool

-- The dict from parents to what is known of them, by key.
abbrev pub Cache : (F : Floats) → Reads F → Type 0
Cache F D = List (String × Known F D)

unfoldable pub find_known : {A : Type 0} → String → List (String × A) → Option A
find_known k [] = none
find_known k ((l, known) ∷ cache) =
    let rest = find_known k cache in if l is k then some known else rest

unfoldable pub lowered : (lower : String → String) → List String → List String
lowered lower [] = []
lowered lower (f ∷ fs) = lower f ∷ lowered lower fs

module _ (F : Floats) (D : Reads F) (lower : String → String)
    (protected_roots : List D.Location) where
  -- `within`
  unfoldable pub within : D.Location → D.Location → Bool
  within candidate root = is_within (D.normcase candidate) (D.normcase root)

  unfoldable pub waived_fragments : Category F → List String
  waived_fragments category = lowered lower category.allowed_path_fragments

  unfoldable pub is_protected :
      D.Location → (allow_user_files : Bool) → (allowed : List String) → Bool
  is_protected path allow_user_files allowed =
      if any (λ part. component_is_protected lower part allowed) (D.parts path)
      then true
      else if among (lower (D.suffix path)) (protected_extensions allow_user_files)
      then true
      else any (within path) protected_roots

  module _ (roots : List D.Location) (category : Category F) (now : F.F) where
    unfoldable pub is_old_enough : Option F.F → Bool
    is_old_enough none = false
    is_old_enough (some modified) =
        not (F.below (F.div (F.sub now modified) (F.whole 3600)) category.min_age_hours)

    unfoldable pub is_aged : D.Location → Bool
    is_aged path =
        if F.below (F.whole 0) category.min_age_hours then is_old_enough (D.modified path) else true

    unfoldable pub look_at : D.Location → Known F D
    look_at parent = (D.resolve parent, is_protected parent false (waived_fragments category))

    -- The checks, once the parent is known.
    unfoldable pub passes : D.Location → Known F D → Bool
    passes path (resolved_parent, parent_protected) =
        if not (any (within resolved_parent) roots)
        then false
        else if parent_protected
        then false
        else if component_is_protected lower (D.name path) (waived_fragments category)
            || among (lower (D.suffix path)) (protected_extensions category.clears_user_files)
        then false
        else is_aged path

    unfoldable pub with_known : D.Location → Cache F D → Option (Known F D) → Bool × Cache F D
    with_known path cache (some known) = (passes path known, cache)
    with_known path cache none =
        let known = look_at (D.parent path) in
        (passes path known, (D.key (D.parent path), known) ∷ cache)

    -- `_approves_for_delete`, and the cache after it.
    unfoldable pub approves_for_delete : D.Location → Cache F D → Bool × Cache F D
    approves_for_delete path cache =
        with_known path cache (find_known (D.key (D.parent path)) cache)

    unfoldable pub sort_out : Item F D → Bool → List (Item F D) × ℕ → List (Item F D) × ℕ
    sort_out item true (approved, refused) = (item ∷ approved, refused)
    sort_out item false (approved, refused) = (approved, refused + 1)

    -- The loop of `clean` over a category's items: those approved, in order, and how many were refused.
    unfoldable pub approve_items : List (Item F D) → Cache F D → List (Item F D) × ℕ
    approve_items [] cache = ([], 0)
    approve_items (item ∷ items) cache =
        let (good, cache') = approves_for_delete item.path cache in
        sort_out item good (approve_items items cache')
