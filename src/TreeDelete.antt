-- ===== src/TreeDelete.antt =====
-- utilities/tree_delete.py: deleting or measuring a directory tree by handles. The tree is what the
-- enumerations return; what the kernel answers to each call is a parameter, which may disagree with
-- the enumeration, as it does when an entry is swapped for a junction in between.
pub mod Kinds
pub mod Keeping
pub mod Links
pub mod Totals
unfoldable pub use Kinds.*
use pudge_gaming_manager.Prelude.{
  ℕ, ◌+◌, String, Bool, true, false, not, ◌&&◌, ◌||◌, Option, none, some, List, [], ◌∷◌, ◌++◌,
  length, any, ltb, ◌==◌, ◌is◌, if◌then◌else◌,
}

-- The kernel's answers, by the path that a handle was opened for. Error 0 is success.
pub record Kernel : Type 0 where
  -- the error of opening an entry relative to its parent
  pub open_error : FilePath → ℕ
  -- the attributes that the open handle reports, if it does
  pub attributes : FilePath → Option ℕ
  -- the error of reading the attributes through a handle that reports none
  pub attributes_error : FilePath → ℕ
  pub list_error : FilePath → Option ℕ
  pub delete_error : FilePath → ℕ

-- `_fail`: at most twenty errors are kept.
unfoldable pub fail : FilePath → ℕ → Walk → Walk
fail path error w = record w {
  failed = w.failed + 1;
  errors = if ltb (length w.errors) 20 then w.errors ++ (path, error) ∷ [] else w.errors;
}

unfoldable pub note : Op → Walk → Walk
note op w = record w { log = op ∷ w.log }

unfoldable pub count_link : Walk → Walk
count_link w = record w { links = w.links + 1 }

unfoldable pub count_file : ℕ → Walk → Walk
count_file size w = record w { files = w.files + 1; bytes = w.bytes + size }

unfoldable pub count_directory : Walk → Walk
count_directory w = record w { directories = w.directories + 1 }

module _ (k : Kernel) (measure_only : Bool) where
  -- `_mark_deleted`, and what is counted when it succeeds.
  unfoldable pub remove : FilePath → (Walk → Walk) → Walk → Walk
  remove path counted w =
      let w' = note (deleted path) w in
      if k.delete_error path == 0 then counted w' else fail path (k.delete_error path) w'

  -- `_delete_leaf`, with the bookkeeping of `_delete_leaves`.
  unfoldable pub delete_leaf : FilePath → Entry → Walk → Walk
  delete_leaf parent e w =
      let path = parent ++ e.name ∷ [] in
      if k.open_error path == 0
      then remove path (if is_link e.attributes then count_link else count_file e.size)
          (note (opened path) w)
      else fail path (k.open_error path) (note (opened path) w)

  -- One leaf, measured or deleted.
  unfoldable pub leaf : FilePath → Entry → Walk → Walk
  leaf parent e w =
      if measure_only
      then (if is_link e.attributes then count_link w else count_file e.size w)
      else delete_leaf parent e w

  -- The leaves of a directory, in the order of its enumeration.
  unfoldable pub leaves : FilePath → Trees → Walk → Walk
  leaves parent nil w = w
  leaves parent (cons (node e kids) ts) w =
      leaves parent ts
        (if is_link e.attributes || not (is_dir e.attributes) then leaf parent e w else w)

  -- `directory`: the enumeration, the leaves, and then `below`, the subdirectories.
  unfoldable pub directory : FilePath → Trees → (Walk → Walk) → Walk → Walk
  directory path kids below w = elim (k.list_error path) [
    | some error ↦ fail path error (note (listed path) w)
    | none ↦ below (leaves path kids (note (listed path) w))
  ]

  -- The delete of a directory that has been emptied.
  unfoldable pub finish : FilePath → Walk → Walk
  finish path w = if measure_only then w else remove path count_directory w

  -- What the handle of a subdirectory reports decides what is done with it.
  unfoldable pub enter : FilePath → Trees → (Walk → Walk) → Option ℕ → Walk → Walk
  enter path kids below none w = fail path (k.attributes_error path) w
  enter path kids below (some attributes) w =
      if is_link attributes
      then (if measure_only then w else remove path count_link w)
      else finish path (directory path kids below w)

  -- `_subdirectory`
  unfoldable pub subdirectory : FilePath → Trees → (Walk → Walk) → Walk → Walk
  subdirectory path kids below w =
      if k.open_error path == 0
      then enter path kids below (k.attributes path) (note (opened path) w)
      else fail path (k.open_error path) (note (opened path) w)

  unfoldable mutual
    pub subdirectories : FilePath → Trees → Walk → Walk
    subdirectories parent nil w = w
    subdirectories parent (cons t ts) w = subdirectories parent ts (child parent t w)

    pub child : FilePath → Tree → Walk → Walk
    child parent (node e kids) w =
        if is_dir e.attributes && not (is_link e.attributes)
        then subdirectory (parent ++ e.name ∷ []) kids (subdirectories (parent ++ e.name ∷ []) kids)
            w
        else w

-- Children whose lower-case name is spared are left out of the root's own enumeration. `lower` is
-- Python's `str.lower`.
unfoldable pub unspared : (lower : String → String) → List String → Trees → Trees
unspared lower spare nil = nil
unspared lower spare (cons (node e kids) ts) =
    if any (λ s. lower s is lower e.name) spare
    then unspared lower spare ts
    else cons (node e kids) (unspared lower spare ts)

-- `_open_root`: the root must open, and its handle must report a plain directory.
unfoldable pub open_root : Kernel → FilePath → Option RootError
open_root k root =
    if k.open_error root == 0
    then (elim (k.attributes root) [
      | none ↦ some not_plain
      | some a ↦ if is_link a || not (is_dir a) then some not_plain else none
    ])
    else some (not_opened (k.open_error root))

-- A root that `_open_root` refuses ends the pass before it starts.
unfoldable pub unless_refused : Option RootError → Walk → Outcome
unless_refused (some e) w = refused e
unless_refused none w = done w

unfoldable pub delete_tree :
    Kernel
    → (lower : String → String) → FilePath
    → (keep_root : Bool) → (spare : List String) → Trees
    → Outcome
delete_tree k lower root keep_root spare kids =
    let below = unspared lower spare kids in
    let w = directory k false root below (subdirectories k false root below) start in
    unless_refused (open_root k root)
      (if keep_root then w else remove k false root count_directory w)

unfoldable pub measure_tree : Kernel → FilePath → Trees → Outcome
measure_tree k root kids =
    unless_refused (open_root k root)
      (directory k true root kids (subdirectories k true root kids) start)
