-- ===== src/Folders/Disk.antt =====
-- What a move relies on of the disk.
use pudge_gaming_manager.Prelude.{◌≡◌, inl, inr, String}
use pudge_gaming_manager.Folders.{Files}

-- What the program relies on: a renaming that fails changes nothing,
-- and a call changes only what it is asked to. `at` is what is at a path, and paths are `Apart` when
-- neither holds the other.
pub record IsDisk (F : Files) {Node : Type 0} (at : F.Location → F.Disk → Node)
    (link_to : F.Location → Node) (Apart : F.Location → F.Location → Type 0) : Type 0 where
  pub moved :
      (p q : F.Location) (d : F.Disk)
      → (F.rename p q d).0 ≡ inr tt
      → at q (F.rename p q d).1 ≡ at p d
  pub stayed :
      (p q x : F.Location) (d : F.Disk) (why : String)
      → (F.rename p q d).0 ≡ inl why
      → at x (F.rename p q d).1 ≡ at x d
  pub rename_apart :
      (p q x : F.Location) (d : F.Disk) → Apart x p → Apart x q → at x (F.rename p q d).1 ≡ at x d
  pub copy_apart :
      (p q x : F.Location) (d : F.Disk) → Apart x q → at x (F.copy_tree p q d).1 ≡ at x d
  pub linked :
      (p q : F.Location) (d : F.Disk)
      → (F.create_junction p q d).0 ≡ inr tt
      → at p (F.create_junction p q d).1 ≡ link_to q
  pub link_apart :
      (p q x : F.Location) (d : F.Disk) → Apart x p → at x (F.create_junction p q d).1 ≡ at x d
  pub delete_apart :
      (p x : F.Location) (d : F.Disk) → Apart x p → at x (F.delete_tree p d).1 ≡ at x d

-- The paths of a move: where the folder is, where it goes aside, and where the copy is.
pub record Layout (F : Files) (Apart : F.Location → F.Location → Type 0)
    (source aside destination : F.Location) : Type 0 where
  pub source_destination : Apart source destination
  pub destination_source : Apart destination source
  pub source_aside : Apart source aside
  pub aside_source : Apart aside source
  pub destination_aside : Apart destination aside
