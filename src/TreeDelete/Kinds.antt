-- ===== src/TreeDelete/Kinds.antt =====
-- utilities/tree_delete.py: entries, trees, totals and errors.
use Prim.Native.Nat.{bit_and}
use pudge_gaming_manager.Prelude.{ℕ, String, Bool, not, List, [], ◌==◌}

abbrev pub FilePath : Type 0
FilePath = List String

-- One entry of an enumeration, `_Entry`.
pub record Entry : Type 0 where
  pub name : String
  pub attributes : ℕ
  pub size : ℕ

-- `bool(attributes & _ATTR_REPARSE_POINT)` and `bool(attributes & _ATTR_DIRECTORY)`
unfoldable pub is_link : ℕ → Bool
is_link attributes = not (bit_and attributes 0x400 == 0)

unfoldable pub is_dir : ℕ → Bool
is_dir attributes = not (bit_and attributes 0x10 == 0)

-- An entry with what its own enumeration would return.
mutual
  pub data Tree : Type 0 where
    node : Entry → Trees → Tree

  pub data Trees : Type 0 where
    nil : Trees
    cons : Tree → Trees → Trees

-- The calls that a pass makes, which the code does not keep.
pub data Op : Type 0 where
  opened listed deleted : FilePath → Op

-- `DeleteStats`, and the calls so far with the last one first.
pub record Walk : Type 0 where
  pub bytes : ℕ
  pub files : ℕ
  pub directories : ℕ
  pub links : ℕ
  pub failed : ℕ
  pub errors : List (FilePath × ℕ)
  pub log : List Op

abbrev pub start : Walk
start = record {
  bytes = 0;
  files = 0;
  directories = 0;
  links = 0;
  failed = 0;
  errors = [];
  log = [];
}

-- `OSError` of the open, and `TreeDeleteError`.
pub data RootError : Type 0 where
  not_opened : ℕ → RootError
  not_plain : RootError

pub data Outcome : Type 0 where
  refused : RootError → Outcome
  done : Walk → Outcome
