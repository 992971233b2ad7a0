-- ===== src/Samples/Trees.antt =====
-- The theorems on deleting trees, at a tree in which a directory has turned into a junction.
use pudge_gaming_manager.Prelude.{
  false, true, none, some, [], ◌∷◌, All, length, ◌==◌, if◌then◌else◌,
}
use pudge_gaming_manager.TreeDelete.{Kernel, node, Trees, nil, cons, delete_tree, measure_tree}
use pudge_gaming_manager.TreeDelete.Totals.{
  IsReading, IsReported, measure_tree-deletes, delete_tree-reports,
}
use pudge_gaming_manager.TreeDelete.Links.{ListsPlain, calls_of, delete_tree-links}

-- Below the root, every handle reports a directory that is a reparse point.
abbrev kernel : Kernel
kernel = record {
  open_error = λ p. 0;
  attributes = λ p. if length p == 1 then some 0x10 else some 0x410;
  attributes_error = λ p. 0;
  list_error = λ p. none;
  delete_error = λ p. 0;
}

abbrev cache : Trees
cache =
    cons
      (node (record { name = "swapped"; attributes = 0x10; size = 0 })
        (cons (node (record { name = "outside"; attributes = 0; size = 5 }) nil) nil))
      (cons (node (record { name = "shader"; attributes = 0; size = 9 }) nil) nil)

delete_tree-links_example :
    All (ListsPlain kernel) (calls_of (delete_tree kernel (λ s. s) ("cache" ∷ []) true [] cache))
delete_tree-links_example = delete_tree-links kernel (λ s. s) ("cache" ∷ []) true [] cache

measure_tree-deletes_example : All IsReading (calls_of (measure_tree kernel ("cache" ∷ []) cache))
measure_tree-deletes_example = measure_tree-deletes kernel ("cache" ∷ []) cache

-- A file is in use.
abbrev in_use : Kernel
in_use = record kernel { delete_error = λ p. if length p == 2 then 32 else 0 }

delete_tree-reports_example :
    IsReported in_use (delete_tree in_use (λ s. s) ("cache" ∷ []) false [] cache)
delete_tree-reports_example = delete_tree-reports in_use (λ s. s) ("cache" ∷ []) false [] cache
