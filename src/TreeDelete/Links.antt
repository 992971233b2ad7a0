-- ===== src/TreeDelete/Links.antt =====
-- Reparse points: the guard of `_subdirectory` and `_open_root` on what an open handle reports.
use pudge_gaming_manager.Prelude.{
  ◌≡◌, refl, sym, subst, inl, inr, ℕ, String, Bool, false, Option, none, some, List, [], ◌==◌, ◌||◌,
  not, All, Bool-cases, arith, if◌then◌else◌,
}
use pudge_gaming_manager.TreeDelete.{
  Kernel, FilePath, is_link, is_dir, Trees, Op, opened, listed, deleted, Walk, start, Outcome,
  refused, done, RootError, not_plain, note, fail, subdirectories, unspared, open_root,
  unless_refused, delete_tree,
}
use pudge_gaming_manager.TreeDelete.Keeping.{
  Steps, each_step, log-counting, of_directory, if_ind, remove-keeps, directory-keeps,
  subdirectories-keeps,
}

-- The handle that was opened for the path reports no reparse point.
abbrev pub IsPlain : Kernel → FilePath → Type 0
IsPlain k path = (a : ℕ) × (k.attributes path ≡ some a) × (is_link a ≡ false)

abbrev pub ListsPlain : Kernel → Op → Type 0
ListsPlain k (opened path) = Unit
ListsPlain k (listed path) = IsPlain k path
ListsPlain k (deleted path) = Unit

-- The calls of a pass that was not refused.
abbrev pub calls_of : Outcome → List Op
calls_of (refused e) = []
calls_of (done w) = w.log

module _ (k : Kernel) where
  plain_logs : (measure_only : Bool) → Steps k measure_only (λ w. All (ListsPlain k) w.log)
  unfolding note fail
  plain_logs measure_only = each_step (record {
    fails = λ path error w h. h;
    opens = λ path w h. (tt, h);
    lists = λ path a w seen plain h. ((a, seen, plain), h);
    deletes = λ path w real h. (tt, h);
    counts = λ kind w h. subst (All (ListsPlain k)) (sym (log-counting kind w)) h;
  })

  pub root-IsPlain : (root : FilePath) → open_root k root ≡ none → IsPlain k root
  unfolding open_root
  root-IsPlain root h = elim (Bool-cases (k.open_error root == 0)) [
    | inr e ↦ ground (arith, h, e)
    | inl e ↦ plain (k.attributes root) refl (rw e at h)
  ]
    where
      plain :
          (r : Option ℕ)
          → k.attributes root ≡ r
          → (elim r [
            | none ↦ some not_plain
            | some a ↦ if is_link a || not (is_dir a) then some not_plain else none
          ])
            ≡ none
          → IsPlain k root
      plain none seen h = ground (arith, h)
      plain (some a) seen h = (a, seen, ground (arith, h))

  walked_links :
      (r : Option RootError) (w : Walk)
      → (r ≡ none → All (ListsPlain k) w.log)
      → All (ListsPlain k) (calls_of (unless_refused r w))
  unfolding unless_refused
  walked_links none w h = h refl
  walked_links (some e) w h = tt

  -- Deleting a tree enumerates no path whose open handle reports a reparse point, whatever the
  -- enumerations said of it.
  pub delete_tree-links :
      (lower : String → String) (root : FilePath) (keep_root : Bool) (spare : List String)
      (kids : Trees)
      → All (ListsPlain k) (calls_of (delete_tree k lower root keep_root spare kids))
  unfolding delete_tree
  delete_tree-links lower root keep_root spare kids = walked_links (open_root k root) _ λ opens.
      let (a, seen, plain) = root-IsPlain root opens in
      let below = unspared lower spare kids in
      let inside =
        directory-keeps (plain_logs false) root below (subdirectories k false root below) a start
          (λ v h. subdirectories-keeps (plain_logs false) root below v h) seen plain tt in
      if_ind (λ (w : Walk). All (ListsPlain k) w.log) keep_root (λ _. inside)
        (λ _. remove-keeps (plain_logs false) root of_directory _ refl inside)
