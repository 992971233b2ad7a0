-- ===== src/TreeDelete/Totals.antt =====
-- The calls and the errors of a pass over a tree.
use pudge_gaming_manager.Prelude.{
  ◌≡◌, refl, ap, ℕ, ◌+◌, String, Bool, true, false, Option, none, some, List, [], ◌∷◌, length,
  length-append, min, ltb, All, All-append, count, arith, sym, subst, not, ◌&&◌, ◌==◌, ◌≢◌, ◌⊎◌,
  inl, inr, ◌≤◌,
}
use pudge_gaming_manager.TreeDelete.{
  Kernel, FilePath, Trees, Op, opened, listed, deleted, Walk, start, Outcome, refused, done,
  RootError, note, fail, count_link, count_file, count_directory, subdirectories, unspared,
  open_root, unless_refused, delete_tree, measure_tree,
}
use pudge_gaming_manager.TreeDelete.Keeping.{
  Steps, Kind, of_link, of_directory, of_file, counting, each_step, log-counting, if_ind,
  remove-keeps, directory-keeps, subdirectories-keeps,
}
use pudge_gaming_manager.TreeDelete.Links.{calls_of, root-IsPlain}

abbrev pub IsReading : Op → Type 0
IsReading (opened path) = Unit
IsReading (listed path) = Unit
IsReading (deleted path) = ⊥

-- The call failed.
abbrev pub has_failed : Kernel → Op → Bool
has_failed k (opened path) = not (k.open_error path == 0)
has_failed k (listed path) = elim (k.list_error path) [ none ↦ false | some error ↦ true ]
has_failed k (deleted path) = not (k.delete_error path == 0)

-- The call opened a handle that does not report its attributes.
abbrev pub is_blind : Kernel → Op → Bool
is_blind k (opened path) =
    (k.open_error path == 0) && (elim (k.attributes path) [ none ↦ true | some a ↦ false ])
is_blind k _ = false

-- The call deleted an entry.
abbrev pub has_deleted : Kernel → Op → Bool
has_deleted k (deleted path) = k.delete_error path == 0
has_deleted k _ = false

-- The error is one that Windows gave for the path.
abbrev pub IsAnswer : Kernel → FilePath × ℕ → Type 0
IsAnswer k (path, error) =
    ((k.open_error path ≡ error) × (error ≢ 0))
    ⊎ ((k.attributes path ≡ none) × (k.attributes_error path ≡ error))
    ⊎ (k.list_error path ≡ some error)
    ⊎ ((k.delete_error path ≡ error) × (error ≢ 0))

-- Each call that failed is counted as a failure, and no other but those of handles that do not
-- report their attributes; each call that deleted is counted once as a file, a link or a directory;
-- up to twenty errors are kept, and each is one that Windows gave for its path.
pub record IsAccounted (k : Kernel) (w : Walk) : Type 0 where
  pub counted : count (has_failed k) w.log ≤ w.failed
  pub no_others : w.failed ≤ count (has_failed k) w.log + count (is_blind k) w.log
  pub deletions : w.files + w.links + w.directories ≡ count (has_deleted k) w.log
  pub kept : length w.errors ≡ min w.failed 20
  pub answers : All (IsAnswer k) w.errors

abbrev pub IsReported : Kernel → Outcome → Type 0
IsReported k (refused e) = Unit
IsReported k (done w) = IsAccounted k w

walked :
    (P : Outcome → Type 0) (r : Option RootError) (w : Walk)
    → ((e : RootError) → P (refused e))
    → (r ≡ none → P (done w))
    → P (unless_refused r w)
unfolding unless_refused
walked P none w h g = g refl
walked P (some e) w h g = h e

module _ (k : Kernel) where
  measuring : Steps k true (λ w. All IsReading w.log)
  unfolding note fail
  measuring = each_step (record {
    fails = λ path error w h. h;
    opens = λ path w h. (tt, h);
    lists = λ path a w seen plain h. (tt, h);
    deletes = λ path w real h. absurd (ground (arith, real));
    counts = λ kind w h. subst (All IsReading) (sym (log-counting kind w)) h;
  })

  -- Measuring a tree deletes nothing.
  pub measure_tree-deletes :
      (root : FilePath) (kids : Trees) → All IsReading (calls_of (measure_tree k root kids))
  unfolding measure_tree
  measure_tree-deletes root kids =
      walked (λ o. All IsReading (calls_of o)) (open_root k root) _ (λ e. tt)
        λ opens.
          let (a, seen, plain) = root-IsPlain k root opens in
          directory-keeps measuring root kids (subdirectories k true root kids) a start
            (λ v h. subdirectories-keeps measuring root kids v h) seen plain tt

  kept_after :
      (path : FilePath) (error : ℕ) (w : Walk)
      → IsAccounted k w
      → IsAnswer k (path, error)
      → (length (fail path error w).errors ≡ min (w.failed + 1) 20)
        × All (IsAnswer k) (fail path error w).errors
  unfolding fail
  kept_after path error w h answer = (
    ground (arith, h.kept, length-append w.errors ((path, error) ∷ [])),
    if_ind (All (IsAnswer k)) (ltb (length w.errors) 20)
        (λ _. All-append (IsAnswer k) w.errors ((path, error) ∷ []) h.answers (answer, tt))
        (λ _. h.answers),
  )

  fails_once :
      (op : Op) (path : FilePath) (error : ℕ) (w : Walk)
      → (has_failed k op ≡ true) ⊎ (is_blind k op ≡ true)
      → has_deleted k op ≡ false
      → IsAnswer k (path, error)
      → IsAccounted k w
      → IsAccounted k (fail path error (note op w))
  unfolding fail note
  fails_once op path error w cause stays answer h =
      let (size, all) = kept_after path error w h answer in
      record {
        counted = ground (arith, h.counted);
        no_others = elim cause [
          | inl failed ↦ ground (arith, h.no_others, failed)
          | inr blind ↦ ground (arith, h.no_others, blind)
        ];
        deletions = rw stays (omega (arith, h.deletions));
        kept = size;
        answers = all;
      }

  succeeds :
      (op : Op) (w : Walk)
      → has_failed k op ≡ false
      → has_deleted k op ≡ false
      → IsAccounted k w
      → IsAccounted k (note op w)
  unfolding note
  succeeds op w fine stays h = record {
    counted = rw fine (omega (arith, h.counted));
    no_others = ground (arith, h.no_others, fine);
    deletions = rw stays (omega (arith, h.deletions));
    kept = h.kept;
    answers = h.answers;
  }

  counting_once :
      (kind : Kind) (w : Walk)
      → ((counting kind w).failed ≡ w.failed)
        × ((counting kind w).errors ≡ w.errors)
        × ((counting kind w).files + (counting kind w).links + (counting kind w).directories
            ≡ w.files + w.links + w.directories + 1)
  unfolding count_link count_file count_directory
  counting_once of_link w = (refl, refl, omega arith)
  counting_once of_directory w = (refl, refl, omega arith)
  counting_once (of_file size) w = (refl, refl, omega arith)

  deletes_once :
      (path : FilePath) (kind : Kind) (w : Walk)
      → (k.delete_error path == 0) ≡ true
      → IsAccounted k w
      → IsAccounted k (counting kind (note (deleted path) w))
  unfolding note
  deletes_once path kind w e h =
      let v = note (deleted path) w in
      let (failed, errors, all) = counting_once kind v in
      let log = log-counting kind v in
      record {
        counted = rw (log, failed) (rw e (omega (arith, h.counted)));
        no_others = rw (log, failed) (rw e (omega (arith, h.no_others)));
        deletions = rw (log, all) (rw e (omega (arith, h.deletions)));
        kept = rw (errors, failed) h.kept;
        answers = rw errors h.answers;
      }

  accounts : Steps k false (IsAccounted k)
  accounts = record {
    opens = λ path w e h. succeeds (opened path) w (ap not e) refl h;
    open_fails = λ path w e h.
        fails_once (opened path) path _ w (inl (ap not e)) refl
          (inl (refl, λ z. absurd (ground (arith, e, z)))) h;
    blind = λ path w e unseen h.
        fails_once (opened path) path _ w (inr (rw (is_blind, e, unseen) refl)) refl
          (inr (inl (unseen, refl))) h;
    lists = λ path a w seen plain e h. succeeds (listed path) w (rw (has_failed, e) refl) refl h;
    list_fails = λ path a error w seen plain e h.
        fails_once (listed path) path error w (inl (rw (has_failed, e) refl)) refl
          (inr (inr (inl e))) h;
    deletes = λ path kind w _ e h. deletes_once path kind w e h;
    delete_fails = λ path w _ e h.
        fails_once (deleted path) path _ w (inl (ap not e)) e
          (inr (inr (inr (refl, λ z. absurd (ground (arith, e, z)))))) h;
    measures = λ kind w only h. cc only;
  }

  -- Of a pass of deletion that was not refused, with the calls that it made: each call that failed is
  -- counted as a failure, and nothing else is but a handle that does not report its attributes; each
  -- call that deleted is counted once, as a file, a link or a directory; the number of kept errors is
  -- that of the failures, at most twenty, and each is one that Windows gave for its path.
  pub delete_tree-reports :
      (lower : String → String) (root : FilePath) (keep_root : Bool) (spare : List String)
      (kids : Trees)
      → IsReported k (delete_tree k lower root keep_root spare kids)
  unfolding delete_tree
  delete_tree-reports lower root keep_root spare kids =
      walked (IsReported k) (open_root k root) _ (λ e. tt)
        λ opens.
          let (a, seen, plain) = root-IsPlain k root opens in
          let below = unspared lower spare kids in
          let inside =
            directory-keeps accounts root below (subdirectories k false root below) a start
              (λ v h. subdirectories-keeps accounts root below v h) seen plain
              (record {
                counted = omega arith;
                no_others = omega arith;
                deletions = refl;
                kept = refl;
                answers = tt;
              }) in
          if_ind (IsAccounted k) keep_root (λ _. inside)
            (λ _. remove-keeps accounts root of_directory _ refl inside)
