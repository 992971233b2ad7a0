-- ===== src/Samples/Moves.antt =====
-- The theorems on folders, at a disk of named folders that hold a number of files each.
use pudge_gaming_manager.Prelude.{
  ◌≡◌, refl, ◌⊎◌, inl, inr, ℕ, String, ◌<>◌, Bool, true, false, none, some, [], ◌is◌, eq_refl,
  if◌then◌else◌, arith,
}
use pudge_gaming_manager.Folders.{
  Files, Stats, FolderPlan, Place, move_folder, done, plan_move, run_folder, probe_of, aside_of,
}
use pudge_gaming_manager.Folders.Disk.{IsDisk, Layout}
use pudge_gaming_manager.Folders.Moving.{IsWhole, run_folder-IsWhole}
use pudge_gaming_manager.Folders.Refusing.{IsPlanned, plan_move-IsPlanned}

data Node : Type 0 where
  absent : Node
  folder : ℕ → Node
  junction : String → Node

abbrev counts : Node → String ⊎ Stats
counts absent = inl "gone"
counts (junction p) = inl "a link"
counts (folder n) = inr (record { files = n; bytes = n; links = 0; failed = 0; errors = [] })

abbrev is_there : Node → Bool
is_there absent = false
is_there _ = true

abbrev put : String → Node → (String → Node) → String → Node
put p node d x = if x is p then node else d x

abbrev shelf : Files
shelf = record {
  Location = String;
  Disk = String → Node;
  show = λ p. p;
  name = λ p. p;
  with_name = λ p n. n;
  under = λ p n. p <> n;
  format_size = λ n. "n";
  digits = λ n. "n";
  block_reason = λ p d. none;
  lexists = λ p d. is_there (d p);
  is_dir = λ p d. true;
  is_reparse_point = λ p d. false;
  is_within = λ p q d. false;
  other_volume = λ p q d. inr true;
  free = λ p d. inr 300000000;
  measure_tree = λ p d. counts (d p);
  rename = λ p q d. (inr tt, λ x. if x is q then d p else put p absent d x);
  copy_tree = λ p q d. (counts (d p), put q (d p) d);
  create_junction = λ p q d. (inr tt, put p (junction q) d);
  delete_tree = λ p d. (counts (d p), put p absent d);
}

abbrev IsApart : String → String → Type 0
IsApart x y = (x is y) ≡ false

abbrev on_shelf : String → (String → Node) → Node
on_shelf x d = d x

shelf-IsDisk : IsDisk shelf on_shelf junction IsApart
shelf-IsDisk = record {
  moved = λ p q d e. rw (eq_refl q);
  stayed = λ p q x d why e. absurd (ground (arith, e));
  rename_apart = λ p q x d a b. rw (a, b);
  copy_apart = λ p q x d a. rw a;
  linked = λ p q d e. rw (eq_refl p);
  link_apart = λ p q x d a. rw a;
  delete_apart = λ p x d a. rw a;
}

abbrev games : FolderPlan shelf
games = record {
  action = move_folder;
  source = "games";
  size_bytes = 7;
  file_count = 7;
  destination = some "E:/games";
  unreadable = 0;
}

abbrev start : String → Node
start = put "games" (folder 7) (λ x. absent)

games-Layout : Layout shelf IsApart "games" (aside_of shelf "1a" "games") "E:/games"
unfolding aside_of
games-Layout = record {
  source_destination = refl;
  destination_source = refl;
  source_aside = refl;
  aside_source = refl;
  destination_aside = refl;
}

abbrev before : Place shelf
before = record { disk = start; audit_file = [] }

run_folder-IsWhole_example :
    IsWhole shelf on_shelf junction IsApart shelf-IsDisk "games"
      (probe_of shelf "1a" "games")
      (aside_of shelf "1a" "games")
      "E:/games"
      games-Layout
      (folder 7)
      ((run_folder shelf "1a" games before).0, (run_folder shelf "1a" games before).1.disk)
run_folder-IsWhole_example =
    run_folder-IsWhole shelf on_shelf junction IsApart shelf-IsDisk "1a" games "E:/games"
      games-Layout before refl refl

plan_move-IsPlanned_example : IsPlanned shelf "games" "E:/" games start
unfolding plan_move pudge_gaming_manager.Folders.require_actionable
    pudge_gaming_manager.Folders.blocked pudge_gaming_manager.Folders.check_parent
    pudge_gaming_manager.Folders.check_volume pudge_gaming_manager.Folders.check_destination
    pudge_gaming_manager.Folders.measure pudge_gaming_manager.Folders.after_measure
    pudge_gaming_manager.Folders.check_contents pudge_gaming_manager.Folders.check_space
plan_move-IsPlanned_example = plan_move-IsPlanned shelf "games" "E:/" games start refl
