-- ===== src/Steam/Wiping.antt =====
-- games/steam/wipe.py: `SteamWiper.wipe`, over a log of the deletions that were asked for.
use pudge_gaming_manager.Prelude.{
  ℕ, ◌+◌, String, ◌<>◌, Bool, true, false, not, ◌||◌, none, some, List, [], ◌∷◌, ◌++◌, length, map,
  select, all, if◌then◌else◌,
}
use pudge_gaming_manager.Steam.{
  Answer, freed, refusal, failure, Halt, stop_service, kill_process, SteamDisk, ClearMode, tree,
  contents, file, steam_processes, or_zero, InstalledGame, CacheTarget, WipePlan, common,
  install_path, has_id,
}

pub record WipeResult : Type 0 where
  pub removed_games : ℕ
  pub reclaimed_bytes : ℕ
  pub failed : List String
  pub refused : List String
  pub steam_stopped : Bool
  pub signed_out : Bool

abbrev pub no_result : WipeResult
no_result = record {
  removed_games = 0;
  reclaimed_bytes = 0;
  failed = [];
  refused = [];
  steam_stopped = false;
  signed_out = false;
}

-- The `new_state` of the audit event, its target and its result.
pub record WipeEvent (D : SteamDisk) : Type 0 where
  pub target : D.Location
  pub removed_games : ℕ
  pub reclaimed_bytes : ℕ
  pub failed : ℕ
  pub refused : ℕ
  pub result : String

-- A call that deletes, and the disk when it was made.
pub data Deletion (D : SteamDisk) : Type 0 where
  tree_deleted : D.Location → (keep_root : Bool) → (spare : List String) → D.W → Deletion D
  file_deleted : D.Location → D.W → Deletion D

-- The disk, the audit file, and the deletions that were asked for, which the code does not keep.
pub record Machine (D : SteamDisk) : Type 0 where
  pub disk : D.W
  pub audit_file : List (WipeEvent D)
  pub deletions : List (Deletion D)

module _ (D : SteamDisk) where
  abbrev pub State : Type 0
  State = WipeResult × Machine D

  unfoldable pub run_delete_tree : D.Location → Bool → List String → Machine D → Answer × Machine D
  run_delete_tree path keep_root spare m =
      let (a, w) = D.delete_tree path keep_root spare m.disk in
      (a, record m { disk = w; deletions = tree_deleted path keep_root spare m.disk ∷ m.deletions })

  unfoldable pub run_delete_file : D.Location → Machine D → Answer × Machine D
  run_delete_file path m =
      let (a, w) = D.delete_file path m.disk in
      (a, record m { disk = w; deletions = file_deleted path m.disk ∷ m.deletions })

  unfoldable pub fail : String → WipeResult → WipeResult
  fail text r = record r { failed = r.failed ++ text ∷ [] }

  unfoldable pub refuse : String → WipeResult → WipeResult
  refuse text r = record r { refused = r.refused ++ text ∷ [] }

  unfoldable pub reclaim : ℕ → WipeResult → WipeResult
  reclaim n r = record r { reclaimed_bytes = r.reclaimed_bytes + n }

  unfoldable pub count_game : WipeResult → WipeResult
  count_game r = record r { removed_games = r.removed_games + 1 }

  -- A `DeleteError` is an `OSError`.
  unfoldable pub after_manifest : String → WipeResult → Answer × Machine D → State
  after_manifest name r (freed n, m) = (r, m)
  after_manifest name r (refusal text, m) = (fail (name <> (" manifest: " <> text)) r, m)
  after_manifest name r (failure text, m) = (fail (name <> (" manifest: " <> text)) r, m)

  unfoldable pub remove_manifest : InstalledGame D → State → State
  remove_manifest game (r, m) =
      if D.exists game.manifest_path m.disk
      then after_manifest game.name r (run_delete_file game.manifest_path m)
      else (r, m)

  unfoldable pub after_folder : InstalledGame D → WipeResult → Answer × Machine D → State
  after_folder game r (freed n, m) = remove_manifest game (count_game (reclaim n r), m)
  after_folder game r (refusal text, m) = (refuse (game.name <> (": " <> text)) r, m)
  after_folder game r (failure text, m) = (fail (game.name <> (": " <> text)) r, m)

  unfoldable pub remove_folder : InstalledGame D → State → State
  remove_folder game (r, m) =
      if D.is_dir (install_path D game) m.disk
      then after_folder game r (run_delete_tree (install_path D game) false [] m)
      else remove_manifest game (count_game r, m)

  unfoldable pub is_contained : InstalledGame D → D.W → Bool
  is_contained game w = elim (D.contained (install_path D game) (common D game.library) w) [
    | none ↦ false
    | some b ↦ b
  ]

  unfoldable pub remove_game : Bool → InstalledGame D → State → State
  remove_game dry_run game (r, m) =
      if not (is_contained game m.disk)
      then (refuse (game.name <> ": outside its library") r, m)
      else if dry_run
      then (reclaim (or_zero game.size_bytes) (count_game r), m)
      else remove_folder game (r, m)

  unfoldable pub remove_games : Bool → List (InstalledGame D) → State → State
  remove_games dry_run [] s = s
  remove_games dry_run (game ∷ games) s = remove_games dry_run games (remove_game dry_run game s)

  -- `CacheTarget.clear`
  unfoldable pub clear_existing : CacheTarget D → ClearMode → Machine D → Answer × Machine D
  clear_existing target file m = run_delete_file target.path m
  clear_existing target tree m = run_delete_tree target.path false [] m
  clear_existing target contents m = run_delete_tree target.path true target.keep_names m

  unfoldable pub clear : CacheTarget D → Machine D → Answer × Machine D
  clear target m =
      if D.exists target.path m.disk then clear_existing target target.mode m else (freed 0, m)

  unfoldable pub after_clear : CacheTarget D → WipeResult → Answer × Machine D → Bool × State
  after_clear target r (freed n, m) = (true, (reclaim n r, m))
  after_clear target r (refusal text, m) = (false, (refuse (target.label <> (": " <> text)) r, m))
  after_clear target r (failure text, m) = (false, (fail (target.label <> (": " <> text)) r, m))

  unfoldable pub remove_cache : Bool → CacheTarget D → State → Bool × State
  remove_cache dry_run target (r, m) =
      if dry_run
      then (true, (reclaim (or_zero target.size_bytes) r, m))
      else after_clear target r (clear target m)

  -- The answers of `_remove_cache` for each target, in order.
  unfoldable pub remove_caches : Bool → List (CacheTarget D) → State → List Bool × State
  remove_caches dry_run [] s = ([], s)
  remove_caches dry_run (target ∷ targets) s =
      let (cleared, s') = remove_cache dry_run target s in
      let (rest, s'') = remove_caches dry_run targets s' in (cleared ∷ rest, s'')

  unfoldable pub run_each : List Halt → D.W → Bool × D.W
  run_each [] w = (false, w)
  run_each (command ∷ commands) w =
      let (ok, w') = D.try_run command w in
      let (rest, w'') = run_each commands w' in (ok || rest, w'')

  unfoldable pub stop_steam : D.W → Bool × D.W
  stop_steam = run_each (
      stop_service "Steam Client Service"
      ∷ map (λ name. kill_process (name <> ".exe")) steam_processes)

  unfoldable pub stop_first : Bool → Machine D → State
  stop_first dry_run m =
      if dry_run
      then (no_result, m)
      else let (stopped, w) = stop_steam m.disk in
        (record no_result { steam_stopped = stopped }, record m { disk = w })

  unfoldable pub sign_out : List Bool → WipeResult → WipeResult
  sign_out [] r = record r { signed_out = false }
  sign_out (b ∷ bs) r = record r { signed_out = all (λ c. c) (b ∷ bs) }

  unfoldable pub no_failures : List String → String
  no_failures [] = "SUCCESS"
  no_failures (f ∷ fs) = "PARTIAL"

  unfoldable pub note_wipe : Bool → WipePlan D → State → State
  note_wipe dry_run plan (r, m) = if dry_run then (r, m) else (
    r,
    record m {
      audit_file =
          m.audit_file
          ++ (record {
            target = plan.install;
            removed_games = r.removed_games;
            reclaimed_bytes = r.reclaimed_bytes;
            failed = length r.failed;
            refused = length r.refused;
            result = no_failures r.failed;
          })
            ∷ [];
    },
  )

  -- The games to remove, none of which is kept.
  unfoldable pub doomed : WipePlan D → List (InstalledGame D)
  doomed plan =
      select
        (λ (g : InstalledGame D).
          not (has_id D (map (λ (k : InstalledGame D). k.app_id) plan.keep) g))
        plan.remove

  unfoldable pub wipe : Bool → WipePlan D → Machine D → State
  wipe dry_run plan m =
      let started = stop_first dry_run m in
      let without_games = remove_games dry_run (doomed plan) started in
      let (ignored, without_caches) = remove_caches dry_run plan.caches without_games in
      let (cleared, (r, m')) = remove_caches dry_run plan.signout without_caches in
      note_wipe dry_run plan (sign_out cleared r, m')
