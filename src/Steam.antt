-- ===== src/Steam.antt =====
-- games/steam/wipe.py: what a Steam reset intends to do, with the records of games/steam/models.py and
-- games/steam/targets.py. What the operating system answers is the parameter `SteamDisk`.
pub mod Wiping
pub mod Approving
pub mod Resetting
use pudge_gaming_manager.Prelude.{
  ℕ, ◌+◌, String, ◌<>◌, Bool, true, false, not, ◌||◌, Option, none, some, List, [], ◌∷◌, ◌++◌, map,
  any, select, ◌==◌, if◌then◌else◌,
}

-- What a deletion answers: the bytes reclaimed, or the text of a `DeleteError` or of another `OSError`.
pub data Answer : Type 0 where
  freed : ℕ → Answer
  refusal failure : String → Answer

-- A command that `_stop_steam` runs.
pub data Halt : Type 0 where
  stop_service kill_process : String → Halt

-- The paths, the disk `W`, and the calls on it. `contained` is none if resolving a path raises, and
-- `dir_size` is none if a folder cannot be read. `label` and `drive` are texts of paths.
pub record SteamDisk : Type 1 where
  pub Location : Type 0
  pub W : Type 0
  pub under : Location → String → Location
  pub drive : Location → String
  pub contained : Location → Location → W → Option Bool
  pub is_dir : Location → W → Bool
  pub exists : Location → W → Bool
  pub dir_size : Location → W → Option ℕ
  pub delete_tree : Location → (keep_root : Bool) → (spare : List String) → W → Answer × W
  pub delete_file : Location → W → Answer × W
  pub try_run : Halt → W → Bool × W

pub data ClearMode : Type 0 where
  tree contents file : ClearMode

unfoldable pub library_cache_dirs : List String
library_cache_dirs = "downloading" ∷ "temp" ∷ "shadercache" ∷ "workshop" ∷ "sourcemods" ∷ []

unfoldable pub root_cache_dirs : List String
root_cache_dirs = "appcache" ∷ "logs" ∷ "dumps" ∷ "userdata" ∷ []

unfoldable pub steam_processes : List String
steam_processes = "steam" ∷ "steamwebhelper" ∷ "steamservice" ∷ []

-- `size or 0`
unfoldable pub or_zero : Option ℕ → ℕ
or_zero none = 0
or_zero (some n) = n

unfoldable pub total : List ℕ → ℕ
total [] = 0
total (n ∷ ns) = n + total ns

module _ (D : SteamDisk) where
  open D use {Location, W, under}

  pub record SteamLibrary : Type 0 where
    pub path : Location

  pub record InstalledGame : Type 0 where
    pub app_id : ℕ
    pub name : String
    pub install_dir : String
    pub library : SteamLibrary
    pub manifest_path : Location
    pub size_bytes : Option ℕ

  pub record CacheTarget : Type 0 where
    pub path : Location
    pub label : String
    pub size_bytes : Option ℕ
    pub mode : ClearMode
    pub keep_names : List String

  pub record WipePlan : Type 0 where
    pub install : Location
    pub remove : List InstalledGame
    pub keep : List InstalledGame
    pub caches : List CacheTarget
    pub signout : List CacheTarget
    pub accounts : ℕ

  unfoldable pub steamapps : SteamLibrary → Location
  steamapps library = under library.path "steamapps"

  unfoldable pub common : SteamLibrary → Location
  common library = under (steamapps library) "common"

  unfoldable pub install_path : InstalledGame → Location
  install_path game = under (common game.library) game.install_dir

  unfoldable pub games_bytes : WipePlan → ℕ
  games_bytes plan = total (map (λ (g : InstalledGame). or_zero g.size_bytes) plan.remove)

  unfoldable pub cache_bytes : WipePlan → ℕ
  cache_bytes plan = total (map (λ (c : CacheTarget). or_zero c.size_bytes) plan.caches)

  unfoldable pub signout_bytes : WipePlan → ℕ
  signout_bytes plan = total (map (λ (c : CacheTarget). or_zero c.size_bytes) plan.signout)

  unfoldable pub total_bytes : WipePlan → ℕ
  total_bytes plan = games_bytes plan + cache_bytes plan + signout_bytes plan

  -- `game.app_id in app_ids`
  unfoldable pub has_id : List ℕ → InstalledGame → Bool
  has_id app_ids game = any (λ i. i == game.app_id) app_ids

  unfoldable pub with_kept_back : List ℕ → WipePlan → WipePlan
  with_kept_back app_ids plan = record plan {
    remove = select (λ g. not (has_id app_ids g)) plan.remove;
    keep = plan.keep ++ select (has_id app_ids) plan.remove;
  }

  unfoldable pub tree_target : Location → String → W → List CacheTarget
  tree_target path label w =
      if D.is_dir path w
      then (record {
        path = path;
        label = label;
        size_bytes = D.dir_size path w;
        mode = tree;
        keep_names = [];
      })
        ∷ []
      else []

  unfoldable pub library_targets : SteamLibrary → List String → W → List CacheTarget
  library_targets library [] w = []
  library_targets library (name ∷ names) w =
      tree_target (under (steamapps library) name) (name <> (" (" <> (D.drive library.path <> ")")))
        w
      ++ library_targets library names w

  unfoldable pub root_targets : Location → List String → W → List CacheTarget
  root_targets install [] w = []
  root_targets install (name ∷ names) w =
      tree_target (under install name) (name <> " (Steam)") w ++ root_targets install names w

  unfoldable pub cache_targets : Location → List SteamLibrary → W → List CacheTarget
  cache_targets install [] w = root_targets install root_cache_dirs w
  cache_targets install (library ∷ libraries) w =
      library_targets library library_cache_dirs w ++ cache_targets install libraries w

  -- What `find_steam`, `discover_libraries`, `installed_games`, `signout_targets` and
  -- `_remembered_accounts` found.
  pub record Found : Type 0 where
    pub install : Location
    pub libraries : List SteamLibrary
    pub games : List InstalledGame
    pub signout : List CacheTarget
    pub accounts : ℕ

  unfoldable pub scan : List ℕ → Option Found → W → Option WipePlan
  scan keep_app_ids none w = none
  scan keep_app_ids (some found) w = some (record {
    install = found.install;
    remove = select (λ g. not (has_id keep_app_ids g)) found.games;
    keep = select (has_id keep_app_ids) found.games;
    caches = cache_targets found.install found.libraries w;
    signout = found.signout;
    accounts = found.accounts;
  })
