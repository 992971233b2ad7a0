-- ===== src/Samples/Resetting.antt =====
-- The theorems on a Steam reset, at a library of two games on a disk where every call succeeds.
use pudge_gaming_manager.Prelude.{
  ◌≡◌, refl, ℕ, ◌+◌, String, ◌<>◌, true, false, some, none, [], ◌∷◌, ◌++◌, All, Bool, List, map,
  all, not, In, In-map, inl, inr, ◌||◌, ◌==◌, starts_with, arith,
}
use pudge_gaming_manager.Steam.{
  freed, SteamDisk, InstalledGame, CacheTarget, WipePlan, Found, contents, scan, cache_targets,
  with_kept_back, install_path,
}
use pudge_gaming_manager.Steam.Wiping.{Machine, wipe}
use pudge_gaming_manager.Steam.Approving.{IsApproved}
use pudge_gaming_manager.Steam.Resetting.{
  IsSparing, IsSpared, IsLaidOut, Misses, Belongs, wipe-IsApproved, reset-IsSparing,
}

-- The disk counts the calls.
abbrev calm : SteamDisk
calm = record {
  Location = String;
  W = ℕ;
  under = λ p name. p <> ("/" <> name);
  drive = λ p. p;
  contained = λ p q w. some true;
  is_dir = λ p w. true;
  exists = λ p w. true;
  dir_size = λ p w. some 7;
  delete_tree = λ p keep spare w. (freed 7, w + 1);
  delete_file = λ p w. (freed 1, w + 1);
  try_run = λ c w. (true, w);
}

abbrev game : ℕ → String → InstalledGame calm
game app_id name = record {
  app_id = app_id;
  name = name;
  install_dir = name;
  library = record { path = "D:/SteamLibrary" };
  manifest_path = "D:/SteamLibrary/steamapps/" <> name;
  size_bytes = some 5;
}

abbrev sign_in : CacheTarget calm
sign_in = record {
  path = "C:/Steam/config";
  label = "config";
  size_bytes = none;
  mode = contents;
  keep_names = "config.vdf" ∷ [];
}

abbrev found_games : Found calm
found_games = record {
  install = "C:/Steam";
  libraries = record { path = "D:/SteamLibrary" } ∷ [];
  games = game 570 "dota" ∷ game 730 "cs" ∷ game 10 "old" ∷ [];
  signout = sign_in ∷ [];
  accounts = 1;
}

abbrev idle : Machine calm
idle = record { disk = 0; audit_file = []; deletions = [] }

abbrev reset_plan : WipePlan calm
reset_plan = record {
  install = "C:/Steam";
  remove = game 730 "cs" ∷ game 10 "old" ∷ [];
  keep = game 570 "dota" ∷ [];
  caches = cache_targets calm "C:/Steam" (record { path = "D:/SteamLibrary" } ∷ []) 0;
  signout = sign_in ∷ [];
  accounts = 1;
}

wipe-IsApproved_example :
    ((wipe calm true reset_plan idle).1 ≡ idle)
    × All (IsApproved calm reset_plan) (wipe calm false reset_plan idle).1.deletions
wipe-IsApproved_example = wipe-IsApproved calm reset_plan idle refl

scanned_games : scan calm (570 ∷ []) (some found_games) 0 ≡ some reset_plan
unfolding scan pudge_gaming_manager.Steam.has_id
scanned_games = refl

-- What begins with the path of another place lies in it.
abbrev Within : String → String → Type 0
Within y x = starts_with x y ≡ true

abbrev places : InstalledGame calm → List String
places g = install_path calm g ∷ g.manifest_path ∷ []

holds_of_all :
    {A : Type 0} (p : A → Bool) (xs : List A) → all p xs ≡ true → (x : A) → In x xs → p x ≡ true
holds_of_all p (y ∷ ys) e x (inl same) = rw same (ground (arith, e))
holds_of_all p (y ∷ ys) e x (inr there) = holds_of_all p ys (ground (arith, e)) x there
holds_of_all p [] e x h = absurd h

Belongs-places : (g : InstalledGame calm) (x : String) → Belongs calm g x → In x (places g)
Belongs-places g x (inl e) = inl e
Belongs-places g x (inr e) = inr (inl e)

abbrev targets : List (CacheTarget calm)
targets = cache_targets calm "C:/Steam" (record { path = "D:/SteamLibrary" } ∷ []) 0 ++ sign_in ∷ []

abbrev apart : InstalledGame calm → List String → Bool
apart h xs = all (λ x. all (λ y. not (starts_with x y)) (places h)) xs

apart-Within :
    (h : InstalledGame calm) (xs : List String)
    → apart h xs ≡ true
    → (x y : String) → In x xs
    → Belongs calm h y
    → Within y x
    → ⊥
apart-Within h xs e x y there own inside =
    let each = holds_of_all (λ x. all (λ y. not (starts_with x y)) (places h)) xs e x there in
    let outside =
      holds_of_all (λ y. not (starts_with x y)) (places h) each y (Belongs-places h y own) in
    ground (arith, outside, inside)

abbrev own_place : InstalledGame calm → InstalledGame calm → Bool
own_place g h = (g.app_id == h.app_id) || apart h (places g)

games_checked : all (λ g. all (own_place g) found_games.games) found_games.games ≡ true
unfolding install_path starts_with pudge_gaming_manager.Steam.common
    pudge_gaming_manager.Steam.steamapps
games_checked = refl

targets_checked :
    all (λ h. apart h (map (λ (t : CacheTarget calm). t.path) targets)) found_games.games ≡ true
unfolding install_path starts_with cache_targets pudge_gaming_manager.Steam.library_targets
    pudge_gaming_manager.Steam.library_cache_dirs pudge_gaming_manager.Steam.tree_target
    pudge_gaming_manager.Steam.steamapps pudge_gaming_manager.Steam.common
    pudge_gaming_manager.Steam.root_targets pudge_gaming_manager.Steam.root_cache_dirs
targets_checked = refl

laid_out : IsLaidOut calm Within found_games targets
laid_out = record {
  games_apart = λ g h in_g in_h differs x y own_g own_h.
      let row =
        holds_of_all (λ g. all (own_place g) found_games.games) found_games.games games_checked g
          in_g in
      let e = holds_of_all (own_place g) found_games.games row h in_h in
      let other_id : (g.app_id == h.app_id) ≡ false = ground (arith, differs) in
      apart-Within h (places g) (ground (arith, e, other_id)) x y (Belongs-places g x own_g) own_h;
  caches_apart = λ h t in_h in_t y own.
      let e =
        holds_of_all (λ h. apart h (map (λ (t : CacheTarget calm). t.path) targets))
          found_games.games targets_checked h in_h in
      apart-Within h (map (λ (t : CacheTarget calm). t.path) targets) e t.path y
        (In-map (λ (t : CacheTarget calm). t.path) t targets in_t) own;
}

reset-IsSparing_example :
    All
      (IsSparing calm (570 ∷ []) (10 ∷ []) found_games targets)
      (wipe calm false (with_kept_back calm (10 ∷ []) reset_plan) idle).1.deletions
    × ((h : InstalledGame calm)
        → In h found_games.games
        → IsSpared calm (570 ∷ []) (10 ∷ []) h
        → All
            (Misses calm Within h)
            (wipe calm false (with_kept_back calm (10 ∷ []) reset_plan) idle).1.deletions)
reset-IsSparing_example =
    reset-IsSparing calm Within (570 ∷ []) (10 ∷ []) found_games 0 reset_plan idle scanned_games
      refl laid_out
