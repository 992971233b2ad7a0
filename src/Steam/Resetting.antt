-- ===== src/Steam/Resetting.antt =====
-- A Steam reset from the scan to the deletions, and its dry run.
use pudge_gaming_manager.Prelude.{
  ◌≡◌, ◌≢◌, ap, any, ◌==◌, inl, inr, refl, sym, ◌∙◌, ◌⊎◌, ℕ, true, false, not, some, List, [], ◌∷◌,
  ◌++◌, select, All, All-map, In, In-of_select, if_ind, arith, some-injective, subst,
}
use pudge_gaming_manager.Steam.{
  SteamDisk, InstalledGame, CacheTarget, WipePlan, Found, has_id, with_kept_back, scan,
  cache_targets, install_path,
}
use pudge_gaming_manager.Steam.Wiping.{
  Machine, State, Deletion, tree_deleted, file_deleted, remove_game, remove_games, is_contained,
  remove_cache, remove_caches, stop_first, note_wipe, doomed, wipe,
}
use pudge_gaming_manager.Steam.Approving.{OfGame, OfTarget, IsApproved, wipe-Kept}

module _ (D : SteamDisk) where
  remove_game-dry : (g : InstalledGame D) (s : State D) → (remove_game D true g s).1 ≡ s.1
  unfolding remove_game
  remove_game-dry g (r, m) =
      if_ind (λ (s : State D). s.1 ≡ m) (not (is_contained D g m.disk)) (λ _. refl) (λ _. refl)

  remove_games-dry :
      (games : List (InstalledGame D)) (s : State D) → (remove_games D true games s).1 ≡ s.1
  unfolding remove_games
  remove_games-dry [] s = refl
  remove_games-dry (g ∷ games) s = remove_games-dry games _ ∙ remove_game-dry g s

  remove_caches-dry :
      (targets : List (CacheTarget D)) (s : State D) → (remove_caches D true targets s).1.1 ≡ s.1
  unfolding remove_caches remove_cache
  remove_caches-dry [] s = refl
  remove_caches-dry (t ∷ targets) s = remove_caches-dry targets _

  wipe-dry : (plan : WipePlan D) (m : Machine D) → (wipe D true plan m).1 ≡ m
  unfolding wipe note_wipe stop_first
  wipe-dry plan m =
      remove_caches-dry plan.signout _
      ∙ remove_caches-dry plan.caches _
      ∙ remove_games-dry (doomed D plan) _

  -- A dry run changes nothing and asks for no deletion. Every deletion that a reset asks for is of a
  -- game that the plan removes and does not keep (its whole folder, which then resolves into its
  -- library, or its manifest), or of a cache or sign-in target of the plan, in the target's mode,
  -- however the calls on the disk end.
  pub wipe-IsApproved :
      (plan : WipePlan D) (m : Machine D)
      → m.deletions ≡ []
      → ((wipe D true plan m).1 ≡ m) × All (IsApproved D plan) (wipe D false plan m).1.deletions
  wipe-IsApproved plan m fresh =
      (wipe-dry plan m, wipe-Kept D plan false m (subst (All (IsApproved D plan)) (sym fresh) tt))

  -- A deletion that spares the games with the given app ids.
  abbrev pub IsSparing : (kept back : List ℕ) → Found D → List (CacheTarget D) → Deletion D → Type 0
  IsSparing kept back found targets d =
      ((g : InstalledGame D) × In g found.games
        × (has_id D kept g ≡ false)
        × (has_id D back g ≡ false)
        × OfGame D g d)
      ⊎ ((t : CacheTarget D) × In t targets × OfTarget D t d)

  abbrev planned : List ℕ → Found D → D.W → WipePlan D
  planned kept found w = record {
    install = found.install;
    remove = select (λ g. not (has_id D kept g)) found.games;
    keep = select (has_id D kept) found.games;
    caches = cache_targets D found.install found.libraries w;
    signout = found.signout;
    accounts = found.accounts;
  }

  approved-IsSparing :
      (kept back : List ℕ) (found : Found D) (w : D.W) (d : Deletion D)
      → IsApproved D (with_kept_back D back (planned kept found w)) d
      → IsSparing kept back found
          (cache_targets D found.install found.libraries w ++ found.signout)
          d
  unfolding with_kept_back
  approved-IsSparing kept back found w d (inl (g, listed, free, of)) =
      let (left, e) = In-of_select (λ g. not (has_id D back g)) g _ listed in
      let (there, f) = In-of_select (λ g. not (has_id D kept g)) g found.games left in
      inl (g, there, ground (arith, f), ground (arith, e), of)
  approved-IsSparing kept back found w d (inr target) = inr target

  -- What a deletion is asked to delete.
  abbrev pub location_of : Deletion D → D.Location
  location_of (tree_deleted path keep_root spare w) = path
  location_of (file_deleted path w) = path

  -- The folder or the manifest of a game.
  abbrev pub Belongs : InstalledGame D → D.Location → Type 0
  Belongs g path = (path ≡ install_path D g) ⊎ (path ≡ g.manifest_path)

  -- The operator keeps the game: its app id is on the list, or was taken back in the preview.
  abbrev pub IsSpared : (kept back : List ℕ) → InstalledGame D → Type 0
  IsSpared kept back h = (has_id D kept h ≡ true) ⊎ (has_id D back h ≡ true)

  -- As Steam lays out its libraries: nothing of a game lies in what belongs to a game with another
  -- app id, or in a cache or sign-in target.
  pub record IsLaidOut (lies_in : D.Location → D.Location → Type 0) (found : Found D)
      (targets : List (CacheTarget D)) : Type 0 where
    pub games_apart :
        (g h : InstalledGame D)
        → In g found.games
        → In h found.games
        → g.app_id ≢ h.app_id
        → (x y : D.Location) → Belongs g x
        → Belongs h y
        → lies_in y x
        → ⊥
    pub caches_apart :
        (h : InstalledGame D) (t : CacheTarget D)
        → In h found.games
        → In t targets
        → (y : D.Location) → Belongs h y
        → lies_in y t.path
        → ⊥

  -- The deletion is of nothing that holds what belongs to the game.
  abbrev pub Misses : (D.Location → D.Location → Type 0) → InstalledGame D → Deletion D → Type 0
  Misses lies_in h d = (y : D.Location) → Belongs h y → lies_in y (location_of d) → ⊥

  OfGame-Belongs : (g : InstalledGame D) (d : Deletion D) → OfGame D g d → Belongs g (location_of d)
  OfGame-Belongs g (tree_deleted path keep_root spare w) of = inl of.0
  OfGame-Belongs g (file_deleted path w) of = inr of

  OfTarget-location : (t : CacheTarget D) (d : Deletion D) → OfTarget D t d → location_of d ≡ t.path
  OfTarget-location t (tree_deleted path keep_root spare w) of = of.0
  OfTarget-location t (file_deleted path w) of = of.0

  -- The list goes by app ids.
  has_id-app_id :
      (app_ids : List ℕ) (g h : InstalledGame D)
      → g.app_id ≡ h.app_id
      → has_id D app_ids g ≡ has_id D app_ids h
  unfolding has_id
  has_id-app_id app_ids g h e = ap (λ n. any (λ i. i == n) app_ids) e

  spared_apart :
      (kept back : List ℕ) (g h : InstalledGame D)
      → has_id D kept g ≡ false
      → has_id D back g ≡ false
      → IsSpared kept back h
      → g.app_id ≢ h.app_id
  spared_apart kept back g h k b (inl e) same = cc (k, e, has_id-app_id kept g h same)
  spared_apart kept back g h k b (inr e) same = cc (b, e, has_id-app_id back g h same)

  IsSparing-Misses :
      (lies_in : D.Location → D.Location → Type 0) (kept back : List ℕ) (found : Found D)
      (targets : List (CacheTarget D)) (h : InstalledGame D)
      → IsLaidOut lies_in found targets
      → In h found.games
      → IsSpared kept back h
      → (d : Deletion D) → IsSparing kept back found targets d
      → Misses lies_in h d
  IsSparing-Misses lies_in kept back found targets h laid there spared d (inl (g, in_g, k, b, of)) y
        own =
      laid.games_apart g h in_g there (spared_apart kept back g h k b spared) (location_of d) y
        (OfGame-Belongs g d of) own
  IsSparing-Misses lies_in kept back found targets h laid there spared d (inr (t, in_t, of)) y own =
      λ inside.
        laid.caches_apart h t there in_t y own (subst (lies_in y) (OfTarget-location t d of) inside)

  wipe-IsSparing :
      (kept back : List ℕ) (found : Found D) (w : D.W) (plan : WipePlan D) (m : Machine D)
      → scan D kept (some found) w ≡ some plan
      → m.deletions ≡ []
      → All
          (IsSparing kept back found
            (cache_targets D found.install found.libraries w ++ found.signout))
          (wipe D false (with_kept_back D back plan) m).1.deletions
  unfolding scan
  wipe-IsSparing kept back found w plan m scanned fresh =
      subst
        (λ p.
          All
            (IsSparing kept back found
              (cache_targets D found.install found.libraries w ++ found.signout))
            (wipe D false (with_kept_back D back p) m).1.deletions)
        (some-injective _ _ scanned)
        (All-map _ _ _ (approved-IsSparing kept back found w)
          (wipe-IsApproved (with_kept_back D back (planned kept found w)) m fresh).1)

  -- From the scan to the deletions, each deletion of a reset is of what belongs to some game that was
  -- found, with an app id that is neither on the list of exceptions nor taken back in the preview, or
  -- of a cache that the scan found or of sign-in data. If the libraries are laid out so that nothing
  -- of a game lies in what belongs to a game with another app id or in one of these targets, no
  -- deletion is of a place that holds the folder or the manifest of a game on the list or taken back.
  pub reset-IsSparing :
      (lies_in : D.Location → D.Location → Type 0) (kept back : List ℕ) (found : Found D) (w : D.W)
      (plan : WipePlan D) (m : Machine D)
      → scan D kept (some found) w ≡ some plan
      → m.deletions ≡ []
      → IsLaidOut lies_in found (cache_targets D found.install found.libraries w ++ found.signout)
      → All
          (IsSparing kept back found
            (cache_targets D found.install found.libraries w ++ found.signout))
          (wipe D false (with_kept_back D back plan) m).1.deletions
        × ((h : InstalledGame D)
            → In h found.games
            → IsSpared kept back h
            → All (Misses lies_in h) (wipe D false (with_kept_back D back plan) m).1.deletions)
  reset-IsSparing lies_in kept back found w plan m scanned fresh laid =
      let targets = cache_targets D found.install found.libraries w ++ found.signout in
      let sparing = wipe-IsSparing kept back found w plan m scanned fresh in
      (
        sparing,
        λ h there spared.
            All-map _ _ _ (IsSparing-Misses lies_in kept back found targets h laid there spared)
              sparing,
      )
