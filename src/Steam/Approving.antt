-- ===== src/Steam/Approving.antt =====
-- What a Steam reset may delete.
use pudge_gaming_manager.Prelude.{
  ◌≡◌, inl, inr, refl, sym, ap, ◌⊎◌, ℕ, Bool, true, false, not, List, [], ◌∷◌, ◌++◌, map, All, In,
  In-append_left, In-append_right, In-of_select, if_ind, arith,
}
use pudge_gaming_manager.Steam.{
  Answer, freed, refusal, failure, SteamDisk, ClearMode, tree, contents, file, InstalledGame,
  CacheTarget, WipePlan, install_path, has_id,
}
use pudge_gaming_manager.Steam.Wiping.{
  WipeResult, Machine, State, Deletion, tree_deleted, file_deleted, run_delete_tree,
  run_delete_file, after_manifest, remove_manifest, after_folder, remove_folder, is_contained,
  remove_game, remove_games, clear_existing, clear, after_clear, remove_cache, remove_caches,
  stop_first, note_wipe, doomed, wipe,
}

abbrev pub keeps_root : ClearMode → Bool
keeps_root contents = true
keeps_root _ = false

module _ (D : SteamDisk) where
  abbrev pub ids : List (InstalledGame D) → List ℕ
  ids games = map (λ (g : InstalledGame D). g.app_id) games

  -- A deletion of a game: its whole folder, which resolved into the library when it was deleted, or its manifest.
  abbrev pub OfGame : InstalledGame D → Deletion D → Type 0
  OfGame g (tree_deleted path keep_root spare w) =
      (path ≡ install_path D g) × (keep_root ≡ false) × (spare ≡ []) × (is_contained D g w ≡ true)
  OfGame g (file_deleted path w) = path ≡ g.manifest_path

  -- A deletion of a cache or of sign-in data, in the mode of its target.
  abbrev pub OfTarget : CacheTarget D → Deletion D → Type 0
  OfTarget t (tree_deleted path keep_root spare w) =
      (path ≡ t.path)
      × (keep_root ≡ keeps_root t.mode)
      × ((keep_root ≡ true → spare ≡ t.keep_names) × (keep_root ≡ false → spare ≡ []))
  OfTarget t (file_deleted path w) = (path ≡ t.path) × (t.mode ≡ file)

  -- A game to remove that is not also kept, or a target of the plan.
  abbrev pub IsApproved : WipePlan D → Deletion D → Type 0
  IsApproved plan d =
      ((g : InstalledGame D) × In g plan.remove × (has_id D (ids plan.keep) g ≡ false) × OfGame g d)
      ⊎ ((t : CacheTarget D) × In t (plan.caches ++ plan.signout) × OfTarget t d)

module _ (D : SteamDisk) (plan : WipePlan D) where
  abbrev Kept : State D → Type 0
  Kept s = All (IsApproved D plan) s.1.deletions

  module _ (g : InstalledGame D) (listed : In g plan.remove)
      (free : has_id D (ids D plan.keep) g ≡ false) where
    remove_manifest-Kept : (s : State D) → Kept s → Kept (remove_manifest D g s)
    unfolding remove_manifest run_delete_file after_manifest
    remove_manifest-Kept (r, m) k =
        if_ind Kept (D.exists g.manifest_path m.disk)
          (λ e. ended (D.delete_file g.manifest_path m.disk).0 _ (inl (g, listed, free, refl), k))
          (λ e. k)
      where
        ended :
            (a : Answer) (m : Machine D)
            → All (IsApproved D plan) m.deletions
            → Kept (after_manifest D g.name r (a, m))
        ended (freed n) m k = k
        ended (refusal text) m k = k
        ended (failure text) m k = k

    after_folder-Kept :
        (r : WipeResult) (a : Answer) (m : Machine D)
        → All (IsApproved D plan) m.deletions
        → Kept (after_folder D g r (a, m))
    unfolding after_folder
    after_folder-Kept r (freed n) m k = remove_manifest-Kept _ k
    after_folder-Kept r (refusal text) m k = k
    after_folder-Kept r (failure text) m k = k

    remove_game-Kept : (dry_run : Bool) (s : State D) → Kept s → Kept (remove_game D dry_run g s)
    unfolding remove_game remove_folder run_delete_tree
    remove_game-Kept dry_run (r, m) k =
        if_ind Kept (not (is_contained D g m.disk)) (λ _. k)
          (λ inside.
            if_ind Kept dry_run (λ _. k)
              (λ _.
                if_ind Kept (D.is_dir (install_path D g) m.disk)
                  (λ _.
                    after_folder-Kept r _ _
                      (inl (g, listed, free, (refl, refl, refl, ground (arith, inside))), k))
                  (λ _. remove_manifest-Kept _ k)))

  remove_games-Kept :
      (dry_run : Bool) (games : List (InstalledGame D)) (s : State D)
      → ((g : InstalledGame D)
          → In g games
          → In g plan.remove × (has_id D (ids D plan.keep) g ≡ false))
      → Kept s
      → Kept (remove_games D dry_run games s)
  unfolding remove_games
  remove_games-Kept dry_run [] s sound k = k
  remove_games-Kept dry_run (g ∷ games) s sound k =
      let (listed, free) = sound g (inl refl) in
      remove_games-Kept dry_run games _ (λ g' there. sound g' (inr there))
        (remove_game-Kept g listed free dry_run s k)

  module _ (t : CacheTarget D) (listed : In t (plan.caches ++ plan.signout)) where
    after_clear-Kept :
        (r : WipeResult) (a : Answer) (m : Machine D)
        → All (IsApproved D plan) m.deletions
        → Kept (after_clear D t r (a, m)).1
    unfolding after_clear
    after_clear-Kept r (freed n) m k = k
    after_clear-Kept r (refusal text) m k = k
    after_clear-Kept r (failure text) m k = k

    clear_existing-Kept :
        (mode : ClearMode) (m : Machine D)
        → t.mode ≡ mode
        → All (IsApproved D plan) m.deletions
        → All (IsApproved D plan) (clear_existing D t mode m).1.deletions
    unfolding clear_existing run_delete_tree run_delete_file
    clear_existing-Kept tree m e k =
        (inr (t, listed, (refl, sym (ap keeps_root e), ((λ f. cc f), (λ f. refl)))), k)
    clear_existing-Kept contents m e k =
        (inr (t, listed, (refl, sym (ap keeps_root e), ((λ f. refl), (λ f. cc f)))), k)
    clear_existing-Kept file m e k = (inr (t, listed, (refl, e)), k)

    remove_cache-Kept :
        (dry_run : Bool) (s : State D) → Kept s → Kept (remove_cache D dry_run t s).1
    unfolding remove_cache clear
    remove_cache-Kept dry_run (r, m) k =
        if_ind (λ (x : Bool × State D). Kept x.1) dry_run (λ _. k)
          (λ _. after_clear-Kept r _ _ (
            if_ind (λ (x : Answer × Machine D). All (IsApproved D plan) x.1.deletions)
              (D.exists t.path m.disk) (λ _. clear_existing-Kept t.mode m refl k) (λ _. k)))

  remove_caches-Kept :
      (dry_run : Bool) (targets : List (CacheTarget D)) (s : State D)
      → ((t : CacheTarget D) → In t targets → In t (plan.caches ++ plan.signout))
      → Kept s
      → Kept (remove_caches D dry_run targets s).1
  unfolding remove_caches
  remove_caches-Kept dry_run [] s sound k = k
  remove_caches-Kept dry_run (t ∷ targets) s sound k =
      remove_caches-Kept dry_run targets _ (λ t' there. sound t' (inr there))
        (remove_cache-Kept t (sound t (inl refl)) dry_run s k)

  stop_first-Kept :
      (dry_run : Bool) (m : Machine D)
      → All (IsApproved D plan) m.deletions
      → Kept (stop_first D dry_run m)
  unfolding stop_first
  stop_first-Kept dry_run m k = if_ind Kept dry_run (λ _. k) (λ _. k)

  note_wipe-Kept :
      (dry_run : Bool) (r : WipeResult) (m : Machine D)
      → All (IsApproved D plan) m.deletions
      → Kept (note_wipe D dry_run plan (r, m))
  unfolding note_wipe
  note_wipe-Kept dry_run r m k = if_ind Kept dry_run (λ _. k) (λ _. k)

  doomed-listed :
      (g : InstalledGame D)
      → In g (doomed D plan)
      → In g plan.remove × (has_id D (ids D plan.keep) g ≡ false)
  unfolding doomed
  doomed-listed g there =
      let (listed, e) =
        In-of_select (λ g. not (has_id D (ids D plan.keep) g)) g plan.remove there in
      (listed, ground (arith, e))

  -- Every deletion that a reset asks for is one that the plan approves.
  pub wipe-Kept :
      (dry_run : Bool) (m : Machine D)
      → All (IsApproved D plan) m.deletions
      → All (IsApproved D plan) (wipe D dry_run plan m).1.deletions
  unfolding wipe
  wipe-Kept dry_run m k = note_wipe-Kept dry_run _ _ (
      remove_caches-Kept dry_run plan.signout _ (λ t. In-append_right t plan.caches plan.signout)
        (remove_caches-Kept dry_run plan.caches _ (λ t. In-append_left t plan.caches plan.signout)
          (remove_games-Kept dry_run (doomed D plan) _ doomed-listed
            (stop_first-Kept dry_run m k))))
