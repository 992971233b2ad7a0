-- ===== src/Folders/Refusing.antt =====
-- What `plan_move` lets through.
use pudge_gaming_manager.Prelude.{
  ◌≡◌, refl, sym, ◌⊎◌, inl, inr, ℕ, ◌+◌, ◌≤◌, String, Bool, true, false, not, none, some, ltb, ◌==◌,
  if_ind, option_ind, arith,
}
use pudge_gaming_manager.Folders.{
  Files, Stats, FolderPlan, Ended, done, blocked, require_actionable, measure, after_measure,
  unread, move_folder, check_space, check_contents, check_destination, check_volume, check_parent,
  plan_move, space_margin,
}

module _ (F : Files) where
  -- The folder may go to the destination: it is not protected, the parent is an ordinary folder on
  -- another volume, nothing is at the destination, which is not inside the folder, the folder can be
  -- read in full and has no links, and it fits with the margin.
  abbrev pub MayMove : F.Location → F.Location → F.Location → Stats → ℕ → F.Disk → Type 0
  MayMove source parent destination stats free d =
      (blocked F source d ≡ none)
      × (F.is_dir parent d ≡ true)
      × (F.is_reparse_point parent d ≡ false)
      × (F.other_volume source parent d ≡ inr true)
      × (F.lexists destination d ≡ false)
      × (F.is_within destination source d ≡ false)
      × (F.measure_tree source d ≡ inr stats)
      × (stats.links ≡ 0)
      × (stats.failed ≡ 0)
      × (F.free parent d ≡ inr free)
      × (stats.bytes + space_margin ≤ free)

  abbrev moved_plan : F.Location → F.Location → Stats → FolderPlan F
  moved_plan source destination stats = record {
    action = move_folder;
    source = source;
    size_bytes = stats.bytes;
    file_count = stats.files;
    destination = some destination;
    unreadable = 0;
  }

  done-injective : {A : Type 0} {a b : A} → done a ≡ done b → a ≡ b
  done-injective e = cc e

  module _ (source parent : F.Location) (plan : FolderPlan F) (d : F.Disk) where
    abbrev destination : F.Location
    destination = F.under parent (F.name source)

    abbrev pub IsPlanned : Type 0
    IsPlanned =
        (stats : Stats) × (free : ℕ) × MayMove source parent destination stats free d
        × (plan ≡ moved_plan source destination stats)

    abbrev Gives : Ended (FolderPlan F) × F.Disk → Type 0
    Gives x = x.0 ≡ done plan → IsPlanned

    check_space-Gives :
        (stats : Stats) (a : String ⊎ ℕ)
        → ((free : ℕ)
            → a ≡ inr free
            → stats.bytes + space_margin ≤ free
            → plan ≡ moved_plan source destination stats
            → IsPlanned)
        → Gives (check_space F source destination stats a d)
    unfolding check_space
    check_space-Gives stats (inl why) h = λ e. cc e
    check_space-Gives stats (inr free) h =
        if_ind Gives (ltb free (stats.bytes + space_margin)) (λ _ e. cc e)
          (λ fits e. h free refl (ground (arith, fits)) (sym (done-injective e)))

    check_destination-Gives :
        (blocked F source d ≡ none)
        → (F.is_dir parent d ≡ true)
        → (F.is_reparse_point parent d ≡ false)
        → (F.other_volume source parent d ≡ inr true)
        → Gives (check_destination F source parent destination d)
    unfolding check_destination measure after_measure unread check_contents
    check_destination-Gives b p r v =
        if_ind Gives (F.lexists destination d) (λ _ e. cc e)
          λ l.
            if_ind Gives (F.is_within destination source d) (λ _ e. cc e)
              λ w. measured (F.measure_tree source d) λ stats m. contents stats λ no_links all_read.
                check_space-Gives stats (F.free parent d) λ free f fits same.
                  (stats, free, (b, p, r, v, l, w, m, no_links, all_read, f, fits), same)
      where
        measured :
            (a : String ⊎ Stats)
            → ((stats : Stats)
                → a ≡ inr stats
                → Gives (check_contents F source parent destination stats d))
            → Gives (
                after_measure F source "Перенос невозможен"
                  (check_contents F source parent destination)
                  a
                  d)
        measured (inl why) h = λ e. cc e
        measured (inr stats) h = h stats refl

        contents :
            (stats : Stats)
            → (stats.links ≡ 0
                → stats.failed ≡ 0
                → Gives (check_space F source destination stats (F.free parent d) d))
            → Gives (check_contents F source parent destination stats d)
        contents stats h =
            if_ind Gives (not (stats.links == 0)) (λ _ e. cc e)
              λ no_links.
                if_ind Gives (not (stats.failed == 0)) (λ _ e. cc e)
                  λ all_read. h (ground (arith, no_links)) (ground (arith, all_read))

    check_volume-Gives :
        (a : String ⊎ Bool)
        → F.other_volume source parent d ≡ a
        → (blocked F source d ≡ none)
        → (F.is_dir parent d ≡ true)
        → (F.is_reparse_point parent d ≡ false)
        → Gives (check_volume F source parent a d)
    unfolding check_volume
    check_volume-Gives (inl why) v b p r = λ e. cc e
    check_volume-Gives (inr false) v b p r = λ e. cc e
    check_volume-Gives (inr true) v b p r = check_destination-Gives b p r v

    -- A move is planned only for a folder that is not protected, into an ordinary folder on another
    -- volume where its name is free and which is not inside it, if it can be read in full and has no
    -- links and the volume keeps a margin of 256 MiB; the plan holds the counts that were measured.
    pub plan_move-IsPlanned : (plan_move F source parent d).0 ≡ done plan → IsPlanned
    unfolding plan_move require_actionable check_parent
    plan_move-IsPlanned =
        option_ind Gives (blocked F source d)
          (λ b.
            if_ind Gives (not (F.is_dir parent d)) (λ _ e. cc e)
              λ p.
                if_ind Gives (F.is_reparse_point parent d) (λ _ e. cc e)
                  λ r.
                    check_volume-Gives (F.other_volume source parent d) refl b (ground (arith, p))
                      r)
          (λ reason _ e. cc e)
