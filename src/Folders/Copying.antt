-- ===== src/Folders/Copying.antt =====
-- The original and its copy before the swap.
use pudge_gaming_manager.Prelude.{
  ◌≡◌, refl, ◌∙◌, ◌⊎◌, inl, inr, ℕ, String, not, ◌||◌, ◌==◌, if_ind, arith,
}
use pudge_gaming_manager.Folders.{
  Files, Stats, Ended, done, refused, os_error, Step, measure, after_measure, unread, rename,
  after_rename, same_counts, check_copy, check_source, verify_copy, after_copy,
}
use pudge_gaming_manager.Folders.Disk.{IsDisk, Layout}

module _ (F : Files) {Node : Type 0} (at : F.Location → F.Disk → Node) (link_to : F.Location → Node)
    (Apart : F.Location → F.Location → Type 0) (disk : IsDisk F at link_to Apart)
    (source aside destination : F.Location) (layout : Layout F Apart source aside destination)
    (c : Node) where
  -- The copy was measured, after the copying, with these counts, no link and no failure, and is still
  -- what was measured.
  abbrev pub IsChecked : ℕ → ℕ → F.Disk → Type 0
  IsChecked files bytes d =
      (e : F.Disk) × (there : Stats) × (F.measure_tree destination e ≡ inr there)
      × (there.files ≡ files)
      × (there.bytes ≡ bytes)
      × (there.links ≡ 0)
      × (there.failed ≡ 0)
      × (at destination d ≡ at destination e)

  abbrev pub Ready : Ended Stats × F.Disk → Type 0
  Ready (done copied, d) = (at aside d ≡ c) × IsChecked copied.files copied.bytes d
  Ready (refused what reason remedy, d) = at source d ≡ c
  Ready (os_error why, d) = at source d ≡ c

  pub keep-IsChecked :
      (files bytes : ℕ) (d d' : F.Disk)
      → at destination d' ≡ at destination d
      → IsChecked files bytes d
      → IsChecked files bytes d'
  keep-IsChecked files bytes d d' same (e, there, m, f, b, l, g, held) =
      (e, there, m, f, b, l, g, same ∙ held)

  after_rename-Ready :
      (copied : Stats) (why : String) (x : (String ⊎ Unit {0}) × F.Disk)
      → (x.0 ≡ inr tt → (at aside x.1 ≡ c) × IsChecked copied.files copied.bytes x.1)
      → ((w : String) → x.0 ≡ inl w → at source x.1 ≡ c)
      → Ready (after_rename F source why (λ d. (done copied, d)) x)
  unfolding after_rename
  after_rename-Ready copied why (inl w, d) h k = k w refl
  after_rename-Ready copied why (inr tt, d) h k = h refl

  check_copy-Ready :
      (copied there : Stats) (next : Step F Stats) (d : F.Disk)
      → at source d ≡ c
      → F.measure_tree destination d ≡ inr there
      → (IsChecked copied.files copied.bytes d → Ready (next d))
      → Ready (check_copy F copied next there d)
  unfolding check_copy same_counts
  check_copy-Ready copied there next d was m h =
      if_ind Ready
        (not (same_counts F there copied) || (not (there.links == 0) || not (there.failed == 0)))
        (λ _. was)
        (λ e. h (
          d,
          there,
          m,
          ground (arith, e),
          ground (arith, e),
          ground (arith, e),
          ground (arith, e),
          refl,
        ))

  measured-Ready :
      (p : F.Location) (next : Stats → Step F Stats) (a : String ⊎ Stats) (d : F.Disk)
      → at source d ≡ c
      → ((there : Stats) → a ≡ inr there → Ready (next there d))
      → Ready (after_measure F p "Перенос не выполнен" next a d)
  unfolding after_measure unread
  measured-Ready p next (inl why) d was h = was
  measured-Ready p next (inr there) d was h = h there refl

  verify_copy-Ready :
      (copied : Stats) (next : Step F Stats) (d : F.Disk)
      → at source d ≡ c
      → (IsChecked copied.files copied.bytes d → Ready (next d))
      → Ready (verify_copy F source destination copied next d)
  unfolding verify_copy measure check_source
  verify_copy-Ready copied next d was h =
      measured-Ready source (check_source F destination copied next) _ d was λ now _.
        if_ind Ready (not (same_counts F now copied) || not (now.links == 0)) (λ _. was)
          (λ _.
            measured-Ready destination (check_copy F copied next) _ d was
              (λ there m. check_copy-Ready copied there next d was m h))

  pub after_copy-Ready :
      (x : (String ⊎ Stats) × F.Disk)
      → at source x.1 ≡ c
      → Ready (after_copy F source destination aside x)
  unfolding after_copy rename
  after_copy-Ready (inl why, d) was = was
  after_copy-Ready (inr copied, d) was = verify_copy-Ready copied _ d was λ checked.
      after_rename-Ready copied _ (F.rename source aside d)
        (λ e. (
          disk.moved source aside d e ∙ was,
          keep-IsChecked copied.files copied.bytes d _
              (disk.rename_apart source aside destination d layout.destination_source
                layout.destination_aside)
              checked,
        ))
        (λ w e. disk.stayed source aside source d w e ∙ was)
