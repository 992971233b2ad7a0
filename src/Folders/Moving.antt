-- ===== src/Folders/Moving.antt =====
-- Where the original of a move is, however the calls end.
use pudge_gaming_manager.Prelude.{
  ◌≡◌, refl, sym, ◌∙◌, ◌⊎◌, inl, inr, String, Bool, true, false, some, List, subst, if_ind,
  option_ind,
}
use pudge_gaming_manager.Folders.{
  Files, Stats, FolderPlan, FolderResult, Ended, done, refused, os_error, Step, require_actionable,
  blocked, rename, after_rename, after_return, probe_unused, discard, after_undo, after_junction,
  link, caught, finish, copy_and_swap, move_to, probe_of, aside_of, left_at_probe, left_aside,
  move_folder, FolderEvent, Place, perform, audited, run_folder,
}
use pudge_gaming_manager.Folders.Disk.{IsDisk, Layout}
use pudge_gaming_manager.Folders.Copying.{IsChecked, Ready, keep-IsChecked, after_copy-Ready}

module _ (F : Files) {Node : Type 0} (at : F.Location → F.Disk → Node) (link_to : F.Location → Node)
    (Apart : F.Location → F.Location → Type 0) (disk : IsDisk F at link_to Apart)
    (source probe aside destination : F.Location) (layout : Layout F Apart source aside destination)
    (c : Node) where
  abbrev Linked : (Bool × Ended Stats) × F.Disk → Type 0
  Linked ((safe, done copied), d) =
      (at source d ≡ link_to destination)
      × (at aside d ≡ c)
      × IsChecked F at link_to Apart disk source aside destination layout c copied.files
          copied.bytes d
  Linked ((true, refused what reason remedy), d) = at source d ≡ c
  Linked ((false, refused what reason remedy), d) =
      (at aside d ≡ c) × (reason ≡ left_aside F aside destination)
  Linked ((safe, os_error why), d) = at source d ≡ c

  after_undo-Linked :
      (why : String) (x : (String ⊎ Unit {0}) × F.Disk)
      → (x.0 ≡ inr tt → at source x.1 ≡ c)
      → ((w : String) → x.0 ≡ inl w → at aside x.1 ≡ c)
      → Linked (after_undo F destination aside why x)
  unfolding after_undo
  after_undo-Linked why (inl w, d) h k = (k w refl, refl)
  after_undo-Linked why (inr tt, d) h k = h refl

  after_junction-Linked :
      (copied : Stats) (x : (String ⊎ Unit {0}) × F.Disk)
      → (x.0 ≡ inr tt → at source x.1 ≡ link_to destination)
      → (at aside x.1 ≡ c)
      → IsChecked F at link_to Apart disk source aside destination layout c copied.files
          copied.bytes x.1
      → Linked (after_junction F source destination aside copied x)
  unfolding after_junction
  after_junction-Linked copied (inl why, d) h was checked =
      after_undo-Linked why (F.rename aside source d) (λ e. disk.moved aside source d e ∙ was)
        (λ w e. disk.stayed aside source aside d w e ∙ was)
  after_junction-Linked copied (inr tt, d) h was checked = (h refl, was, checked)

  link-Linked :
      (x : Ended Stats × F.Disk)
      → Ready F at link_to Apart disk source aside destination layout c x
      → Linked (link F source destination aside x)
  unfolding link
  link-Linked (done copied, d) (was, checked) =
      after_junction-Linked copied (F.create_junction source destination d)
        (disk.linked source destination d)
        (disk.link_apart source destination aside d layout.aside_source ∙ was)
        (keep-IsChecked F at link_to Apart disk source aside destination layout c copied.files
          copied.bytes d _
          (disk.link_apart source destination destination d layout.destination_source) checked)
  link-Linked (refused what reason remedy, d) was = was
  link-Linked (os_error why, d) was = was

  -- Where the original is when a move is over.
  abbrev pub IsWhole : Ended (FolderResult F) × F.Disk → Type 0
  IsWhole (done r, d) =
      (at source d ≡ link_to destination)
      × IsChecked F at link_to Apart disk source aside destination layout c r.file_count
          r.size_bytes d
  IsWhole (refused what reason remedy, d) =
      (at source d ≡ c)
      ⊎ (at aside d ≡ c) × (reason ≡ left_aside F aside destination)
      ⊎ (at probe d ≡ c) × (reason ≡ left_at_probe F probe)
  IsWhole (os_error why, d) = ⊥

  discard-source : (d : F.Disk) → at source (discard F destination d) ≡ at source d
  unfolding discard
  discard-source d =
      if_ind (λ (e : F.Disk). at source e ≡ at source d) (F.lexists destination d)
        (λ _. disk.delete_apart destination source d layout.source_destination) (λ _. refl)

  finish-IsWhole :
      (x : (Bool × Ended Stats) × F.Disk)
      → Linked x
      → IsWhole (finish F source destination aside (caught F destination x))
  unfolding finish caught
  finish-IsWhole ((safe, done copied), d) (linked, was, checked) = (
    disk.delete_apart aside source d layout.source_aside ∙ linked,
    keep-IsChecked F at link_to Apart disk source aside destination layout c copied.files
        copied.bytes d _ (disk.delete_apart aside destination d layout.destination_aside) checked,
  )
  finish-IsWhole ((true, refused what reason remedy), d) was = inl (discard-source d ∙ was)
  finish-IsWhole ((false, refused what reason remedy), d) was = inr (inl was)
  finish-IsWhole ((true, os_error why), d) was = inl (discard-source d ∙ was)
  finish-IsWhole ((false, os_error why), d) was = inl (discard-source d ∙ was)

  copy_and_swap-IsWhole :
      (d : F.Disk) → at source d ≡ c → IsWhole (copy_and_swap F source destination aside d)
  unfolding copy_and_swap
  copy_and_swap-IsWhole d was = finish-IsWhole _ (
      link-Linked _ (
        after_copy-Ready F at link_to Apart disk source aside destination layout c
          (F.copy_tree source destination d)
          (disk.copy_apart source destination source d layout.source_destination ∙ was)))

  after_return-IsWhole :
      (x : (String ⊎ Unit {0}) × F.Disk)
      → (x.0 ≡ inr tt → at source x.1 ≡ c)
      → ((w : String) → x.0 ≡ inl w → at probe x.1 ≡ c)
      → IsWhole (after_return F probe (copy_and_swap F source destination aside) x)
  unfolding after_return
  after_return-IsWhole (inl w, d) h k = inr (inr (k w refl, refl))
  after_return-IsWhole (inr tt, d) h k = copy_and_swap-IsWhole d (h refl)

  after_rename-IsWhole :
      (why : String) (next : Step F (FolderResult F)) (x : (String ⊎ Unit {0}) × F.Disk)
      → (x.0 ≡ inr tt → IsWhole (next x.1))
      → ((w : String) → x.0 ≡ inl w → at source x.1 ≡ c)
      → IsWhole (after_rename F source why next x)
  unfolding after_rename
  after_rename-IsWhole why next (inl w, d) h k = inl (k w refl)
  after_rename-IsWhole why next (inr tt, d) h k = h refl

  probe_unused-IsWhole :
      (d : F.Disk)
      → at source d ≡ c
      → IsWhole (probe_unused F source probe (copy_and_swap F source destination aside) d)
  unfolding probe_unused rename
  probe_unused-IsWhole d was =
      after_rename-IsWhole _ _ (F.rename source probe d)
        (λ e.
          let d' = (F.rename source probe d).1 in
          let here : at probe d' ≡ c = disk.moved source probe d e ∙ was in
          after_return-IsWhole (F.rename probe source d') (λ f. disk.moved probe source d' f ∙ here)
            (λ w f. disk.stayed probe source probe d' w f ∙ here))
        (λ w e. disk.stayed source probe source d w e ∙ was)

  audited-IsWhole :
      (plan : FolderPlan F) (log : List (FolderEvent F)) (x : Ended (FolderResult F) × F.Disk)
      → IsWhole x
      → IsWhole (let (r, s) = audited F plan log x in (r, s.disk))
  unfolding audited
  audited-IsWhole plan log (done r, d) h = h
  audited-IsWhole plan log (refused what reason remedy, d) h = h
  audited-IsWhole plan log (os_error why, d) h = h

module _ (F : Files) {Node : Type 0} (at : F.Location → F.Disk → Node) (link_to : F.Location → Node)
    (Apart : F.Location → F.Location → Type 0) (disk : IsDisk F at link_to Apart)
    (token : String) where
  move_to-IsWhole :
      (source destination : F.Location)
      (layout : Layout F Apart source (aside_of F token source) destination) (d : F.Disk)
      → IsWhole F at link_to Apart disk source
          (probe_of F token source)
          (aside_of F token source)
          destination
          layout
          (at source d)
          (move_to F token source (some destination) d)
  unfolding move_to require_actionable
  move_to-IsWhole source destination layout d =
      let P =
        IsWhole F at link_to Apart disk source (probe_of F token source) (aside_of F token source)
          destination layout (at source d) in
      option_ind P (blocked F source d)
        (λ _.
          if_ind P (F.lexists destination d) (λ _. inl refl)
            (λ _.
              probe_unused-IsWhole F at link_to Apart disk source (probe_of F token source)
                (aside_of F token source) destination layout (at source d) d refl))
        (λ reason _. inl refl)

-- However the calls of a move end, it ends by returning or by being refused. If it returns, a
-- junction to the destination is at the old path, and the destination is as it was when it was
-- measured, with the counts of the result, no link and no failure. If it is refused, what was at the
-- old path is there, or else where the message says: under the name of the probe, or aside.
pub run_folder-IsWhole :
    (F : Files) {Node : Type 0} (at : F.Location → F.Disk → Node) (link_to : F.Location → Node)
    (Apart : F.Location → F.Location → Type 0) (disk : IsDisk F at link_to Apart) (token : String)
    (plan : FolderPlan F) (destination : F.Location)
    (layout : Layout F Apart plan.source (aside_of F token plan.source) destination) (s : Place F)
    → plan.action ≡ move_folder
    → plan.destination ≡ some destination
    → IsWhole F at link_to Apart disk plan.source
        (probe_of F token plan.source)
        (aside_of F token plan.source)
        destination
        layout
        (at plan.source s.disk)
        ((run_folder F token plan s).0, (run_folder F token plan s).1.disk)
unfolding run_folder perform
run_folder-IsWhole F at link_to Apart disk token plan destination layout s moves to =
    let aside = aside_of F token plan.source in
    let probe = probe_of F token plan.source in
    let P =
      IsWhole F at link_to Apart disk plan.source probe aside destination layout
        (at plan.source s.disk) in
    audited-IsWhole F at link_to Apart disk plan.source probe aside destination layout
      (at plan.source s.disk) plan s.audit_file (perform F token plan.action plan s.disk)
      (subst (λ a. P (perform F token a plan s.disk)) (sym moves)
        (subst (λ o. P (move_to F token plan.source o s.disk)) (sym to)
          (move_to-IsWhole F at link_to Apart disk token plan.source destination layout s.disk)))
