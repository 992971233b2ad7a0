-- ===== src/Folders.antt =====
-- windows/folder_ops.py: deleting a folder, or moving it to another drive. Progress is left out; the
-- random token of a move is a parameter.
pub mod Planning
pub mod Disk
pub mod Copying
pub mod Moving
pub mod Refusing
unfoldable pub use Planning.*
use pudge_gaming_manager.Prelude.{
  ℕ, String, ◌<>◌, Bool, true, false, not, ◌&&◌, ◌||◌, Option, none, some, List, [], ◌∷◌, ◌++◌, ◌⊎◌,
  inl, inr, ◌==◌, or_text, if◌then◌else◌,
}

unfoldable pub complete : {F : Files} → FolderResult F → Bool
complete r = elim r.leftover [
  | some p ↦ false
  | none ↦ (elim r.failed [ [] ↦ true | e ∷ es ↦ false ])
]

-- A line of the audit file, with what was done.
pub record FolderEvent (F : Files) : Type 0 where
  pub operation : FolderAction
  pub target : String
  pub outcome : String
  pub error : Option String
  pub new_state : Option (FolderResult F)

pub record Place (F : Files) : Type 0 where
  pub disk : F.Disk
  pub audit_file : List (FolderEvent F)

module _ (F : Files) where
  unfoldable pub leftover : F.Location → F.Disk → Option F.Location
  leftover p d = if F.lexists p d then some p else none

  unfoldable pub after_delete :
      F.Location → (String ⊎ Stats) × F.Disk → Ended (FolderResult F) × F.Disk
  after_delete source (inl why, d) =
      (refused "Удаление невозможно" ("«" <> (F.name source <> ("»: " <> (why <> ".")))) none, d)
  after_delete source (inr stats, d) = (
    done (record {
      action = delete_folder;
      source = source;
      destination = none;
      size_bytes = stats.bytes;
      file_count = stats.files;
      failed = stats.errors;
      leftover = leftover source d;
      linked = false;
    }),
    d,
  )

  unfoldable pub delete : F.Location → Step F (FolderResult F)
  delete source =
      require_actionable F source "Удаление невозможно"
        (λ d. after_delete source (F.delete_tree source d))

  abbrev not_moved : String
  not_moved = "Перенос не выполнен"

  -- The messages that say where the original is.
  abbrev pub left_at_probe : F.Location → String
  left_at_probe probe =
      "папку переименовали для проверки и не смогли вернуть: она лежит в «"
      <> (F.show probe <> "».")

  abbrev pub left_aside : F.Location → F.Location → String
  left_aside aside destination =
      "ссылку создать не удалось, а вернуть папку на место тоже: оригинал лежит в «"
      <> (F.show aside <> ("», копия — в «" <> (F.show destination <> "».")))

  unfoldable pub after_rename :
      {A : Type 0}
      → F.Location
      → String
      → Step F A
      → (String ⊎ Unit {0}) × F.Disk
      → Ended A × F.Disk
  after_rename source why next (inl _, d) = (
    refused not_moved ("«" <> (F.name source <> ("» не переименовать: " <> (why <> "."))))
        (some "Закройте программы, которые используют эту папку, и повторите."),
    d,
  )
  after_rename source why next (inr _, d) = next d

  -- `_rename`
  unfoldable pub rename : {A : Type 0} → F.Location → F.Location → String → Step F A → Step F A
  rename source target why next d = after_rename source why next (F.rename source target d)

  unfoldable pub after_return :
      {A : Type 0} → F.Location → Step F A → (String ⊎ Unit {0}) × F.Disk → Ended A × F.Disk
  after_return probe next (inl _, d) = (refused not_moved (left_at_probe probe) none, d)
  after_return probe next (inr _, d) = next d

  unfoldable pub probe_unused : {A : Type 0} → F.Location → F.Location → Step F A → Step F A
  probe_unused source probe next =
      rename source probe "в ней что-то открыто — закройте программы, которые её используют"
        (λ d. after_return probe next (F.rename probe source d))

  unfoldable pub same_counts : Stats → Stats → Bool
  same_counts a b = (a.files == b.files) && (a.bytes == b.bytes)

  unfoldable pub check_copy : {A : Type 0} → Stats → Step F A → Stats → Step F A
  check_copy copied next there d =
      if not (same_counts there copied) || (not (there.links == 0) || not (there.failed == 0))
      then (
        refused not_moved "копия на новом диске не совпала с оригиналом, оригинал не тронут." none,
        d,
      )
      else next d

  unfoldable pub check_source : {A : Type 0} → F.Location → Stats → Step F A → Stats → Step F A
  check_source destination copied next now d =
      if not (same_counts now copied) || not (now.links == 0)
      then (
        refused not_moved "папка изменилась, пока копировалась (её использует программа)."
            (some "Закройте программы, которые пишут в эту папку, и повторите."),
        d,
      )
      else measure F destination not_moved (check_copy copied next) d

  unfoldable pub verify_copy : {A : Type 0} → F.Location → F.Location → Stats → Step F A → Step F A
  verify_copy source destination copied next =
      measure F source not_moved (check_source destination copied next)

  -- `_discard`
  unfoldable pub discard : F.Location → F.Disk → F.Disk
  discard destination d = if F.lexists destination d then (F.delete_tree destination d).1 else d

  unfoldable pub after_copy :
      F.Location → F.Location → F.Location → (String ⊎ Stats) × F.Disk → Ended Stats × F.Disk
  after_copy source destination aside (inl why, d) = (os_error why, d)
  after_copy source destination aside (inr copied, d) =
      verify_copy source destination copied
        (rename source aside "папку начали использовать во время копирования"
          (λ d. (done copied, d)))
        d

  -- The end of the guarded block, and whether the original is in its place.
  abbrev Guarded : Type 0
  Guarded = (Bool × Ended Stats) × F.Disk

  unfoldable pub after_undo :
      F.Location → F.Location → String → (String ⊎ Unit {0}) × F.Disk → Guarded
  after_undo destination aside why (inl _, d) =
      ((false, refused not_moved (left_aside aside destination) none), d)
  after_undo destination aside why (inr _, d) =
      ((true, refused not_moved ("не удалось создать ссылку: " <> (why <> ".")) none), d)

  unfoldable pub after_junction :
      F.Location → F.Location → F.Location → Stats → (String ⊎ Unit {0}) × F.Disk → Guarded
  after_junction source destination aside copied (inl why, d) =
      after_undo destination aside why (F.rename aside source d)
  after_junction source destination aside copied (inr _, d) = ((true, done copied), d)

  unfoldable pub link : F.Location → F.Location → F.Location → Ended Stats × F.Disk → Guarded
  link source destination aside (done copied, d) =
      after_junction source destination aside copied (F.create_junction source destination d)
  link source destination aside (refused what reason remedy, d) =
      ((true, refused what reason remedy), d)
  link source destination aside (os_error why, d) = ((true, os_error why), d)

  -- The handlers of the block.
  unfoldable pub caught : F.Location → Guarded → Ended Stats × F.Disk
  caught destination ((safe, done copied), d) = (done copied, d)
  caught destination ((safe, refused what reason remedy), d) =
      (refused what reason remedy, if safe then discard destination d else d)
  caught destination ((safe, os_error why), d) =
      (refused not_moved ("копирование остановилось: " <> (why <> ".")) none, discard destination d)

  unfoldable pub failures : F.Location → String ⊎ Stats → List String
  failures aside (inl why) = (F.name aside <> (": " <> why)) ∷ []
  failures aside (inr stats) = stats.errors

  unfoldable pub finish :
      F.Location → F.Location → F.Location → Ended Stats × F.Disk → Ended (FolderResult F) × F.Disk
  finish source destination aside (done copied, d) =
      let (deleted, d') = F.delete_tree aside d in
      (
        done (record {
          action = move_folder;
          source = source;
          destination = some destination;
          size_bytes = copied.bytes;
          file_count = copied.files;
          failed = failures aside deleted;
          leftover = leftover aside d';
          linked = true;
        }),
        d',
      )
  finish source destination aside (refused what reason remedy, d) = (refused what reason remedy, d)
  finish source destination aside (os_error why, d) = (os_error why, d)

  unfoldable pub copy_and_swap : F.Location → F.Location → F.Location → Step F (FolderResult F)
  copy_and_swap source destination aside d = finish source destination aside (
      caught destination (
        link source destination aside
          (after_copy source destination aside (F.copy_tree source destination d))))

  unfoldable pub probe_of : (token : String) → F.Location → F.Location
  probe_of token source = F.with_name source (F.name source <> (".pgm-probe-" <> token))

  unfoldable pub aside_of : (token : String) → F.Location → F.Location
  aside_of token source = F.with_name source (F.name source <> (".pgm-old-" <> token))

  unfoldable pub move_to :
      (token : String) → F.Location → Option F.Location → Step F (FolderResult F)
  move_to token source none d = (refused not_moved "в плане нет папки назначения." none, d)
  move_to token source (some destination) d =
      require_actionable F source not_moved
        (λ d.
          if F.lexists destination d
          then (refused not_moved ("«" <> (F.show destination <> "» уже существует.")) none, d)
          else probe_unused source (probe_of token source)
              (copy_and_swap source destination (aside_of token source)) d)
        d

  unfoldable pub perform : (token : String) → FolderAction → FolderPlan F → Step F (FolderResult F)
  perform token delete_folder plan = delete plan.source
  perform token move_folder plan = move_to token plan.source plan.destination

  unfoldable pub event :
      FolderPlan F → (outcome : String) → Option String → Option (FolderResult F) → FolderEvent F
  event plan outcome error new_state = record {
    operation = plan.action;
    target = F.show plan.source;
    outcome = outcome;
    error = error;
    new_state = new_state;
  }

  unfoldable pub audited :
      FolderPlan F
      → List (FolderEvent F)
      → Ended (FolderResult F) × F.Disk
      → Ended (FolderResult F) × Place F
  audited plan log (done r, d) = (
    done r,
    record {
      disk = d;
      audit_file =
          log ++ event plan (if complete r then "SUCCESS" else "PARTIAL") none (some r) ∷ [];
    },
  )
  audited plan log (refused what reason remedy, d) = (
    refused what reason remedy,
    record {
      disk = d;
      audit_file = log ++ event plan "FAILED" (some (or_text reason what)) none ∷ [];
    },
  )
  audited plan log (os_error why, d) = (os_error why, record { disk = d; audit_file = log })

  unfoldable pub run_folder :
      (token : String) → FolderPlan F → Place F → Ended (FolderResult F) × Place F
  run_folder token plan s = audited plan s.audit_file (perform token plan.action plan s.disk)
