-- ===== src/Folders/Planning.antt =====
-- windows/folder_ops.py: `plan_delete` and `plan_move`. What the operating system does with paths is
-- the parameter `Files`, with `folder_policy`, the copying and the deleting of a tree. The dict of an
-- audit event is the result that it is made from.
use pudge_gaming_manager.Prelude.{
  ℕ, ◌+◌, String, ◌<>◌, Bool, true, false, not, Option, none, some, List, ◌⊎◌, inl, inr, ltb, ◌==◌,
  filled, if◌then◌else◌,
}

-- The counts of a pass over a tree: `DeleteStats`, and `CopyStats`.
pub record Stats : Type 0 where
  pub files : ℕ
  pub bytes : ℕ
  pub links : ℕ
  pub failed : ℕ
  pub errors : List String

-- A call that raises an `OSError` answers with its text.
pub record Files : Type 1 where
  pub Location : Type 0
  pub Disk : Type 0
  pub show : Location → String
  pub name : Location → String
  pub with_name : Location → String → Location
  pub under : Location → String → Location
  pub format_size : ℕ → String
  pub digits : ℕ → String
  pub block_reason : Location → Disk → Option String
  pub lexists : Location → Disk → Bool
  pub is_dir : Location → Disk → Bool
  pub is_reparse_point : Location → Disk → Bool
  pub is_within : Location → Location → Disk → Bool
  pub other_volume : Location → Location → Disk → String ⊎ Bool
  pub free : Location → Disk → String ⊎ ℕ
  pub measure_tree : Location → Disk → String ⊎ Stats
  pub rename : Location → Location → Disk → (String ⊎ Unit {0}) × Disk
  pub copy_tree : Location → Location → Disk → (String ⊎ Stats) × Disk
  pub create_junction : Location → Location → Disk → (String ⊎ Unit {0}) × Disk
  pub delete_tree : Location → Disk → (String ⊎ Stats) × Disk

pub data FolderAction : Type 0 where
  delete_folder move_folder : FolderAction

pub record FolderPlan (F : Files) : Type 0 where
  pub action : FolderAction
  pub source : F.Location
  pub size_bytes : ℕ
  pub file_count : ℕ
  pub destination : Option F.Location
  pub unreadable : ℕ

pub record FolderResult (F : Files) : Type 0 where
  pub action : FolderAction
  pub source : F.Location
  pub destination : Option F.Location
  pub size_bytes : ℕ
  pub file_count : ℕ
  pub failed : List String
  pub leftover : Option F.Location
  pub linked : Bool

-- How a call ends: it returns, is refused, or lets an `OSError` through.
pub data Ended (A : Type 0) : Type 0 where
  done : A → Ended A
  refused : (what reason : String) (remedy : Option String) → Ended A
  os_error : String → Ended A

-- `_SPACE_MARGIN`
abbrev pub space_margin : ℕ
space_margin = 268435456

module _ (F : Files) where
  abbrev pub Step : Type 0 → Type 0
  Step A = F.Disk → Ended A × F.Disk

  -- `if reason`
  unfoldable pub blocked : F.Location → F.Disk → Option String
  blocked p d = elim (F.block_reason p d) [
    | none ↦ none
    | some reason ↦ if filled reason then some reason else none
  ]

  unfoldable pub require_actionable : {A : Type 0} → F.Location → String → Step A → Step A
  require_actionable p what next d = elim (blocked p d) [
    | some reason ↦ (refused what ("«" <> (F.name p <> ("»: " <> (reason <> ".")))) none, d)
    | none ↦ next d
  ]

  unfoldable pub unread : {A : Type 0} → F.Location → String → String → Ended A
  unread p what why =
      refused what ("не удалось прочитать «" <> (F.name p <> ("»: " <> (why <> ".")))) none

  unfoldable pub after_measure :
      {A : Type 0} → F.Location → String → (Stats → Step A) → String ⊎ Stats → Step A
  after_measure p what next (inl why) d = (unread p what why, d)
  after_measure p what next (inr stats) d = next stats d

  unfoldable pub measure : {A : Type 0} → F.Location → String → (Stats → Step A) → Step A
  measure p what next d = after_measure p what next (F.measure_tree p d) d

  unfoldable pub plan_delete : F.Location → Step (FolderPlan F)
  plan_delete source = require_actionable source "Удаление невозможно" (
      measure source "Удаление невозможно" λ stats d. (
        done (record {
          action = delete_folder;
          source = source;
          size_bytes = stats.bytes;
          file_count = stats.files;
          destination = none;
          unreadable = stats.failed;
        }),
        d,
      ))

  abbrev cannot_move : String
  cannot_move = "Перенос невозможен"

  unfoldable pub check_space : F.Location → F.Location → Stats → String ⊎ ℕ → Step (FolderPlan F)
  check_space source destination stats (inl why) d = (os_error why, d)
  check_space source destination stats (inr free) d =
      if ltb free (stats.bytes + space_margin)
      then (
        refused cannot_move
            ("на диске назначения свободно "
              <> (F.format_size free
                  <> (", а нужно "
                      <> (F.format_size (stats.bytes + space_margin) <> " вместе с запасом."))))
            none,
        d,
      )
      else (
        done (record {
          action = move_folder;
          source = source;
          size_bytes = stats.bytes;
          file_count = stats.files;
          destination = some destination;
          unreadable = 0;
        }),
        d,
      )

  unfoldable pub check_contents : F.Location → F.Location → F.Location → Stats → Step (FolderPlan F)
  check_contents source parent destination stats d =
      if not (stats.links == 0)
      then (
        refused cannot_move
            ("внутри "
              <> (F.digits stats.links
                  <> " ссылок (junction или symlink): при переносе они потеряли бы смысл."))
            (some "Перенесите папку вручную или удалите ссылки."),
        d,
      )
      else if not (stats.failed == 0)
      then (
        refused cannot_move
            (F.digits stats.failed <> " элементов внутри не читаются, их бы оставили.")
            (some "Запустите программу от имени администратора."),
        d,
      )
      else check_space source destination stats (F.free parent d) d

  unfoldable pub check_destination : F.Location → F.Location → F.Location → Step (FolderPlan F)
  check_destination source parent destination d =
      if F.lexists destination d
      then (
        refused cannot_move
            ("в «" <> (F.show parent <> ("» уже есть «" <> (F.name source <> "»."))))
            (some "Выберите другую папку назначения."),
        d,
      )
      else if F.is_within destination source d
      then (refused cannot_move "нельзя переносить папку внутрь самой себя." none, d)
      else measure source cannot_move (check_contents source parent destination) d

  unfoldable pub check_volume : F.Location → F.Location → String ⊎ Bool → Step (FolderPlan F)
  check_volume source parent (inl why) d = (os_error why, d)
  check_volume source parent (inr false) d = (
    refused cannot_move "это тот же диск, места не прибавится."
        (some "Выберите папку на другом диске."),
    d,
  )
  check_volume source parent (inr true) d =
      check_destination source parent (F.under parent (F.name source)) d

  unfoldable pub check_parent : F.Location → F.Location → Step (FolderPlan F)
  check_parent source parent d =
      if not (F.is_dir parent d)
      then (refused cannot_move ("папки назначения «" <> (F.show parent <> "» нет.")) none, d)
      else if F.is_reparse_point parent d
      then (
        refused cannot_move ("«" <> (F.show parent <> "» — ссылка, а не обычная папка.")) none,
        d,
      )
      else check_volume source parent (F.other_volume source parent d) d

  unfoldable pub plan_move : F.Location → F.Location → Step (FolderPlan F)
  plan_move source parent = require_actionable source cannot_move (check_parent source parent)
