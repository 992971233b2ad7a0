-- ===== src/Samples/Histories.antt =====
-- The theorems on the history, at a table of two applied changes of one setting.
use pudge_gaming_manager.Prelude.{
  map, ◌≡◌, refl, subst, ap, ℕ, zero, suc, ◌≢◌, String, true, Option, some, some-injective, List,
  [], ◌∷◌, ◌↔◌,
}
use pudge_gaming_manager.Tweak.{Tweak, Value, number, killed, ok}
use pudge_gaming_manager.Session.{Session, Tables, BackupRow, applied}
use pudge_gaming_manager.Samples.Fixtures.{switch, left_behind, tables, session}
use pudge_gaming_manager.History.{
  ChangeRecord, RestoreResult, restore, restore_all, list_changes, record_of, limited, newest_first,
  backup_of, decode, stored_text,
}
use pudge_gaming_manager.History.Restoring.{Guarded, restore-Guarded}
use pudge_gaming_manager.History.Marking.{Reported, restore-Reported}
use pudge_gaming_manager.History.Everything.{ids, to_undo, restore_all_returns}
use pudge_gaming_manager.History.Listing.{IsListing, list_changes-IsListing}
use pudge_gaming_manager.History.Decoding.{IsRecoverable, decode-stored_text}

abbrev first_change : BackupRow
first_change = record left_behind { backup_id = "b1"; state = applied }

abbrev second_change : BackupRow
second_change = record first_change {
  backup_id = "b2";
  created_at = "2026-01-02";
  old_value = number 8;
  new_value = number 9;
}

abbrev lived_with : Session ℕ
lived_with = record session {
  machine = 9;
  tables = record tables { backups = first_change ∷ left_behind ∷ second_change ∷ [] };
}

-- Numbers as tally marks stand for `str` and `int`.
abbrev tally : ℕ → String
tally zero = String.[]
tally (suc n) = String.◌∷◌ "1" (tally n)

abbrev marks : String → ℕ
marks String.[] = 0
marks (String.◌∷◌ c s) = suc (marks s)

abbrev int : String → Option ℕ
int s = some (marks s)

marks-tally : (n : ℕ) → marks (tally n) ≡ n
marks-tally zero = refl
marks-tally (suc n) = ap suc (marks-tally n)

abbrev known : ChangeRecord → Option (Tweak ℕ)
known change = some switch

restore-Guarded_example :
    Guarded tally int known lived_with "b1" true (restore tally int known "b1" true lived_with).1
restore-Guarded_example = restore-Guarded tally int known "b1" true lived_with

abbrev undone : RestoreResult
undone = record { backup_id = "b2"; name = "switch"; is_ok = true; message = "" }

restore-Reported_example :
    Reported tally int known lived_with "b2" true undone
      (restore tally int known "b2" true lived_with).1
unfolding restore pudge_gaming_manager.History.find_change pudge_gaming_manager.History.query
    pudge_gaming_manager.Session.execute pudge_gaming_manager.History.after_find
    pudge_gaming_manager.History.find_row pudge_gaming_manager.History.restore_found
    pudge_gaming_manager.History.is_applied pudge_gaming_manager.History.is_applied_state record_of
    pudge_gaming_manager.Tweak.is_no_scope pudge_gaming_manager.History.after_checks
    pudge_gaming_manager.History.newer_applied pudge_gaming_manager.History.unless_newer
    pudge_gaming_manager.History.has_newer pudge_gaming_manager.History.is_rival
    pudge_gaming_manager.History.rows_after pudge_gaming_manager.History.roll_back
    pudge_gaming_manager.History.call_rollback pudge_gaming_manager.Session.on_machine
    pudge_gaming_manager.History.conclude pudge_gaming_manager.Store.mark_backup
    pudge_gaming_manager.Session.utc_now pudge_gaming_manager.Store.update_backup
    pudge_gaming_manager.Store.audit pudge_gaming_manager.Store.audit_event
    pudge_gaming_manager.Store.record_audit pudge_gaming_manager.Store.insert_audit
    pudge_gaming_manager.History.name_of pudge_gaming_manager.History.newest_tweak
restore-Reported_example = restore-Reported tally int known "b2" true lived_with undone refl

list_changes-IsListing_example :
    IsListing lived_with.tables 2 (
      record_of lived_with.tables.tweaks second_change
      ∷ record_of lived_with.tables.tweaks left_behind
      ∷ [])
    × ((list_changes tally int 2 lived_with).1.tables ≡ lived_with.tables)
unfolding list_changes pudge_gaming_manager.History.query pudge_gaming_manager.Session.execute
    limited newest_first pudge_gaming_manager.History.insert_newest
list_changes-IsListing_example = list_changes-IsListing tally int 2 lived_with refl

restore_all_returns_example :
    (results : List RestoreResult) × ((restore_all tally int known lived_with).0 ≡ ok results)
    × (ids tally int known results
        ≡ to_undo tally int known (
            map
              (record_of lived_with.tables.tweaks)
              (limited 100000 (newest_first lived_with.tables.backups))))
restore_all_returns_example =
    restore_all_returns tally int known lived_with (λ n. refl)
      λ change tweak found m.
        subst (λ (t : Tweak ℕ). (t.rollback (backup_of tally int change) m).0 ≢ killed)
          (some-injective switch tweak found) (λ e. cc e)

decode-stored_text_example :
    (decode tally int (stored_text tally int (number 8)) "REG_DWORD" ≡ number 8)
    ↔ IsRecoverable tally int (number 8) true
decode-stored_text_example =
    decode-stored_text tally int (λ n. ap some (marks-tally n)) (number 8) "REG_DWORD"
