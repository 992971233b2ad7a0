-- ===== src/Store/History.antt =====
-- The rows of the audit log, and the saved values of a backup, as relations between tables.
use pudge_gaming_manager.Prelude.{
  ◌≡◌, refl, ◌∙◌, ap, ℕ, String, Bool, Option, none, some, List, [], ◌∷◌, ◌++◌, map, arith,
}
use pudge_gaming_manager.Tweak.{Value, BackupScope}
use pudge_gaming_manager.Session.{Tables, BackupRow, BackupState}
use pudge_gaming_manager.Store.{
  insert_backup, move_backup, update_backup, replace_run, finish_run, insert_application,
  replace_tweak, insert_audit,
}
use pudge_gaming_manager.Store.Admitted.{
  IsTableFrame, Extends, Extends-refl, Extends-trans, Extends-of_eq,
}

abbrev pub AuditGrows : Tables → Tables → Type 0
AuditGrows t u = Extends t.audit_log u.audit_log

pub AuditGrows-frame : IsTableFrame AuditGrows
unfolding insert_backup update_backup replace_run finish_run insert_application replace_tweak
    insert_audit
AuditGrows-frame = record {
  stay = λ t. Extends-refl t.audit_log;
  then_by = Extends-trans;
  insert_backup_ok = λ row e. Extends-of_eq (ground arith);
  update_backup_ok = λ id state at e. Extends-of_eq (ground arith);
  replace_run_ok = λ row e. Extends-of_eq (ground arith);
  finish_run_ok = λ id at a f r e. Extends-of_eq (ground arith);
  insert_application_ok = λ row e. Extends-of_eq (ground arith);
  replace_tweak_ok = λ row e. Extends-of_eq (ground arith);
  insert_audit_ok = λ row {t} {u} e.
      let grown : u.audit_log ≡ t.audit_log ++ row ∷ [] = ground arith in
      record { added = row ∷ []; grown = grown };
}

-- What a backup saved, without the state that it has got to.
pub record Saved : Type 0 where
  pub backup_id : String
  pub run_id : String
  pub tweak_id : String
  pub tweak_version : ℕ
  pub created_at : String
  pub scope : BackupScope
  pub target : String
  pub old_value : Value
  pub old_value_absent : Bool
  pub old_value_kind : String
  pub new_value : Value

abbrev pub saved : BackupRow → Saved
saved r = record {
  backup_id = r.backup_id;
  run_id = r.run_id;
  tweak_id = r.tweak_id;
  tweak_version = r.tweak_version;
  created_at = r.created_at;
  scope = r.scope;
  target = r.target;
  old_value = r.old_value;
  old_value_absent = r.old_value_absent;
  old_value_kind = r.old_value_kind;
  new_value = r.new_value;
}

abbrev pub BackupsKept : Tables → Tables → Type 0
BackupsKept t u = Extends (map saved t.backups) (map saved u.backups)

saved-move_backup :
    (id : String) (state : BackupState) (at : Option String) (rows : List BackupRow)
    → map saved (map (move_backup id state at) rows) ≡ map saved rows
unfolding move_backup
saved-move_backup id state at [] = refl
saved-move_backup id state none (r ∷ rows) = ground (arith, saved-move_backup id state none rows)
saved-move_backup id state (some x) (r ∷ rows) =
    ground (arith, saved-move_backup id state (some x) rows)

map_snoc :
    (rows : List BackupRow) (r : BackupRow)
    → map saved (rows ++ r ∷ []) ≡ map saved rows ++ saved r ∷ []
map_snoc [] r = refl
map_snoc (x ∷ rows) r = ap (λ l. saved x ∷ l) (map_snoc rows r)

pub BackupsKept-frame : IsTableFrame BackupsKept
unfolding insert_backup update_backup replace_run finish_run insert_application replace_tweak
    insert_audit
BackupsKept-frame = record {
  stay = λ t. Extends-refl (map saved t.backups);
  then_by = Extends-trans;
  insert_backup_ok = λ row {t} {u} e.
      let grown : u.backups ≡ t.backups ++ row ∷ [] = ground arith in
      record { added = saved row ∷ []; grown = ap (map saved) grown ∙ map_snoc t.backups row };
  update_backup_ok = λ id state at {t} {u} e.
      let moved : u.backups ≡ map (move_backup id state at) t.backups = ground arith in
      Extends-of_eq (ap (map saved) moved ∙ saved-move_backup id state at t.backups);
  replace_run_ok = λ row e. Extends-of_eq (ap (map saved) (ground arith));
  finish_run_ok = λ id at a f r e. Extends-of_eq (ap (map saved) (ground arith));
  insert_application_ok = λ row e. Extends-of_eq (ap (map saved) (ground arith));
  replace_tweak_ok = λ row e. Extends-of_eq (ap (map saved) (ground arith));
  insert_audit_ok = λ row e. Extends-of_eq (ap (map saved) (ground arith));
}
