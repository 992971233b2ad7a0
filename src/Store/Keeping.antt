-- ===== src/Store/Keeping.antt =====
-- The store's operations stay within a frame that admits their statements.
use pudge_gaming_manager.Prelude.{ℕ, String, Bool, true, false, Option, List, [], ◌∷◌}
use pudge_gaming_manager.Tweak.{Tweak, TweakState, BackupRecord, Phase, Outcome, Result}
use pudge_gaming_manager.Session.{
  Session, utc_now, execute, on_machine, BackupRow, BackupState, RunRow, ApplicationRow, TweakRow,
  AuditRow, AuditEvent,
}
use pudge_gaming_manager.Session.Frames.{
  IsFrame, Keeps, Keeps-pure, Keeps-gets, Keeps-bind, Keeps-try_except,
}
use pudge_gaming_manager.Store.{
  insert_backup, update_backup, replace_run, finish_run, insert_application, replace_tweak,
  insert_audit, persist_backup, mark_backup, open_run, close_run, record_application, register,
  audit_event, record_audit, audit,
}

-- What an operation may do beyond writing runs, applications and the audit trail.
pub data Effect : Type 0 where
  calls : Phase → Effect
  writes_backups : Effect

-- The frame admits each statement of the store, as far as `Ok` allows the effects.
pub record Admits {M : Type 0} (R : Session M → Session M → Type 0) (Ok : Effect → Type 0)
    : Type 1 where
  pub frame : IsFrame R
  pub clock : Keeps R utc_now
  pub insert_backup_ok :
      (row : BackupRow) → Ok writes_backups → Keeps R (execute (insert_backup row))
  pub update_backup_ok :
      (id : String) (state : BackupState) (at : Option String)
      → Ok writes_backups
      → Keeps R (execute (update_backup id state at))
  pub replace_run_ok : (row : RunRow) → Keeps R (execute (replace_run row))
  pub finish_run_ok :
      (id at : String) (applied failed rolled_back : ℕ)
      → Keeps R (execute (finish_run id at applied failed rolled_back))
  pub insert_application_ok : (row : ApplicationRow) → Keeps R (execute (insert_application row))
  pub replace_tweak_ok : (row : TweakRow) → Keeps R (execute (replace_tweak row))
  pub insert_audit_ok : (row : AuditRow) → Keeps R (execute (insert_audit row))
  pub audit_line : (event : AuditEvent) → Keeps R (audit_event event)
  pub context : (run_id : String) (s : Session M) → R s (record s { run_id = run_id })
  pub call :
      (A : Type 0) (p : Phase) (id : String) (f : M → Result A × M)
      → Ok (calls p)
      → Keeps R (on_machine p id f)

module _ {M : Type 0} {R : Session M → Session M → Type 0} {Ok : Effect → Type 0}
    (admits : Admits R Ok) where
  open admits use {
    frame, clock, insert_backup_ok, update_backup_ok, replace_run_ok, finish_run_ok,
    insert_application_ok, replace_tweak_ok, insert_audit_ok, audit_line,
  }

  pub persist_backup-Keeps :
      (b : BackupRecord) (run_id : String) → Ok writes_backups → Keeps R (persist_backup b run_id)
  unfolding persist_backup
  persist_backup-Keeps b run_id writes = Keeps-bind frame clock (λ at. insert_backup_ok _ writes)

  pub mark_backup-Keeps :
      (id : String) (state : BackupState) (finished : Bool)
      → Ok writes_backups
      → Keeps R (mark_backup id state finished)
  unfolding mark_backup
  mark_backup-Keeps id state true writes =
      Keeps-bind frame clock (λ at. update_backup_ok _ _ _ writes)
  mark_backup-Keeps id state false writes = update_backup_ok _ _ _ writes

  pub open_run-Keeps :
      (run_id : String) (dry_run : Bool) (planned : ℕ) → Keeps R (open_run run_id dry_run planned)
  unfolding open_run
  open_run-Keeps run_id dry_run planned = Keeps-bind frame clock (λ at. replace_run_ok _)

  pub close_run-Keeps :
      (run_id : String) (applied failed rolled_back : ℕ)
      → Keeps R (close_run run_id applied failed rolled_back)
  unfolding close_run
  close_run-Keeps run_id applied failed rolled_back =
      Keeps-bind frame clock (λ at. finish_run_ok _ _ _ _ _)

  pub record_application-Keeps :
      (run_id : String) (tweak : Tweak M) (phase : Phase) (outcome : Outcome) (state : TweakState)
      (error : Option String)
      → Keeps R (record_application run_id tweak phase outcome state error)
  unfolding record_application
  record_application-Keeps run_id tweak phase outcome state error =
      Keeps-bind frame clock λ started. Keeps-bind frame clock (λ finished. insert_application_ok _)

  pub register-Keeps : (tweaks : List (Tweak M)) → Keeps R (register tweaks)
  unfolding register
  register-Keeps [] = Keeps-pure frame tt
  register-Keeps (tweak ∷ tweaks) =
      Keeps-bind frame (replace_tweak_ok _) (λ _. register-Keeps tweaks)

  pub record_audit-Keeps :
      (event : AuditEvent) (elevated : Bool) → Keeps R (record_audit event elevated)
  unfolding record_audit
  record_audit-Keeps event elevated = Keeps-bind frame clock (λ at. insert_audit_ok _)

  pub audit-Keeps : (event : AuditEvent) → Keeps R (audit event)
  unfolding audit
  audit-Keeps event = Keeps-bind frame (audit_line event) λ _.
      Keeps-bind frame (Keeps-gets frame _) λ elevated.
        Keeps-try_except frame (record_audit-Keeps event elevated) (λ _. Keeps-pure frame tt)
