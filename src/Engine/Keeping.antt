-- ===== src/Engine/Keeping.antt =====
-- The engine's operations stay within a frame that admits the store's statements and the calls that
-- they make.
use pudge_gaming_manager.Prelude.{
  String, Bool, not, ◌⊎◌, inl, inr, Option, none, some, List, [], ◌∷◌,
}
use pudge_gaming_manager.Tweak.{
  Tweak, TweakState, BackupRecord, ApplyResult, Verification, Phase, is_no_scope,
}
use pudge_gaming_manager.Session.{Session}
use pudge_gaming_manager.Session.Frames.{
  Keeps, Keeps-pure, Keeps-bind, Keeps-then, Keeps-if, Keeps-try_except,
}
use pudge_gaming_manager.Store.Keeping.{
  Admits, Effect, calls, writes_backups, persist_backup-Keeps, mark_backup-Keeps, open_run-Keeps,
  close_run-Keeps, record_application-Keeps, audit-Keeps,
}
use pudge_gaming_manager.Engine.{
  PlannedChange, Plan, TweakReport, fail_without_backup, try_rollback, record_rollback,
  fail_and_rollback, recheck, stand_down, take_backup, backup_failed, save_backup, call_apply,
  try_apply, call_verify, try_verify, mark_applied, confirm, after_verify, after_apply, carry_out,
  after_backup, after_recheck, set_run_id, execute_change, apply_one, apply_changes, apply,
}

module _ {M : Type 0} {R : Session M → Session M → Type 0} {Ok : Effect → Type 0}
    (admits : Admits R Ok) where
  open admits use {frame, call, context}

  pub set_run_id-Keeps : (run_id : String) → Keeps R (set_run_id run_id)
  unfolding set_run_id
  set_run_id-Keeps run_id = record { at = context run_id }

  module _ (run_id : String) (tweak : Tweak M) (state : TweakState) where
    pub fail_without_backup-Keeps :
        (detail : String) → Keeps R (fail_without_backup run_id tweak state detail)
    unfolding fail_without_backup
    fail_without_backup-Keeps detail =
        Keeps-bind frame (record_application-Keeps admits _ _ _ _ _ _)
          λ _. Keeps-bind frame (audit-Keeps admits _) (λ _. Keeps-pure frame _)

    pub record_rollback-Keeps :
        (b : BackupRecord) (back : Bool) (detail : String)
        → Ok writes_backups
        → Keeps R (record_rollback run_id tweak state b back detail)
    unfolding record_rollback
    record_rollback-Keeps b back detail writes =
        Keeps-bind frame (mark_backup-Keeps admits _ _ _ writes) λ _.
          Keeps-bind frame (record_application-Keeps admits _ _ _ _ _ _)
            λ _. Keeps-bind frame (audit-Keeps admits _) (λ _. Keeps-pure frame _)

    pub try_rollback-Keeps :
        (b : BackupRecord) (detail : String)
        → Ok (calls Phase.rollback)
        → Keeps R (try_rollback tweak b detail)
    unfolding try_rollback
    try_rollback-Keeps b detail allowed =
        Keeps-try_except frame (Keeps-bind frame (call _ _ _ _ allowed) (λ _. Keeps-pure frame _))
          (λ _. Keeps-pure frame _)

    pub fail_and_rollback-Keeps :
        (backup : Option BackupRecord) (detail : String)
        → Ok writes_backups
        → Ok (calls Phase.rollback)
        → Keeps R (fail_and_rollback run_id tweak state backup detail)
    unfolding fail_and_rollback
    fail_and_rollback-Keeps none detail writes allowed = fail_without_backup-Keeps detail
    fail_and_rollback-Keeps (some b) detail writes allowed =
        Keeps-bind frame (try_rollback-Keeps b detail allowed)
          (λ undone. record_rollback-Keeps b undone.0 undone.1 writes)

    pub recheck-Keeps : Ok (calls Phase.validate) → Keeps R (recheck tweak state)
    unfolding recheck
    recheck-Keeps allowed = Keeps-try_except frame (call _ _ _ _ allowed) (λ _. Keeps-pure frame _)

    pub stand_down-Keeps : (why : String) → Keeps R (stand_down run_id tweak state why)
    unfolding stand_down
    stand_down-Keeps why =
        Keeps-bind frame (record_application-Keeps admits _ _ _ _ _ _) (λ _. Keeps-pure frame _)

    pub save_backup-Keeps :
        Ok writes_backups → Ok (calls Phase.backup) → Keeps R (save_backup run_id tweak state)
    unfolding save_backup take_backup backup_failed
    save_backup-Keeps writes allowed =
        Keeps-if frame (is_no_scope tweak.scope) (Keeps-pure frame _) (
          Keeps-try_except frame
            (Keeps-bind frame (call _ _ _ _ allowed) λ b.
              Keeps-then frame (persist_backup-Keeps admits b run_id writes) (Keeps-pure frame _))
            λ exc.
              Keeps-then frame (record_application-Keeps admits _ _ _ _ _ _) (Keeps-pure frame _))

    pub try_apply-Keeps : Ok (calls Phase.apply) → Keeps R (try_apply tweak state)
    unfolding try_apply call_apply
    try_apply-Keeps allowed =
        Keeps-try_except frame (Keeps-bind frame (call _ _ _ _ allowed) (λ _. Keeps-pure frame _))
          (λ _. Keeps-pure frame _)

    pub try_verify-Keeps : Ok (calls Phase.verify) → Keeps R (try_verify tweak state)
    unfolding try_verify call_verify
    try_verify-Keeps allowed =
        Keeps-try_except frame (Keeps-bind frame (call _ _ _ _ allowed) (λ _. Keeps-pure frame _))
          (λ _. Keeps-pure frame _)

    pub mark_applied-Keeps :
        (backup : Option BackupRecord) → Ok writes_backups → Keeps R (mark_applied {M = M} backup)
    unfolding mark_applied
    mark_applied-Keeps none writes = Keeps-pure frame _
    mark_applied-Keeps (some b) writes = mark_backup-Keeps admits _ _ _ writes

    pub confirm-Keeps :
        (backup : Option BackupRecord) (result : ApplyResult) (seen : Verification)
        → Ok writes_backups
        → Keeps R (confirm run_id tweak state backup result seen)
    unfolding confirm
    confirm-Keeps backup result seen writes =
        Keeps-bind frame (mark_applied-Keeps backup writes) λ _.
          Keeps-bind frame (record_application-Keeps admits _ _ _ _ _ _)
            λ _. Keeps-bind frame (audit-Keeps admits _) (λ _. Keeps-pure frame _)

    pub after_verify-Keeps :
        (backup : Option BackupRecord) (result : ApplyResult) (checked : String ⊎ Verification)
        → Ok writes_backups
        → Ok (calls Phase.rollback)
        → Keeps R (after_verify run_id tweak state backup result checked)
    unfolding after_verify
    after_verify-Keeps backup result (inl why) writes allowed =
        fail_and_rollback-Keeps backup why writes allowed
    after_verify-Keeps backup result (inr seen) writes allowed =
        confirm-Keeps backup result seen writes

    pub after_apply-Keeps :
        (backup : Option BackupRecord) (tried : String ⊎ ApplyResult)
        → Ok writes_backups
        → Ok (calls Phase.rollback)
        → Ok (calls Phase.verify)
        → Keeps R (after_apply run_id tweak state backup tried)
    unfolding after_apply
    after_apply-Keeps backup (inl why) writes undo look =
        fail_and_rollback-Keeps backup why writes undo
    after_apply-Keeps backup (inr result) writes undo look =
        Keeps-bind frame (try_verify-Keeps look)
          (λ checked. after_verify-Keeps backup result checked writes undo)

    pub carry_out-Keeps :
        (backup : Option BackupRecord)
        → Ok writes_backups
        → Ok (calls Phase.rollback)
        → Ok (calls Phase.verify)
        → Ok (calls Phase.apply)
        → Keeps R (carry_out run_id tweak state backup)
    unfolding carry_out
    carry_out-Keeps backup writes undo look act =
        Keeps-bind frame (try_apply-Keeps act)
          (λ tried. after_apply-Keeps backup tried writes undo look)

    after_backup-Keeps :
        (saved : TweakReport ⊎ Option BackupRecord)
        → Ok writes_backups
        → Ok (calls Phase.rollback)
        → Ok (calls Phase.verify)
        → Ok (calls Phase.apply)
        → Keeps R (after_backup run_id tweak state saved)
    unfolding after_backup
    after_backup-Keeps (inl report) writes undo look act = Keeps-pure frame report
    after_backup-Keeps (inr backup) writes undo look act =
        carry_out-Keeps backup writes undo look act

  -- The lifecycle of a change, for a frame that admits every call.
  module _ (every : (e : Effect) → Ok e) where
    after_recheck-Keeps :
        (run_id : String) (tweak : Tweak M) (state : TweakState) (drift : Option String)
        → Keeps R (after_recheck run_id tweak state drift)
    unfolding after_recheck
    after_recheck-Keeps run_id tweak state (some why) = stand_down-Keeps run_id tweak state why
    after_recheck-Keeps run_id tweak state none =
        Keeps-bind frame (save_backup-Keeps run_id tweak state (every _) (every _)) λ saved.
          after_backup-Keeps run_id tweak state saved (every _) (every _) (every _) (every _)

    pub execute_change-Keeps :
        (change : PlannedChange M) (run_id : String) → Keeps R (execute_change change run_id)
    unfolding execute_change
    execute_change-Keeps change run_id = Keeps-then frame (set_run_id-Keeps run_id) (
        Keeps-bind frame (recheck-Keeps run_id change.tweak change.state (every _))
          (after_recheck-Keeps run_id change.tweak change.state))

    apply_one-Keeps :
        (run_id : String) (dry_run : Bool) (change : PlannedChange M)
        → Keeps R (apply_one run_id dry_run change)
    unfolding apply_one
    apply_one-Keeps run_id dry_run change =
        Keeps-if frame (not change.will_apply) (Keeps-pure frame _)
          (Keeps-if frame dry_run (Keeps-pure frame _) (execute_change-Keeps change run_id))

    apply_changes-Keeps :
        (run_id : String) (dry_run : Bool) (changes : List (PlannedChange M))
        → Keeps R (apply_changes run_id dry_run changes)
    unfolding apply_changes
    apply_changes-Keeps run_id dry_run [] = Keeps-pure frame _
    apply_changes-Keeps run_id dry_run (change ∷ changes) =
        Keeps-bind frame (apply_one-Keeps run_id dry_run change) λ report.
          Keeps-bind frame (apply_changes-Keeps run_id dry_run changes) (λ _. Keeps-pure frame _)

    pub apply-Keeps : (plan : Plan M) (dry_run : Bool) → Keeps R (apply plan dry_run)
    unfolding apply
    apply-Keeps plan dry_run = Keeps-then frame (open_run-Keeps admits _ _ _) (
        Keeps-bind frame (apply_changes-Keeps plan.run_id dry_run plan.changes)
          λ results. Keeps-then frame (close_run-Keeps admits _ _ _ _) (Keeps-pure frame _))
