-- ===== src/Store/Finishing.antt =====
-- Operations of the store that return, on a database that commits every statement.
use pudge_gaming_manager.Prelude.{refl, String, Bool, true, false, some}
use pudge_gaming_manager.Session.{Session, BackupState, AuditEvent, Action}
use pudge_gaming_manager.Session.Finishing.{
  Finishes, Commits, Returned, Finishes-pure, Finishes-gets, Finishes-bind, Finishes-then,
  try_except-Finishes, execute-Finishes, utc_now-Finishes,
}
use pudge_gaming_manager.Store.{
  update_backup, insert_audit, mark_backup, audit_event, record_audit, audit,
}

Finishes-Returned :
    {M A : Type 0} (m : Action M A) → Finishes m → (s : Session M) → Commits s → Returned (m s)
Finishes-Returned m h s c = let (a, e, kept) = h.at s c in (λ k. cc (e, k), kept)

module _ {M : Type 0} where
  pub mark_backup-Finishes :
      (id : String) (state : BackupState) (finished : Bool)
      → Finishes {M = M} (mark_backup id state finished)
  unfolding mark_backup update_backup
  mark_backup-Finishes id state true =
      Finishes-bind utc_now-Finishes
        (λ at. execute-Finishes (update_backup id state (some at)) (λ t. (_, refl)))
  mark_backup-Finishes id state false = execute-Finishes _ (λ t. (_, refl))

  record_audit-Finishes :
      (event : AuditEvent) (elevated : Bool) → Finishes {M = M} (record_audit event elevated)
  unfolding record_audit insert_audit
  record_audit-Finishes event elevated = Finishes-bind utc_now-Finishes (λ at.
      execute-Finishes
        (insert_audit (record { occurred_at = at; event = event; elevated = elevated }))
        (λ t. (_, refl)))

  audit_event-Finishes : (event : AuditEvent) → Finishes {M = M} (audit_event event)
  unfolding audit_event
  audit_event-Finishes event = record { at = λ s c. (tt, refl, c) }

  pub audit-Finishes : (event : AuditEvent) → Finishes {M = M} (audit event)
  unfolding audit
  audit-Finishes event = Finishes-then (audit_event-Finishes event) (
      Finishes-bind (Finishes-gets (λ s. s.is_admin)) λ elevated.
        try_except-Finishes (record_audit event elevated)
          (Finishes-Returned (record_audit event elevated) (record_audit-Finishes event elevated))
          (λ _. Finishes-pure tt))
