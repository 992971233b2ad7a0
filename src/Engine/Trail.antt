-- ===== src/Engine/Trail.antt =====
-- The audit log and the saved values over a whole run.
use pudge_gaming_manager.Prelude.{Bool}
use pudge_gaming_manager.Session.{Session}
use pudge_gaming_manager.Store.Admitted.{admitted}
use pudge_gaming_manager.Store.History.{
  AuditGrows, AuditGrows-frame, BackupsKept, BackupsKept-frame,
}
use pudge_gaming_manager.Engine.{Plan, apply}
use pudge_gaming_manager.Engine.Keeping.{apply-Keeps}

-- However a run ends, the rows that the audit log had are still there, in order and first, and so
-- is every backup with all that it saved.
pub apply_keeps_history :
    {M : Type 0} (plan : Plan M) (dry_run : Bool) (s : Session M)
    → AuditGrows s.tables (apply plan dry_run s).1.tables
      × BackupsKept s.tables (apply plan dry_run s).1.tables
apply_keeps_history plan dry_run s = (
  (apply-Keeps (admitted AuditGrows-frame) (λ _. tt) plan dry_run).at s,
  (apply-Keeps (admitted BackupsKept-frame) (λ _. tt) plan dry_run).at s,
)
