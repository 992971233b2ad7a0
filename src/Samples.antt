-- ===== src/Samples.antt =====
-- The theorems at concrete inputs.
mod Fixtures
mod Scoring
mod Trees
mod Texts
mod Registry
mod Histories
mod Moves
mod Cleaning
mod Managing
mod Hosting
mod Resetting
mod Profiling
mod Piping
use pudge_gaming_manager.Prelude.{
  ◌≡◌, refl, ◌↔◌, ◌⊎◌, inl, inr, ℕ, ◌≤◌, String, Bool, true, false, Option, none, some, List, [],
  ◌∷◌, ◌++◌, map, In, All, get_elem?, arith,
}
use Fixtures.{planned, copy, switch, left_behind, tables, session, backed_up, change, two_changes}
use pudge_gaming_manager.Tweak.{Tweak, RiskLevel, ok, allow, auto_applicable, critical, high}
use pudge_gaming_manager.Session.{Session, on_machine, execute, utc_now}
use pudge_gaming_manager.Store.{
  mark_backup, update_backup, record_application, insert_application, audit, record_audit,
  insert_audit, audit_event, register, replace_tweak,
}
use pudge_gaming_manager.Engine.{
  execute_change, carry_out, apply, try_apply, call_apply, after_apply, try_verify, call_verify,
  after_verify, confirm, mark_applied, gate, with_selection, PlannedChange, Plan, RunReport,
}
use pudge_gaming_manager.Engine.Calls.{Logs}
use pudge_gaming_manager.Engine.Safety.{Guarded, apply_is_backed_up}
use pudge_gaming_manager.Engine.Closing.{Closed, carry_out-Closed}
use pudge_gaming_manager.Engine.DryRun.{apply-dry_run, AreDryReports}
use pudge_gaming_manager.Engine.Trail.{apply_keeps_history}
use pudge_gaming_manager.Engine.Gate.{MayRun, gate-MayRun_iff, gate-blocked_by_risk}
use pudge_gaming_manager.Engine.Preview.{IsPreview, ArePlanned, plan-IsPreview, plan-ArePlanned}
use pudge_gaming_manager.Engine.Planning.{plan, plan_each, plan_one, try_scan, after_scan, gated}
use pudge_gaming_manager.Engine.Selection.{IsNarrowed, with_selection-IsNarrowed}
use pudge_gaming_manager.Store.History.{AuditGrows, BackupsKept}
use pudge_gaming_manager.Recovery.{
  InterruptedChange, interrupted, find_interrupted, acknowledge, acknowledge_one, pending,
  order_by_time, insert_by_time, give_up_backup,
}
use pudge_gaming_manager.Recovery.Reporting.{find_interrupted_lem, IsInterrupted}
use pudge_gaming_manager.Recovery.Acknowledging.{acknowledge-find_interrupted}

apply_is_backed_up_example :
    Logs (Guarded switch planned) session (execute_change change "r1" session).1
apply_is_backed_up_example = apply_is_backed_up change "r1" session

carry_out-Closed_example :
    Closed "b1" backed_up.tables.backups
      (carry_out "r1" switch planned (some copy) backed_up).1.tables.backups
unfolding carry_out try_apply call_apply on_machine after_apply try_verify call_verify after_verify
    confirm mark_applied mark_backup execute update_backup record_application utc_now
    insert_application audit record_audit insert_audit audit_event register replace_tweak
carry_out-Closed_example = carry_out-Closed "r1" switch planned copy backed_up refl

apply-dry_run_example :
    ((apply two_changes true session).1.machine ≡ session.machine)
    × ((apply two_changes true session).1.calls ≡ session.calls)
    × ((apply two_changes true session).1.tables.backups ≡ session.tables.backups)
    × ((report : RunReport)
        → (apply two_changes true session).0 ≡ ok report
        → AreDryReports two_changes.changes report.results)
apply-dry_run_example = apply-dry_run two_changes session

apply_keeps_history_example :
    AuditGrows session.tables (apply two_changes false session).1.tables
    × BackupsKept session.tables (apply two_changes false session).1.tables
apply_keeps_history_example = apply_keeps_history two_changes false session

find_interrupted_lem_example :
    ((c : InterruptedChange) → In c (interrupted left_behind ∷ []) ↔ IsInterrupted session.tables c)
    × ((find_interrupted session).1.tables ≡ session.tables)
unfolding find_interrupted execute order_by_time pending insert_by_time interrupted
find_interrupted_lem_example = find_interrupted_lem session refl

acknowledge-find_interrupted_example :
    pending (acknowledge (interrupted left_behind ∷ []) (find_interrupted session).1).1.tables ≡ []
unfolding find_interrupted execute order_by_time pending acknowledge acknowledge_one utc_now
    give_up_backup record_audit insert_audit audit_event insert_by_time interrupted
acknowledge-find_interrupted_example =
    acknowledge-find_interrupted session (interrupted left_behind ∷ []) refl refl

abbrev critical_switch : Tweak ℕ
critical_switch = record switch { risk = critical }

gate-MayRun_iff_example :
    ((gate false false switch planned (allow false)).will_apply ≡ true)
    ↔ MayRun false false switch planned (allow false)
gate-MayRun_iff_example = gate-MayRun_iff false false switch planned (allow false)

gate-blocked_by_risk_example :
    ((gate false true critical_switch planned (allow false)).blocked_by_risk ≡ true) ↔ (
      ((gate false true critical_switch planned (allow false)).will_apply ≡ false)
        × ((gate true true critical_switch planned (allow false)).will_apply ≡ true)
      ⊎ (critical_switch.risk ≡ critical)
        × (planned.needs_change ≡ true)
        × ((allow false).accepted ≡ true)
        × (true ≡ true))
gate-blocked_by_risk_example = gate-blocked_by_risk true critical_switch planned (allow false)

with_selection-IsNarrowed_example :
    (d : PlannedChange ℕ) × (get_elem? (with_selection two_changes (1 ∷ [])).changes 0 ≡ some d)
    × IsNarrowed (1 ∷ []) 0 change d
with_selection-IsNarrowed_example = with_selection-IsNarrowed two_changes (1 ∷ []) 0 change refl

plan-IsPreview_example :
    IsPreview session (plan false "r1" (switch ∷ critical_switch ∷ []) session).1
plan-IsPreview_example = plan-IsPreview false "r1" (switch ∷ critical_switch ∷ []) session

abbrev one_change : Plan ℕ
one_change = record { run_id = "r1"; changes = change ∷ [] }

plan-ArePlanned_example : ArePlanned false (switch ∷ []) (change ∷ [])
unfolding plan plan_each plan_one try_scan after_scan on_machine gated gate allow auto_applicable
plan-ArePlanned_example = plan-ArePlanned false "r1" (switch ∷ []) session {p = one_change} refl
