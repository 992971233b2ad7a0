-- ===== src/Engine/DryRun.antt =====
-- `apply` with `dry_run`.
use pudge_gaming_manager.Prelude.{
  ◌≡◌, refl, sym, ◌∙◌, ap, subst, String, Bool, true, false, not, Option, some, none, ◌+◌, ◌≢◌,
  List, [], ◌∷◌, map, length, arith, Bool-cases, inl, inr, if◌then◌else◌,
}
use pudge_gaming_manager.Tweak.{ok, ok-injective, Phase, null, skipped, not_needed}
use pudge_gaming_manager.Session.{
  Session, Tables, ◌>>◌, pure, utc_now, execute, settle, Fate, commits, refuses, dies,
}
use pudge_gaming_manager.Session.Frames.{Keeps, Keeps-pure, Keeps-bind, Keeps-then}
use pudge_gaming_manager.Session.Inversion.{bind-ok}
use pudge_gaming_manager.Store.{open_run, close_run, audit_event}
use pudge_gaming_manager.Store.Keeping.{Admits, Effect, calls, open_run-Keeps, close_run-Keeps}
use pudge_gaming_manager.Store.SameBackups.{same_backups}
use pudge_gaming_manager.Engine.{
  PlannedChange, Plan, TweakReport, RunReport, applicable, skipped_report, dry_report, apply_one,
  apply_changes, apply, applied_count, failed_count, rolled_back_count,
}

-- What a dry run is to say of a change: of one that would be made, its values; of one that would
-- not, the reason, and that it was skipped or not needed.
abbrev pub IsDryReport : {M : Type 0} → PlannedChange M → TweakReport → Type 0
IsDryReport change report =
    (report.tweak_id ≡ change.tweak.id)
    × (report.name ≡ change.tweak.name)
    × (report.phase ≡ Phase.validate)
    × (report.needs_restart ≡ false)
    × (change.will_apply ≡ true
        → (report.outcome ≡ skipped)
          × (report.detail ≡ "dry run: no changes made")
          × (report.before ≡ change.state.current_value)
          × (report.after ≡ change.state.desired_value))
    × (change.will_apply ≡ false
        → (report.detail ≡ change.skip_reason)
          × (report.before ≡ null)
          × (report.after ≡ null)
          × (change.state.needs_change ≡ true → report.outcome ≡ skipped)
          × (change.state.needs_change ≡ false → report.outcome ≡ not_needed))

-- One report for each change, in order.
abbrev pub AreDryReports : {M : Type 0} → List (PlannedChange M) → List TweakReport → Type 0
AreDryReports [] [] = Unit
AreDryReports (change ∷ changes) (report ∷ reports) =
    IsDryReport change report × AreDryReports changes reports
AreDryReports [] (report ∷ reports) = ⊥
AreDryReports (change ∷ changes) [] = ⊥

abbrev dry_result : {M : Type 0} → PlannedChange M → TweakReport
dry_result change = if not change.will_apply then skipped_report change else dry_report change

apply_changes-dry :
    {M : Type 0} (run_id : String) (changes : List (PlannedChange M)) (s : Session M)
    → apply_changes run_id true changes s ≡ (ok (map dry_result changes), s)
unfolding apply_changes apply_one
apply_changes-dry run_id [] s = refl
apply_changes-dry run_id (change ∷ changes) s = elim (Bool-cases change.will_apply) [
  | inl applies ↦ simp (applies, apply_changes-dry run_id changes)
  | inr held ↦ simp (held, apply_changes-dry run_id changes)
]

dry_result-IsDryReport :
    {M : Type 0} (change : PlannedChange M) → IsDryReport change (dry_result change)
unfolding skipped_report dry_report
dry_result-IsDryReport change = elim (Bool-cases change.will_apply) [
  | inl applies ↦
      rw applies (
        refl,
        refl,
        refl,
        refl,
        λ _. (refl, refl, refl, refl),
        λ held. absurd (ground (arith, held)),
      )
  | inr held ↦ rw held (
    refl,
    refl,
    refl,
    refl,
    λ applies. absurd (ground (arith, applies)),
    λ _. (refl, refl, refl, λ e. rw e refl, λ e. rw e refl),
  )
]

map-AreDryReports :
    {M : Type 0} (changes : List (PlannedChange M)) → AreDryReports changes (map dry_result changes)
map-AreDryReports [] = tt
map-AreDryReports (change ∷ changes) = (dry_result-IsDryReport change, map-AreDryReports changes)

-- The machine is as it was, and no tweak was called.
abbrev pub Idle : {M : Type 0} → Session M → Session M → Type 0
Idle s t = (t.machine ≡ s.machine) × (t.calls ≡ s.calls)

module _ {M : Type 0} where
  settle-Idle :
      (fate : Fate) (written : Option Tables) (s : Session M) → Idle s (settle fate written s).1
  settle-Idle commits (some u) s = (refl, refl)
  settle-Idle commits none s = (refl, refl)
  settle-Idle (refuses why) written s = (refl, refl)
  settle-Idle dies written s = (refl, refl)

  execute-Idle : (statement : Tables → Option Tables) → Keeps {M = M} Idle (execute statement)
  unfolding execute
  execute-Idle statement = record {
    at = λ s.
        settle-Idle (s.fates s.statements) (statement s.tables)
          (record s { statements = s.statements + 1 });
  }

  pub idle : Admits {M = M} Idle (λ e. (p : Phase) → e ≢ calls p)
  unfolding utc_now audit_event
  idle = record {
    frame = record { stay = λ s. (refl, refl); then_by = λ p q. (q.0 ∙ p.0, q.1 ∙ p.1) };
    clock = record { at = λ s. (refl, refl) };
    insert_backup_ok = λ row _. execute-Idle _;
    update_backup_ok = λ id state at _. execute-Idle _;
    replace_run_ok = λ row. execute-Idle _;
    finish_run_ok = λ id at a f r. execute-Idle _;
    insert_application_ok = λ row. execute-Idle _;
    replace_tweak_ok = λ row. execute-Idle _;
    insert_audit_ok = λ row. execute-Idle _;
    audit_line = λ event. record { at = λ s. (refl, refl) };
    context = λ run_id s. (refl, refl);
    call = λ A p id f never. absurd (never p refl);
  }

  module _ {R : Session M → Session M → Type 0} {Ok : Effect → Type 0} (admits : Admits R Ok) where
    apply-dry-Keeps : (plan : Plan M) → Keeps R (apply plan true)
    unfolding apply
    apply-dry-Keeps plan = Keeps-then admits.frame (open_run-Keeps admits _ _ _) (
        Keeps-bind admits.frame changes λ results.
          Keeps-then admits.frame (close_run-Keeps admits _ _ _ _) (Keeps-pure admits.frame _))
      where
        changes : Keeps R (apply_changes plan.run_id true plan.changes)
        changes = record {
          at = λ s.
              subst (λ r. R s r.1) (sym (apply_changes-dry plan.run_id plan.changes s))
                (admits.frame.stay s);
        }

  -- A run that returns a report has been through all the changes of the plan.
  apply-ok :
      (plan : Plan M) (dry_run : Bool) (s : Session M) (report : RunReport)
      → (apply plan dry_run s).0 ≡ ok report
      → (t : Session M) × ((apply_changes plan.run_id dry_run plan.changes t).0 ≡ ok report.results)
  unfolding apply
  apply-ok plan dry_run s report e =
      let opened = open_run plan.run_id dry_run (length (applicable plan)) in
      let (_, _, rest) = bind-ok opened _ s e in
      let t = (opened s).1 in
      let looped = apply_changes plan.run_id dry_run plan.changes in
      let close = λ (results : List TweakReport).
        close_run {M = M} plan.run_id (applied_count results) (failed_count results)
          (rolled_back_count results) in
      let whole = λ (results : List TweakReport).
        let r : RunReport = record { run_id = plan.run_id; dry_run = dry_run; results = results } in
        r in
      let (results, ran, rest') =
        bind-ok looped (λ results. close results >> pure (whole results)) t
          (ap (λ r. r.0) (sym rest) ∙ e) in
      let (_, _, last) =
        bind-ok (close results) (λ _. pure (whole results)) (looped t).1
          (ap (λ r. r.0) (sym rest' ∙ sym rest) ∙ e) in
      let made : ok (whole results) ≡ ok report =
        ap (λ r. r.0) (sym last ∙ sym rest' ∙ sym rest) ∙ e in
      (t, ran ∙ cc made)

-- A dry run calls no tweak and leaves the machine and the backups as they were, however it ends.
-- If it returns a report, that has one entry for each change of the plan, in order: a change that
-- would be made is skipped, with its current and its desired value; one that would not is skipped, or
-- not needed if its scan needed no change, with the plan's reason and no values.
pub apply-dry_run :
    {M : Type 0} (plan : Plan M) (s : Session M)
    → ((apply plan true s).1.machine ≡ s.machine)
      × ((apply plan true s).1.calls ≡ s.calls)
      × ((apply plan true s).1.tables.backups ≡ s.tables.backups)
      × ((report : RunReport)
          → (apply plan true s).0 ≡ ok report
          → AreDryReports plan.changes report.results)
apply-dry_run plan s =
    let (machine, called) = (apply-dry-Keeps idle plan).at s in
    (
      machine,
      called,
      (apply-dry-Keeps same_backups plan).at s,
      λ report e.
          let (t, ran) = apply-ok plan true s report e in
          subst (AreDryReports plan.changes)
            (ok-injective (cc (ap (λ r. r.0) (apply_changes-dry plan.run_id plan.changes t), ran)))
            (map-AreDryReports plan.changes),
    )
