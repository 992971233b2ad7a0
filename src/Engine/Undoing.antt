-- ===== src/Engine/Undoing.antt =====
-- The contract by which a tweak's rollback undoes its change, and the machine after `_execute`.
use pudge_gaming_manager.Prelude.{
  ◌≡◌, refl, sym, ◌∙◌, ap, subst, String, Bool, true, false, Option, none, some, ◌⊎◌, inl, inr,
  Bool-cases, arith, ◌<>◌,
}
use pudge_gaming_manager.Tweak.{
  Tweak, TweakState, BackupRecord, ApplyResult, Verification, Outcome, success, failed, skipped,
  rolled_back, not_needed, is_success, is_no_scope, Phase, Result, ok, ok-injective, Exception,
  error_text,
}
use pudge_gaming_manager.Session.{Session, Action, pure, ◌>>=◌, on_machine, not_confirmed}
use pudge_gaming_manager.Session.Frames.{IsFrame, Keeps, Keeps-pure, Keeps-bind, Keeps-try_except}
use pudge_gaming_manager.Session.Inversion.{
  bind-ok, try_except-ok, Returns, Returns-pure, Returns-then,
}
use pudge_gaming_manager.Store.{record_application, audit, mark_backup}
use pudge_gaming_manager.Store.Keeping.{persist_backup-Keeps, record_application-Keeps}
use pudge_gaming_manager.Engine.{
  PlannedChange, TweakReport, fail_without_backup, try_rollback, record_rollback, fail_and_rollback,
  recheck, take_backup, backup_failed, save_backup, try_apply, try_verify, confirm, mark_applied,
  after_verify, after_apply, carry_out, after_backup, after_recheck, set_run_id, execute_change,
}
use pudge_gaming_manager.Engine.Keeping.{record_rollback-Keeps, stand_down-Keeps}
use pudge_gaming_manager.Engine.DryRun.{Idle, idle}
use pudge_gaming_manager.Engine.Safety.{save_backup-some}

-- The report says that the change is not in force, and that nothing is left of it.
unfoldable pub is_undone : Outcome → Bool
is_undone success = false
is_undone failed = false
is_undone skipped = true
is_undone rolled_back = true
is_undone not_needed = true

-- What a tweak owes the engine: reading the machine again and taking the backup leave what is
-- `look`ed at as it was, and a rollback that reports success brings back what was there when the
-- backup was taken, whatever happened in between, if what was there `Fits`.
pub record Undoes {M O : Type 0} (look : M → O) (Fits : O → Type 0) (tweak : Tweak M) : Type 0 where
  pub drift_looks : (state : TweakState) (m : M) → look (tweak.drift_since_plan state m).1 ≡ look m
  pub backup_looks : (state : TweakState) (m : M) → look (tweak.backup state m).1 ≡ look m
  pub brings_back :
      (state : TweakState) (before now : M) (b : BackupRecord) (r : ApplyResult)
      → Fits (look before)
      → (tweak.backup state before).0 ≡ ok b
      → (tweak.rollback b now).0 ≡ ok r
      → is_success r.outcome ≡ true
      → look (tweak.rollback b now).1 ≡ look before

module _ {M O : Type 0} {look : M → O} {Fits : O → Type 0} {tweak : Tweak M}
    (undoes : Undoes look Fits tweak) (run_id : String) (state : TweakState) where
  abbrev Seen : Session M → Session M → Type 0
  Seen s t = look t.machine ≡ look s.machine

  seen : IsFrame Seen
  seen = record { stay = λ s. refl; then_by = λ p q. q ∙ p }

  -- What leaves the machine alone leaves it looking the same.
  Seen-of_Idle : {A : Type 0} {m : Action M A} → Keeps Idle m → Keeps Seen m
  Seen-of_Idle h = record { at = λ s. ap look (h.at s).0 }

  backup_failed-Idle : (exc : Exception) → Keeps Idle (backup_failed run_id tweak state exc)
  unfolding backup_failed
  backup_failed-Idle exc =
      Keeps-bind idle.frame (record_application-Keeps idle _ _ _ _ _ _)
        (λ _. Keeps-pure idle.frame _)

  recheck-Seen : Keeps Seen (recheck tweak state)
  unfolding recheck on_machine
  recheck-Seen =
      Keeps-try_except seen (record { at = λ s. undoes.drift_looks state s.machine })
        (λ exc. Keeps-pure seen _)

  take_backup-Seen : Keeps Seen (take_backup run_id tweak state)
  unfolding take_backup on_machine
  take_backup-Seen =
      Keeps-bind seen (record { at = λ s. undoes.backup_looks state s.machine })
        λ b.
          Keeps-bind seen (Seen-of_Idle (persist_backup-Keeps idle b run_id (λ p. cc)))
            (λ _. Keeps-pure seen _)

  save_backup-Seen : Keeps Seen (save_backup run_id tweak state)
  unfolding save_backup
  save_backup-Seen = elim (Bool-cases (is_no_scope tweak.scope)) [
    | inl e ↦ rw e (Keeps-pure seen _)
    | inr e ↦
        rw e (Keeps-try_except seen take_backup-Seen (λ exc. Seen-of_Idle (backup_failed-Idle exc)))
  ]

  module _ (o : O) (fits : Fits o) where
    -- If the report says so, the machine looks as at first.
    abbrev Undone : Result TweakReport × Session M → Type 0
    Undone r =
        (report : TweakReport)
        → r.0 ≡ ok report
        → is_undone report.outcome ≡ true
        → look r.1.machine ≡ o

    -- The backup holds what the machine looked like at first.
    abbrev Holds : Option BackupRecord → Type 0
    Holds none = Unit
    Holds (some b) = (before : M) × (look before ≡ o) × ((tweak.backup state before).0 ≡ ok b)

    never :
        (m : Action M TweakReport) {out : Outcome}
        → is_undone out ≡ false
        → Returns (λ r. r.outcome ≡ out) m
        → (s : Session M) → Undone (m s)
    never m {out} spoilt h s report e undone =
        let other : false ≡ true = sym spoilt ∙ ap is_undone (sym (h.at s report e)) ∙ undone in
        absurd (ground (arith, other))

    fail_without_backup-Undone :
        (detail : String) (s : Session M) → Undone (fail_without_backup run_id tweak state detail s)
    unfolding fail_without_backup is_undone
    fail_without_backup-Undone detail =
        never (fail_without_backup run_id tweak state detail) {out = failed} refl (
          Returns-then (record_application run_id tweak Phase.apply failed state (some detail))
            (Returns-then (audit _) (Returns-pure _ _ refl)))

    record_rollback-Undone :
        (b : BackupRecord) (back : Bool) (detail : String) (s : Session M)
        → (back ≡ true → look s.machine ≡ o)
        → Undone (record_rollback run_id tweak state b back detail s)
    unfolding record_rollback is_undone
    record_rollback-Undone b true detail s same = λ report e undone.
        (Seen-of_Idle (record_rollback-Keeps idle run_id tweak state b true detail (λ p. cc))).at s
        ∙ same refl
    record_rollback-Undone b false detail s same =
        never (record_rollback run_id tweak state b false detail) {out = failed} refl
          (Returns-then (mark_backup b.backup_id not_confirmed true) (
            Returns-then (record_application run_id tweak Phase.rollback failed state (some detail))
              (Returns-then (audit _) (Returns-pure _ _ refl))))
          s

    -- A rollback that reports success has brought back what the backup holds.
    try_rollback-back :
        (b : BackupRecord) (detail : String) (s : Session M) (u : Bool × String)
        → Holds (some b)
        → (try_rollback tweak b detail s).0 ≡ ok u
        → u.0 ≡ true
        → look (try_rollback tweak b detail s).1.machine ≡ o
    unfolding try_rollback on_machine
    try_rollback-back b detail s u (before, was, got) e back =
        let call = on_machine Phase.rollback tweak.id (tweak.rollback b) in
        elim (try_except-ok (call >>= λ r. pure (is_success r.outcome, detail))
          (λ exc. pure (false, detail <> (" Rollback also failed: " <> error_text exc))) s e) [
            | inl (ran, left) ↦
                let (r, returned, rest) =
                  bind-ok call (λ r. pure (is_success r.outcome, detail)) s ran in
                let same : ok (is_success r.outcome, detail) ≡ ok u =
                  ap (λ x. x.0) (sym rest) ∙ ran in
                let good : is_success r.outcome ≡ true = ap (λ x. x.0) (ok-injective same) ∙ back in
                ap (λ (t : Session M). look t.machine) (left ∙ ap (λ x. x.1) rest)
                ∙ undoes.brings_back state before s.machine b r (subst Fits (sym was) fits) got
                    returned good
                ∙ was
            | inr (exc, _, rest) ↦
                let same : ok (false, detail <> (" Rollback also failed: " <> error_text exc))
                    ≡ ok u =
                  ap (λ x. x.0) (sym rest) ∙ e in
                let bad : false ≡ true = ap (λ x. x.0) (ok-injective same) ∙ back in
                absurd (ground (arith, bad))
          ]

    -- The rule for a chain.
    bind-Undone :
        {A : Type 0} (m : Action M A) (f : A → Action M TweakReport) (s : Session M)
        → ((a : A) → (m s).0 ≡ ok a → Undone (f a (m s).1))
        → Undone ((m >>= f) s)
    bind-Undone m f s h report e undone =
        let (a, ran, rest) = bind-ok m f s e in
        ap (λ x. look x.1.machine) rest ∙ h a ran report (ap (λ x. x.0) (sym rest) ∙ e) undone

    fail_and_rollback-Undone :
        (backup : Option BackupRecord) (detail : String) (s : Session M)
        → Holds backup
        → Undone (fail_and_rollback run_id tweak state backup detail s)
    unfolding fail_and_rollback
    fail_and_rollback-Undone none detail s h = fail_without_backup-Undone detail s
    fail_and_rollback-Undone (some b) detail s h =
        bind-Undone (try_rollback tweak b detail) _ s
          λ u ran. record_rollback-Undone b u.0 u.1 _ (try_rollback-back b detail s u h ran)

    confirm-Undone :
        (backup : Option BackupRecord) (result : ApplyResult) (seen_ : Verification) (s : Session M)
        → Undone (confirm run_id tweak state backup result seen_ s)
    unfolding confirm is_undone
    confirm-Undone backup result seen_ =
        never (confirm run_id tweak state backup result seen_) {out = success} refl (
          Returns-then (mark_applied backup) (
            Returns-then (record_application run_id tweak Phase.verify success state none)
              (Returns-then (audit _) (Returns-pure _ _ refl))))

    after_verify-Undone :
        (backup : Option BackupRecord) (result : ApplyResult) (checked : String ⊎ Verification)
        (s : Session M)
        → Holds backup
        → Undone (after_verify run_id tweak state backup result checked s)
    unfolding after_verify
    after_verify-Undone backup result (inl why) s h = fail_and_rollback-Undone backup why s h
    after_verify-Undone backup result (inr seen_) s h = confirm-Undone backup result seen_ s

    after_apply-Undone :
        (backup : Option BackupRecord) (tried : String ⊎ ApplyResult) (s : Session M)
        → Holds backup
        → Undone (after_apply run_id tweak state backup tried s)
    unfolding after_apply
    after_apply-Undone backup (inl why) s h = fail_and_rollback-Undone backup why s h
    after_apply-Undone backup (inr result) s h =
        bind-Undone (try_verify tweak state) _ s
          (λ checked _. after_verify-Undone backup result checked _ h)

    carry_out-Undone :
        (backup : Option BackupRecord) (s : Session M)
        → Holds backup
        → Undone (carry_out run_id tweak state backup s)
    unfolding carry_out
    carry_out-Undone backup s h =
        bind-Undone (try_apply tweak state) _ s (λ tried _. after_apply-Undone backup tried _ h)

    save_backup-Holds :
        (backup : Option BackupRecord) (s : Session M)
        → look s.machine ≡ o
        → (save_backup run_id tweak state s).0 ≡ ok (inr backup)
        → Holds backup
    unfolding save_backup on_machine
    save_backup-Holds none s was e = tt
    save_backup-Holds (some b) s was e = elim (Bool-cases (is_no_scope tweak.scope)) [
      | inl free ↦ let e' : ok (inr none) ≡ ok (inr (some b)) = rw free at e in cc e'
      | inr kept ↦
          let (got, _, _) = save_backup-some run_id tweak state s b kept e in (s.machine, was, got)
    ]

    after_backup-Undone :
        (saved : TweakReport ⊎ Option BackupRecord) (s : Session M)
        → look s.machine ≡ o
        → (save_backup run_id tweak state s).0 ≡ ok saved
        → Undone (after_backup run_id tweak state saved (save_backup run_id tweak state s).1)
    unfolding after_backup
    after_backup-Undone (inl report) s was e = λ report' e' undone. save_backup-Seen.at s ∙ was
    after_backup-Undone (inr backup) s was e =
        carry_out-Undone backup _ (save_backup-Holds backup s was e)

    after_recheck-Undone :
        (drift : Option String) (s : Session M)
        → look s.machine ≡ o
        → Undone (after_recheck run_id tweak state drift s)
    unfolding after_recheck
    after_recheck-Undone (some why) s was =
        λ report e undone. (Seen-of_Idle (stand_down-Keeps idle run_id tweak state why)).at s ∙ was
    after_recheck-Undone none s was =
        bind-Undone (save_backup run_id tweak state) _ s
          (λ saved ran. after_backup-Undone saved s was ran)

-- A tweak that meets the contract: if executing its change comes to a report that says skipped, not
-- needed or rolled back, the machine looks as it did before, if that fits the contract.
pub execute_change-Undoes :
    {M O : Type 0} {look : M → O} {Fits : O → Type 0} (change : PlannedChange M)
    → Undoes look Fits change.tweak
    → (run_id : String) (s : Session M) (report : TweakReport) → Fits (look s.machine)
    → (execute_change change run_id s).0 ≡ ok report
    → is_undone report.outcome ≡ true
    → look (execute_change change run_id s).1.machine ≡ look s.machine
unfolding execute_change set_run_id
execute_change-Undoes {look} change undoes run_id s report fits e undone =
    let tweak = change.tweak in
    let state = change.state in
    let o = look s.machine in
    bind-Undone undoes run_id state o fits (set_run_id run_id)
      (λ _. recheck tweak state >>= after_recheck run_id tweak state) s
      (λ _ _.
        bind-Undone undoes run_id state o fits (recheck tweak state)
          (after_recheck run_id tweak state) _
          (λ drift _.
            after_recheck-Undone undoes run_id state o fits drift _
              ((recheck-Seen undoes run_id state).at _)))
      report e undone
