-- ===== src/Engine/Planning.antt =====
-- The first half of core/optimization/engine.py: what a run intends to do, and the gate that decides
-- which planned change may run.
use pudge_gaming_manager.Prelude.{
  ℕ, ◌+◌, String, ◌<>◌, Bool, true, false, not, ◌||◌, ◌&&◌, List, [], ◌∷◌, or_text, ◌==◌, any,
  select, ◌⊎◌, inl, inr, if◌then◌else◌,
}
use pudge_gaming_manager.Tweak.{
  Tweak, TweakState, Validation, Phase, RiskLevel, critical, auto_applicable, risk_value, refuse,
  only_summary, already_desired, Exception, pgm_error, other_error,
}
use pudge_gaming_manager.Session.{Action, pure, gets, try_except, ◌>>=◌, on_machine}

pub record PlannedChange (M : Type 0) : Type 0 where
  pub tweak : Tweak M
  pub state : TweakState
  pub validation : Validation
  pub will_apply : Bool
  pub skip_reason : String
  pub blocked_by_risk : Bool

pub record Plan (M : Type 0) : Type 0 where
  pub run_id : String
  pub changes : List (PlannedChange M)

-- What the gate answers: `(will_apply, reason, blocked_by_risk)`.
pub record Gate : Type 0 where
  pub will_apply : Bool
  pub reason : String
  pub blocked_by_risk : Bool

abbrev is_critical : RiskLevel → Bool
is_critical critical = true
is_critical _ = false

abbrev pub answer : Bool → String → Bool → Gate
answer will_apply reason by_risk = record {
  will_apply = will_apply;
  reason = reason;
  blocked_by_risk = by_risk;
}

-- The text of a failed scan: the reason of a `PgmError`, or what failed; else `str(exc)`.
unfoldable pub scan_failure : Exception → String
scan_failure (pgm_error what reason remedy) = or_text reason what
scan_failure (other_error message) = message

unfoldable pub scan_skip_reason : Exception → String
unfolding scan_failure
scan_skip_reason (pgm_error what reason remedy) = "не удалось прочитать: " <> or_text reason what
scan_skip_reason (other_error message) = "ошибка при сканировании: " <> message

module _ {M : Type 0} where
  unfoldable pub applicable : Plan M → List (PlannedChange M)
  applicable plan = select (λ (c : PlannedChange M). c.will_apply) plan.changes

  unfoldable pub skipped_changes : Plan M → List (PlannedChange M)
  skipped_changes plan = select (λ (c : PlannedChange M). not c.will_apply) plan.changes

  unfoldable pub blocked_changes : Plan M → List (PlannedChange M)
  blocked_changes plan = select (λ (c : PlannedChange M). c.blocked_by_risk) plan.changes

  -- One change of `with_selection`, at its index.
  unfoldable pub narrow : List ℕ → ℕ → PlannedChange M → PlannedChange M
  narrow selected index change =
      if not change.will_apply || any (λ i. i == index) selected
      then change
      else record change { will_apply = false; skip_reason = "оператор не выбрал" }

  unfoldable pub narrow_from : List ℕ → ℕ → List (PlannedChange M) → List (PlannedChange M)
  unfolding narrow
  narrow_from selected index [] = []
  narrow_from selected index (change ∷ changes) =
      narrow selected index change ∷ narrow_from selected (index + 1) changes

  unfoldable pub with_selection : Plan M → List ℕ → Plan M
  unfolding narrow_from
  with_selection plan selected = record {
    run_id = plan.run_id;
    changes = narrow_from selected 0 plan.changes;
  }

  -- `_gate`, for the flag `allow_risk_above_low` and the rights of the process.
  unfoldable pub gate : Bool → Bool → Tweak M → TweakState → Validation → Gate
  unfolding auto_applicable
  gate allow_risk is_admin tweak state validation =
      if not state.needs_change
      then answer false already_desired false
      else if not validation.accepted
      then answer false (or_text validation.reason "проверка отклонила изменение") false
      else if (validation.requires_admin
            || (tweak.requires_admin || not (auto_applicable tweak.risk)))
          && not is_admin
      then answer false "нужны права администратора" false
      else if not (auto_applicable tweak.risk) && not allow_risk
      then answer false
          ("уровень риска " <> (risk_value tweak.risk <> " требует отдельного подтверждения")) true
      else if is_critical tweak.risk
      then answer false "изменения уровня CRITICAL никогда не применяются автоматически" false
      else answer true "" false

  unfoldable pub unreadable : Tweak M → Exception → PlannedChange M
  unreadable tweak exc = record {
    tweak = tweak;
    state = only_summary tweak.name;
    validation = refuse (scan_failure exc);
    will_apply = false;
    skip_reason = scan_skip_reason exc;
    blocked_by_risk = false;
  }

  unfoldable pub gated : Bool → Bool → Tweak M → TweakState → Validation → PlannedChange M
  gated allow_risk is_admin tweak state validation =
      let g = gate allow_risk is_admin tweak state validation in
      record {
        tweak = tweak;
        state = state;
        validation = validation;
        will_apply = g.will_apply;
        skip_reason = g.reason;
        blocked_by_risk = g.blocked_by_risk;
      }

  -- Either the state that `scan` saw, or the exception that it raised.
  unfoldable pub try_scan : Tweak M → Action M (PlannedChange M ⊎ TweakState)
  try_scan tweak =
      try_except (do state ← on_machine Phase.scan tweak.id tweak.scan; pure (inr state))
        (λ exc. pure (inl (unreadable tweak exc)))

  -- The validation and the gate of a change that was scanned. An exception of `validate` is not
  -- caught.
  unfoldable pub after_scan :
      Bool → Tweak M → PlannedChange M ⊎ TweakState → Action M (PlannedChange M)
  after_scan allow_risk tweak (inl change) = pure change
  after_scan allow_risk tweak (inr state) = do
    validation ← on_machine Phase.validate tweak.id (tweak.validate state)
    is_admin ← gets (λ s. s.is_admin)
    pure (gated allow_risk is_admin tweak state validation)

  -- One turn of the loop of `plan`.
  unfoldable pub plan_one : Bool → Tweak M → Action M (PlannedChange M)
  plan_one allow_risk tweak = do scanned ← try_scan tweak; after_scan allow_risk tweak scanned

  unfoldable pub plan_each : Bool → List (Tweak M) → Action M (List (PlannedChange M))
  plan_each allow_risk [] = pure []
  plan_each allow_risk (tweak ∷ tweaks) = do
    change ← plan_one allow_risk tweak
    changes ← plan_each allow_risk tweaks
    pure (change ∷ changes)

  -- `plan`, for the identifier that `uuid4` made.
  unfoldable pub plan : Bool → String → List (Tweak M) → Action M (Plan M)
  plan allow_risk run_id tweaks = do
    changes ← plan_each allow_risk tweaks
    pure (record { run_id = run_id; changes = changes })
