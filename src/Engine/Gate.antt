-- ===== src/Engine/Gate.antt =====
-- What the gate of `_gate` lets through, and when the preview may offer the opt-in.
use pudge_gaming_manager.Prelude.{◌≡◌, ◌≢◌, ◌↔◌, ◌⊎◌, Bool, true, false, arith}
use pudge_gaming_manager.Tweak.{Tweak, TweakState, Validation, critical, auto_applicable}
use pudge_gaming_manager.Engine.{gate}

-- What the safety model asks of a change before it may run.
pub record MayRun {M : Type 0} (allow_risk is_admin : Bool) (tweak : Tweak M) (state : TweakState)
    (validation : Validation) : Type 0 where
  pub needed : state.needs_change ≡ true
  pub accepted : validation.accepted ≡ true
  pub not_critical : tweak.risk ≢ critical
  pub consented : (auto_applicable tweak.risk ≡ true) ⊎ (allow_risk ≡ true)
  pub elevated :
      (is_admin ≡ true)
      ⊎ (auto_applicable tweak.risk ≡ true)
        × (validation.requires_admin ≡ false)
        × (tweak.requires_admin ≡ false)

module _ {M : Type 0} (allow_risk is_admin : Bool) (tweak : Tweak M) (state : TweakState)
    (validation : Validation) where
  gate-MayRun :
      (gate allow_risk is_admin tweak state validation).will_apply ≡ true
      → MayRun allow_risk is_admin tweak state validation
  unfolding gate
  gate-MayRun h = ground arith

  MayRun-gate :
      MayRun allow_risk is_admin tweak state validation
      → (gate allow_risk is_admin tweak state validation).will_apply ≡ true
  unfolding gate
  MayRun-gate h = ground arith

  -- The gate lets a change through exactly when the safety model allows it: it is needed and
  -- accepted, its risk class is not CRITICAL and is consented to, and the process has the rights.
  pub gate-MayRun_iff :
      ((gate allow_risk is_admin tweak state validation).will_apply ≡ true)
      ↔ MayRun allow_risk is_admin tweak state validation
  gate-MayRun_iff = (gate-MayRun, MayRun-gate)

-- Without the opt-in, a change is marked as blocked by its risk class exactly when it is not let
-- through and the opt-in would let it through, or when it is a CRITICAL change that is needed and
-- accepted and the process is elevated.
pub gate-blocked_by_risk :
    {M : Type 0} (is_admin : Bool) (tweak : Tweak M) (state : TweakState) (validation : Validation)
    → ((gate false is_admin tweak state validation).blocked_by_risk ≡ true) ↔ (
        ((gate false is_admin tweak state validation).will_apply ≡ false)
          × ((gate true is_admin tweak state validation).will_apply ≡ true)
        ⊎ (tweak.risk ≡ critical)
          × (state.needs_change ≡ true)
          × (validation.accepted ≡ true)
          × (is_admin ≡ true))
unfolding gate
gate-blocked_by_risk is_admin tweak state validation = (λ h. ground arith, λ h. ground arith)

-- With the class approved, nothing is marked as blocked by it.
gate-blocked_by_risk_approved :
    {M : Type 0} (is_admin : Bool) (tweak : Tweak M) (state : TweakState) (validation : Validation)
    → (gate true is_admin tweak state validation).blocked_by_risk ≡ false
unfolding gate
gate-blocked_by_risk_approved is_admin tweak state validation = ground arith
