-- ===== src/Pipeline/Levels.antt =====
-- What the level of a run lets through.
use pudge_gaming_manager.Prelude.{
  ◌≡◌, ◌≢◌, ◌⊎◌, inl, inr, refl, sym, ap, subst, ◌∙◌, ℕ, ◌+◌, String, Bool, true, false, not, ◌||◌,
  Option, none, some, List, [], ◌∷◌, All, any, ◌==◌, if_ind, arith,
}
use pudge_gaming_manager.Floats.{Floats}
use pudge_gaming_manager.Health.{HardwareSnapshot}
use pudge_gaming_manager.Score.{GamingScore}
use pudge_gaming_manager.Tweak.{
  Tweak, RiskLevel, safe, low, medium, high, critical, auto_applicable, ok, ok-injective,
}
use pudge_gaming_manager.Session.{Session, pure, ◌>>=◌}
use pudge_gaming_manager.Session.Inversion.{bind-ok}
use pudge_gaming_manager.Store.{register}
use pudge_gaming_manager.Engine.{PlannedChange, Plan, plan, narrow, narrow_from, with_selection}
use pudge_gaming_manager.Engine.Preview.{IsPassed, ArePlanned, plan-ArePlanned}
use pudge_gaming_manager.Pipeline.{
  OptimizationLevel, normal, medium_level, allows_risk_above_low, level_or_default,
  OptimizationPreview, select_changes, score_of, preview,
}

-- The level of a preview: the chosen one, or the pipeline's own.
abbrev pub IsLevel : (allow : Bool) → Option OptimizationLevel → OptimizationLevel → Type 0
IsLevel allow (some chosen) level = level ≡ chosen
IsLevel false none level = level ≡ normal
IsLevel true none level = level ≡ medium_level

level_or_default-IsLevel :
    (allow : Bool) (chosen : Option OptimizationLevel)
    → IsLevel allow chosen (level_or_default allow chosen)
unfolding level_or_default
level_or_default-IsLevel allow (some chosen) = refl
level_or_default-IsLevel false none = refl
level_or_default-IsLevel true none = refl

low_of_applicable : (risk : RiskLevel) → auto_applicable risk ≡ true → (risk ≡ safe) ⊎ (risk ≡ low)
unfolding auto_applicable
low_of_applicable safe e = inl refl
low_of_applicable low e = inr refl
low_of_applicable medium e = cc e
low_of_applicable high e = cc e
low_of_applicable critical e = cc e

only_low : (level : OptimizationLevel) → level ≡ normal → allows_risk_above_low level ≡ false
unfolding allows_risk_above_low
only_low level e = rw e refl

module _ {M : Type 0} where
  -- A change that will run is not CRITICAL, and at the level NORMAL it is SAFE or LOW.
  abbrev pub IsAllowed : OptimizationLevel → PlannedChange M → Type 0
  IsAllowed level c =
      c.will_apply ≡ true
      → (c.tweak.risk ≢ critical) × (level ≡ normal → (c.tweak.risk ≡ safe) ⊎ (c.tweak.risk ≡ low))

  passed-IsAllowed :
      (level : OptimizationLevel) (c : PlannedChange M)
      → IsPassed (allows_risk_above_low level) c
      → IsAllowed level c
  passed-IsAllowed level c passed h =
      let (needed, accepted, not_critical, consented) = passed h in
      (
        not_critical,
        λ is_normal. elim consented [
          | inl e ↦ low_of_applicable c.tweak.risk e
          | inr e ↦ absurd (ground (arith, e, only_low level is_normal))
        ],
      )

  planned-IsAllowed :
      (level : OptimizationLevel) (ts : List (Tweak M)) (cs : List (PlannedChange M))
      → ArePlanned (allows_risk_above_low level) ts cs
      → All (IsAllowed level) cs
  planned-IsAllowed level [] [] h = tt
  planned-IsAllowed level (t ∷ ts) (c ∷ cs) (h, hs) =
      (passed-IsAllowed level c h.1, planned-IsAllowed level ts cs hs)
  planned-IsAllowed level [] (c ∷ cs) h = absurd h
  planned-IsAllowed level (t ∷ ts) [] h = absurd h

  narrow-IsAllowed :
      (level : OptimizationLevel) (selected : List ℕ) (i : ℕ) (c : PlannedChange M)
      → IsAllowed level c
      → IsAllowed level (narrow selected i c)
  unfolding narrow
  narrow-IsAllowed level selected i c h =
      if_ind (IsAllowed level) (not c.will_apply || any (λ j. j == i) selected) (λ _. h)
        (λ _ applied. cc applied)

  narrow_from-IsAllowed :
      (level : OptimizationLevel) (selected : List ℕ) (i : ℕ) (cs : List (PlannedChange M))
      → All (IsAllowed level) cs
      → All (IsAllowed level) (narrow_from selected i cs)
  unfolding narrow_from
  narrow_from-IsAllowed level selected i [] h = tt
  narrow_from-IsAllowed level selected i (c ∷ cs) (h, hs) =
      (narrow-IsAllowed level selected i c h, narrow_from-IsAllowed level selected (i + 1) cs hs)

  -- A preview has the level that was chosen or, without one, the pipeline's own: NORMAL, or MEDIUM
  -- if it was built to allow more. Whatever the operator selects in it, no change that will run is
  -- CRITICAL, and if the level of the preview is NORMAL, each is SAFE or LOW.
  pub preview-IsAllowed :
      (N : Floats) (says_nvidia : String → Bool) (allow : Bool) (run_id : String)
      (tweaks : List (Tweak M)) (snapshot : HardwareSnapshot N.F)
      (score_before : Option (GamingScore N.F)) (level : Option OptimizationLevel) (s : Session M)
      (p : OptimizationPreview M N.F) (selected : List ℕ)
      → (preview N says_nvidia allow run_id tweaks snapshot score_before level s).0 ≡ ok p
      → IsLevel allow level p.level
        × All (IsAllowed p.level) (select_changes p selected).plan.changes
  unfolding preview select_changes with_selection
  preview-IsAllowed N says_nvidia allow run_id tweaks snapshot score_before level s p selected e =
      let lvl = level_or_default allow level in
      let planning = plan (allows_risk_above_low lvl) run_id tweaks in
      let made = λ (q : Plan M).
        let r : OptimizationPreview M N.F = record {
          plan = q;
          score_before = elim score_before as (λ _. GamingScore N.F) [
            | some score ↦ score
            | none ↦ score_of N says_nvidia snapshot
          ];
          level = lvl;
        } in
        r in
      let (_, _, rest) = bind-ok (register tweaks) (λ _. planning >>= λ q. pure (made q)) s e in
      let t = (register tweaks s).1 in
      let (q, planned, rest') =
        bind-ok planning (λ q. pure (made q)) t (ap (λ r. r.0) (sym rest) ∙ e) in
      let same : ok (made q) ≡ ok p = ap (λ r. r.0) (sym rest' ∙ sym rest) ∙ e in
      subst
        (λ (r : OptimizationPreview M N.F).
          IsLevel allow level r.level
          × All (IsAllowed r.level) (select_changes r selected).plan.changes)
        (ok-injective same)
        (
          level_or_default-IsLevel allow level,
          narrow_from-IsAllowed lvl selected 0 q.changes (
              planned-IsAllowed lvl tweaks q.changes
                (plan-ArePlanned (allows_risk_above_low lvl) run_id tweaks t planned)),
        )
