-- ===== src/Pipeline.antt =====
-- core/optimization/pipeline.py: the level of a run, the preview that the operator confirms, and its
-- execution. The list that `build_tweaks` makes of a scan is an argument, and so are the calls that
-- create a restore point and scan again.
pub mod Levels
use pudge_gaming_manager.Prelude.{
  ℕ, String, ◌<>◌, Bool, true, false, not, ◌&&◌, ◌||◌, Option, none, some, List, [], ◌∷◌, ◌++◌,
  length, filled, ltb, if◌then◌else◌,
}
use pudge_gaming_manager.Floats.{Floats}
use pudge_gaming_manager.Health.{HardwareSnapshot}
use pudge_gaming_manager.Score.{GamingScore, compute_score}
use pudge_gaming_manager.Tweak.{Tweak, Method, auto_applicable, error_text}
use pudge_gaming_manager.Session.{Session, Action, pure, try_except, ◌>>=◌, ◌>>◌}
use pudge_gaming_manager.Store.{register}
use pudge_gaming_manager.Engine.{
  PlannedChange, Plan, RunReport, plan, applicable, with_selection, apply,
}

pub data OptimizationLevel : Type 0 where
  normal medium_level hard : OptimizationLevel

unfoldable pub allows_risk_above_low : OptimizationLevel → Bool
allows_risk_above_low normal = false
allows_risk_above_low medium_level = true
allows_risk_above_low hard = true

-- `level is OptimizationLevel.HARD`
unfoldable pub is_hard : OptimizationLevel → Bool
is_hard hard = true
is_hard _ = false

-- The level of a preview, from the one that was chosen and the pipeline's default.
unfoldable pub level_or_default :
    (allow_risk_above_low : Bool) → Option OptimizationLevel → OptimizationLevel
level_or_default allow (some level) = level
level_or_default allow none = if allow then medium_level else normal

pub record OptimizationPreview (M F : Type 0) : Type 0 where
  pub plan : Plan M
  pub score_before : GamingScore F
  pub level : OptimizationLevel

pub record OptimizationOutcome (F : Type 0) : Type 0 where
  pub run : RunReport
  pub score_before : GamingScore F
  pub score_after : Option (GamingScore F)
  pub snapshot_after : Option (HardwareSnapshot F)
  pub notes : List String

module _ {M F : Type 0} where
  unfoldable pub ticked_by_default : OptimizationPreview M F → PlannedChange M → Bool
  ticked_by_default preview change = auto_applicable change.tweak.risk || is_hard preview.level

  unfoldable pub change_count : OptimizationPreview M F → ℕ
  change_count preview = length (applicable preview.plan)

  unfoldable pub has_changes : OptimizationPreview M F → Bool
  has_changes preview = ltb 0 (change_count preview)

  -- `OptimizationPreview.with_selection`
  unfoldable pub select_changes : OptimizationPreview M F → List ℕ → OptimizationPreview M F
  select_changes preview selected = record preview { plan = with_selection preview.plan selected }

-- A call that is not a tweak's.
unfoldable pub run_call : {M A : Type 0} → Method M A → Action M A
run_call call s = let (r, m) = call s.machine in (r, record s { machine = m })

unfoldable pub create_restore_point : {M : Type 0} → Method M (Bool × String) → Action M String
create_restore_point create =
    try_except (do made ← run_call create; pure made.1)
      (λ exc. pure ("Точка восстановления не создана: " <> error_text exc))

-- The first half of `apply`.
unfoldable pub restore_note :
    {M F : Type 0}
    → Option (Method M (Bool × String))
    → OptimizationPreview M F
    → (dry_run : Bool) → Action M String
restore_note none preview dry_run = pure ""
restore_note (some create) preview dry_run =
    if not dry_run && has_changes preview then create_restore_point create else pure ""

unfoldable pub noted : String → List String
noted note = if filled note then note ∷ [] else []

unfoldable pub with_note : {F : Type 0} → OptimizationOutcome F → String → OptimizationOutcome F
with_note outcome note = record outcome { notes = outcome.notes ++ note ∷ [] }

module _ (N : Floats) where
  open N use {F}

  unfoldable pub score_of : (says_nvidia : String → Bool) → HardwareSnapshot F → GamingScore F
  score_of says_nvidia snapshot = compute_score N says_nvidia snapshot (λ key. none) [] none

  unfoldable pub score_delta : OptimizationOutcome F → Option F
  score_delta outcome = elim outcome.score_after [
    | none ↦ none
    | some after ↦ elim after.value [
      | none ↦ none
      | some v ↦ elim outcome.score_before.value [ none ↦ none | some u ↦ some (N.sub v u) ]
    ]
  ]

module _ {M : Type 0} (N : Floats) (says_nvidia : String → Bool) where
  open N use {F}

  -- `preview`, for the identifier of the plan and the tweaks that were built.
  unfoldable pub preview :
      (allow_risk_above_low : Bool)
      → String
      → List (Tweak M)
      → HardwareSnapshot F
      → Option (GamingScore F)
      → Option OptimizationLevel
      → Action M (OptimizationPreview M F)
  preview allow run_id tweaks snapshot score_before level = do
    register tweaks
    planned ← plan (allows_risk_above_low (level_or_default allow level)) run_id tweaks
    pure (record {
      plan = planned;
      score_before = elim score_before [
        | some score ↦ score
        | none ↦ score_of N says_nvidia snapshot
      ];
      level = level_or_default allow level;
    })

  unfoldable pub outcome_of :
      OptimizationPreview M F → RunReport → List String → OptimizationOutcome F
  outcome_of preview run notes = record {
    run = run;
    score_before = preview.score_before;
    score_after = none;
    snapshot_after = none;
    notes = notes;
  }

  unfoldable pub measure_after :
      Option (Method M (HardwareSnapshot F))
      → OptimizationOutcome F
      → Action M (OptimizationOutcome F)
  measure_after none outcome =
      pure
        (with_note outcome "Повторное сканирование не выполнялось, состояние «после» не показано.")
  measure_after (some rescan) outcome =
      try_except
        (do
          snapshot ← run_call rescan
          pure (record outcome {
            snapshot_after = some snapshot;
            score_after = some (score_of N says_nvidia snapshot);
          }))
        (λ exc.
          pure (with_note outcome ("Состояние «после» не удалось измерить: " <> error_text exc)))

  unfoldable pub after_run :
      Bool
      → Option (Method M (HardwareSnapshot F))
      → OptimizationOutcome F
      → Action M (OptimizationOutcome F)
  after_run dry_run rescan outcome =
      if dry_run
      then pure (with_note outcome "Пробный прогон: ничего не изменено.")
      else measure_after rescan outcome

  -- `OptimizationPipeline.apply`
  unfoldable pub run_preview :
      Option (Method M (Bool × String))
      → OptimizationPreview M F
      → (dry_run : Bool) → Option (Method M (HardwareSnapshot F))
      → Action M (OptimizationOutcome F)
  run_preview restore_point preview dry_run rescan = do
    note ← restore_note restore_point preview dry_run
    run ← apply preview.plan dry_run
    after_run dry_run rescan (outcome_of preview run (noted note))
