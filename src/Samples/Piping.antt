-- ===== src/Samples/Piping.antt =====
-- The theorem on the levels of a run, at a preview of two tweaks, one of which is MEDIUM.
use pudge_gaming_manager.Prelude.{◌≡◌, refl, ℕ, String, Bool, true, false, none, some, [], ◌∷◌, All}
use pudge_gaming_manager.Tweak.{Tweak, medium, ok, allow}
use pudge_gaming_manager.Score.{GamingScore}
use pudge_gaming_manager.Engine.{PlannedChange}
use pudge_gaming_manager.Pipeline.{
  OptimizationPreview, normal, level_or_default, select_changes, preview,
}
use pudge_gaming_manager.Pipeline.Levels.{IsAllowed, IsLevel, preview-IsAllowed}
use pudge_gaming_manager.Samples.Fixtures.{switch, planned, session, change}
use pudge_gaming_manager.Samples.Scoring.{wholes, snapshot}

abbrev strong : Tweak ℕ
strong = record switch { id = "strong"; risk = medium }

abbrev held_back : PlannedChange ℕ
held_back = record {
  tweak = strong;
  state = planned;
  validation = allow false;
  will_apply = false;
  skip_reason = "нужны права администратора";
  blocked_by_risk = false;
}

abbrev no_score : GamingScore ℕ
no_score = record { value = none; components = []; excluded = [] }

abbrev two_tweaks : OptimizationPreview ℕ ℕ
two_tweaks = record {
  plan = record { run_id = "r1"; changes = change ∷ held_back ∷ [] };
  score_before = no_score;
  level = normal;
}

abbrev nvidia : String → Bool
nvidia s = true

previewed :
    (preview wholes nvidia false "r1"
      (switch ∷ strong ∷ [])
      snapshot
      (some no_score)
      none
      session).0
    ≡ ok two_tweaks
unfolding preview pudge_gaming_manager.Store.register pudge_gaming_manager.Session.execute
    pudge_gaming_manager.Store.replace_tweak pudge_gaming_manager.Engine.plan
    pudge_gaming_manager.Engine.plan_each pudge_gaming_manager.Engine.plan_one
    pudge_gaming_manager.Engine.try_scan pudge_gaming_manager.Session.on_machine
    pudge_gaming_manager.Engine.after_scan pudge_gaming_manager.Engine.gated level_or_default
    pudge_gaming_manager.Engine.gate allow
previewed = refl

preview-IsAllowed_example :
    IsLevel false none two_tweaks.level
    × All (IsAllowed two_tweaks.level) (select_changes two_tweaks (0 ∷ 1 ∷ [])).plan.changes
preview-IsAllowed_example =
    preview-IsAllowed wholes nvidia false "r1" (switch ∷ strong ∷ []) snapshot (some no_score) none
      session two_tweaks (0 ∷ 1 ∷ []) previewed
