-- ===== src/Engine/Selection.antt =====
-- The operator's selection, `Plan.with_selection`.
use pudge_gaming_manager.Prelude.{
  ◌≡◌, ℕ, zero, suc, ◌+◌, false, ◌&&◌, some, List, [], ◌∷◌, any, ◌==◌, arith, get_elem?,
}
use pudge_gaming_manager.Engine.{PlannedChange, Plan, narrow, narrow_from, with_selection}

module _ {M : Type 0} where
  -- What `with_selection` may do to the change at an index.
  pub record IsNarrowed (selected : List ℕ) (i : ℕ) (old new : PlannedChange M) : Type 0 where
    pub same_tweak : new.tweak ≡ old.tweak
    pub same_state : new.state ≡ old.state
    pub same_validation : new.validation ≡ old.validation
    pub same_block : new.blocked_by_risk ≡ old.blocked_by_risk
    pub chosen : new.will_apply ≡ (old.will_apply && any (λ j. j == i) selected)
    pub untouched : old.will_apply ≡ false → new.skip_reason ≡ old.skip_reason

  narrow-IsNarrowed :
      (selected : List ℕ) (i : ℕ) (c : PlannedChange M)
      → IsNarrowed selected i c (narrow selected i c)
  unfolding narrow
  narrow-IsNarrowed selected i c = ground arith

  get_elem?-narrow_from :
      (selected : List ℕ) (k i : ℕ) (changes : List (PlannedChange M)) (c : PlannedChange M)
      → get_elem? changes i ≡ some c
      → get_elem? (narrow_from selected k changes) i ≡ some (narrow selected (k + i) c)
  unfolding narrow_from
  get_elem?-narrow_from selected k i [] c e = cc
  get_elem?-narrow_from selected k zero (d ∷ changes) c e = ground arith
  get_elem?-narrow_from selected k (suc i) (d ∷ changes) c e =
      ground (arith, get_elem?-narrow_from selected (k + 1) i changes c e)

  -- The narrowed plan has at each index the same change, which is applied exactly if it was to be
  -- applied and its index was selected; one that was skipped keeps its reason.
  pub with_selection-IsNarrowed :
      (plan : Plan M) (selected : List ℕ) (i : ℕ) (c : PlannedChange M)
      → get_elem? plan.changes i ≡ some c
      → (d : PlannedChange M) × (get_elem? (with_selection plan selected).changes i ≡ some d)
        × IsNarrowed selected i c d
  unfolding with_selection
  with_selection-IsNarrowed plan selected i c e = (
    narrow selected (0 + i) c,
    get_elem?-narrow_from selected 0 i plan.changes c e,
    let zero_add : 0 + i ≡ i = omega arith in rw zero_add (narrow-IsNarrowed selected i c),
  )
