-- ===== src/Engine/Preview.antt =====
-- `plan`: what it may touch, and what it returns.
use pudge_gaming_manager.Prelude.{
  ◌≡◌, refl, sym, ◌∙◌, ap, subst, ◌≢◌, ◌⊎◌, inl, inr, String, Bool, true, List, [], ◌∷◌, arith,
}
use pudge_gaming_manager.Tweak.{
  ok-injective, Tweak, TweakState, Validation, Phase, Result, ok, critical, auto_applicable,
}
use pudge_gaming_manager.Session.{Session, Call, pure, ◌>>=◌, on_machine}
use pudge_gaming_manager.Session.Frames.{
  IsFrame, Keeps, Keeps-pure, Keeps-gets, Keeps-bind, Keeps-try_except,
}
use pudge_gaming_manager.Session.Inversion.{bind-ok, try_except-ok}
use pudge_gaming_manager.Engine.Planning.{
  PlannedChange, Plan, gated, unreadable, try_scan, after_scan, plan_one, plan_each, plan,
}
use pudge_gaming_manager.Engine.Calls.{Logs, Logs-frame}
use pudge_gaming_manager.Engine.Gate.{gate-MayRun_iff}

-- The call only looks: it is a scan or a validation.
abbrev pub IsLook : Call → Type 0
IsLook c = (c.method ≡ Phase.scan) ⊎ (c.method ≡ Phase.validate)

-- Between two sessions nothing was stored, no file was written, and the calls only looked.
pub record IsPreview {M : Type 0} (s t : Session M) : Type 0 where
  pub stored : t.tables ≡ s.tables
  pub audited : t.audit_file ≡ s.audit_file
  pub looked : Logs IsLook s t

-- What a planned change that will run has passed.
abbrev pub IsPassed : {M : Type 0} → Bool → PlannedChange M → Type 0
IsPassed allow_risk c =
    c.will_apply ≡ true
    → (c.state.needs_change ≡ true)
      × (c.validation.accepted ≡ true)
      × (c.tweak.risk ≢ critical)
      × ((auto_applicable c.tweak.risk ≡ true) ⊎ (allow_risk ≡ true))

module _ {M : Type 0} where
  preview : IsFrame {M = M} IsPreview
  preview = record {
    stay = λ s. record { stored = refl; audited = refl; looked = Logs-frame.stay s };
    then_by = λ {s} {t} {u} p q. record {
      stored = q.stored ∙ p.stored;
      audited = q.audited ∙ p.audited;
      looked = Logs-frame.then_by p.looked q.looked;
    };
  }

  look-Keeps :
      {A : Type 0} (method : Phase) (id : String) (call : M → Result A × M)
      → (method ≡ Phase.scan) ⊎ (method ≡ Phase.validate)
      → Keeps IsPreview (on_machine method id call)
  unfolding on_machine
  look-Keeps method id call h = record {
    at = λ s. record {
      stored = refl;
      audited = refl;
      looked = record {
        made = (record { method = method; tweak_id = id; committed = s.tables.backups }) ∷ [];
        logged = refl;
        each = (h, tt);
      };
    };
  }

  after_scan-Keeps :
      (allow_risk : Bool) (tweak : Tweak M) (scanned : PlannedChange M ⊎ TweakState)
      → Keeps IsPreview (after_scan allow_risk tweak scanned)
  unfolding after_scan
  after_scan-Keeps allow_risk tweak (inl change) = Keeps-pure preview change
  after_scan-Keeps allow_risk tweak (inr state) =
      Keeps-bind preview (look-Keeps Phase.validate tweak.id (tweak.validate state) (inr refl))
        λ validation.
          Keeps-bind preview {A = Bool} (Keeps-gets preview (λ s. s.is_admin))
            (λ is_admin. Keeps-pure preview _)

  plan_one-Keeps :
      (allow_risk : Bool) (tweak : Tweak M) → Keeps IsPreview (plan_one allow_risk tweak)
  unfolding plan_one try_scan
  plan_one-Keeps allow_risk tweak =
      Keeps-bind preview
        (Keeps-try_except preview
          (Keeps-bind preview (look-Keeps Phase.scan tweak.id tweak.scan (inl refl))
            (λ state. Keeps-pure preview _))
          (λ exc. Keeps-pure preview _))
        (after_scan-Keeps allow_risk tweak)

  plan_each-Keeps :
      (allow_risk : Bool) (tweaks : List (Tweak M)) → Keeps IsPreview (plan_each allow_risk tweaks)
  unfolding plan_each
  plan_each-Keeps allow_risk [] = Keeps-pure preview []
  plan_each-Keeps allow_risk (tweak ∷ tweaks) =
      Keeps-bind preview (plan_one-Keeps allow_risk tweak) λ change.
        Keeps-bind preview (plan_each-Keeps allow_risk tweaks) (λ changes. Keeps-pure preview _)

  -- Planning stores nothing and only scans and validates, however it ends.
  pub plan-IsPreview :
      (allow_risk : Bool) (run_id : String) (tweaks : List (Tweak M)) (s : Session M)
      → IsPreview s (plan allow_risk run_id tweaks s).1
  unfolding plan
  plan-IsPreview allow_risk run_id tweaks s =
      (Keeps-bind preview (plan_each-Keeps allow_risk tweaks) (λ changes. Keeps-pure preview _)).at
        s

  -- The change is this tweak's, and has passed what it takes to run.
  abbrev IsPlanned : Bool → Tweak M → PlannedChange M → Type 0
  IsPlanned allow_risk tweak c = (c.tweak ≡ tweak) × IsPassed allow_risk c

  abbrev pub ArePlanned : Bool → List (Tweak M) → List (PlannedChange M) → Type 0
  ArePlanned allow_risk [] [] = Unit
  ArePlanned allow_risk (t ∷ ts) (c ∷ cs) = IsPlanned allow_risk t c × ArePlanned allow_risk ts cs
  ArePlanned allow_risk [] (c ∷ cs) = ⊥
  ArePlanned allow_risk (t ∷ ts) [] = ⊥

  gated-IsPlanned :
      (allow_risk is_admin : Bool) (tweak : Tweak M) (state : TweakState) (validation : Validation)
      → IsPlanned allow_risk tweak (gated allow_risk is_admin tweak state validation)
  unfolding gated
  gated-IsPlanned allow_risk is_admin tweak state validation = (
    refl,
    λ h.
        let may = (gate-MayRun_iff allow_risk is_admin tweak state validation).0 h in
        (may.needed, may.accepted, may.not_critical, may.consented),
  )

  module _ (allow_risk : Bool) (tweak : Tweak M) where
    abbrev IsScanned : PlannedChange M ⊎ TweakState → Type 0
    IsScanned (inl c) = IsPlanned allow_risk tweak c
    IsScanned (inr state) = Unit

    try_scan-IsScanned :
        (s : Session M) (scanned : PlannedChange M ⊎ TweakState)
        → (try_scan tweak s).0 ≡ ok scanned
        → IsScanned scanned
    unfolding try_scan unreadable
    try_scan-IsScanned s scanned e =
        let look = on_machine Phase.scan tweak.id tweak.scan in
        elim (try_except-ok (look >>= λ state. pure (inr state))
          (λ exc. pure (inl (unreadable tweak exc))) s e) [
            | inl (ran, _) ↦
                let (state, _, rest) = bind-ok look (λ state. pure (inr state)) s ran in
                let same : ok (inr state) ≡ ok scanned = ap (λ r. r.0) (sym rest) ∙ ran in
                subst IsScanned (ok-injective same) tt
            | inr (exc, _, rest) ↦
                let same : ok (inl (unreadable tweak exc)) ≡ ok scanned =
                  ap (λ r. r.0) (sym rest) ∙ e in
                subst IsScanned (ok-injective same) (refl, λ h. absurd (ground (arith, h)))
          ]

    after_scan-IsPlanned :
        (scanned : PlannedChange M ⊎ TweakState) (s : Session M) (c : PlannedChange M)
        → IsScanned scanned
        → (after_scan allow_risk tweak scanned s).0 ≡ ok c
        → IsPlanned allow_risk tweak c
    unfolding after_scan
    after_scan-IsPlanned (inl d) s c h e = subst (IsPlanned allow_risk tweak) (ok-injective e) h
    after_scan-IsPlanned (inr state) s c h e =
        let (validation, _, rest) =
          bind-ok (on_machine Phase.validate tweak.id (tweak.validate state)) _ s e in
        subst (IsPlanned allow_risk tweak) (ok-injective (ap (λ r. r.0) (sym rest) ∙ e))
          (gated-IsPlanned allow_risk _ tweak state validation)

    plan_one-IsPlanned :
        (s : Session M) (c : PlannedChange M)
        → (plan_one allow_risk tweak s).0 ≡ ok c
        → IsPlanned allow_risk tweak c
    unfolding plan_one
    plan_one-IsPlanned s c e =
        let (scanned, got, rest) = bind-ok (try_scan tweak) (after_scan allow_risk tweak) s e in
        after_scan-IsPlanned scanned (try_scan tweak s).1 c (try_scan-IsScanned s scanned got)
          (ap (λ r. r.0) (sym rest) ∙ e)

  plan_each-ArePlanned :
      (allow_risk : Bool) (tweaks : List (Tweak M)) (s : Session M) (cs : List (PlannedChange M))
      → (plan_each allow_risk tweaks s).0 ≡ ok cs
      → ArePlanned allow_risk tweaks cs
  unfolding plan_each
  plan_each-ArePlanned allow_risk [] s cs e = subst (ArePlanned allow_risk []) (ok-injective e) tt
  plan_each-ArePlanned allow_risk (tweak ∷ tweaks) s cs e =
      let one = plan_one allow_risk tweak in
      let each = plan_each allow_risk tweaks in
      let (c, got, rest) = bind-ok one (λ c. each >>= λ later. pure (c ∷ later)) s e in
      let e' = ap (λ r. r.0) (sym rest) ∙ e in
      let (later, got', rest') = bind-ok each (λ later. pure (c ∷ later)) (one s).1 e' in
      let same : ok (c ∷ later) ≡ ok cs = ap (λ r. r.0) (sym rest') ∙ e' in
      subst (ArePlanned allow_risk (tweak ∷ tweaks)) (ok-injective same) (
        plan_one-IsPlanned allow_risk tweak s c got,
        plan_each-ArePlanned allow_risk tweaks (one s).1 later got',
      )

  -- A plan that is returned has one change for each tweak, in order, and every change of it that
  -- will run is needed, accepted, not CRITICAL, and of a risk class that is consented to.
  pub plan-ArePlanned :
      (allow_risk : Bool) (run_id : String) (tweaks : List (Tweak M)) (s : Session M) {p : Plan M}
      → (plan allow_risk run_id tweaks s).0 ≡ ok p
      → ArePlanned allow_risk tweaks p.changes
  unfolding plan
  plan-ArePlanned allow_risk run_id tweaks s {p} e =
      let each = plan_each allow_risk tweaks in
      let made = λ (cs : List (PlannedChange M)).
        let q : Plan M = record { run_id = run_id; changes = cs } in q in
      let (cs, got, rest) = bind-ok each (λ cs. pure (made cs)) s e in
      let same : ok (made cs) ≡ ok p = ap (λ r. r.0) (sym rest) ∙ e in
      subst (λ (q : Plan M). ArePlanned allow_risk tweaks q.changes) (ok-injective same)
        (plan_each-ArePlanned allow_risk tweaks s cs got)
