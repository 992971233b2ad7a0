-- ===== src/History/Restoring.antt =====
-- `restore`, for one change.
use pudge_gaming_manager.Prelude.{
  ◌≡◌, refl, ap, ◌∙◌, ◌⊎◌, inl, inr, ℕ, String, Bool, false, Option, some, [], ◌∷◌, ◌++◌,
}
use pudge_gaming_manager.Tweak.{
  ApplyResult, Tweak, Phase, is_success, Result, ok, raised, killed, error_text,
}
use pudge_gaming_manager.Session.{Session, pure, handle, after_result, on_machine}
use pudge_gaming_manager.Session.Frames.{Keeps, Keeps-pure, Keeps-bind, Keeps-if}
use pudge_gaming_manager.Store.Keeping.{mark_backup-Keeps, audit-Keeps}
use pudge_gaming_manager.Engine.DryRun.{Idle, idle}
use pudge_gaming_manager.History.{
  ChangeRecord, backup_of, call_rollback, conclude, roll_back, restore,
}
use pudge_gaming_manager.History.Ending.{Untouched, MayUndo, restore_ind}

module _ {M : Type 0} (digits : ℕ → String) (int : String → Option ℕ)
    (resolve : ChangeRecord → Option (Tweak M)) where
  -- The one call of a tweak is this rollback.
  abbrev pub RolledBack : Session M → ChangeRecord → Session M → Type 0
  RolledBack s change t =
      (tweak : Tweak M) × (resolve change ≡ some tweak)
      × (t.machine ≡ (tweak.rollback (backup_of digits int change) s.machine).1)
      × (t.calls
          ≡ s.calls
            ++ (record {
              method = Phase.rollback;
              tweak_id = tweak.id;
              committed = s.tables.backups;
            })
              ∷ [])

  abbrev pub Guarded : Session M → String → Bool → Session M → Type 0
  Guarded s id check_newer t =
      Untouched s t
      ⊎ ((change : ChangeRecord) × MayUndo s id check_newer change × RolledBack s change t)

  call_rollback-machine :
      (tweak : Tweak M) (change : ChangeRecord) (s : Session M)
      → ((call_rollback digits int tweak change s).1.machine
          ≡ (tweak.rollback (backup_of digits int change) s.machine).1)
        × ((call_rollback digits int tweak change s).1.calls
            ≡ s.calls
              ++ (record {
                method = Phase.rollback;
                tweak_id = tweak.id;
                committed = s.tables.backups;
              })
                ∷ [])
        × ((call_rollback digits int tweak change s).1.tables ≡ s.tables)
  unfolding call_rollback on_machine
  call_rollback-machine tweak change s =
      ended (tweak.rollback (backup_of digits int change) s.machine).0
        (on_machine Phase.rollback tweak.id (tweak.rollback (backup_of digits int change)) s).1
    where
      ended :
          (r : Result ApplyResult) (t : Session M)
          → (let x =
                (let (q, u) =
                    after_result {B = Bool × String} r
                      (λ (a : ApplyResult). pure (is_success a.outcome, a.detail))
                      t in
                  handle q (λ exc. pure (false, error_text exc)) u) in
              (x.1.machine ≡ t.machine) × (x.1.calls ≡ t.calls) × (x.1.tables ≡ t.tables))
      ended (ok a) t = (refl, refl, refl)
      ended (raised e) t = (refl, refl, refl)
      ended killed t = (refl, refl, refl)

  conclude-Keeps :
      (change : ChangeRecord) (done : Bool × String)
      → Keeps {M = M} Idle (conclude digits int change done)
  unfolding conclude
  conclude-Keeps change (good, message) =
      Keeps-bind idle.frame
        (Keeps-if idle.frame good (mark_backup-Keeps idle _ _ _ (λ p e. cc e))
          (Keeps-pure idle.frame tt))
        λ _. Keeps-bind idle.frame (audit-Keeps idle _) (λ _. Keeps-pure idle.frame _)

  roll_back-RolledBack :
      (tweak : Tweak M) (change : ChangeRecord) (s t : Session M)
      → Untouched s t
      → resolve change ≡ some tweak
      → RolledBack s change (roll_back digits int (some tweak) change t).1
  unfolding roll_back
  roll_back-RolledBack tweak change s t (m, c, k) e =
      let (machine, called, _) = call_rollback-machine tweak change t in
      let (same, as_before) =
        concluded (call_rollback digits int tweak change t).0
          (call_rollback digits int tweak change t).1 in
      (
        tweak,
        e,
        same ∙ machine ∙ ap (λ x. (tweak.rollback (backup_of digits int change) x).1) m,
        as_before ∙ called ∙ cc (c, k),
      )
    where
      concluded :
          (r : Result (Bool × String)) (t : Session M)
          → Idle t (after_result r (conclude digits int change) t).1
      concluded (ok done) t = (conclude-Keeps change done).at t
      concluded (raised e) t = (refl, refl)
      concluded killed t = (refl, refl)

  -- However its statements and the rollback end, a restore either leaves the machine, the calls and
  -- the tables as they were, or it has made one call of a tweak: the rollback, from the stored row,
  -- of a change that is in state APPLIED, has a scope and, if the check is asked for, is the newest
  -- applied change of its target.
  pub restore-Guarded :
      (id : String) (check_newer : Bool) (s : Session M)
      → Guarded s id check_newer (restore digits int resolve id check_newer s).1
  restore-Guarded id check_newer s =
      restore_ind digits int resolve s id (λ out. Guarded s id check_newer out.1) check_newer
        (record {
          refuses_ = λ r t same _ _. inl same;
          raises = λ e t same. inl same;
          dies_ = λ t same. inl same;
          rolls = λ change tweak t same may e.
              inr (change, may, roll_back-RolledBack tweak change s t same e);
        })
