-- ===== src/History/Marking.antt =====
-- What `restore` reports and stores.
use pudge_gaming_manager.Prelude.{
  ◌≡◌, refl, sym, ap, ◌∙◌, ℕ, ◌+◌, String, Bool, true, false, Option, some, some-injective, map,
}
use pudge_gaming_manager.Tweak.{
  ApplyResult, Tweak, Phase, is_success, Result, ok, ok-injective, raised, killed, error_text,
}
use pudge_gaming_manager.Session.{
  Session, pure, handle, after_result, ◌>>◌, on_machine, utc_now, Tables, restored, AuditEvent,
}
use pudge_gaming_manager.Session.Inversion.{bind-ok, execute-ok}
use pudge_gaming_manager.Store.{mark_backup, update_backup, move_backup, audit}
use pudge_gaming_manager.Store.Keeping.{audit-Keeps}
use pudge_gaming_manager.Store.SameBackups.{same_backups}
use pudge_gaming_manager.History.{
  ChangeRecord, RestoreResult, record_of, backup_of, call_rollback, conclude, roll_back, restore,
}
use pudge_gaming_manager.History.Ending.{Untouched, MayUndo, MayUndo-id, restore_ind}

-- Every row with this identifier is RESTORED, and the others are as they were.
abbrev pub IsMarked : {M : Type 0} → String → Session M → Session M → Type 0
IsMarked id s t =
    (at : String) × (t.tables.backups ≡ map (move_backup id restored (some at)) s.tables.backups)

module _ {M : Type 0} where
  mark_backup-IsMarked :
      (id : String) (s : Session M)
      → (mark_backup id restored true s).0 ≡ ok tt
      → IsMarked id s (mark_backup id restored true s).1
  unfolding mark_backup utc_now update_backup
  mark_backup-IsMarked id s e =
      let at = s.clock s.ticks in
      let (u, moved, left) =
        execute-ok (update_backup id restored (some at)) (record s { ticks = s.ticks + 1 }) e in
      (at, ap (λ (t : Tables). t.backups) (left ∙ sym (some-injective _ u moved)))

  finish :
      {A : Type 0} (event : AuditEvent) (r0 r : A) (s : Session M)
      → ((audit event >> pure r0) s).0 ≡ ok r
      → (r ≡ r0) × (((audit event >> pure r0) s).1.tables.backups ≡ s.tables.backups)
  finish event r0 r s e =
      let (_, _, rest) = bind-ok (audit event) (λ _. pure r0) s e in
      (
        ok-injective (sym e ∙ ap (λ x. x.0) rest),
        ap (λ x. x.1.tables.backups) rest ∙ (audit-Keeps same_backups event).at s,
      )

  module _ (digits : ℕ → String) (int : String → Option ℕ) where
    conclude-ok :
        (change : ChangeRecord) (good : Bool) (message : String) (r : RestoreResult) (s : Session M)
        → (conclude digits int change (good, message) s).0 ≡ ok r
        → (r.is_ok ≡ good)
          × (good ≡ true
              → IsMarked change.backup_id s (conclude digits int change (good, message) s).1)
          × (good ≡ false
              → (conclude digits int change (good, message) s).1.tables.backups ≡ s.tables.backups)
    unfolding conclude
    conclude-ok change true message r s e =
        let (_, ran, rest) =
          bind-ok (mark_backup change.backup_id restored true) (λ _. audit _ >> pure _) s e in
        let (at, marked) = mark_backup-IsMarked change.backup_id s ran in
        let (same, kept) =
          finish _ _ r (mark_backup change.backup_id restored true s).1
            (ap (λ x. x.0) (sym rest) ∙ e) in
        (
          ap (λ (x : RestoreResult). x.is_ok) same,
          λ _. (at, ap (λ x. x.1.tables.backups) rest ∙ kept ∙ marked),
          λ f. cc f,
        )
    conclude-ok change false message r s e =
        let (same, kept) = finish _ _ r s e in
        (ap (λ (x : RestoreResult). x.is_ok) same, λ f. cc f, λ _. kept)

    -- A message comes with success only if the rollback returned one.
    call_rollback-ok :
        (tweak : Tweak M) (change : ChangeRecord) (s : Session M) (good : Bool) (message : String)
        → (call_rollback digits int tweak change s).0 ≡ ok (good, message)
        → ((call_rollback digits int tweak change s).1.tables ≡ s.tables)
          × (good ≡ true
              → (a : ApplyResult) × ((tweak.rollback (backup_of digits int change) s.machine).0
                  ≡ ok a)
                × (is_success a.outcome ≡ true))
    unfolding call_rollback on_machine
    call_rollback-ok tweak change s good message =
        ended (tweak.rollback (backup_of digits int change) s.machine).0
          (on_machine Phase.rollback tweak.id (tweak.rollback (backup_of digits int change)) s).1
      where
        ended :
            (r : Result ApplyResult) (t : Session M)
            → (let x =
                  (let (q, u) =
                      after_result {B = Bool × String} r
                        (λ (a : ApplyResult). pure (is_success a.outcome, a.detail))
                        t in
                    handle q (λ exc. pure (false, error_text exc)) u) in
                x.0 ≡ ok (good, message)
                → (x.1.tables ≡ t.tables)
                  × (good ≡ true → (a : ApplyResult) × (r ≡ ok a) × (is_success a.outcome ≡ true)))
        ended (ok a) t e = (refl, λ g. (a, refl, ap (λ x. x.0) (ok-injective e) ∙ g))
        ended (raised exc) t e = (refl, λ g. cc (e, g))
        ended killed t e = cc e

    -- The rollback that was made has reported success.
    abbrev pub Confirmed : (ChangeRecord → Option (Tweak M)) → Session M → String → Bool → Type 0
    Confirmed resolve s id check_newer =
        (change : ChangeRecord) × (tweak : Tweak M) × (a : ApplyResult) × MayUndo s id check_newer
          change
        × (resolve change ≡ some tweak)
        × ((tweak.rollback (backup_of digits int change) s.machine).0 ≡ ok a)
        × (is_success a.outcome ≡ true)

    abbrev pub Reported :
        (ChangeRecord → Option (Tweak M))
        → Session M
        → String
        → Bool
        → RestoreResult
        → Session M
        → Type 0
    Reported resolve s id check_newer r t =
        (r.is_ok ≡ true → Confirmed resolve s id check_newer × IsMarked id s t)
        × (r.is_ok ≡ false → t.tables.backups ≡ s.tables.backups)

    roll_back-Reported :
        (resolve : ChangeRecord → Option (Tweak M)) (s t : Session M) (id : String)
        (check_newer : Bool) (change : ChangeRecord) (tweak : Tweak M) (r : RestoreResult)
        → Untouched s t
        → MayUndo s id check_newer change
        → resolve change ≡ some tweak
        → (roll_back digits int (some tweak) change t).0 ≡ ok r
        → Reported resolve s id check_newer r (roll_back digits int (some tweak) change t).1
    unfolding roll_back record_of
    roll_back-Reported resolve s t id check_newer change tweak r (m, _, k) may found e =
        let ((good, message), ran, rest) =
          bind-ok (call_rollback digits int tweak change) (conclude digits int change) t e in
        let (kept, confirmed) = call_rollback-ok tweak change t good message ran in
        let (same, marked, unmarked) =
          conclude-ok change good message r _ (ap (λ x. x.0) (sym rest) ∙ e) in
        let backups : (call_rollback digits int tweak change t).1.tables.backups
            ≡ s.tables.backups =
          ap (λ (u : Tables). u.backups) (kept ∙ k) in
        let end = ap (λ x. x.1.tables.backups) rest in
        (
          λ good_.
              let (a, returned, well) = confirmed (sym same ∙ good_) in
              let (at, now) = marked (sym same ∙ good_) in
              (
                (
                  change,
                  tweak,
                  a,
                  may,
                  found,
                  ap (λ x. (tweak.rollback (backup_of digits int change) x).0) (sym m) ∙ returned,
                  well,
                ),
                (at, end ∙ now ∙ cc (backups, MayUndo-id s id check_newer change may)),
              ),
          λ bad. end ∙ unmarked (sym same ∙ bad) ∙ backups,
        )

    -- A restore that returns says that it succeeded only if the rollback that it was allowed to make
    -- reported success, and then the row is RESTORED and no other row has changed; otherwise no
    -- row has changed.
    pub restore-Reported :
        (resolve : ChangeRecord → Option (Tweak M)) (id : String) (check_newer : Bool)
        (s : Session M) (r : RestoreResult)
        → (restore digits int resolve id check_newer s).0 ≡ ok r
        → Reported resolve s id check_newer r (restore digits int resolve id check_newer s).1
    restore-Reported resolve id check_newer s =
        restore_ind digits int resolve s id
          (λ out. (r : RestoreResult) → out.0 ≡ ok r → Reported resolve s id check_newer r out.1)
          check_newer
          (record {
            refuses_ = λ r0 t (m, c, k) bad _ r e.
                (λ good. cc (e, bad, good), λ _. ap (λ (u : Tables). u.backups) k);
            raises = λ exc t same r e. cc e;
            dies_ = λ t same r e. cc e;
            rolls = λ change tweak t same may found r e.
                roll_back-Reported resolve s t id check_newer change tweak r same may found e;
          })
