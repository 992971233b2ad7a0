-- ===== src/Engine/Closing.antt =====
-- The state of a change's backup row at the end of `_execute`.
use pudge_gaming_manager.Prelude.{
  ◌≡◌, refl, sym, ◌∙◌, ap, subst, ◌+◌, String, Bool, true, false, Option, none, some,
  some-injective, List, map, ◌⊎◌, inl, inr, if◌then◌else◌,
}
use pudge_gaming_manager.Tweak.{Tweak, TweakState, BackupRecord, ApplyResult, Verification, ok}
use pudge_gaming_manager.Session.{
  Session, Action, Tables, BackupRow, BackupState, applied, restored, not_confirmed, is_applying,
  utc_now, ◌>>=◌,
}
use pudge_gaming_manager.Session.Frames.{Keeps-then, Keeps-pure}
use pudge_gaming_manager.Session.Inversion.{bind-ok, execute-ok}
use pudge_gaming_manager.Store.{move_backup, update_backup, mark_backup}
use pudge_gaming_manager.Store.Keeping.{record_application-Keeps, audit-Keeps}
use pudge_gaming_manager.Store.SameBackups.{same_backups}
use pudge_gaming_manager.Engine.{
  TweakReport, try_rollback, record_rollback, fail_and_rollback, try_apply, try_verify,
  mark_applied, confirm, after_verify, after_apply, carry_out,
}
use pudge_gaming_manager.Engine.Keeping.{try_apply-Keeps, try_verify-Keeps, try_rollback-Keeps}

-- The backup `id` has moved on from APPLYING, and nothing else has changed among the backups.
pub record Closed (id : String) (before after : List BackupRow) : Type 0 where
  pub state : BackupState
  pub moved_on : is_applying state ≡ false
  pub at : Option String
  pub rows : after ≡ map (move_backup id state at) before

updated_backups :
    (id : String) (state : BackupState) (at : Option String) (t u : Tables)
    → update_backup id state at t ≡ some u
    → u.backups ≡ map (move_backup id state at) t.backups
unfolding update_backup
updated_backups id state at t u e = ap (λ (w : Tables). w.backups) (sym (some-injective _ u e))

module _ {M : Type 0} where
  mark_backup-Closed :
      (id : String) (state : BackupState) (finished : Bool) (s : Session M)
      → is_applying state ≡ false
      → (mark_backup id state finished s).0 ≡ ok tt
      → Closed id s.tables.backups (mark_backup id state finished s).1.tables.backups
  unfolding mark_backup utc_now
  mark_backup-Closed id state true s done e =
      let s' = record s { ticks = s.ticks + 1 } in
      let at = some (s.clock s.ticks) in
      let (u, written, left) = execute-ok (update_backup id state at) s' e in
      record {
        state = state;
        moved_on = done;
        at = at;
        rows = ap (λ (t : Tables). t.backups) left ∙ updated_backups id state at s.tables u written;
      }
  mark_backup-Closed id state false s done e =
      let (u, written, left) = execute-ok (update_backup id state none) s e in
      record {
        state = state;
        moved_on = done;
        at = none;
        rows =
            ap (λ (t : Tables). t.backups) left ∙ updated_backups id state none s.tables u written;
      }

  -- What follows a step that closed the backup leaves it closed.
  then_same :
      {A B : Type 0} (id : String) (m : Action M A) (f : A → Action M B) (s : Session M) {b : B}
      → ((a : A) (t : Session M) → (f a t).1.tables.backups ≡ t.tables.backups)
      → ((a : A) → (m s).0 ≡ ok a → Closed id s.tables.backups (m s).1.tables.backups)
      → ((m >>= f) s).0 ≡ ok b
      → Closed id s.tables.backups ((m >>= f) s).1.tables.backups
  then_same id m f s same closes e =
      let (a, ran, rest) = bind-ok m f s e in
      subst (Closed id s.tables.backups) (sym (ap (λ r. r.1.tables.backups) rest ∙ same a (m s).1))
        (closes a ran)

  -- A first step that leaves the backups alone.
  same_then :
      {A B : Type 0} (id : String) (m : Action M A) (f : A → Action M B) (s : Session M) {b : B}
      → (m s).1.tables.backups ≡ s.tables.backups
      → ((a : A) (t : Session M)
          → (f a t).0 ≡ ok b
          → Closed id t.tables.backups (f a t).1.tables.backups)
      → ((m >>= f) s).0 ≡ ok b
      → Closed id s.tables.backups ((m >>= f) s).1.tables.backups
  same_then id m f s same closes e =
      let (a, ran, rest) = bind-ok m f s e in
      subst (λ l. Closed id l ((m >>= f) s).1.tables.backups) same
        (subst (Closed id (m s).1.tables.backups) (sym (ap (λ r. r.1.tables.backups) rest))
          (closes a (m s).1 (ap (λ r. r.0) (sym rest) ∙ e)))

module _ {M : Type 0} (run_id : String) (tweak : Tweak M) (state : TweakState)
    (b : BackupRecord) where
  record_rollback-Closed :
      (back : Bool) (detail : String) (s : Session M) {r : TweakReport}
      → (record_rollback run_id tweak state b back detail s).0 ≡ ok r
      → Closed b.backup_id s.tables.backups
          (record_rollback run_id tweak state b back detail s).1.tables.backups
  unfolding record_rollback is_applying
  record_rollback-Closed back detail s e =
      then_same b.backup_id
        (mark_backup b.backup_id (if back then restored else not_confirmed) true) _ s
        (λ _ t.
          (Keeps-then same_backups.frame (record_application-Keeps same_backups _ _ _ _ _ _) (
              Keeps-then same_backups.frame (audit-Keeps same_backups _)
                (Keeps-pure same_backups.frame _))).at
            t)
        (λ _ ran. mark_backup-Closed b.backup_id _ true s (ended back) ran) e
    where
      ended : (back : Bool) → is_applying (if back then restored else not_confirmed) ≡ false
      ended true = refl
      ended false = refl

  fail_and_rollback-Closed :
      (detail : String) (s : Session M) {r : TweakReport}
      → (fail_and_rollback run_id tweak state (some b) detail s).0 ≡ ok r
      → Closed b.backup_id s.tables.backups
          (fail_and_rollback run_id tweak state (some b) detail s).1.tables.backups
  unfolding fail_and_rollback
  fail_and_rollback-Closed detail s e =
      same_then b.backup_id (try_rollback tweak b detail)
        (λ undone. record_rollback run_id tweak state b undone.0 undone.1) s
        ((try_rollback-Keeps same_backups run_id tweak state b detail (λ i. cc)).at s)
        (λ undone t k. record_rollback-Closed undone.0 undone.1 t k) e

  confirm-Closed :
      (result : ApplyResult) (seen : Verification) (s : Session M) {r : TweakReport}
      → (confirm run_id tweak state (some b) result seen s).0 ≡ ok r
      → Closed b.backup_id s.tables.backups
          (confirm run_id tweak state (some b) result seen s).1.tables.backups
  unfolding confirm mark_applied is_applying
  confirm-Closed result seen s e =
      then_same b.backup_id (mark_backup b.backup_id applied false) _ s
        (λ _ t.
          (Keeps-then same_backups.frame (record_application-Keeps same_backups _ _ _ _ _ _) (
              Keeps-then same_backups.frame (audit-Keeps same_backups _)
                (Keeps-pure same_backups.frame _))).at
            t)
        (λ _ ran. mark_backup-Closed b.backup_id applied false s refl ran) e

  after_verify-Closed :
      (result : ApplyResult) (checked : String ⊎ Verification) (s : Session M) {r : TweakReport}
      → (after_verify run_id tweak state (some b) result checked s).0 ≡ ok r
      → Closed b.backup_id s.tables.backups
          (after_verify run_id tweak state (some b) result checked s).1.tables.backups
  unfolding after_verify
  after_verify-Closed result (inl why) s e = fail_and_rollback-Closed why s e
  after_verify-Closed result (inr seen) s e = confirm-Closed result seen s e

  after_apply-Closed :
      (tried : String ⊎ ApplyResult) (s : Session M) {r : TweakReport}
      → (after_apply run_id tweak state (some b) tried s).0 ≡ ok r
      → Closed b.backup_id s.tables.backups
          (after_apply run_id tweak state (some b) tried s).1.tables.backups
  unfolding after_apply
  after_apply-Closed (inl why) s e = fail_and_rollback-Closed why s e
  after_apply-Closed (inr result) s e =
      same_then b.backup_id (try_verify tweak state)
        (after_verify run_id tweak state (some b) result) s
        ((try_verify-Keeps same_backups run_id tweak state (λ i. cc)).at s)
        (λ checked t k. after_verify-Closed result checked t k) e

  -- Once the backup is taken, a change that comes to a report has closed exactly that backup,
  -- whether it was applied, undone, or could not be undone.
  pub carry_out-Closed :
      (s : Session M) {r : TweakReport}
      → (carry_out run_id tweak state (some b) s).0 ≡ ok r
      → Closed b.backup_id s.tables.backups
          (carry_out run_id tweak state (some b) s).1.tables.backups
  unfolding carry_out
  carry_out-Closed s e =
      same_then b.backup_id (try_apply tweak state) (after_apply run_id tweak state (some b)) s
        ((try_apply-Keeps same_backups run_id tweak state (λ i. cc)).at s)
        (λ tried t k. after_apply-Closed tried t k) e
