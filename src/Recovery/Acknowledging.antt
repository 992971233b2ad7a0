-- ===== src/Recovery/Acknowledging.antt =====
-- `acknowledge`, after `find_interrupted`.
use pudge_gaming_manager.Prelude.{
  ◌≡◌, refl, sym, ◌∙◌, ap, subst, String, Bool, true, false, some, some-injective, List, [], ◌∷◌,
  map, any, In, none_selected, any_of_In, ◌↔◌, ◌+◌, In-of_map, arith, ◌is◌, eq_refl,
}
use pudge_gaming_manager.Tweak.{ok, Result}
use pudge_gaming_manager.Session.{
  Session, Tables, BackupRow, AuditEvent, is_applying, utc_now, execute,
}
use pudge_gaming_manager.Session.Inversion.{bind-ok, execute-ok}
use pudge_gaming_manager.Store.{record_audit}
use pudge_gaming_manager.Store.Keeping.{record_audit-Keeps}
use pudge_gaming_manager.Store.SameBackups.{same_backups}
use pudge_gaming_manager.Recovery.{
  InterruptedChange, interrupted, pending, find_interrupted, give_up, give_up_backup,
  acknowledge_one, acknowledge,
}
use pudge_gaming_manager.Recovery.Reporting.{
  IsInterrupted, find_interrupted_lem, is_applying_iff, Reports-interrupted,
}

-- Every open row is named by one of the changes.
Named : List InterruptedChange → List BackupRow → Type 0
Named changes rows =
    (row : BackupRow)
    → In row rows
    → is_applying row.state ≡ true
    → any (λ (c : InterruptedChange). row.backup_id is c.backup_id) changes ≡ true

give_up-open :
    (id at : String) (row : BackupRow)
    → is_applying (give_up id at row).state ≡ true
    → (give_up id at row ≡ row) × ((row.backup_id is id) ≡ false) × (is_applying row.state ≡ true)
unfolding give_up
give_up-open id at row e = ground arith

give_up-Named :
    (c : InterruptedChange) (changes : List InterruptedChange) (at : String) (rows : List BackupRow)
    → Named (c ∷ changes) rows
    → Named changes (map (give_up c.backup_id at) rows)
unfolding Named
give_up-Named c changes at rows named row there open_row =
    let (old, found, e) = In-of_map (give_up c.backup_id at) row rows there in
    let (same, other, was_open) = give_up-open c.backup_id at old (rw e at open_row) in
    subst
      (λ (r : BackupRow).
        any (λ (d : InterruptedChange). r.backup_id is d.backup_id) changes ≡ true)
      (sym (e ∙ same)) (rw other at (named old found was_open))

moved_backups :
    (c : InterruptedChange) (at : String) (t u : Tables)
    → give_up_backup c.backup_id at t ≡ some u
    → map (give_up c.backup_id at) t.backups ≡ u.backups
unfolding give_up_backup
moved_backups c at t u e = ap (λ (v : Tables). v.backups) (some-injective _ u e)

record_audit-backups :
    {M : Type 0} (event : AuditEvent) (elevated : Bool) (s : Session M)
    → (record_audit event elevated s).1.tables.backups ≡ s.tables.backups
record_audit-backups event elevated s = (record_audit-Keeps same_backups event elevated).at s

acknowledge_one-backups :
    {M : Type 0} (c : InterruptedChange) (s : Session M)
    → (acknowledge_one c s).0 ≡ ok tt
    → (at : String) × ((acknowledge_one c s).1.tables.backups
        ≡ map (give_up c.backup_id at) s.tables.backups)
unfolding acknowledge_one utc_now
acknowledge_one-backups c s e =
    let at = s.clock s.ticks in
    let s' = record s { ticks = s.ticks + 1 } in
    let (_, ran, rest) =
      bind-ok (execute (give_up_backup c.backup_id at)) (λ _. record_audit _ false) s' e in
    let (u, moved, left) = execute-ok (give_up_backup c.backup_id at) s' ran in
    (
      at,
      ap (λ r. r.1.tables.backups) rest
          ∙ record_audit-backups _ false _
          ∙ ap (λ t. t.backups) left
          ∙ sym (moved_backups c at s'.tables u moved),
    )

acknowledge-Named :
    {M : Type 0} (changes : List InterruptedChange) (s : Session M)
    → Named changes s.tables.backups
    → (acknowledge changes s).0 ≡ ok tt
    → Named [] (acknowledge changes s).1.tables.backups
unfolding acknowledge
acknowledge-Named [] s named e = named
acknowledge-Named (c ∷ changes) s named e =
    let (_, ran, rest) = bind-ok (acknowledge_one c) (λ _. acknowledge changes) s e in
    let (at, moved) = acknowledge_one-backups c s ran in
    subst (λ (r : Result Unit × Session _). Named [] r.1.tables.backups) (sym rest)
      (acknowledge-Named changes (acknowledge_one c s).1
        (subst (Named changes) (sym moved) (give_up-Named c changes at s.tables.backups named))
        (ap (λ r. r.0) (sym rest) ∙ e))

Named-pending : (t : Tables) → Named [] t.backups → pending t ≡ []
unfolding pending Named
Named-pending t named =
    none_selected (λ (r : BackupRow). is_applying r.state) t.backups (λ r h e. cc (named r h e))

Named-of_found :
    (t : Tables) (changes : List InterruptedChange)
    → ((c : InterruptedChange) → In c changes ↔ IsInterrupted t c)
    → Named changes t.backups
unfolding Named interrupted
Named-of_found t changes found row there open_row =
    any_of_In (λ (c : InterruptedChange). row.backup_id is c.backup_id) (interrupted row) changes
      ((found (interrupted row)).1
        (row, there, (is_applying_iff row.state).0 open_row, Reports-interrupted row _ refl))
      (same_id row)
  where
    same_id : (r : BackupRow) → (r.backup_id is (interrupted r).backup_id) ≡ true
    same_id r = eq_refl r.backup_id

-- After the changes that a query found have been acknowledged, no row is left in state
-- APPLYING.
pub acknowledge-find_interrupted :
    {M : Type 0} (s : Session M) (changes : List InterruptedChange)
    → (find_interrupted s).0 ≡ ok changes
    → (acknowledge changes (find_interrupted s).1).0 ≡ ok tt
    → pending (acknowledge changes (find_interrupted s).1).1.tables ≡ []
acknowledge-find_interrupted s changes found done =
    let (listed, kept) = find_interrupted_lem s found in
    Named-pending _ (
      acknowledge-Named changes (find_interrupted s).1
        (subst (λ (t : Tables). Named changes t.backups) (sym kept)
          (Named-of_found s.tables changes listed))
        done)
