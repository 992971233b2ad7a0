-- ===== src/History/Ending.antt =====
-- The ways in which `restore` ends.
use pudge_gaming_manager.Prelude.{
  ◌≡◌, refl, sym, ap, ◌∙◌, inl, inr, ℕ, ◌+◌, String, Bool, true, false, not, Option, none, some,
  List, [], ◌∷◌, In, any_of_In, at_most, ◌is◌, eq_iff, some-injective, ◌&&◌, if_ind, Bool-cases,
  arith,
}
use pudge_gaming_manager.Tweak.{Tweak, is_no_scope, Result, ok, raised, killed, Exception}
use pudge_gaming_manager.Session.{
  Session, Action, gets, after_result, ◌>>◌, execute, settle, Fate, commits, refuses, dies, Tables,
  BackupRow,
}
use pudge_gaming_manager.History.{
  ChangeRecord, RestoreResult, is_applied, record_of, find_row, rows_after, is_rival, has_newer,
  query, find_change, newer_applied, roll_back, unless_newer, after_checks, restore_found,
  after_find, restore,
}

-- A query ends in one of three ways, and writes nothing.
module _ {M B : Type 0} (P : Result B × Session M → Type 0) (digits : ℕ → String)
    (int : String → Option ℕ) where
  settle_ind :
      (fate : Fate) (f : Action M B) (s : Session M)
      → ((e : Exception) → P (raised e, s))
      → P (killed, s)
      → P (f s)
      → P (
          (λ (s' : Session M).
              let (r, u) = settle fate (some s.tables) s' in after_result r (λ _. f) u)
            s)
  settle_ind commits f s h k g = g
  settle_ind (refuses why) f s h k g = h _
  settle_ind dies f s h k g = k

  pub query_ind :
      (f : Action M B) (s : Session M)
      → (let s' = record s { statements = s.statements + 1 } in
          ((e : Exception) → P (raised e, s'))
          → P (killed, s')
          → P (f s')
          → P ((query digits int >> f) s))
  unfolding query execute
  query_ind f s h k g =
      settle_ind (s.fates s.statements) f (record s { statements = s.statements + 1 }) h k g

-- What `has_newer` answers no to.
abbrev pub IsNewest : ChangeRecord → List BackupRow → Type 0
IsNewest change rows =
    ((r : BackupRow)
      → In r rows
      → is_rival change r ≡ true
      → at_most r.created_at change.created_at ≡ true)
    × ((r : BackupRow)
        → In r (rows_after change.backup_id rows)
        → is_rival change r ≡ true
        → (r.created_at is change.created_at) ≡ false)

has_newer-IsNewest :
    (change : ChangeRecord) (rows : List BackupRow)
    → has_newer change rows ≡ false
    → IsNewest change rows
unfolding has_newer
has_newer-IsNewest change rows e = (
  λ r there rival. elim (Bool-cases (at_most r.created_at change.created_at)) [
    | inl early ↦ early
    | inr late ↦
        let found =
          any_of_In
            (λ (r : BackupRow). is_rival change r && not (at_most r.created_at change.created_at)) r
            rows there (rw (rival, late)) in
        absurd (ground (arith, found, e))
  ],
  λ r there rival. elim (Bool-cases (r.created_at is change.created_at)) [
    | inl same ↦
        let found =
          any_of_In (λ (r : BackupRow). is_rival change r && (r.created_at is change.created_at)) r
            (rows_after change.backup_id rows) there (rw (rival, same)) in
        absurd (ground (arith, found, e))
    | inr other ↦ other
  ],
)

find_row-id :
    (id : String) (rows : List BackupRow) {row : BackupRow}
    → find_row id rows ≡ some row
    → row.backup_id ≡ id
unfolding find_row
find_row-id id [] e = cc e
find_row-id id (r ∷ rows) e = elim (Bool-cases (r.backup_id is id)) [
  | inl same ↦
      ap (λ (x : BackupRow). x.backup_id) (sym (some-injective _ _ (rw same at e)))
      ∙ (eq_iff r.backup_id id).0 same
  | inr other ↦ find_row-id id rows (rw other at e)
]

module _ {M : Type 0} where
  -- The machine, the calls and the tables are as before.
  abbrev pub Untouched : Session M → Session M → Type 0
  Untouched s t = (t.machine ≡ s.machine) × (t.calls ≡ s.calls) × (t.tables ≡ s.tables)

  -- A change that may be undone: its row is in state APPLIED, with a scope, and with the check it is
  -- the newest of its target.
  abbrev pub MayUndo : Session M → String → Bool → ChangeRecord → Type 0
  MayUndo s id check_newer change =
      (row : BackupRow) × (find_row id s.tables.backups ≡ some row)
      × (change ≡ record_of s.tables.tweaks row)
      × (is_applied change ≡ true)
      × (is_no_scope change.scope ≡ false)
      × (check_newer ≡ true → IsNewest change s.tables.backups)

  pub MayUndo-id :
      (s : Session M) (id : String) (check_newer : Bool) (change : ChangeRecord)
      → MayUndo s id check_newer change
      → change.backup_id ≡ id
  unfolding record_of
  MayUndo-id s id check_newer change (row, found, is_row, _, _, _) =
      ap (λ (c : ChangeRecord). c.backup_id) is_row ∙ find_row-id id s.tables.backups found

module _ {M : Type 0} (digits : ℕ → String) (int : String → Option ℕ)
    (resolve : ChangeRecord → Option (Tweak M)) where
  abbrev Out : Type 0 → Type 0
  Out A = Result A × Session M

  -- What holds of an end that changed nothing and of every rollback that may be made holds of
  -- `restore`.
  module _ (s : Session M) (id : String) (P : Out RestoreResult → Type 0) where
    pub record Ends (check_newer : Bool) : Type 0 where
      pub refuses_ :
          (r : RestoreResult) (t : Session M)
          → Untouched s t
          → r.is_ok ≡ false
          → r.backup_id ≡ id
          → P (ok r, t)
      pub raises : (e : Exception) (t : Session M) → Untouched s t → P (raised e, t)
      pub dies_ : (t : Session M) → Untouched s t → P (killed, t)
      pub rolls :
          (change : ChangeRecord) (tweak : Tweak M) (t : Session M)
          → Untouched s t
          → MayUndo s id check_newer change
          → resolve change ≡ some tweak
          → P (roll_back digits int (some tweak) change t)

    abbrev tick : Session M → Session M
    tick t = record t { statements = t.statements + 1 }

    roll_back_ind :
        (check_newer : Bool) (change : ChangeRecord) (t : Session M) (o : Option (Tweak M))
        → Ends check_newer
        → Untouched s t
        → MayUndo s id check_newer change
        → resolve change ≡ o
        → P (roll_back digits int o change t)
    unfolding roll_back
    roll_back_ind check_newer change t none ends same may e =
        ends.refuses_ _ t same refl (MayUndo-id s id check_newer change may)
    roll_back_ind check_newer change t (some tweak) ends same may e =
        ends.rolls change tweak t same may e

    after_checks_ind :
        (check_newer : Bool) (change : ChangeRecord) (t : Session M)
        → Ends check_newer
        → Untouched s t
        → MayUndo s id false change
        → P (after_checks digits int resolve check_newer change t)
    unfolding after_checks newer_applied unless_newer
    after_checks_ind true change t ends (m, c, k) (row, found, is_row, was, scoped, _) =
        query_ind (λ out. P (after_result out.0 (unless_newer digits int resolve change) out.1))
          digits int (gets (λ u. has_newer change u.tables.backups)) t
          (λ e. ends.raises e (tick t) (m, c, k)) (ends.dies_ (tick t) (m, c, k))
          (answered (has_newer change t.tables.backups) refl)
      where
        answered :
            (b : Bool)
            → has_newer change t.tables.backups ≡ b
            → P (unless_newer digits int resolve change b (tick t))
        answered true e =
            ends.refuses_ _ (tick t) (m, c, k) refl
              (MayUndo-id s id false change (row, found, is_row, was, scoped, λ f. cc f))
        answered false e =
            roll_back_ind true change (tick t) (resolve change) ends (m, c, k)
              (
                row,
                found,
                is_row,
                was,
                scoped,
                λ _.
                    has_newer-IsNewest change s.tables.backups
                      (ap (λ (u : Tables). has_newer change u.backups) (sym k) ∙ e),
              )
              refl
    after_checks_ind false change t ends same may =
        roll_back_ind false change t (resolve change) ends same may refl

    restore_found_ind :
        (check_newer : Bool) (row : BackupRow) (t : Session M)
        → Ends check_newer
        → Untouched s t
        → find_row id s.tables.backups ≡ some row
        → P (restore_found digits int resolve check_newer (record_of s.tables.tweaks row) t)
    unfolding restore_found record_of
    restore_found_ind check_newer row t ends same found =
        let change = record_of s.tables.tweaks row in
        let own = find_row-id id s.tables.backups found in
        if_ind (λ (m : Action M RestoreResult). P (m t)) (not (is_applied change))
          (λ _. ends.refuses_ _ t same refl own)
          (λ was.
            if_ind (λ (m : Action M RestoreResult). P (m t)) (is_no_scope change.scope)
              (λ _. ends.refuses_ _ t same refl own)
              (λ scoped.
                after_checks_ind check_newer change t ends same
                  (row, found, refl, ground (arith, was), scoped, λ e. cc e)))

    after_find_ind :
        (check_newer : Bool) (o : Option BackupRow) (t : Session M)
        → Ends check_newer
        → Untouched s t
        → find_row id s.tables.backups ≡ o
        → P (
            after_find digits int resolve id check_newer
              (elim o [ none ↦ none | some row ↦ some (record_of s.tables.tweaks row) ])
              t)
    unfolding after_find
    after_find_ind check_newer none t ends same found = ends.refuses_ _ t same refl refl
    after_find_ind check_newer (some row) t ends same found =
        restore_found_ind check_newer row t ends same found

    pub restore_ind :
        (check_newer : Bool) → Ends check_newer → P (restore digits int resolve id check_newer s)
    unfolding restore find_change
    restore_ind check_newer ends =
        query_ind
          (λ out. P (after_result out.0 (after_find digits int resolve id check_newer) out.1))
          digits int _ s (λ e. ends.raises e (tick s) (refl, refl, refl))
          (ends.dies_ (tick s) (refl, refl, refl))
          (after_find_ind check_newer (find_row id s.tables.backups) (tick s) ends
            (refl, refl, refl) refl)
