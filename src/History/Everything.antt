-- ===== src/History/Everything.antt =====
-- `restore_all`.
use pudge_gaming_manager.Prelude.{
  ◌≡◌, ◌≢◌, refl, sym, ap, ◌∙◌, inl, inr, ℕ, ◌+◌, Bool, true, false, Option, none, some, String,
  List, [], ◌∷◌, map, select, Bool-cases, not,
}
use pudge_gaming_manager.Tweak.{
  ApplyResult, Tweak, is_success, Result, ok, ok-injective, raised, killed, is_no_scope,
}
use pudge_gaming_manager.Session.{
  Session, execute, settle, pure, gets, after_result, ◌>>=◌, on_machine,
}
use pudge_gaming_manager.Session.Finishing.{
  Commits, Finishes, Returned, Finishes-pure, Finishes-gets, Finishes-bind, Finishes-then,
  Finishes-if, try_except-Finishes, execute-Finishes,
}
use pudge_gaming_manager.Session.Inversion.{bind-ok, Returns, Returns-pure, Returns-then}
use pudge_gaming_manager.Store.{audit}
use pudge_gaming_manager.Store.Finishing.{mark_backup-Finishes, audit-Finishes}
use pudge_gaming_manager.History.{
  ChangeRecord, RestoreResult, record_of, newest_first, limited, is_applied, is_undoable, query,
  find_change, newer_applied, backup_of, call_rollback, conclude, roll_back, unless_newer,
  after_checks, restore_found, after_find, restore, restore_each, list_changes, restore_all,
}
use pudge_gaming_manager.History.Ending.{MayUndo-id, restore_ind}

module _ {M : Type 0} (digits : ℕ → String) (int : String → Option ℕ)
    (resolve : ChangeRecord → Option (Tweak M)) where
  conclude-Returns :
      (change : ChangeRecord) (done : Bool × String)
      → Returns
          (λ (r : RestoreResult). r.backup_id ≡ change.backup_id)
          (conclude digits int {M = M} change done)
  unfolding conclude
  conclude-Returns change (good, message) =
      Returns-then _ (Returns-then (audit _) (Returns-pure _ _ refl))

  restore-id :
      (id : String) (check_newer : Bool) (s : Session M) (r : RestoreResult)
      → (restore digits int resolve id check_newer s).0 ≡ ok r
      → r.backup_id ≡ id
  unfolding roll_back
  restore-id id check_newer s =
      restore_ind digits int resolve s id
        (λ out. (r : RestoreResult) → out.0 ≡ ok r → r.backup_id ≡ id) check_newer
        (record {
          refuses_ = λ r0 t same bad own r e.
              ap (λ (x : RestoreResult). x.backup_id) (ok-injective (sym e)) ∙ own;
          raises = λ exc t same r e. cc e;
          dies_ = λ t same r e. cc e;
          rolls = λ change tweak t same may found r e.
              rolled change tweak t r e ∙ MayUndo-id s id check_newer change may;
        })
    where
      rolled :
          (change : ChangeRecord) (tweak : Tweak M) (t : Session M) (r : RestoreResult)
          → (roll_back digits int (some tweak) change t).0 ≡ ok r
          → r.backup_id ≡ change.backup_id
      rolled change tweak t r e =
          let (done, _, rest) =
            bind-ok (call_rollback digits int tweak change) (conclude digits int change) t e in
          (conclude-Returns change done).at _ r (ap (λ x. x.0) (sym rest) ∙ e)

  -- The identifiers of the changes that are to be undone.
  abbrev pub to_undo : List ChangeRecord → List String
  to_undo changes =
      map (λ (c : ChangeRecord). c.backup_id) (select (is_undoable digits int resolve) changes)

  abbrev pub ids : List RestoreResult → List String
  ids results = map (λ (r : RestoreResult). r.backup_id) results

  restore_each-ids :
      (changes : List ChangeRecord) (s : Session M) (results : List RestoreResult)
      → (restore_each digits int resolve changes s).0 ≡ ok results
      → ids results ≡ to_undo changes
  unfolding restore_each
  restore_each-ids [] s results e = ap ids (ok-injective (sym e))
  restore_each-ids (change ∷ changes) s results e =
      elim (Bool-cases (is_undoable digits int resolve change)) [
        | inl taken ↦ rw taken (taken_ids (restore_each-ids changes) (rw taken at e))
        | inr left ↦ rw left (restore_each-ids changes s results (rw left at e))
      ]
    where
      taken_ids :
          ((t : Session M) (rs : List RestoreResult)
            → (restore_each digits int resolve changes t).0 ≡ ok rs
            → ids rs ≡ to_undo changes)
          → ((restore digits int resolve change.backup_id false >>= λ result.
                restore_each digits int resolve changes >>= λ results. pure (result ∷ results))
              s).0
            ≡ ok results
          → ids results ≡ change.backup_id ∷ to_undo changes
      taken_ids later e =
          let (r, ran, rest) =
            bind-ok (restore digits int resolve change.backup_id false)
              (λ result.
                restore_each digits int resolve changes >>= λ results. pure (result ∷ results))
              s e in
          let s' = (restore digits int resolve change.backup_id false s).1 in
          let (rs, ran', rest') =
            bind-ok (restore_each digits int resolve changes) (λ results. pure (r ∷ results)) s'
              (ap (λ x. x.0) (sym rest) ∙ e) in
          let own = restore-id change.backup_id false s r ran in
          let all = later s' rs ran' in
          ap ids (ok-injective (sym e ∙ ap (λ x. x.0) (rest ∙ rest'))) ∙ cc (own, all)

  -- No rollback of a tweak that the program finds is cut short; each may fail or raise.
  abbrev pub ComesBack : Type 0
  ComesBack =
      (change : ChangeRecord) (tweak : Tweak M)
      → resolve change ≡ some tweak
      → (m : M) → (tweak.rollback (backup_of digits int change) m).0 ≢ killed

  query-Finishes : Finishes {M = M} (query digits int)
  unfolding query
  query-Finishes = execute-Finishes (λ t. some t) (λ t. (t, refl))

  conclude-Finishes :
      (change : ChangeRecord) (done : Bool × String)
      → Finishes {M = M} (conclude digits int change done)
  unfolding conclude
  conclude-Finishes change (good, message) =
      Finishes-then (Finishes-if good (mark_backup-Finishes _ _ _) (Finishes-pure tt))
        (Finishes-then (audit-Finishes _) (Finishes-pure _))

  call_rollback-Finishes :
      (tweak : Tweak M) (change : ChangeRecord)
      → ((m : M) → (tweak.rollback (backup_of digits int change) m).0 ≢ killed)
      → Finishes (call_rollback digits int tweak change)
  unfolding call_rollback on_machine
  call_rollback-Finishes tweak change alive =
      try_except-Finishes _
        (λ s c.
          judged (tweak.rollback (backup_of digits int change) s.machine).0 _ (alive s.machine) c)
        (λ exc. Finishes-pure _)
    where
      judged :
          (r : Result ApplyResult) (t : Session M)
          → r ≢ killed
          → Commits t
          → Returned (
              after_result {B = Bool × String} r
                (λ (a : ApplyResult). pure (is_success a.outcome, a.detail))
                t)
      judged (ok a) t h c = (λ k. cc k, c)
      judged (raised e) t h c = (λ k. cc k, c)
      judged killed t h c = absurd (h refl)

  module _ (comes_back : ComesBack) where
    roll_back-Finishes :
        (change : ChangeRecord) (o : Option (Tweak M))
        → resolve change ≡ o
        → Finishes (roll_back digits int o change)
    unfolding roll_back
    roll_back-Finishes change none e = Finishes-pure _
    roll_back-Finishes change (some tweak) e =
        Finishes-bind (call_rollback-Finishes tweak change (comes_back change tweak e))
          (conclude-Finishes change)

    after_checks-Finishes :
        (check_newer : Bool) (change : ChangeRecord)
        → Finishes (after_checks digits int resolve check_newer change)
    unfolding after_checks newer_applied unless_newer
    after_checks-Finishes true change =
        Finishes-bind (Finishes-then query-Finishes (Finishes-gets _)) answered
      where
        answered : (newer : Bool) → Finishes (unless_newer digits int resolve change newer)
        answered true = Finishes-pure _
        answered false = roll_back-Finishes change (resolve change) refl
    after_checks-Finishes false change = roll_back-Finishes change (resolve change) refl

    restore-Finishes :
        (id : String) (check_newer : Bool) → Finishes (restore digits int resolve id check_newer)
    unfolding restore find_change after_find restore_found
    restore-Finishes id check_newer =
        Finishes-bind (Finishes-then query-Finishes (Finishes-gets _)) found
      where
        found :
            (o : Option ChangeRecord) → Finishes (after_find digits int resolve id check_newer o)
        found none = Finishes-pure _
        found (some change) = Finishes-if (not (is_applied change)) (Finishes-pure _) (
            Finishes-if (is_no_scope change.scope) (Finishes-pure _)
              (after_checks-Finishes check_newer change))

    restore_each-Finishes :
        (changes : List ChangeRecord) → Finishes (restore_each digits int resolve changes)
    unfolding restore_each
    restore_each-Finishes [] = Finishes-pure _
    restore_each-Finishes (change ∷ changes) =
        let rest = restore_each-Finishes changes in
        Finishes-if (is_undoable digits int resolve change)
          (Finishes-bind (restore-Finishes change.backup_id false)
            (λ result. Finishes-bind rest (λ results. Finishes-pure _)))
          rest

  restored_each :
      (s : Session M)
      → Commits s
      → restore_all digits int resolve s
        ≡ restore_each digits int resolve
            (map (record_of s.tables.tweaks) (limited 100000 (newest_first s.tables.backups)))
            (record s { statements = s.statements + 1 })
  unfolding restore_all list_changes query execute
  restored_each s c =
      ap
        (λ fate.
          (settle fate (some s.tables)
              >>= (λ (u : Unit). gets (λ (t : Session M).
                  map (record_of t.tables.tweaks) (limited 100000 (newest_first t.tables.backups))))
              >>= restore_each digits int resolve)
            (record s { statements = s.statements + 1 }))
        (c s.statements)

  -- Where the database commits every statement and no rollback is cut short, undoing everything
  -- returns, whatever the rollbacks raise, with one result for each listed change that is in state
  -- APPLIED and has a scope, in the order of the list, which is newest first.
  pub restore_all_returns :
      (s : Session M)
      → Commits s
      → ComesBack
      → (results : List RestoreResult) × ((restore_all digits int resolve s).0 ≡ ok results)
        × (ids results
            ≡ to_undo
                (map (record_of s.tables.tweaks) (limited 100000 (newest_first s.tables.backups))))
  restore_all_returns s c comes_back =
      let changes =
        map (record_of s.tables.tweaks) (limited 100000 (newest_first s.tables.backups)) in
      let start = record s { statements = s.statements + 1 } in
      let (results, e, _) = (restore_each-Finishes comes_back changes).at start c in
      (results, ap (λ x. x.0) (restored_each s c) ∙ e, restore_each-ids changes start results e)
