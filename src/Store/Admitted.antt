-- ===== src/Store/Admitted.antt =====
-- Frames that speak of the tables alone, and what each statement does to the backups and to the
-- audit log.
use pudge_gaming_manager.Prelude.{
  ◌≡◌, refl, sym, ◌∙◌, ap, ℕ, ◌+◌, String, Option, none, some, List, [], ◌∷◌, ◌++◌, append-nil,
  append_assoc,
}
use pudge_gaming_manager.Session.{
  Session, settle, utc_now, execute, on_machine, Tables, BackupRow, BackupState, RunRow,
  ApplicationRow, TweakRow, AuditRow, Fate, commits, refuses, dies,
}
use pudge_gaming_manager.Session.Frames.{IsFrame, Keeps}
use pudge_gaming_manager.Store.{
  insert_backup, update_backup, replace_run, finish_run, insert_application, replace_tweak,
  insert_audit, audit_event,
}
use pudge_gaming_manager.Store.Keeping.{Admits}

-- A preorder on the tables that every statement of the store stays within.
pub record IsTableFrame (P : Tables → Tables → Type 0) : Type 0 where
  pub stay : (t : Tables) → P t t
  pub then_by : {t u v : Tables} → P t u → P u v → P t v
  pub insert_backup_ok : (row : BackupRow) {t u : Tables} → insert_backup row t ≡ some u → P t u
  pub update_backup_ok :
      (id : String) (state : BackupState) (at : Option String) {t u : Tables}
      → update_backup id state at t ≡ some u
      → P t u
  pub replace_run_ok : (row : RunRow) {t u : Tables} → replace_run row t ≡ some u → P t u
  pub finish_run_ok :
      (id at : String) (applied failed rolled_back : ℕ) {t u : Tables}
      → finish_run id at applied failed rolled_back t ≡ some u
      → P t u
  pub insert_application_ok :
      (row : ApplicationRow) {t u : Tables} → insert_application row t ≡ some u → P t u
  pub replace_tweak_ok : (row : TweakRow) {t u : Tables} → replace_tweak row t ≡ some u → P t u
  pub insert_audit_ok : (row : AuditRow) {t u : Tables} → insert_audit row t ≡ some u → P t u

abbrev pub OnTables : {M : Type 0} → (Tables → Tables → Type 0) → Session M → Session M → Type 0
OnTables P s t = P s.tables t.tables

module _ {M : Type 0} (P : Tables → Tables → Type 0) (stay : (t : Tables) → P t t) where
  settle-OnTables :
      (fate : Fate) (written : Option Tables) (s : Session M)
      → ((u : Tables) → written ≡ some u → P s.tables u)
      → OnTables P s (settle fate written s).1
  settle-OnTables commits (some u) s h = h u refl
  settle-OnTables commits none s h = stay s.tables
  settle-OnTables (refuses why) written s h = stay s.tables
  settle-OnTables dies written s h = stay s.tables

  pub execute-Keeps :
      (statement : Tables → Option Tables)
      → ((t u : Tables) → statement t ≡ some u → P t u)
      → Keeps {M = M} (OnTables P) (execute statement)
  unfolding execute
  execute-Keeps statement h = record {
    at = λ s.
        settle-OnTables (s.fates s.statements) (statement s.tables)
          (record s { statements = s.statements + 1 }) (h s.tables);
  }

module _ {M : Type 0} {P : Tables → Tables → Type 0} (frame : IsTableFrame P) where
  pub OnTables-frame : IsFrame {M = M} (OnTables P)
  OnTables-frame = record { stay = λ s. frame.stay s.tables; then_by = frame.then_by }

  -- Every statement of the store, and every call of a tweak, stays within a table frame.
  pub admitted : Admits {M = M} (OnTables P) (λ _. Unit {0})
  unfolding utc_now audit_event on_machine
  admitted = record {
    frame = OnTables-frame;
    clock = record { at = λ s. frame.stay s.tables };
    insert_backup_ok =
        λ row _. execute-Keeps P frame.stay _ (λ t u e. frame.insert_backup_ok row e);
    update_backup_ok = λ id state at _.
        execute-Keeps P frame.stay _ (λ t u e. frame.update_backup_ok id state at e);
    replace_run_ok = λ row. execute-Keeps P frame.stay _ (λ t u e. frame.replace_run_ok row e);
    finish_run_ok =
        λ id at a f r. execute-Keeps P frame.stay _ (λ t u e. frame.finish_run_ok id at a f r e);
    insert_application_ok =
        λ row. execute-Keeps P frame.stay _ (λ t u e. frame.insert_application_ok row e);
    replace_tweak_ok = λ row. execute-Keeps P frame.stay _ (λ t u e. frame.replace_tweak_ok row e);
    insert_audit_ok = λ row. execute-Keeps P frame.stay _ (λ t u e. frame.insert_audit_ok row e);
    audit_line = λ event. record { at = λ s. frame.stay s.tables };
    context = λ run_id s. frame.stay s.tables;
    call = λ A p id f _. record { at = λ s. frame.stay s.tables };
  }

-- The list on the right begins with the list on the left.
pub record Extends {A : Type 0} (xs ys : List A) : Type 0 where
  pub added : List A
  pub grown : ys ≡ xs ++ added

pub Extends-refl : {A : Type 0} (xs : List A) → Extends xs xs
Extends-refl xs = record { added = []; grown = sym (append-nil xs) }

pub Extends-trans : {A : Type 0} {xs ys zs : List A} → Extends xs ys → Extends ys zs → Extends xs zs
Extends-trans {xs} {ys} {zs} p q = record {
  added = p.added ++ q.added;
  grown = q.grown ∙ ap (λ l. l ++ q.added) p.grown ∙ append_assoc xs p.added q.added;
}

pub Extends-snoc : {A : Type 0} (xs : List A) (x : A) → Extends xs (xs ++ x ∷ [])
Extends-snoc xs x = record { added = x ∷ []; grown = refl }

pub Extends-of_eq : {A : Type 0} {xs ys : List A} → ys ≡ xs → Extends xs ys
Extends-of_eq {xs} e = rw e (Extends-refl xs)
