-- ===== src/Store/SameBackups.antt =====
-- The operations that leave the backups alone.
use pudge_gaming_manager.Prelude.{
  ◌≡◌, refl, sym, ◌∙◌, ap, ◌≢◌, none, some, some-injective, Bool, true, false, if◌then◌else◌,
}
use pudge_gaming_manager.Session.{Tables, ApplicationRow, utc_now, on_machine}
use pudge_gaming_manager.Session.Frames.{IsFrame}
use pudge_gaming_manager.Store.{
  replace_run, finish_run, insert_application, replace_tweak, insert_audit, audit_event,
}
use pudge_gaming_manager.Store.Keeping.{Admits, writes_backups}
use pudge_gaming_manager.Store.Admitted.{OnTables, execute-Keeps}

abbrev pub SameBackups : Tables → Tables → Type 0
SameBackups t u = u.backups ≡ t.backups

if-some : {A : Type 0} (b : Bool) {x u : A} → (if b then some x else none) ≡ some u → u ≡ x
if-some true {x} {u} e = sym (some-injective x u e)
if-some false e = cc

insert_application-same :
    (row : ApplicationRow) (t u : Tables) → insert_application row t ≡ some u → SameBackups t u
unfolding insert_application
insert_application-same row t u e = ap (λ (w : Tables). w.backups) (if-some _ e)

module _ {M : Type 0} where
  SameBackups-frame : IsFrame {M = M} (OnTables SameBackups)
  SameBackups-frame = record { stay = λ s. refl; then_by = λ p q. q ∙ p }

  pub same_backups : Admits {M = M} (OnTables SameBackups) (λ e. e ≢ writes_backups)
  unfolding replace_run finish_run replace_tweak insert_audit utc_now audit_event on_machine
  same_backups = record {
    frame = SameBackups-frame;
    clock = record { at = λ s. refl };
    insert_backup_ok = λ row never. absurd (never refl);
    update_backup_ok = λ id state at never. absurd (never refl);
    replace_run_ok = λ row.
        execute-Keeps SameBackups (λ t. refl) _
          (λ t u e. ap (λ (w : Tables). w.backups) (sym (some-injective _ u e)));
    finish_run_ok = λ id at a f r.
        execute-Keeps SameBackups (λ t. refl) _
          (λ t u e. ap (λ (w : Tables). w.backups) (sym (some-injective _ u e)));
    insert_application_ok =
        λ row. execute-Keeps SameBackups (λ t. refl) _ (insert_application-same row);
    replace_tweak_ok = λ row.
        execute-Keeps SameBackups (λ t. refl) _
          (λ t u e. ap (λ (w : Tables). w.backups) (sym (some-injective _ u e)));
    insert_audit_ok = λ row.
        execute-Keeps SameBackups (λ t. refl) _
          (λ t u e. ap (λ (w : Tables). w.backups) (sym (some-injective _ u e)));
    audit_line = λ event. record { at = λ s. refl };
    context = λ run_id s. refl;
    call = λ A p id f _. record { at = λ s. refl };
  }
