-- ===== src/Engine/Calls.antt =====
-- Which calls a tweak receives, and what was durable when it received them.
use pudge_gaming_manager.Prelude.{
  ◌≡◌, refl, sym, ◌∙◌, ap, ◌≢◌, ◌+◌, Option, none, some, List, [], ◌∷◌, ◌++◌, append-nil,
  append_assoc, All, All-append,
}
use pudge_gaming_manager.Tweak.{Phase}
use pudge_gaming_manager.Session.{
  Session, Tables, Call, settle, execute, on_machine, utc_now, Fate, commits, refuses, dies,
}
use pudge_gaming_manager.Session.Frames.{IsFrame, Keeps}
use pudge_gaming_manager.Store.{audit_event}
use pudge_gaming_manager.Store.Keeping.{Admits, calls}

-- The calls made between two sessions all satisfy `Q`.
pub record Logs {M : Type 0} (Q : Call → Type 0) (s t : Session M) : Type 0 where
  pub made : List Call
  pub logged : t.calls ≡ s.calls ++ made
  pub each : All Q made

module _ {M : Type 0} {Q : Call → Type 0} where
  pub Logs-of_eq : (s t : Session M) → t.calls ≡ s.calls → Logs Q s t
  Logs-of_eq s t e = record { made = []; logged = e ∙ sym (append-nil s.calls); each = tt }

  pub Logs-frame : IsFrame {M = M} (Logs Q)
  Logs-frame = record {
    stay = λ s. Logs-of_eq s s refl;
    then_by = λ {s} {t} {u} p q. record {
      made = p.made ++ q.made;
      logged = q.logged ∙ ap (λ l. l ++ q.made) p.logged ∙ append_assoc s.calls p.made q.made;
      each = All-append Q p.made q.made p.each q.each;
    };
  }

settle-calls :
    {M : Type 0} (fate : Fate) (written : Option Tables) (s : Session M)
    → (settle fate written s).1.calls ≡ s.calls
settle-calls commits (some u) s = refl
settle-calls commits none s = refl
settle-calls (refuses why) written s = refl
settle-calls dies written s = refl

execute-Logs :
    {M : Type 0} {Q : Call → Type 0} (statement : Tables → Option Tables)
    → Keeps {M = M} (Logs Q) (execute statement)
unfolding execute
execute-Logs statement = record {
  at = λ s. Logs-of_eq s _ (
      settle-calls (s.fates s.statements) (statement s.tables)
        (record s { statements = s.statements + 1 }));
}

-- The store makes no calls, and each call that is no `apply` satisfies `Q`.
pub Logs-Admits :
    {M : Type 0} (Q : Call → Type 0)
    → ((c : Call) → c.method ≢ Phase.apply → Q c)
    → Admits {M = M} (Logs Q) (λ e. e ≢ calls Phase.apply)
unfolding utc_now audit_event on_machine
Logs-Admits Q other = record {
  frame = Logs-frame;
  clock = record { at = λ s. Logs-of_eq s _ refl };
  insert_backup_ok = λ row _. execute-Logs _;
  update_backup_ok = λ id state at _. execute-Logs _;
  replace_run_ok = λ row. execute-Logs _;
  finish_run_ok = λ id at a f r. execute-Logs _;
  insert_application_ok = λ row. execute-Logs _;
  replace_tweak_ok = λ row. execute-Logs _;
  insert_audit_ok = λ row. execute-Logs _;
  audit_line = λ event. record { at = λ s. Logs-of_eq s _ refl };
  context = λ run_id s. Logs-of_eq s _ refl;
  call = λ A p id f allowed. record {
    at = λ s.
        let c : Call = record { method = p; tweak_id = id; committed = s.tables.backups } in
        record { made = c ∷ []; logged = refl; each = (other c (λ e. allowed (ap calls e)), tt) };
  };
}
