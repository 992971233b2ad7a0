-- ===== src/Services/Protected.antt =====
-- The protected list and the scripts that change a service.
use pudge_gaming_manager.Prelude.{
  ◌≡◌, String, Bool, true, false, not, ◌&&◌, Option, none, some, List, [], ◌∷◌, All, if_ind,
}
use pudge_gaming_manager.Tweak.{Exception, Result, ok, raised, killed}
use pudge_gaming_manager.Services.{
  PowerShell, Host, ServiceInfo, ServiceBackup, StartupType, is_unknown, runs, stands, Command,
  set_service, stop_service, start_service, Job, is_protected_service, get_status, require_admin,
  with_info, require_modifiable, audited, run_script, set_known_type, set_startup_type, stop_known,
  stop, start, move_to_state, restore_running, then_restore, restore_type, restore_state,
}

-- The service that a command changes.
abbrev pub service_of : Command → String
service_of (set_service name startup) = name
service_of (stop_service name) = name
service_of (start_service name) = name

-- A use of the manager that may change a service.
pub data Request : Type 0 where
  setting : String → StartupType → Request
  stopping starting : String → Request
  restoring : ServiceBackup → Request

module _ (P : PowerShell) (lower : String → String) (privilege_error : String → Exception)
    (is_admin : Bool) where
  abbrev pub serve : Request → Host P → Host P
  serve (setting name startup) h =
      (set_startup_type P lower privilege_error is_admin name startup h).1
  serve (stopping name) h = (stop P lower privilege_error is_admin name h).1
  serve (starting name) h = (start P lower privilege_error is_admin name h).1
  serve (restoring b) h = (restore_state P lower privilege_error is_admin b h).1

  abbrev pub serve_all : List Request → Host P → Host P
  serve_all [] h = h
  serve_all (r ∷ rs) h = serve_all rs (serve r h)

  -- The process is elevated and the service is not protected.
  abbrev pub IsPermitted : Command → Type 0
  IsPermitted command =
      (is_admin ≡ true)
      × (is_protected_service P lower privilege_error is_admin (service_of command) ≡ false)

  abbrev Kept : {A : Type 0} → Result A × Host P → Type 0
  Kept out = All IsPermitted out.1.commands

  run_script-Kept :
      (operation old new : String) (command : Command) (h : Host P)
      → IsPermitted command
      → All IsPermitted h.commands
      → Kept (
          audited P lower privilege_error is_admin operation
            (service_of command)
            old
            new
            (run_script P lower privilege_error is_admin command h))
  unfolding run_script audited
  run_script-Kept operation old new command h may k = ended (P.run command h.services).0 _ (may, k)
    where
      ended :
          (r : Result Unit) (h : Host P)
          → All IsPermitted h.commands
          → Kept (
              audited P lower privilege_error is_admin operation
                (service_of command)
                old
                new
                (r, h))
      ended (ok u) h k = k
      ended (raised e) h k = k
      ended killed h k = k

  -- A change behind both guards.
  guarded-Kept :
      (what operation name : String)
      (next : ServiceInfo → Job P lower privilege_error is_admin Unit) (h : Host P)
      → All IsPermitted h.commands
      → ((info : ServiceInfo)
          → (is_admin ≡ true) × (is_protected_service P lower privilege_error is_admin name ≡ false)
          → Kept (next info h))
      → Kept (
          require_admin P lower privilege_error is_admin what
            (require_modifiable P lower privilege_error is_admin name operation next)
            h)
  unfolding require_admin require_modifiable with_info
  guarded-Kept what operation name next h k may =
      if_ind Kept is_admin
        (λ admin.
          if_ind Kept (is_protected_service P lower privilege_error is_admin name) (λ _. k)
            (λ free. found (get_status P lower privilege_error is_admin name h) (admin, free)))
        (λ _. k)
    where
      found :
          (o : Option ServiceInfo)
          → (is_admin ≡ true) × (is_protected_service P lower privilege_error is_admin name ≡ false)
          → Kept (with_info P lower privilege_error is_admin name operation next o h)
      found none free = k
      found (some info) free = may info free

  set_startup_type-Kept :
      (name : String) (startup : StartupType) (h : Host P)
      → All IsPermitted h.commands
      → Kept (set_startup_type P lower privilege_error is_admin name startup h)
  unfolding set_startup_type set_known_type
  set_startup_type-Kept name startup h k = guarded-Kept _ _ name _ h k (λ info may.
      if_ind Kept (is_unknown startup) (λ _. k)
        (λ _. run_script-Kept _ _ _ (set_service name startup) h may k))

  stop-Kept :
      (name : String) (h : Host P)
      → All IsPermitted h.commands
      → Kept (stop P lower privilege_error is_admin name h)
  unfolding stop stop_known
  stop-Kept name h k = guarded-Kept _ _ name _ h k (λ info may.
      if_ind Kept (not info.can_stop) (λ _. k)
        (λ _. run_script-Kept _ _ _ (stop_service name) h may k))

  start-Kept :
      (name : String) (h : Host P)
      → All IsPermitted h.commands
      → Kept (start P lower privilege_error is_admin name h)
  unfolding start
  start-Kept name h k =
      guarded-Kept _ _ name _ h k (λ info may. run_script-Kept _ _ _ (start_service name) h may k)

  restore_state-Kept :
      (b : ServiceBackup) (h : Host P)
      → All IsPermitted h.commands
      → Kept (restore_state P lower privilege_error is_admin b h)
  unfolding restore_state restore_type then_restore restore_running move_to_state
  restore_state-Kept b h k = resumed _ (
      if_ind Kept (is_unknown b.startup_type) (λ _. k)
        (λ _. set_startup_type-Kept b.name b.startup_type h k))
    where
      moved :
          (o : Option ServiceInfo) (h : Host P)
          → All IsPermitted h.commands
          → Kept (restore_running P lower privilege_error is_admin b o h)
      moved none h k = k
      moved (some current) h k =
          if_ind Kept (runs b.state && not (runs current.state)) (λ _. start-Kept b.name h k)
            (λ _.
              if_ind Kept (stands b.state && runs current.state) (λ _. stop-Kept b.name h k)
                (λ _. k))

      resumed :
          (out : Result Unit × Host P)
          → Kept out
          → Kept (then_restore P lower privilege_error is_admin b out)
      resumed (ok u, h) k = moved (get_status P lower privilege_error is_admin b.name h) h k
      resumed (raised e, h) k = k
      resumed (killed, h) k = k

  serve-Kept :
      (r : Request) (h : Host P) → All IsPermitted h.commands → All IsPermitted (serve r h).commands
  serve-Kept (setting name startup) h k = set_startup_type-Kept name startup h k
  serve-Kept (stopping name) h k = stop-Kept name h k
  serve-Kept (starting name) h k = start-Kept name h k
  serve-Kept (restoring b) h k = restore_state-Kept b h k

  -- No sequence of uses of the manager runs a script that changes a service unless the process is
  -- elevated and the service is not on the protected list, however the scripts end.
  pub serve_all-IsPermitted :
      (rs : List Request) (h : Host P)
      → All IsPermitted h.commands
      → All IsPermitted (serve_all rs h).commands
  serve_all-IsPermitted [] h k = k
  serve_all-IsPermitted (r ∷ rs) h k = serve_all-IsPermitted rs (serve r h) (serve-Kept r h k)
