-- ===== src/Services/Restoring.antt =====
-- What `restore_state` brings back, where PowerShell does what it is asked.
use pudge_gaming_manager.Prelude.{
  ◌≡◌, refl, sym, ap, ◌∙◌, String, Bool, true, false, not, ◌&&◌, some, ◌∷◌, arith, if_ind,
}
use pudge_gaming_manager.Tweak.{Exception, Result, ok, raised, killed}
use pudge_gaming_manager.Services.{
  PowerShell, Host, ServiceInfo, ServiceBackup, StartupType, disabled, ServiceState, is_running,
  is_stopped, is_paused, start_pending, stop_pending, unknown_state, is_unknown, runs, stands,
  Command, set_service, stop_service, start_service, Job, is_protected_service, get_status,
  require_admin, with_info, require_modifiable, audited, run_script, set_known_type,
  set_startup_type, stop_known, stop, start, move_to_state, restore_running, then_restore,
  restore_type, restore_state,
}

abbrev pub is_disabled : StartupType → Bool
is_disabled disabled = true
is_disabled _ = false

-- A script that succeeds and leaves the service as a predicate says.
abbrev pub Does : (P : PowerShell) → Command → String → P.W → (ServiceInfo → Type 0) → Type 0
Does P command name w Q =
    ((P.run command w).0 ≡ ok tt)
    × ((info : ServiceInfo) × (P.status name (P.run command w).1 ≡ some info) × Q info)

-- `Set-Service` changes the startup type; `Start-Service` starts a service that is not disabled, and
-- `Stop-Service` stops one that takes the command.
pub record IsPowerShell (P : PowerShell) : Type 0 where
  pub sets :
      (name : String) (startup : StartupType) (w : P.W) (info : ServiceInfo)
      → P.status name w ≡ some info
      → Does P (set_service name startup) name w (λ now.
        (now.startup_type ≡ startup) × (now.state ≡ info.state) × (now.can_stop ≡ info.can_stop))
  pub starts :
      (name : String) (w : P.W) (info : ServiceInfo)
      → P.status name w ≡ some info
      → is_disabled info.startup_type ≡ false
      → Does P
          (start_service name)
          name
          w
          (λ now. (now.startup_type ≡ info.startup_type) × (runs now.state ≡ true))
  pub stops :
      (name : String) (w : P.W) (info : ServiceInfo)
      → P.status name w ≡ some info
      → info.can_stop ≡ true
      → Does P
          (stop_service name)
          name
          w
          (λ now. (now.startup_type ≡ info.startup_type) × (runs now.state ≡ false))

-- What a restore promises of the service: its startup type, and that it runs or does not run.
pub record IsRestored (b : ServiceBackup) (now : ServiceInfo) : Type 0 where
  pub same_type : now.startup_type ≡ b.startup_type
  pub running : runs b.state ≡ true → runs now.state ≡ true
  pub standing : stands b.state ≡ true → runs now.state ≡ false

stands-rests : (s : ServiceState) → stands s ≡ true → runs s ≡ false
unfolding stands runs
stands-rests is_stopped e = refl
stands-rests is_running e = sym e
stands-rests is_paused e = refl
stands-rests start_pending e = refl
stands-rests stop_pending e = refl
stands-rests unknown_state e = refl

module _ (P : PowerShell) (lower : String → String) (privilege_error : String → Exception) where
  -- A use of the manager that succeeds and leaves a service as a predicate says.
  abbrev Leaves : String → (ServiceInfo → Type 0) → Result Unit × Host P → Type 0
  Leaves name Q out =
      (out.0 ≡ ok tt) × ((info : ServiceInfo) × (P.status name out.1.services ≡ some info) × Q info)

  Leaves-map :
      (name : String) (Q R : ServiceInfo → Type 0)
      → ((info : ServiceInfo) → Q info → R info)
      → (out : Result Unit × Host P) → Leaves name Q out
      → Leaves name R out
  Leaves-map name Q R f out (fine, (info, there, q)) = (fine, (info, there, f info q))

  audited-Leaves :
      (operation name old new : String) (command : Command) (h : Host P) (Q : ServiceInfo → Type 0)
      → Does P command name h.services Q
      → Leaves name Q (
          audited P lower privilege_error true operation name old new
            (run_script P lower privilege_error true command h))
  unfolding audited run_script
  audited-Leaves operation name old new command h Q (fine, seen) =
      ended (P.run command h.services).0 fine
    where
      ended :
          (r : Result Unit)
          → r ≡ ok tt
          → Leaves name Q (
              audited P lower privilege_error true operation name old new (
                r,
                record h {
                  services = (P.run command h.services).1;
                  commands = command ∷ h.commands;
                },
              ))
      ended (ok u) e = (refl, seen)
      ended (raised x) e = cc e
      ended killed e = cc e

  -- A change behind both guards, of a service that is there and not protected.
  guarded-Leaves :
      (what operation name : String) (next : ServiceInfo → Job P lower privilege_error true Unit)
      (h : Host P) (info : ServiceInfo) (Q : ServiceInfo → Type 0)
      → is_protected_service P lower privilege_error true name ≡ false
      → P.status name h.services ≡ some info
      → Leaves name Q (next info h)
      → Leaves name Q (
          require_admin P lower privilege_error true what
            (require_modifiable P lower privilege_error true name operation next)
            h)
  unfolding require_admin require_modifiable get_status with_info
  guarded-Leaves what operation name next h info Q free there done = rw (free, there) done

  module _ (does : IsPowerShell P) (b : ServiceBackup)
      (free : is_protected_service P lower privilege_error true b.name ≡ false)
      (known : is_unknown b.startup_type ≡ false) where
    open does use {sets, starts, stops}

    -- The service as the first half of a restore leaves it.
    abbrev Retyped : ServiceInfo → ServiceInfo → Type 0
    Retyped info now =
        (now.startup_type ≡ b.startup_type)
        × (now.state ≡ info.state)
        × (now.can_stop ≡ info.can_stop)

    set_startup_type-Leaves :
        (h : Host P) (info : ServiceInfo)
        → P.status b.name h.services ≡ some info
        → Leaves b.name
            (Retyped info)
            (set_startup_type P lower privilege_error true b.name b.startup_type h)
    unfolding set_startup_type set_known_type
    set_startup_type-Leaves h info there =
        guarded-Leaves _ _ b.name _ h info (Retyped info) free there (
          rw known (
            audited-Leaves _ b.name _ _ (set_service b.name b.startup_type) h (Retyped info)
              (sets b.name b.startup_type h.services info there)))

    start-Leaves :
        (h : Host P) (info : ServiceInfo)
        → P.status b.name h.services ≡ some info
        → is_disabled info.startup_type ≡ false
        → Leaves b.name
            (λ now. (now.startup_type ≡ info.startup_type) × (runs now.state ≡ true))
            (start P lower privilege_error true b.name h)
    unfolding start
    start-Leaves h info there enabled = guarded-Leaves _ _ b.name _ h info _ free there (
        audited-Leaves _ b.name _ _ (start_service b.name) h _
          (starts b.name h.services info there enabled))

    stop-Leaves :
        (h : Host P) (info : ServiceInfo)
        → P.status b.name h.services ≡ some info
        → info.can_stop ≡ true
        → Leaves b.name
            (λ now. (now.startup_type ≡ info.startup_type) × (runs now.state ≡ false))
            (stop P lower privilege_error true b.name h)
    unfolding stop stop_known
    stop-Leaves h info there can = guarded-Leaves _ _ b.name _ h info _ free there (
        rw can (
          audited-Leaves _ b.name _ _ (stop_service b.name) h _
            (stops b.name h.services info there can)))

    -- The second half: the running state.
    move_to_state-Restores :
        (h : Host P) (now : ServiceInfo)
        → P.status b.name h.services ≡ some now
        → now.startup_type ≡ b.startup_type
        → (runs b.state ≡ true → is_disabled b.startup_type ≡ false)
        → (stands b.state ≡ true → runs now.state ≡ true → now.can_stop ≡ true)
        → Leaves b.name
            (IsRestored b)
            (move_to_state P lower privilege_error true b.name b.state now.state h)
    unfolding move_to_state
    move_to_state-Restores h now there typed enabled can =
        if_ind (Leaves b.name (IsRestored b)) (runs b.state && not (runs now.state))
          (λ e.
            let wanted : runs b.state ≡ true = ground (arith, e) in
            Leaves-map b.name _ _ (started wanted) (start P lower privilege_error true b.name h)
              (start-Leaves h now there (rw typed (enabled wanted))))
          (λ e.
            if_ind (Leaves b.name (IsRestored b)) (stands b.state && runs now.state)
              (λ f.
                let wanted : stands b.state ≡ true = ground (arith, f) in
                let up : runs now.state ≡ true = ground (arith, f) in
                Leaves-map b.name _ _ (stopped wanted) (stop P lower privilege_error true b.name h)
                  (stop-Leaves h now there (can wanted up)))
              (λ f. (refl, (now, there, unmoved e f))))
      where
        unmoved :
            (runs b.state && not (runs now.state)) ≡ false
            → (stands b.state && runs now.state) ≡ false
            → IsRestored b now
        unmoved e f = record {
          same_type = typed;
          running = λ r. ground (arith, e, r);
          standing = λ s. ground (arith, f, s);
        }

        started :
            (wanted : runs b.state ≡ true) (info : ServiceInfo)
            → (info.startup_type ≡ now.startup_type) × (runs info.state ≡ true)
            → IsRestored b info
        started wanted info (t, r) = record {
          same_type = t ∙ typed;
          running = λ _. r;
          standing = λ s. cc (wanted, stands-rests b.state s);
        }

        stopped :
            (wanted : stands b.state ≡ true) (info : ServiceInfo)
            → (info.startup_type ≡ now.startup_type) × (runs info.state ≡ false)
            → IsRestored b info
        stopped wanted info (t, r) = record {
          same_type = t ∙ typed;
          running = λ up. cc (up, stands-rests b.state wanted);
          standing = λ _. r;
        }

    resumed :
        (h : Host P) (info : ServiceInfo)
        → (stands b.state ≡ true → runs info.state ≡ true → info.can_stop ≡ true)
        → (runs b.state ≡ true → is_disabled b.startup_type ≡ false)
        → (out : Result Unit × Host P) → Leaves b.name (Retyped info) out
        → Leaves b.name (IsRestored b) (then_restore P lower privilege_error true b out)
    unfolding then_restore restore_running get_status
    resumed h info can enabled (ok u, h') (fine, (now, there, (typed, same, able))) = rw there (
        move_to_state-Restores h' now there typed enabled
          (λ s r. able ∙ can s (ap runs (sym same) ∙ r)))
    resumed h info can enabled (raised e, h') (fine, seen) = cc fine
    resumed h info can enabled (killed, h') (fine, seen) = cc fine

    -- A restore returns if PowerShell does what it is asked, the process is elevated, the startup
    -- type of the backup is known, and the service is installed, not protected and not one that
    -- cannot be moved (it ran although it was disabled, or it runs now, was stopped and does not
    -- take the stop command). The service then has the startup type of the backup, runs if it ran,
    -- and does not run if it was stopped.
    pub restore_state-Restores :
        (h : Host P) (info : ServiceInfo)
        → P.status b.name h.services ≡ some info
        → (runs b.state ≡ true → is_disabled b.startup_type ≡ false)
        → (stands b.state ≡ true → runs info.state ≡ true → info.can_stop ≡ true)
        → Leaves b.name (IsRestored b) (restore_state P lower privilege_error true b h)
    unfolding restore_state restore_type
    restore_state-Restores h info there enabled can =
        rw known (resumed h info can enabled _ (set_startup_type-Leaves h info there))
