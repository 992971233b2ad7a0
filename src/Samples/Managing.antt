-- ===== src/Samples/Managing.antt =====
-- The theorem on services, at a machine where every service runs and every script succeeds.
use pudge_gaming_manager.Prelude.{
  ◌≡◌, refl, ap, some-injective, String, true, false, some, none, [], ◌∷◌, All, ℕ, among,
}
use pudge_gaming_manager.Tweak.{Exception, pgm_error, ok}
use pudge_gaming_manager.Services.{
  Command, set_service, start_service, stop_service, is_unknown, runs, stands, is_protected_service,
  protected_services, restore_state, PowerShell, Host, ServiceInfo, ServiceBackup, automatic,
  manual, disabled, is_running, is_stopped,
}
use pudge_gaming_manager.Services.Restoring.{
  IsPowerShell, IsRestored, is_disabled, restore_state-Restores,
}
use pudge_gaming_manager.Services.Protected.{
  setting, stopping, restoring, serve_all, IsPermitted, serve_all-IsPermitted,
}

abbrev running : String → ServiceInfo
running name = record {
  name = name;
  display_name = name;
  state = is_running;
  startup_type = automatic;
  can_stop = true;
  description = "";
}

-- Nothing is kept of the scripts.
abbrev willing : PowerShell
willing = record { W = ℕ; status = λ name n. some (running name); run = λ c n. (ok tt, 0) }

abbrev same : String → String
same s = s

abbrev privilege_error : String → Exception
privilege_error what = pgm_error what "" none

abbrev host : Host willing
host = record { services = 0; audit_file = []; commands = [] }

abbrev stopped_backup : ServiceBackup
stopped_backup = record { name = "MapsBroker"; state = is_stopped; startup_type = manual }

serve_all-IsPermitted_example :
    All
      (IsPermitted willing same privilege_error true)
      (serve_all willing same privilege_error true
        (setting "vgc" disabled ∷ stopping "Fax" ∷ restoring stopped_backup ∷ [])
        host).commands
serve_all-IsPermitted_example =
    serve_all-IsPermitted willing same privilege_error true
      (setting "vgc" disabled ∷ stopping "Fax" ∷ restoring stopped_backup ∷ []) host tt

-- One service, which obeys. A script that changes another one fails.
abbrev obey : Command → ServiceInfo → ServiceInfo
obey (set_service name startup) info = record info { startup_type = startup }
obey (start_service name) info = record info { state = is_running }
obey (stop_service name) info = record info { state = is_stopped }

abbrev obedient : PowerShell
obedient = record { W = ServiceInfo; status = λ name w. some w; run = λ c w. (ok tt, obey c w) }

obedient-IsPowerShell : IsPowerShell obedient
unfolding runs
obedient-IsPowerShell = record {
  sets = λ name startup w info e. (
    refl,
    (
      record w { startup_type = startup },
      refl,
      (refl, ap (λ i. i.state) (some-injective _ _ e), ap (λ i. i.can_stop) (some-injective _ _ e)),
    ),
  );
  starts = λ name w info e d. (
    refl,
    (
      record w { state = is_running },
      refl,
      (ap (λ i. i.startup_type) (some-injective _ _ e), refl),
    ),
  );
  stops = λ name w info e c. (
    refl,
    (
      record w { state = is_stopped },
      refl,
      (ap (λ i. i.startup_type) (some-injective _ _ e), refl),
    ),
  );
}

-- It was stopped and manual when the backup was taken, and now runs at every start.
abbrev host_of_one : Host obedient
host_of_one = record { services = running "MapsBroker"; audit_file = []; commands = [] }

free_name : is_protected_service obedient same privilege_error true "MapsBroker" ≡ false
unfolding is_protected_service among protected_services
free_name = refl

known_type : is_unknown manual ≡ false
unfolding is_unknown
known_type = refl

never_ran : runs is_stopped ≡ true → is_disabled manual ≡ false
never_ran e = refl

takes_stop :
    stands is_stopped ≡ true → runs is_running ≡ true → (running "MapsBroker").can_stop ≡ true
takes_stop e f = refl

restore_state-Restores_example :
    ((restore_state obedient same privilege_error true stopped_backup host_of_one).0 ≡ ok tt)
    × ((info : ServiceInfo) × (some
            (restore_state obedient same privilege_error true stopped_backup host_of_one).1.services
          ≡ some info)
        × IsRestored stopped_backup info)
restore_state-Restores_example =
    restore_state-Restores obedient same privilege_error obedient-IsPowerShell stopped_backup
      free_name known_type host_of_one (running "MapsBroker") refl never_ran takes_stop
