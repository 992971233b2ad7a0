-- ===== src/Services.antt =====
-- windows/services/manager.py: changing Windows services behind the list of protected ones. What
-- PowerShell does is the parameter `PowerShell`; `lower` is Python's `str.lower`, and `privilege_error`
-- what `require_admin` raises.
pub mod Protected
pub mod Restoring
use pudge_gaming_manager.Prelude.{
  ℕ, String, ◌<>◌, Bool, true, false, not, ◌&&◌, Option, none, some, List, [], ◌∷◌, ◌++◌, among,
  map, if◌then◌else◌,
}
use pudge_gaming_manager.Tweak.{Value, text, Exception, pgm_error, Result, ok, raised, killed}
use pudge_gaming_manager.Session.{AuditEvent}

pub data StartupType : Type 0 where
  automatic automatic_delayed manual disabled unknown_type : StartupType

unfoldable pub startup_value : StartupType → String
startup_value automatic = "Automatic"
startup_value automatic_delayed = "AutomaticDelayedStart"
startup_value manual = "Manual"
startup_value disabled = "Disabled"
startup_value unknown_type = "Unknown"

pub data ServiceState : Type 0 where
  is_running is_stopped is_paused start_pending stop_pending unknown_state : ServiceState

unfoldable pub state_value : ServiceState → String
state_value is_running = "Running"
state_value is_stopped = "Stopped"
state_value is_paused = "Paused"
state_value start_pending = "StartPending"
state_value stop_pending = "StopPending"
state_value unknown_state = "Unknown"

-- `is StartupType.UNKNOWN`, `is ServiceState.RUNNING` and `is ServiceState.STOPPED`
unfoldable pub is_unknown : StartupType → Bool
is_unknown unknown_type = true
is_unknown _ = false

unfoldable pub runs : ServiceState → Bool
runs is_running = true
runs _ = false

unfoldable pub stands : ServiceState → Bool
stands is_stopped = true
stands _ = false

-- The names as they are written; the set holds them in lower case.
unfoldable pub protected_services : List String
protected_services =
    "WinDefend" ∷ "SecurityHealthService" ∷ "wscsvc" ∷ "MpsSvc" ∷ "mpssvc" ∷ "BFE" ∷ "SgrmBroker"
    ∷ "RpcSs" ∷ "RpcEptMapper" ∷ "DcomLaunch" ∷ "LSM" ∷ "Power" ∷ "PlugPlay" ∷ "ProfSvc"
    ∷ "Schedule" ∷ "EventLog" ∷ "Themes" ∷ "AudioSrv" ∷ "AudioEndpointBuilder" ∷ "CryptSvc"
    ∷ "TrustedInstaller" ∷ "gpsvc" ∷ "SamSs" ∷ "Netlogon" ∷ "Dhcp" ∷ "Dnscache" ∷ "NlaSvc" ∷ "nsi"
    ∷ "WinHttpAutoProxySvc" ∷ "UserManager" ∷ "SystemEventsBroker"
    ∷ "NVDisplay.ContainerLocalSystem" ∷ "AMD External Events Utility" ∷ "igfxCUIService"
    ∷ "HidServ" ∷ "hidserv" ∷ "EasyAntiCheat" ∷ "EasyAntiCheat_EOS" ∷ "BEService" ∷ "vgc" ∷ "vgk"
    ∷ "FACEIT" ∷ "ESEADriver2" ∷ "Steam Client Service" ∷ "SteamService" ∷ "RiotClientService"
    ∷ "Battle.net Update Agent" ∷ "EpicOnlineServices" ∷ "SmartShell" ∷ "SmartShellService"
    ∷ "SenetService" ∷ "LanGame" ∷ "GizmoService" ∷ "ClubAgent" ∷ []

pub record ServiceInfo : Type 0 where
  pub name : String
  pub display_name : String
  pub state : ServiceState
  pub startup_type : StartupType
  pub can_stop : Bool
  pub description : String

pub record ServiceBackup : Type 0 where
  pub name : String
  pub state : ServiceState
  pub startup_type : StartupType

-- The scripts that change a service.
pub data Command : Type 0 where
  set_service : String → StartupType → Command
  stop_service start_service : String → Command

-- The services `W`, the answer to `Get-Service`, and what a script that changes one does.
pub record PowerShell : Type 1 where
  pub W : Type 0
  pub status : String → W → Option ServiceInfo
  pub run : Command → W → Result Unit × W

-- The services, the audit file, and the commands that were run, the last one first, which the code
-- does not keep.
pub record Host (P : PowerShell) : Type 0 where
  pub services : P.W
  pub audit_file : List AuditEvent
  pub commands : List Command

module _ (P : PowerShell) (lower : String → String) (privilege_error : String → Exception)
    (is_admin : Bool) where
  abbrev pub Job : Type 0 → Type 0
  Job A = Host P → Result A × Host P

  unfoldable pub is_protected_service : String → Bool
  is_protected_service name = among (lower name) (map lower protected_services)

  unfoldable pub get_status : String → Host P → Option ServiceInfo
  get_status name h = P.status name h.services

  unfoldable pub require_admin : {A : Type 0} → String → Job A → Job A
  require_admin operation next h =
      if is_admin then next h else (raised (privilege_error operation), h)

  unfoldable pub with_info :
      {A : Type 0} → String → String → (ServiceInfo → Job A) → Option ServiceInfo → Job A
  with_info name operation next none h = (
    raised (
        pgm_error ("Не удалось выполнить «" <> (operation <> ("» для службы «" <> (name <> "»"))))
          "Такая служба на этом ПК не установлена." (some "Проверьте имя службы в настройках.")),
    h,
  )
  with_info name operation next (some info) h = next info h

  unfoldable pub require_modifiable : {A : Type 0} → String → String → (ServiceInfo → Job A) → Job A
  require_modifiable name operation next h =
      if is_protected_service name
      then (
        raised (
            pgm_error ("Отказано в изменении защищённого ресурса «" <> (name <> "»"))
              "This service is required by Windows, anti-cheat, a game launcher or club management software."
              (some
                "Ресурс защищён, потому что от него зависит клубное ПО. Если это ошибка, измените список защищённых приложений в настройках.")),
        h,
      )
      else with_info name operation next (get_status name h) h

  unfoldable pub audited :
      String → String → String → String → Result Unit × Host P → Result Unit × Host P
  audited operation name old new (ok _, h) = (
    ok tt,
    record h {
      audit_file =
          h.audit_file
          ++ (record {
            subsystem = "services";
            operation = operation;
            target = name;
            old_state = text old;
            new_state = text new;
            result = "SUCCESS";
            error = none;
          })
            ∷ [];
    },
  )
  audited operation name old new (raised e, h) = (raised e, h)
  audited operation name old new (killed, h) = (killed, h)

  -- `powershell.run`
  unfoldable pub run_script : Command → Job Unit
  run_script command h =
      let (r, w) = P.run command h.services in
      (r, record h { services = w; commands = command ∷ h.commands })

  unfoldable pub set_known_type : String → StartupType → ServiceInfo → Job Unit
  set_known_type name startup info h =
      if is_unknown startup
      then (
        raised (
            pgm_error ("Не удалось перенастроить службу «" <> (name <> "»"))
              "Не задан допустимый тип запуска." none),
        h,
      )
      else audited "set_startup_type" name (startup_value info.startup_type) (startup_value startup)
          (run_script (set_service name startup) h)

  unfoldable pub set_startup_type : String → StartupType → Job Unit
  set_startup_type name startup =
      require_admin ("change the startup type of service '" <> (name <> "'"))
        (require_modifiable name "reconfigure" (set_known_type name startup))

  unfoldable pub stop_known : String → ServiceInfo → Job Unit
  stop_known name info h =
      if not info.can_stop
      then (
        raised (
            pgm_error ("Не удалось остановить службу «" <> (name <> "»"))
              "Windows сообщает, что эта служба не принимает команду остановки."
              (some "Сделать ничего нельзя.")),
        h,
      )
      else audited "stop" name (state_value info.state) "Stopped" (run_script (stop_service name) h)

  unfoldable pub stop : String → Job Unit
  stop name =
      require_admin ("stop service '" <> (name <> "'"))
        (require_modifiable name "stop" (stop_known name))

  unfoldable pub start : String → Job Unit
  start name = require_admin ("start service '" <> (name <> "'")) (
      require_modifiable name "start" λ info h.
        audited "start" name (state_value info.state) "Running" (run_script (start_service name) h))

  unfoldable pub backup_state : String → Job ServiceBackup
  backup_state name h = elim (get_status name h) [
    | none ↦ (
      raised (
          pgm_error ("Не удалось сохранить состояние службы «" <> (name <> "»"))
            "Такая служба на этом ПК не установлена." (some "Проверьте имя службы в настройках.")),
      h,
    )
    | some info ↦
        (ok (record { name = info.name; state = info.state; startup_type = info.startup_type }), h)
  ]

  -- The step that puts the running state back.
  unfoldable pub move_to_state : String → (wanted current : ServiceState) → Job Unit
  move_to_state name wanted current h =
      if runs wanted && not (runs current)
      then start name h
      else if stands wanted && runs current
      then stop name h
      else (ok tt, h)

  unfoldable pub restore_running : ServiceBackup → Option ServiceInfo → Job Unit
  restore_running b none h = (ok tt, h)
  restore_running b (some current) h = move_to_state b.name b.state current.state h

  unfoldable pub then_restore : ServiceBackup → Result Unit × Host P → Result Unit × Host P
  then_restore b (ok _, h) = restore_running b (get_status b.name h) h
  then_restore b (raised e, h) = (raised e, h)
  then_restore b (killed, h) = (killed, h)

  unfoldable pub restore_type : ServiceBackup → Job Unit
  restore_type b h =
      if is_unknown b.startup_type then (ok tt, h) else set_startup_type b.name b.startup_type h

  unfoldable pub restore_state : ServiceBackup → Job Unit
  restore_state b h = then_restore b (restore_type b h)
