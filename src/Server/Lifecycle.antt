-- ===== src/Server/Lifecycle.antt =====
-- server/db.go: arming and calling off an installation, an erase or a firmware reading, switching a
-- blade off, putting it aside, and forgetting it. An `UPDATE` succeeds. The samples and netboot
-- sessions that go with a forgotten blade are not modelled.
pub mod Armed
pub mod Probing
pub mod Changes
mod Examples
use sheath.Prelude.{
  ℕ, ◌+◌, ◌<◌, Bool, true, false, not, ◌&&◌, ◌||◌, List, [], ◌∷◌, ◌++◌, Option, none, some, ltb,
  if◌then◌else◌, Text, text_eq, is_empty, is_some, any, select, update_where,
}
use sheath.Server.Accounts.{reboot, shutdown}
use sheath.Server.Fleet.{
  Blade, BladeState, new, online, provisioning, InstallState, idle, pending, wiping, Taken,
  blade_reset, firmware_read, Command, Message, reset_aside, called_off, read_requested,
  read_expired, shutdown_requested, restart_sent, removed, Fleet, is, is_waiting, get_blade,
  get_site, set_blade, log_event, same_action, queue_command, clear_alert,
}
use sheath.Server.Facts.{hardware_only}
use sheath.Server.Targets.{TargetError, check_target}
use sheath.Server.Reservations.{probe_armed, decorate, sync_dhcp, armed_state}

pub data LifeError : Type 0 where
  no_blade busy nothing_to_cancel probe_busy need_image still_slotted running : LifeError
  target : TargetError → LifeError

abbrev pub Reply : Type 0
Reply = Fleet × Option LifeError

-- `RowsAffected() == 0`: no row of the table fits.
abbrev none_fits : (Blade → Bool) → Fleet → Bool
none_fits p fl = not (any p fl.blades)

abbrev pub arm : InstallState → Blade → Blade
arm s b = record b { install_state = s }

unfoldable pub request_wipe : Text → Fleet → Reply
request_wipe serial fl =
    if none_fits (is serial) fl
    then (fl, some no_blade)
    else (set_blade serial (arm wiping) fl, none)

-- The `UPDATE` of `finishWipe`
unfoldable pub wiped : Blade → Blade
wiped b = record b {
  rack_id = none;
  slot = none;
  image = [];
  install_state = idle;
  state = new;
  hostname = [];
  config_applied = [];
  facts = [];
  health = [];
}

unfoldable pub finish_wipe : Text → Fleet → Fleet
unfolding wiped
finish_wipe serial fl = set_blade serial wiped fl

-- The `UPDATE` of `resetBlade`; `facts` are those of the blade that was read.
unfoldable pub put_aside : ℕ → Blade → Blade
put_aside now b = record b {
  rack_id = none;
  slot = none;
  image = [];
  hostname = [];
  config_applied = [];
  facts = hardware_only b.facts;
  health = [];
  install_state = idle;
  installed_at = none;
  state = new;
  halted = none;
  probe = none;
  probe_sent = none;
  stored = some now;
}

abbrev pub take_all : Text → (Command → Bool) → Taken → Fleet → Fleet
take_all serial p why fl = record fl {
  commands =
      update_where (λ c. is_waiting serial c && p c)
        (λ (c : Command). record c { taken = some why }) fl.commands;
}

abbrev pub drop_config : Text → Fleet → Fleet
drop_config serial fl = record fl { configs = select (λ s. not (text_eq s serial)) fl.configs }

abbrev pub name_of : Blade → Text
name_of b = if is_empty b.hostname then b.serial else b.hostname

abbrev pub is_provisioning : BladeState → Bool
is_provisioning provisioning = true
is_provisioning _ = false

unfoldable pub reset_blade : ℕ → Text → Fleet → Reply
unfolding put_aside
reset_blade now serial fl = elim (get_blade serial fl) [
  | none ↦ (fl, some no_blade)
  | some b ↦ if is_provisioning b.state then (fl, some busy) else (
    sync_dhcp now (
        log_event serial (reset_aside (name_of b)) (
          clear_alert serial (
            take_all serial (λ _. true) (blade_reset now)
              (drop_config serial (set_blade serial (put_aside now) fl))))),
    none,
  )
]

abbrev pub is_armed : Text → Blade → Bool
is_armed serial b = is serial b && armed_state b.install_state

-- `cancelInstall`
unfoldable pub cancel_install : ℕ → Text → Fleet → Reply
cancel_install now serial fl =
    if none_fits (is_armed serial) fl then (fl, some nothing_to_cancel) else (
      log_event serial called_off (
          sync_dhcp now
            (record fl { blades = update_where (is_armed serial) (arm idle) fl.blades })),
      none,
    )

-- `requestProbe`
unfoldable pub request_probe : ℕ → Text → Fleet → Reply
request_probe now serial fl = elim (get_blade serial fl) [
  | none ↦ (fl, some no_blade)
  | some b ↦ if armed_state b.install_state then (fl, some probe_busy) else (
    log_event serial read_requested (
        sync_dhcp now
          (set_blade serial (λ (q : Blade). record q { probe = some now; probe_sent = none }) fl)),
    none,
  )
]

unfoldable pub request_shutdown : ℕ → Text → Fleet → Fleet
request_shutdown now serial fl = log_event serial shutdown_requested (
    clear_alert serial (
      set_blade serial (λ (q : Blade). record q { halted = some now })
        (queue_command serial shutdown now fl)))

-- `clearProbe`
unfoldable pub clear_probe : ℕ → Text → Fleet → Fleet
clear_probe now serial fl = sync_dhcp now (
    take_all serial (λ c. same_action c.kind reboot) (firmware_read now)
      (set_blade serial (λ (q : Blade). record q { probe = none; probe_sent = none }) fl))

-- `SELECT desired_at FROM sites`, for the blade's site
abbrev pub fetched : Fleet → Blade → Option ℕ
fetched fl b = elim (decorate fl b) [
  | none ↦ none
  | some p ↦ elim (get_site p.rack.site_id fl) [ none ↦ none | some st ↦ st.desired_at ]
]

-- The tag is on the wire: fetched after the arming, or a minute where no site fetches.
unfoldable pub tag_arrived : ℕ → Option ℕ → Option ℕ → Bool
tag_arrived now (some t) (some p) = ltb p t
tag_arrived now none (some p) = ltb (p + 60) now
tag_arrived now (some t) none = true
tag_arrived now none none = false

unfoldable pub probe_one : ℕ → Text → Fleet → Fleet
probe_one now serial fl = elim (get_blade serial fl) [
  | none ↦ fl
  | some b ↦
      if not (probe_armed now b)
      then log_event serial read_expired (clear_probe now serial fl)
      else if not (tag_arrived now (fetched fl b) b.probe)
      then fl
      else log_event serial restart_sent (
          set_blade serial (λ (q : Blade). record q { probe_sent = some now })
            (queue_command serial reboot now fl))
]

abbrev pub awaits_restart : Blade → Bool
awaits_restart b = is_some b.probe && not (is_some b.probe_sent)

-- The loop of `probeStep`, over the serials that were read before it.
unfoldable pub probe_each : ℕ → List Blade → Fleet → Fleet
unfolding probe_one
probe_each now [] fl = fl
probe_each now (b ∷ bs) fl = probe_each now bs (probe_one now b.serial fl)

unfoldable pub probe_step : ℕ → Fleet → Fleet
probe_step now fl = probe_each now (select awaits_restart fl.blades) fl

abbrev pub has_image : Text → Blade → Bool
has_image serial b = is serial b && not (is_empty b.image)

unfoldable pub arm_install : ℕ → Text → Fleet → Reply
arm_install now serial fl = if none_fits (has_image serial) fl then (fl, some need_image) else (
  sync_dhcp now (record fl { blades = update_where (has_image serial) (arm pending) fl.blades }),
  none,
)

abbrev pub checked : ℕ → Text → Fleet × Option TargetError → Reply
checked now serial (fl, some e) = (fl, some (target e))
checked now serial (fl, none) = arm_install now serial fl

-- `requestInstall`
unfoldable pub request_install : (Text → Option Text) → Text → ℕ → Text → Fleet → Reply
unfolding arm_install
request_install head setting now serial fl = elim (get_blade serial fl) [
  | none ↦ arm_install now serial fl
  | some b ↦ checked now serial (check_target head setting b fl)
]

abbrev pub is_online : BladeState → Bool
is_online online = true
is_online _ = false

-- Why `forgetBlade` refuses.
unfoldable pub refuse_forget : Blade → Option LifeError
refuse_forget b =
    if is_some b.rack_id
    then some still_slotted
    else if armed_state b.install_state
    then some busy
    else if is_provisioning b.state
    then some busy
    else if is_online b.state
    then some running
    else none

unfoldable pub forget_blade : ℕ → Text → Fleet → Reply
unfolding refuse_forget
forget_blade now serial fl = elim (get_blade serial fl) [
  | none ↦ (fl, some no_blade)
  | some b ↦ elim (refuse_forget b) [
    | some e ↦ (fl, some e)
    | none ↦ (
      sync_dhcp now (
          log_event [] (removed (name_of b)) (
            drop_config serial (record fl {
              commands = select (λ (c : Command). not (text_eq c.serial serial)) fl.commands;
              alerts = select (λ s. not (text_eq s serial)) fl.alerts;
              blades = select (λ q. not (is serial q)) fl.blades;
            }))),
      none,
    )
  ]
]
