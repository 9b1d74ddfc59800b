-- ===== src/Server/Agent.antt =====
-- server/api.go and server/main.go: what agents report (hBladeStatus), the commands that they fetch
-- (hBladeCommands), the actions that an operator asks for (hBladeAction), and the sweep that marks
-- silent blades (sweepOffline). Log levels and the samples of recordSample are not modelled. The
-- reports that come here have passed requireBlade and decode.
pub mod Commands
pub mod Silence
mod Examples
use sheath.Prelude.{
  ℕ, ◌+◌, ◌-◌, ◌<◌, Bool, true, false, not, ◌&&◌, List, [], ◌∷◌, ◌++◌, Option, none, some, ltb,
  ◌==◌, if◌then◌else◌, Text, text_eq, is_empty, Object, length, select, update_where, any, map,
}
use sheath.Server.Accounts.{
  Action, reimage, cancel, reset, shutdown, reboot, identify, identify_off, stealth_on, stealth_off,
  probe, wipe, other_action,
}
use sheath.Server.Policy.{Policy, command_ttl, offline_after}
use sheath.Server.Fleet.{
  Site, Rack, Blade, BladeState, online, offline, provisioning, Taken, fetched, expired, Command,
  Message, agent_said, commands_expired, silent, Fleet, is, is_waiting, get_blade, set_blade,
  log_event, queue_command,
}
use sheath.Server.Facts.{keep_hardware}
use sheath.Server.Lifecycle.{
  LifeError, reset_blade, request_shutdown, request_probe, cancel_install, request_install,
  is_online, is_provisioning,
}

-- The body of a report; an object that is absent is `none`.
pub record Report : Type 0 where
  pub facts : Option Object
  pub health : Option Object
  pub config_applied : Text
  pub changes : List Text

abbrev pub reporting : ℕ → Report → Blade → Blade
reporting now in_ b = record b {
  facts = elim in_.facts [ none ↦ [] | some f ↦ keep_hardware b.facts f ];
  health = elim in_.health [ none ↦ [] | some h ↦ h ];
  config_applied = in_.config_applied;
  last_seen = some now;
  halted = none;
  state = if is_provisioning b.state then b.state else online;
}

unfoldable pub log_changes : Text → List Text → Fleet → Fleet
unfolding log_event
log_changes serial [] fl = fl
log_changes serial (c ∷ cs) fl = log_changes serial cs (log_event serial (agent_said c) fl)

-- `hBladeStatus`
unfoldable pub take_report : ℕ → Text → Report → Fleet → Fleet
unfolding log_changes
take_report now serial in_ fl =
    log_changes serial in_.changes (set_blade serial (reporting now in_) fl)

-- Waiting, and older than the policy lets a command become.
abbrev pub is_expired : ℕ → Text → Command → Bool
is_expired cutoff serial c = is_waiting serial c && ltb c.created cutoff

abbrev pub take_with : Taken → Command → Command
take_with why c = record c { taken = some why }

unfoldable pub expire_commands : Policy → ℕ → Text → Fleet → Fleet
expire_commands p now serial fl =
    let old = is_expired (now - command_ttl p) serial in
    let swept = record fl { commands = update_where old (take_with (expired now)) fl.commands } in
    if any old fl.commands
    then log_event serial (commands_expired (length (select old fl.commands))) swept
    else swept

-- `hBladeCommands`: what is still waiting is handed out, and taken.
unfoldable pub hand_commands : Policy → ℕ → Text → Fleet → Fleet × List Command
unfolding expire_commands
hand_commands p now serial fl =
    let swept = expire_commands p now serial fl in
    (
      record swept {
        commands = update_where (is_waiting serial) (take_with (fetched now)) swept.commands;
      },
      select (is_waiting serial) swept.commands,
    )

pub data ActionError : Type 0 where
  unknown_action no_blade : ActionError
  refused : LifeError → ActionError

abbrev pub Done : Type 0
Done = Fleet × Option ActionError

abbrev pub relay_error : Fleet × Option LifeError → Done
relay_error (fl, none) = (fl, none)
relay_error (fl, some e) = (fl, some (refused e))

abbrev pub then_queue : Text → Action → ℕ → Fleet × Option LifeError → Done
then_queue serial kind now (fl, none) = (queue_command serial kind now fl, none)
then_queue serial kind now (fl, some e) = (fl, some (refused e))

-- The branches of `hBladeAction`, for a blade that is known.
unfoldable pub act : (Text → Option Text) → Text → ℕ → Text → Action → Fleet → Done
act head setting now serial reimage fl =
    then_queue serial reimage now (request_install head setting now serial fl)
act head setting now serial reset fl = relay_error (reset_blade now serial fl)
act head setting now serial shutdown fl = (request_shutdown now serial fl, none)
act head setting now serial probe fl = relay_error (request_probe now serial fl)
act head setting now serial cancel fl = relay_error (cancel_install now serial fl)
act head setting now serial kind fl = (queue_command serial kind now fl, none)

abbrev pub is_action : Action → Bool
is_action wipe = false
is_action (other_action _) = false
is_action _ = true

unfoldable pub blade_action : (Text → Option Text) → Text → ℕ → Text → Action → Fleet → Done
unfolding act
blade_action head setting now serial kind fl =
    if not (is_action kind) then (fl, some unknown_action) else elim (get_blade serial fl) [
      | none ↦ (fl, some no_blade)
      | some _ ↦ act head setting now serial kind fl
    ]

-- Silent for longer than `after`.
abbrev pub is_silent : ℕ → Blade → Bool
is_silent cutoff b = is_online b.state && elim b.last_seen [ none ↦ false | some t ↦ ltb t cutoff ]

abbrev pub in_racks : (Rack → Bool) → List Rack → Blade → Bool
in_racks p racks b = elim b.rack_id [
  | none ↦ false
  | some id ↦ any (λ (r : Rack). (r.id == id) && p r) racks
]

abbrev pub mark_offline : Blade → Blade
mark_offline b = record b { state = offline }

-- `flip`, for the blades that fit `where_`.
unfoldable pub flip : ℕ → (Blade → Bool) → List Blade → List Blade
flip cutoff where_ bs = update_where (λ b. is_silent cutoff b && where_ b) mark_offline bs

-- One statement for each site, and one for the blades that stand in no rack.
unfoldable pub flip_sites : (ℕ → Policy) → ℕ → List Rack → List Site → List Blade → List Blade
unfolding flip
flip_sites policy now racks [] bs = bs
flip_sites policy now racks (st ∷ sites) bs = flip_sites policy now racks sites (
    flip (now - offline_after (policy st.id)) (in_racks (λ (r : Rack). r.site_id == st.id) racks)
      bs)

unfoldable pub flip_all : Policy → (ℕ → Policy) → ℕ → Fleet → List Blade
unfolding flip_sites
flip_all global policy now fl =
    flip (now - offline_after global) (λ b. not (in_racks (λ _. true) fl.racks b))
      (flip_sites policy now fl.racks fl.sites fl.blades)

abbrev count_online : List Blade → ℕ
count_online bs = length (select (λ (b : Blade). is_online b.state) bs)

-- `sweepOffline`, where the list of sites can be read: the number is that of the rows that changed.
unfoldable pub sweep_offline : Policy → (ℕ → Policy) → ℕ → Fleet → Fleet
unfolding flip_all
sweep_offline global policy now fl =
    let swept = record fl { blades = flip_all global policy now fl } in
    let total = count_online fl.blades - count_online swept.blades in
    if ltb 0 total then log_event [] (silent total) swept else swept
