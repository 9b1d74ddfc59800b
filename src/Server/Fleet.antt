-- ===== src/Server/Fleet.antt =====
-- The database of server/db.go as a record of tables. Rows stand in the order in which a query
-- returns them. A text that is "" where nothing is set is [] here, and a time is `none`; times are
-- seconds, since RFC 3339 in UTC sorts as they do. Ids, sizes and offsets are not negative.
use sheath.Prelude.{
  ℕ, Bool, true, false, List, [], ◌∷◌, ◌++◌, Option, none, some, ◌==◌, Text, text_eq, Object,
  find_first, update_where, select, ◌&&◌, not,
}
use sheath.Server.Accounts.{
  Action, reimage, cancel, reset, shutdown, reboot, identify, identify_off, stealth_on, stealth_off,
  probe, wipe, other_action,
}

-- The states that the code sets, and any other text that an update brings.
pub data BladeState : Type 0 where
  new enrolled online provisioning offline error : BladeState
  other_state : Text → BladeState

-- `installIdle` and its siblings.
pub data InstallState : Type 0 where
  idle pending done failed wiping : InstallState

pub record Site : Type 0 where
  pub id : ℕ
  pub name : Text
  pub location : Text
  pub net_base : Text
  pub gateway : Text
  pub dns : Text
  pub domain : Text
  pub pool_from : ℕ
  pub pool_to : ℕ
  pub offset_base : ℕ
  pub offset_step : ℕ
  pub local : Bool
  pub token : Text
  pub enroll_code : Text
  pub enroll_until : Option ℕ
  pub host_prefix : Text
  pub lease : Text
  pub desired_at : Option ℕ
  pub relay_url : Text

pub record Rack : Type 0 where
  pub id : ℕ
  pub site_id : ℕ
  pub name : Text
  pub size : ℕ
  pub ip_offset : ℕ
  pub location : Text

pub record Blade : Type 0 where
  pub serial : Text
  pub short_serial : Text
  pub rack_id : Option ℕ
  pub slot : Option ℕ
  pub hostname : Text
  pub mac : Text
  pub image : Text
  pub groups : List Text
  pub state : BladeState
  pub install_state : InstallState
  pub installed_at : Option ℕ
  pub config_applied : Text
  pub facts : Object
  pub health : Object
  pub token : Text
  pub last_seen : Option ℕ
  pub probe : Option ℕ
  pub probe_sent : Option ℕ
  pub halted : Option ℕ
  pub stored : Option ℕ

-- Why a command is no longer waiting, with the time.
pub data Taken : Type 0 where
  fetched replaced expired blade_reset firmware_read : ℕ → Taken

pub record Command : Type 0 where
  pub serial : Text
  pub kind : Action
  pub created : ℕ
  pub taken : Option Taken

pub record Image : Type 0 where
  pub id : Text
  pub url : Text
  pub sha256 : Text
  pub seed : Text
  pub local : Text
  pub min_disk : ℕ
  pub part_table : Text

-- One line of the log: its message is named, with the values that it shows.
pub data Message : Type 0 where
  queued : Action → Message
  reset_aside : Text → Message
  called_off read_requested read_expired shutdown_requested restart_sent blade_updated : Message
  erase_handed_out slot_kept unknown_seen : Message
  reported : Text → ℕ → Message
  commands_expired silent : ℕ → Message
  firmware_seen : Text → Message
  erased removed renamed provisioning_requested provisioning_failed agent_said : Text → Message
  installer_note : Text → Message
  rack_created : Text → ℕ → ℕ → Message
  rack_changed : Text → Message
  site_created name_derived : Text → Text → Message
  site_changed config_changed : Text → Message
  site_removed : Message
  code_issued : ℕ → Text → Message
  site_enrolled : ℕ → Text → Text → Message

pub record Event : Type 0 where
  pub serial : Text
  pub message : Message

-- What a dhcp-hostsdir file says.
pub record Reservation : Type 0 where
  pub mac : Text
  pub bootnet : Bool
  pub host : Text
  pub ip : Text

pub record Fleet : Type 0 where
  pub sites : List Site
  pub racks : List Rack
  pub blades : List Blade
  pub commands : List Command
  pub images : List Image
  -- serials with an open alert
  pub alerts : List Text
  -- serials with a configuration of their own
  pub configs : List Text
  pub events : List Event
  -- the reservation files, by serial, and whether this server writes them
  pub hosts : List (Text × Reservation)
  pub local_dhcp : Bool

abbrev pub is : Text → Blade → Bool
is serial b = text_eq b.serial serial

abbrev pub has_id : ℕ → Rack → Bool
has_id id r = r.id == id

abbrev pub site_is : ℕ → Site → Bool
site_is id st = st.id == id

unfoldable pub get_blade : Text → Fleet → Option Blade
get_blade serial fl = find_first (is serial) fl.blades

unfoldable pub get_rack : ℕ → Fleet → Option Rack
get_rack id fl = find_first (has_id id) fl.racks

unfoldable pub get_site : ℕ → Fleet → Option Site
get_site id fl = find_first (site_is id) fl.sites

-- `UPDATE blades SET … WHERE serial=?`
unfoldable pub set_blade : Text → (Blade → Blade) → Fleet → Fleet
set_blade serial f fl = record fl { blades = update_where (is serial) f fl.blades }

-- `logEvent`
unfoldable pub log_event : Text → Message → Fleet → Fleet
log_event serial m fl = record fl {
  events = fl.events ++ record { serial = serial; message = m } ∷ [];
}

unfoldable pub same_action : Action → Action → Bool
same_action reimage reimage = true
same_action cancel cancel = true
same_action reset reset = true
same_action shutdown shutdown = true
same_action reboot reboot = true
same_action identify identify = true
same_action identify_off identify_off = true
same_action stealth_on stealth_on = true
same_action stealth_off stealth_off = true
same_action probe probe = true
same_action wipe wipe = true
same_action (other_action s) (other_action t) = text_eq s t
same_action _ _ = false

-- A command of a blade that nobody has taken.
abbrev pub is_waiting : Text → Command → Bool
is_waiting serial c = text_eq c.serial serial && elim c.taken [ none ↦ true | some _ ↦ false ]

-- `queueCommand`: a pending command of the same kind is replaced.
unfoldable pub queue_command : Text → Action → ℕ → Fleet → Fleet
unfolding log_event
queue_command serial kind now fl =
    let old =
      update_where (λ c. is_waiting serial c && same_action c.kind kind)
        (λ (c : Command). record c { taken = some (replaced now) }) fl.commands in
    log_event serial (queued kind) (record fl {
      commands = old ++ record { serial = serial; kind = kind; created = now; taken = none } ∷ [];
    })

unfoldable pub clear_alert : Text → Fleet → Fleet
clear_alert serial fl = record fl { alerts = select (λ s. not (text_eq s serial)) fl.alerts }
