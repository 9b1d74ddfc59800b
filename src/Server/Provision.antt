-- ===== src/Server/Provision.antt =====
-- hProvision and hProvisionStatus of server/api.go: what the mini OS is told, and what its reports do.
-- Log levels are not modelled. What mergedConfig says of a blade is the argument `config`, and `tok`
-- the token that newToken would give. Percentages are not negative.
pub mod Answers
pub mod Reports
pub mod Standing
pub mod Again
mod Examples
use sheath.Prelude.{
  ℕ, ◌-◌, ◌/◌, ◌<◌, Bool, true, false, not, ◌&&◌, ◌||◌, List, [], ◌∷◌, ◌++◌, Option, none, some,
  ltb, ◌==◌, if◌then◌else◌, Text, codes, text_eq, is_empty, is_some, length, drop, itoa, Json,
  Object, field, as_str, update_where, find_first,
}
use sheath.Server.Fleet.{
  Blade, BladeState, new, enrolled, provisioning, error, InstallState, idle, pending, wiping, Image,
  Message, unknown_seen, firmware_seen, erase_handed_out, provisioning_requested,
  provisioning_failed, installer_note, reported, slot_kept, erased, Fleet, is, get_blade, set_blade,
  log_event,
}
use sheath.Server.Facts.{merge_facts}
use sheath.Server.Targets.{install_target, get_image}
use sheath.Server.Reservations.{sync_dhcp}
use sheath.Server.Lifecycle.{clear_probe, finish_wipe, name_of}
use sheath.Server.Netboot.{Session, writing, link_netboot, reset_stage, netboot_stage}
use sheath.Server.Netboot

-- The tables, and `logMarks` by serial and phase.
pub record Desk : Type 0 where
  pub fleet : Fleet
  pub sessions : List Session
  pub marks : List (Text × Text × ℕ)

-- What the merged configuration of a blade says.
pub record Config : Type 0 where
  pub target : Text
  pub options : Object
  pub ssh_keys : List Text

pub data Answer : Type 0 where
  waiting : Answer
  -- target and token
  wipe : Text → Text → Answer
  -- image and target
  rest : Text → Text → Answer
  not_in_catalogue : Text → Answer
  failed : Answer
  -- the image, its address, the target, the token, the name of the blade, and its configuration
  go : Image → Text → Text → Text → Text → Config → Answer

abbrev pub on_fleet : (Fleet → Fleet) → Desk → Desk
on_fleet f d = record d { fleet = f d.fleet }

abbrev same_mark : Text → Text → Text × Text × ℕ → Bool
same_mark serial phase (s, p, _) = text_eq s serial && text_eq p phase

-- `worthLogging`: the answer, and the marks.
unfoldable pub worth_logging :
    Text → Text → ℕ → List (Text × Text × ℕ) → Bool × List (Text × Text × ℕ)
worth_logging serial phase percent [] = (true, (serial, phase, percent / 25) ∷ [])
worth_logging serial phase percent ((s, p, n) ∷ marks) =
    let rest_of = worth_logging serial phase percent marks in
    if same_mark serial phase (s, p, n)
    then (not (n == percent / 25), (s, p, percent / 25) ∷ marks)
    else (rest_of.0, (s, p, n) ∷ rest_of.1)

abbrev pub log_once : Text → Text → ℕ → Message → Desk → Desk
log_once serial phase percent m d =
    let r = worth_logging serial phase percent d.marks in
    record d { marks = r.1; fleet = if r.0 then log_event serial m d.fleet else d.fleet }

-- The row of an unknown blade.
abbrev pub fresh_blade : Text → Text → Blade
fresh_blade serial tok = record {
  serial = serial;
  short_serial = drop (length serial - 8) serial;
  rack_id = none;
  slot = none;
  hostname = [];
  mac = [];
  image = [];
  groups = [];
  state = new;
  install_state = idle;
  installed_at = none;
  config_applied = [];
  facts = [];
  health = [];
  token = tok;
  last_seen = none;
  probe = none;
  probe_sent = none;
  halted = none;
  stored = none;
}

unfoldable pub known_blade : Text → Text → Fleet → Fleet
known_blade serial tok fl = elim (get_blade serial fl) [
  | some _ ↦ fl
  | none ↦
      log_event serial unknown_seen
        (record fl { blades = fl.blades ++ fresh_blade serial tok ∷ [] })
]

-- The hardware that the mini OS reports, and the end of a firmware reading.
unfoldable pub take_hardware : ℕ → Text → Object → Fleet → Fleet
take_hardware now serial [] fl = fl
take_hardware now serial (h ∷ hs) fl =
    let merged =
      set_blade serial (λ (b : Blade). record b { facts = merge_facts b.facts (h ∷ hs) }) fl in
    elim (get_blade serial merged) [
      | none ↦ merged
      | some b ↦
          if is_some b.probe
          then log_event serial (firmware_seen (as_str (field (codes "boot_order") (h ∷ hs))))
              (clear_probe now serial merged)
          else merged
    ]

abbrev pub adopt : Text → Text → Blade → Blade
adopt mac img b = record b {
  mac = if is_empty b.mac then mac else b.mac;
  image = if is_empty b.image then img else b.image;
}

-- The session of the adapter is tied to the blade, which takes the image chosen there.
unfoldable pub link_session : ℕ → Text → Text → Desk → Desk
link_session now serial [] d = d
link_session now serial (m ∷ mac) d =
    let linked = link_netboot now serial (m ∷ mac) d.sessions in
    record d { sessions = linked.0; fleet = set_blade serial (adopt (m ∷ mac) linked.1) d.fleet }

abbrev pub busy : Blade → Blade
busy b = record b { state = provisioning }

abbrev pub url_of : Text → Image → Text
url_of base_url img =
    if is_empty img.local then img.url else base_url ++ codes "/images/" ++ img.local

-- `pending`: an image that is in the catalogue is handed out.
unfoldable pub hand_out : Text → (Blade → Config) → ℕ → Text → Blade → Desk → Desk × Answer
hand_out base_url config now serial b d = elim (get_image b.image d.fleet) [
  | none ↦ (d, not_in_catalogue b.image)
  | some img ↦ (
    record d {
      sessions = reset_stage now serial writing (codes "schreibt " ++ img.id) d.sessions;
      fleet = log_event serial (provisioning_requested img.id) (set_blade serial busy d.fleet);
    },
    go img (url_of base_url img) (install_target (config b).target b.facts) b.token b.hostname
        (config b),
  )
]

abbrev pub is_wiping : InstallState → Bool
is_wiping wiping = true
is_wiping _ = false

abbrev pub is_pending : InstallState → Bool
is_pending pending = true
is_pending _ = false

-- The answer, once everything that was reported has been stored.
unfoldable pub answer : Text → (Blade → Config) → ℕ → Text → Blade → Desk → Desk × Answer
unfolding hand_out
answer base_url config now serial b d =
    let target = install_target (config b).target b.facts in
    if is_empty b.image
    then (d, waiting)
    else if is_wiping b.install_state
    then (
      on_fleet (set_blade serial busy)
          (log_once serial (codes "wipe-handout") 0 erase_handed_out d),
      wipe target b.token,
    )
    else if is_pending b.install_state
    then hand_out base_url config now serial b d
    else (d, rest b.image target)

-- What the mini OS sends.
pub record Arrival : Type 0 where
  pub mac : Text
  pub hardware : Object

unfoldable pub arrive : Text → ℕ → Text → Arrival → Desk → Desk
unfolding link_session
arrive tok now serial in_ d =
    link_session now serial in_.mac
      (on_fleet (λ fl. take_hardware now serial in_.hardware (known_blade serial tok fl)) d)

-- `hProvision`
unfoldable pub provision :
    Text → Text → (Blade → Config) → ℕ → Text → Arrival → Desk → Desk × Answer
provision tok base_url config now serial in_ d =
    let d' = arrive tok now serial in_ d in
    elim (get_blade serial d'.fleet) [
      | none ↦ (d', failed)
      | some b ↦ answer base_url config now serial b d'
    ]

-- What the installer reports.
pub record Report : Type 0 where
  pub phase : Text
  pub percent : ℕ
  pub error : Text
  pub note : Text

abbrev pub installed : ℕ → Blade → Blade
installed now b = record b {
  state = enrolled;
  install_state = InstallState.done;
  installed_at = some now;
}

abbrev pub broken : Blade → Blade
broken b = record b { state = BladeState.error }

abbrev pub hostname_before : Text → Fleet → Text
hostname_before serial fl = elim (get_blade serial fl) [
  | none ↦ serial
  | some b ↦ if is_empty b.hostname then serial else b.hostname
]

abbrev pub progress_text : Report → Text
progress_text in_ = codes "provisioning: " ++ (in_.phase ++ 32 ∷ (itoa in_.percent ++ 37 ∷ []))

-- The branches on a report that is not a note.
unfoldable pub follow : ℕ → Text → Report → Desk → Desk
follow now serial in_ d =
    if not (is_empty in_.error)
    then record d {
      fleet = set_blade serial broken d.fleet;
      sessions = netboot_stage now serial Netboot.Stage.error in_.error d.sessions;
    }
    else if text_eq in_.phase (codes "wiped")
    then record d {
      fleet =
          sync_dhcp now (
            log_event serial (erased (hostname_before serial d.fleet))
              (finish_wipe serial d.fleet));
      sessions = netboot_stage now serial Netboot.Stage.done (codes "erased") d.sessions;
    }
    else if text_eq in_.phase (codes "done")
    then record d {
      fleet = sync_dhcp now (set_blade serial (installed now) d.fleet);
      sessions = netboot_stage now serial Netboot.Stage.done (codes "written") d.sessions;
    }
    else record d { sessions = netboot_stage now serial writing (progress_text in_) d.sessions }

-- The line of the log: always for a failure and for the end, else every 25 per cent.
unfoldable pub log_report : Text → Report → Desk → Desk
log_report serial in_ d =
    if not (is_empty in_.error)
    then on_fleet (log_event serial (provisioning_failed in_.error)) d
    else if text_eq in_.phase (codes "done")
    then on_fleet (log_event serial (reported in_.phase in_.percent)) d
    else log_once serial in_.phase in_.percent (reported in_.phase in_.percent) d

-- `hProvisionStatus`
unfoldable pub provision_status : ℕ → Text → Report → Desk → Desk
unfolding follow log_report
provision_status now serial in_ d =
    if not (is_empty in_.note) && is_empty in_.error
    then on_fleet (log_event serial (installer_note in_.note)) d
    else log_report serial in_ (follow now serial in_ d)
