-- ===== src/Server/Reservations.antt =====
-- syncDHCP and validReservation of server/ipam.go, decorate and probeArmed of server/db.go: the
-- reservation that dnsmasq gets for each blade, and with it the netboot switch. The directory of
-- files is the list `hosts`, by serial; writing and removing a file succeeds.
pub mod Netboot
mod Examples
use sheath.Prelude.{
  suc, ℕ, ◌+◌, ◌<◌, Bool, true, false, not, ◌&&◌, ◌||◌, List, [], ◌∷◌, ◌++◌, Option, none, some,
  ltb, leb, ◌==◌, if◌then◌else◌, Text, codes, text_eq, is_empty, is_digit, length, all, any, select,
  find_first, split_on, parse_number,
}
use sheath.Server.Fleet.{
  Site, Rack, Blade, InstallState, idle, pending, done, failed, wiping, Reservation, Fleet,
  get_rack, get_site,
}
use sheath.Server.Addressing.{valid_slot, blade_ip, rack_index, blade_mac, blade_hostname}

-- `probeFor`, in seconds
abbrev pub probe_for : ℕ
probe_for = 1800

unfoldable pub probe_armed : ℕ → Blade → Bool
probe_armed now b = elim b.probe [ none ↦ false | some t ↦ ltb now (t + probe_for) ]

-- What `decorate` derives for a blade that stands in a slot.
pub record Place : Type 0 where
  pub rack : Rack
  pub slot : ℕ
  pub rack_idx : ℕ
  pub ip : Text

abbrev place_in : Fleet → Rack → ℕ → Place
place_in fl r slot = record {
  rack = r;
  slot = slot;
  rack_idx = rack_index (get_site r.site_id fl) r;
  ip = elim (get_site r.site_id fl) [
    | none ↦ []
    | some st ↦ if is_empty st.net_base then [] else blade_ip st.net_base r slot
  ];
}

unfoldable pub decorate : Fleet → Blade → Option Place
decorate fl b = elim b.rack_id [
  | none ↦ none
  | some id ↦ elim b.slot [
    | none ↦ none
    | some slot ↦ elim (get_rack id fl) [ none ↦ none | some r ↦ some (place_in fl r slot) ]
  ]
]

abbrev is_hex : ℕ → Bool
is_hex c = is_digit c || ((leb b'a' c && leb c b'f') || (leb b'A' c && leb c b'F'))

-- `macRe`: two hexadecimal digits, and as often as `n` says a colon and two more
unfoldable pub mac_form : ℕ → Text → Bool
mac_form n (a ∷ b ∷ []) = is_hex a && (is_hex b && (n == 0))
mac_form (suc n) (a ∷ b ∷ c ∷ s) = is_hex a && (is_hex b && ((c == b':') && mac_form n s))
mac_form _ _ = false

abbrev is_alnum : ℕ → Bool
is_alnum c = is_digit c || ((leb b'a' c && leb c b'z') || (leb b'A' c && leb c b'Z'))

-- The rest of a host label: it may not end in a dash.
unfoldable pub label_rest : Text → Bool
label_rest [] = true
label_rest (c ∷ []) = is_alnum c
label_rest (c ∷ d ∷ s) = (is_alnum c || (c == b'-')) && label_rest (d ∷ s)

-- `hostRe`
unfoldable pub host_form : Text → Bool
unfolding label_rest
host_form [] = false
host_form (c ∷ s) = is_alnum c && (leb (length s) 62 && label_rest s)

abbrev octet_form : Text → Bool
octet_form p = elim (parse_number p) [
  | none ↦ false
  | some n ↦ leb n 255 && elim p [ [] ↦ false | c ∷ s ↦ is_empty s || not (c == b'0') ]
]

-- `net.ParseIP` and `To4`, for the dotted form
unfoldable pub ip_form : Text → Bool
ip_form s = (length (split_on b'.' s []) == 4) && all octet_form (split_on b'.' s [])

unfoldable pub valid_reservation : Reservation → Bool
valid_reservation r = mac_form 5 r.mac && (host_form r.host && ip_form r.ip)

abbrev pub armed_state : InstallState → Bool
armed_state pending = true
armed_state wiping = true
armed_state _ = false

-- The netboot tag.
unfoldable pub bootnet : ℕ → Blade → Bool
bootnet now b = armed_state b.install_state || probe_armed now b

abbrev pub host_prefix_of : Option Site → Text
host_prefix_of none = []
host_prefix_of (some st) = st.host_prefix

-- The reservation of a blade that stands in a place.
unfoldable pub reservation : ℕ → Fleet → Blade → Place → Reservation
reservation now fl b p = record {
  mac = if is_empty b.mac then blade_mac p.rack.site_id p.rack_idx p.slot else b.mac;
  bootnet = bootnet now b;
  host =
      if is_empty b.hostname
      then blade_hostname (host_prefix_of (get_site p.rack.site_id fl)) p.rack_idx p.slot
      else b.hostname;
  ip = p.ip;
}

-- `localSite`: its id, or 0
unfoldable pub local_id : Fleet → ℕ
local_id fl = elim (find_first (λ (st : Site). st.local) fl.sites) [ none ↦ 0 | some st ↦ st.id ]

-- Whether the blade gets a reservation here.
abbrev pub served : ℕ → Place → Bool
served here p = not (is_empty p.ip) && ((here == 0) || (p.rack.site_id == here))

-- A file is written over one of the same name.
unfoldable pub put_host : Text → Reservation → List (Text × Reservation) → List (Text × Reservation)
put_host k r [] = (k, r) ∷ []
put_host k r ((j, q) ∷ hs) = if text_eq j k then (k, r) ∷ hs else (j, q) ∷ put_host k r hs

unfoldable pub get_host : Text → List (Text × Reservation) → Option Reservation
get_host k [] = none
get_host k ((j, q) ∷ hs) = if text_eq j k then some q else get_host k hs

pub data Sync : Type 0 where
  -- the files, and the serials that are wanted
  synced : List (Text × Reservation) → List Text → Sync
  -- stopped at a reservation that is not valid, with the files written before it
  stopped : List (Text × Reservation) → Sync

-- The reservation that the loop writes for a blade; `none` is its `continue`.
unfoldable pub reservation_for : ℕ → Fleet → Blade → Option Reservation
reservation_for now fl b = elim (decorate fl b) [
  | none ↦ none
  | some p ↦ if served (local_id fl) p then some (reservation now fl b p) else none
]

-- The loop over the blades.
unfoldable pub write_hosts : ℕ → Fleet → List Blade → List (Text × Reservation) → List Text → Sync
write_hosts now fl [] hosts want = synced hosts want
write_hosts now fl (b ∷ bs) hosts want = elim (reservation_for now fl b) [
  | none ↦ write_hosts now fl bs hosts want
  | some r ↦ elim (valid_reservation r) [
    | false ↦ stopped hosts
    | true ↦ write_hosts now fl bs (put_host b.serial r hosts) (b.serial ∷ want)
  ]
]

abbrev pub wanted : List Text → Text × Reservation → Bool
wanted want h = any (text_eq h.0) want

abbrev pub finish_sync : Fleet → Sync → Fleet
finish_sync fl (stopped hosts) = record fl { hosts = hosts }
finish_sync fl (synced hosts want) = record fl { hosts = select (wanted want) hosts }

unfoldable pub sync_dhcp : ℕ → Fleet → Fleet
unfolding write_hosts
sync_dhcp now fl =
    if fl.local_dhcp then finish_sync fl (write_hosts now fl fl.blades fl.hosts []) else fl
