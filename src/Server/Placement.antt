-- ===== src/Server/Placement.antt =====
-- placeBlade of server/ipam.go and hBladeUpdate of server/api.go: where a blade stands. Slots are
-- not negative.
pub mod Slots
pub mod Service
mod Examples
use sheath.Prelude.{
  ℕ, Bool, true, false, not, ◌&&◌, ◌||◌, List, [], ◌∷◌, Option, none, some, ◌==◌, if◌then◌else◌,
  Text, text_eq, is_empty, any, find_first,
}
use sheath.Server.Fleet.{
  Site, Rack, Blade, BladeState, new, enrolled, online, Fleet, is, get_blade, get_rack, get_site,
  set_blade, log_event, blade_updated,
}
use sheath.Server.Addressing.{
  valid_slot, rack_index, auto_host, auto_mac, blade_hostname, blade_mac,
}
use sheath.Server.Reservations.{sync_dhcp, host_prefix_of}

pub data PlaceError : Type 0 where
  unknown_blade no_rack bad_slot slot_taken assign_failed : PlaceError

-- The fleet after a call, and the error that it returned.
abbrev pub Reply : Type 0
Reply = Fleet × Option PlaceError

abbrev pub at : ℕ → ℕ → Blade → Bool
at rack_id slot b = elim b.rack_id [
  | none ↦ false
  | some r ↦ elim b.slot [ none ↦ false | some s ↦ (r == rack_id) && (s == slot) ]
]

-- Another blade in the slot.
abbrev pub other_at : Text → ℕ → ℕ → Blade → Bool
other_at serial rack_id slot b = at rack_id slot b && not (is serial b)

-- The `SELECT` for the occupant, and the table's UNIQUE (rack_id, slot) for one with no serial.
unfoldable pub occupied : Text → ℕ → ℕ → Fleet → Option PlaceError
occupied serial rack_id slot fl = elim (find_first (other_at serial rack_id slot) fl.blades) [
  | none ↦ none
  | some b ↦ if is_empty b.serial then some assign_failed else some slot_taken
]

abbrev pub leave_state : BladeState → BladeState
leave_state online = new
leave_state enrolled = new
leave_state s = s

abbrev pub enrol : BladeState → BladeState
enrol new = enrolled
enrol s = s

-- Taking a blade out: the position is cleared, the identity kept.
abbrev pub taken_out : Blade → Blade
taken_out b = record b { rack_id = none; slot = none; state = leave_state b.state }

-- A blade put into a slot: derived names and MACs travel with it.
abbrev pub put_in : Fleet → Rack → ℕ → Blade → Blade
put_in fl rk slot b =
    let st = get_site rk.site_id fl in
    let idx = rack_index st rk in
    record b {
      rack_id = some rk.id;
      slot = some slot;
      hostname =
          if is_empty b.hostname || auto_host b.hostname
          then blade_hostname (host_prefix_of st) idx slot
          else b.hostname;
      mac = if is_empty b.mac || auto_mac b.mac then blade_mac rk.site_id idx slot else b.mac;
      state = enrol b.state;
      stored = none;
    }

unfoldable pub place_in_rack : Text → ℕ → ℕ → Fleet → Reply
place_in_rack serial rack_id slot fl = elim (get_rack rack_id fl) [
  | none ↦ (fl, some no_rack)
  | some rk ↦
      if not (valid_slot rk.size slot)
      then (fl, some bad_slot)
      else elim (occupied serial rack_id slot fl) [
        | some e ↦ (fl, some e)
        | none ↦ (set_blade serial (put_in fl rk slot) fl, none)
      ]
]

-- `placeBlade`
unfoldable pub place_blade : Text → Option ℕ → Option ℕ → Fleet → Reply
unfolding place_in_rack
place_blade serial rack_id slot fl = elim (get_blade serial fl) [
  | none ↦ (fl, some unknown_blade)
  | some _ ↦ elim rack_id [
    | none ↦ (set_blade serial taken_out fl, none)
    | some r ↦ elim slot [
      | none ↦ (set_blade serial taken_out fl, none)
      | some s ↦ place_in_rack serial r s fl
    ]
  ]
]

-- The body of a PUT: what is absent is left alone, and 0 clears a position.
pub record Patch : Type 0 where
  pub rack_id : Option ℕ
  pub slot : Option ℕ
  pub hostname : Option Text
  pub image : Option Text
  pub mac : Option Text
  pub groups : Option (List Text)
  pub state : Option BladeState

abbrev pub position : Option ℕ → Option ℕ → Option ℕ
position none cur = cur
position (some n) cur = if n == 0 then none else some n

abbrev pub given {ℓ} : {A : Type ℓ} → Option A → A → A
given none cur = cur
given (some a) _ = a

-- The new row, for a position that has been checked.
abbrev pub patched : Fleet → Patch → Option ℕ → Option ℕ → Blade → Blade
patched fl in_ rack_id slot b =
    let rk : Option Rack = elim rack_id [ none ↦ none | some r ↦ get_rack r fl ] in
    let site_of : ℕ = elim rk [ none ↦ 0 | some k ↦ k.site_id ] in
    let idx : ℕ = elim rk [ none ↦ 0 | some k ↦ rack_index (get_site k.site_id fl) k ] in
    let host = given in_.hostname b.hostname in
    let mac = given in_.mac b.mac in
    let state = given in_.state b.state in
    let derived : Option (Text × Text) = elim rack_id [
      | none ↦ none
      | some _ ↦ elim slot [
        | none ↦ none
        | some s ↦
            some
              (blade_hostname (host_prefix_of (get_site site_of fl)) idx s, blade_mac site_of idx s)
      ]
    ] in
    record b {
      rack_id = rack_id;
      slot = slot;
      hostname = if is_empty host then elim derived [ none ↦ host | some (h, _) ↦ h ] else host;
      mac = if is_empty mac then elim derived [ none ↦ mac | some (_, m) ↦ m ] else mac;
      image = given in_.image b.image;
      groups = given in_.groups b.groups;
      state = elim derived [ none ↦ state | some _ ↦ enrol state ];
    }

-- The checks of the position, and the table's foreign key.
unfoldable pub refuse_position : Text → Option ℕ → Option ℕ → Fleet → Option PlaceError
refuse_position serial none slot fl = none
refuse_position serial (some r) none fl = elim (get_rack r fl) [
  | none ↦ some assign_failed
  | some _ ↦ none
]
refuse_position serial (some r) (some s) fl = elim (get_rack r fl) [
  | none ↦ some no_rack
  | some rk ↦ if not (valid_slot rk.size s) then some bad_slot else occupied serial r s fl
]

-- The rest of `hBladeUpdate`, for a position.
unfoldable pub update_at : ℕ → Text → Patch → Option ℕ → Option ℕ → Fleet → Reply
update_at now serial in_ rack_id slot fl = elim (refuse_position serial rack_id slot fl) [
  | some e ↦ (fl, some e)
  | none ↦ (
    log_event serial blade_updated
        (sync_dhcp now (set_blade serial (patched fl in_ rack_id slot) fl)),
    none,
  )
]

-- `hBladeUpdate`, for a body that decodes.
unfoldable pub update_blade : ℕ → Text → Patch → Fleet → Reply
unfolding update_at
update_blade now serial in_ fl = elim (get_blade serial fl) [
  | none ↦ (fl, some unknown_blade)
  | some cur ↦
      update_at now serial in_ (position in_.rack_id cur.rack_id) (position in_.slot cur.slot) fl
]
