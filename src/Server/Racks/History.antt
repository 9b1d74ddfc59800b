-- ===== src/Server/Racks/History.antt =====
-- No blade loses its slot, whatever is done to blades and BladeRunners.
use sheath.Prelude.{ℕ, false, ◌≡◌, Option, none, some, Text, any, Bool-cases, inl, inr, ◌==◌}
use sheath.Server.Fleet.{Fleet, has_id, log_event}
use sheath.Server.Calls.{
  Call, place, update, arm_wipe, wiped_clean, put_by, call_off, read_firmware, switch_off,
  firmware_known, forget, write_image, tick, run,
}
use sheath.Server.Placement.Slots.{sync_dhcp-blades}
use sheath.Server.Lifecycle.Changes.{
  request_wipe-Changes, finish_wipe-Changes, reset_blade-Changes, cancel_install-Changes,
  request_probe-Changes, request_shutdown-Changes, clear_probe-Changes, probe_step-Changes,
  request_install-Changes, forget_blade-Changes,
}
use sheath.Server.Reservations.{sync_dhcp}
use sheath.Server.Racks.{
  Reply, NewRack, create_rack, update_rack, change_rack, save_place, save_rack, delete_rack,
  on_success,
}
use sheath.Server.Racks.Inside.{
  AllInside, Change-AllInside, place_blade-AllInside, update_blade-AllInside,
}
use sheath.Server.Racks.Untouched.{sync_dhcp-racks, run-racks}
use sheath.Server.Racks.Room.{
  create_rack-AllInside, update_rack-AllInside, move_rack-AllInside, delete_rack-AllInside,
}

-- What one request does to the fleet.
pub data Step (head : Text → Option Text) : Fleet → Fleet → Type 0 where
  asked : {fl : Fleet} (now : ℕ) (c : Call) → Step head fl (run head now c fl)
  -- under a key that no rack has
  created :
      {fl : Fleet} (id : ℕ) (in_ : NewRack)
      → any (has_id id) fl.racks ≡ false
      → Step head fl (create_rack id in_ fl).0
  changed :
      {fl : Fleet} (now id : ℕ) (name location : Text) (size : ℕ)
      → Step head fl (change_rack now id name location size fl).0
  saved :
      {fl : Fleet} (now id : ℕ) (name location : Text) (size site_id : ℕ)
      → Step head fl (save_rack now id name location size site_id fl).0
  removed : {fl : Fleet} (now id : ℕ) → Step head fl (delete_rack now id fl).0

pub data Steps (head : Text → Option Text) : Fleet → Fleet → Type 0 where
  stop : {fl : Fleet} → Steps head fl fl
  next : {fl gl hl : Fleet} → Step head fl gl → Steps head gl hl → Steps head fl hl

-- Every blade that has a rack and a slot has that slot.
abbrev pub Housed : Fleet → Type 0
Housed fl = AllInside fl.racks fl.blades

run-AllInside :
    (head : Text → Option Text) (now : ℕ) (c : Call) (fl : Fleet)
    → Housed fl
    → AllInside fl.racks (run head now c fl).blades
unfolding run
run-AllInside head now (place serial r s) fl h = place_blade-AllInside serial r s fl h
run-AllInside head now (update serial in_) fl h = update_blade-AllInside now serial in_ fl h
run-AllInside head now (arm_wipe serial) fl h =
    Change-AllInside fl.racks (request_wipe-Changes serial fl) h
run-AllInside head now (wiped_clean serial) fl h =
    Change-AllInside fl.racks (finish_wipe-Changes serial fl) h
run-AllInside head now (put_by serial) fl h =
    Change-AllInside fl.racks (reset_blade-Changes now serial fl) h
run-AllInside head now (call_off serial) fl h =
    Change-AllInside fl.racks (cancel_install-Changes now serial fl) h
run-AllInside head now (read_firmware serial) fl h =
    Change-AllInside fl.racks (request_probe-Changes now serial fl) h
run-AllInside head now (switch_off serial) fl h =
    Change-AllInside fl.racks (request_shutdown-Changes now serial fl) h
run-AllInside head now (firmware_known serial) fl h =
    Change-AllInside fl.racks (clear_probe-Changes now serial fl) h
run-AllInside head now (forget serial) fl h =
    Change-AllInside fl.racks (forget_blade-Changes now serial fl) h
run-AllInside head now (write_image serial setting) fl h =
    Change-AllInside fl.racks (request_install-Changes head setting now serial fl) h
run-AllInside head now tick fl h = Change-AllInside fl.racks (probe_step-Changes now fl) h

sync-AllInside : (now : ℕ) (fl : Fleet) → Housed fl → Housed (sync_dhcp now fl)
sync-AllInside now fl h = rw (sync_dhcp-racks now fl, sync_dhcp-blades now fl) h

success-AllInside :
    (f : Fleet → Fleet) (r : Reply)
    → ((fl : Fleet) → Housed fl → Housed (f fl))
    → Housed r.0
    → Housed (on_success f r).0
unfolding on_success
success-AllInside f (fl, none) keeps h = keeps fl h
success-AllInside f (fl, some e) keeps h = h

save_place-AllInside :
    (now id site_id : ℕ) (r : Reply) → Housed r.0 → Housed (save_place now id site_id r).0
unfolding save_place
save_place-AllInside now id site_id (fl, some e) h = h
save_place-AllInside now id site_id (fl, none) h =
    success-AllInside (sync_dhcp now) _ (sync-AllInside now) (elim (Bool-cases (site_id == 0)) [
      | inl e ↦ rw e h
      | inr e ↦ rw e (move_rack-AllInside id site_id fl h)
    ])

Step-AllInside :
    (head : Text → Option Text) (fl gl : Fleet) → Step head fl gl → Housed fl → Housed gl
unfolding change_rack save_rack log_event
Step-AllInside head fl _ (asked now c) h =
    rw (run-racks head now c fl) (run-AllInside head now c fl h)
Step-AllInside head fl _ (created id in_ fresh) h = create_rack-AllInside id in_ fl fresh h
Step-AllInside head fl _ (changed now id name location size) h =
    success-AllInside _ (update_rack id name location size fl) (λ gl k. sync-AllInside now gl k)
      (update_rack-AllInside id size name location fl h)
Step-AllInside head fl _ (saved now id name location size site_id) h =
    save_place-AllInside now id site_id (update_rack id name location size fl)
      (update_rack-AllInside id size name location fl h)
Step-AllInside head fl _ (removed now id) h = delete_rack-AllInside now id fl h

-- Where every blade that has a rack and a slot stands in a rack of the table and in a slot of it, that
-- stays so through any requests to place, update, erase, put aside, install and forget blades and to
-- create, rename, resize, move and remove BladeRunners, those that are refused included.
pub Steps-AllInside :
    (head : Text → Option Text) (fl gl : Fleet)
    → Steps head fl gl
    → AllInside fl.racks fl.blades
    → AllInside gl.racks gl.blades
Steps-AllInside head fl _ stop h = h
Steps-AllInside head fl gl (next {gl = ml} first rest) h =
    Steps-AllInside head ml gl rest (Step-AllInside head fl ml first h)
