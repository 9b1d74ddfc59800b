-- ===== src/Server/Racks/Untouched.antt =====
-- The calls that change blades leave the racks as they are.
use sheath.Prelude.{
  ℕ, ◌≡◌, refl, ◌∙◌, inl, inr, arith, Bool, true, false, not, List, [], ◌∷◌, Option, none, some,
  Text, if◌then◌else◌, any, select, Bool-cases, Option-cases,
}
use sheath.Server.Fleet.{Blade, Fleet, get_blade, set_blade, log_event, queue_command, clear_alert}
use sheath.Server.Reservations.{
  sync_dhcp, write_hosts, Sync, synced, stopped, finish_sync, probe_armed, armed_state,
}
use sheath.Server.Targets.{check_target, check_devices, check_image, image_table, TargetError}
use sheath.Server.Placement.{
  place_in_rack, place_blade, Patch, refuse_position, patched, position, update_at, update_blade,
}
use sheath.Server.Lifecycle.{
  is_armed, has_image, request_wipe, finish_wipe, reset_blade, cancel_install, request_probe,
  request_shutdown, clear_probe, probe_one, probe_each, probe_step, arm_install, checked,
  request_install, forget_blade, refuse_forget, is_provisioning, awaits_restart, tag_arrived,
  fetched,
}
use sheath.Server.Calls.{
  Call, place, update, arm_wipe, wiped_clean, put_by, call_off, read_firmware, switch_off,
  firmware_known, forget, write_image, tick, run,
}

pub sync_dhcp-racks : (now : ℕ) (fl : Fleet) → (sync_dhcp now fl).racks ≡ fl.racks
unfolding sync_dhcp
sync_dhcp-racks now fl = either fl.local_dhcp (write_hosts now fl fl.blades fl.hosts [])
  where
    either : (here : Bool) (w : Sync) → (if here then finish_sync fl w else fl).racks ≡ fl.racks
    either true (synced hosts want) = refl
    either true (stopped hosts) = refl
    either false w = refl

place_in_rack-racks :
    (serial : Text) (r s : ℕ) (fl : Fleet) → (place_in_rack serial r s fl).0.racks ≡ fl.racks
unfolding place_in_rack set_blade
place_in_rack-racks serial r s fl = ground arith

pub place_blade-racks :
    (serial : Text) (r s : Option ℕ) (fl : Fleet) → (place_blade serial r s fl).0.racks ≡ fl.racks
unfolding place_blade set_blade
place_blade-racks serial none s fl = ground arith
place_blade-racks serial (some r) none fl = ground arith
place_blade-racks serial (some r) (some s) fl = ground (arith, place_in_rack-racks serial r s fl)

update_at-racks :
    (now : ℕ) (serial : Text) (in_ : Patch) (r s : Option ℕ) (fl : Fleet)
    → (update_at now serial in_ r s fl).0.racks ≡ fl.racks
unfolding update_at set_blade log_event
update_at-racks now serial in_ r s fl = elim (Option-cases (refuse_position serial r s fl)) [
  | inr (x, bad) ↦ rw (bad, update_at) refl
  | inl good ↦ rw (good, update_at) (sync_dhcp-racks now (set_blade serial (patched fl in_ r s) fl))
]

update_blade-racks :
    (now : ℕ) (serial : Text) (in_ : Patch) (fl : Fleet)
    → (update_blade now serial in_ fl).0.racks ≡ fl.racks
unfolding update_blade
update_blade-racks now serial in_ fl = elim (Option-cases (get_blade serial fl)) [
  | inl e ↦ rw (e, update_blade) refl
  | inr (b, e) ↦
      rw (e, update_blade)
        (update_at-racks now serial in_ (position in_.rack_id b.rack_id) (position in_.slot b.slot)
          fl)
]

request_wipe-racks : (serial : Text) (fl : Fleet) → (request_wipe serial fl).0.racks ≡ fl.racks
unfolding request_wipe set_blade
request_wipe-racks serial fl = ground arith

reset_blade-racks :
    (now : ℕ) (serial : Text) (fl : Fleet) → (reset_blade now serial fl).0.racks ≡ fl.racks
unfolding reset_blade log_event clear_alert set_blade
reset_blade-racks now serial fl = elim (Option-cases (get_blade serial fl)) [
  | inl e ↦ rw (e, reset_blade) refl
  | inr (b, e) ↦ elim (Bool-cases (is_provisioning b.state)) [
    | inl busy ↦ rw (e, reset_blade, busy) refl
    | inr free ↦ rw (e, reset_blade, free, sync_dhcp-racks) refl
  ]
]

cancel_install-racks :
    (now : ℕ) (serial : Text) (fl : Fleet) → (cancel_install now serial fl).0.racks ≡ fl.racks
unfolding cancel_install log_event
cancel_install-racks now serial fl = elim (Bool-cases (not (any (is_armed serial) fl.blades))) [
  | inl e ↦ rw (e, cancel_install) refl
  | inr e ↦ rw (e, cancel_install, sync_dhcp-racks) refl
]

request_probe-racks :
    (now : ℕ) (serial : Text) (fl : Fleet) → (request_probe now serial fl).0.racks ≡ fl.racks
unfolding request_probe log_event set_blade
request_probe-racks now serial fl = elim (Option-cases (get_blade serial fl)) [
  | inl e ↦ rw (e, request_probe) refl
  | inr (b, e) ↦ elim (Bool-cases (armed_state b.install_state)) [
    | inl busy ↦ rw (e, request_probe, busy) refl
    | inr free ↦ rw (e, request_probe, free, sync_dhcp-racks) refl
  ]
]

clear_probe-racks :
    (now : ℕ) (serial : Text) (fl : Fleet) → (clear_probe now serial fl).racks ≡ fl.racks
unfolding clear_probe set_blade
clear_probe-racks now serial fl = rw (sync_dhcp-racks) refl

request_shutdown-racks :
    (now : ℕ) (serial : Text) (fl : Fleet) → (request_shutdown now serial fl).racks ≡ fl.racks
unfolding request_shutdown log_event set_blade queue_command clear_alert
request_shutdown-racks now serial fl = refl

probe_one-racks :
    (now : ℕ) (serial : Text) (fl : Fleet) → (probe_one now serial fl).racks ≡ fl.racks
unfolding probe_one log_event set_blade queue_command
probe_one-racks now serial fl = elim (Option-cases (get_blade serial fl)) [
  | inl e ↦ rw (e, probe_one) refl
  | inr (b, e) ↦ elim (Bool-cases (not (probe_armed now b))) [
    | inl late ↦ rw (e, probe_one, late) (clear_probe-racks now serial fl)
    | inr armed ↦ elim (Bool-cases (not (tag_arrived now (fetched fl b) b.probe))) [
      | inl wait ↦ rw (e, probe_one, armed, wait) refl
      | inr go ↦ rw (e, probe_one, armed, go) refl
    ]
  ]
]

probe_each-racks :
    (now : ℕ) (bs : List Blade) (fl : Fleet) → (probe_each now bs fl).racks ≡ fl.racks
unfolding probe_each
probe_each-racks now [] fl = refl
probe_each-racks now (b ∷ bs) fl =
    probe_each-racks now bs (probe_one now b.serial fl) ∙ probe_one-racks now b.serial fl

arm_install-racks :
    (now : ℕ) (serial : Text) (fl : Fleet) → (arm_install now serial fl).0.racks ≡ fl.racks
unfolding arm_install
arm_install-racks now serial fl = elim (Bool-cases (not (any (has_image serial) fl.blades))) [
  | inl e ↦ rw (e, arm_install) refl
  | inr e ↦ rw (e, arm_install, sync_dhcp-racks) refl
]

image_table-racks :
    (head : Text → Option Text) (id : Text) (fl : Fleet)
    → (image_table head id fl).0.racks ≡ fl.racks
unfolding image_table
image_table-racks head id fl = ground arith

check_target-racks :
    (head : Text → Option Text) (setting : Text) (b : Blade) (fl : Fleet)
    → (check_target head setting b fl).0.racks ≡ fl.racks
unfolding check_target check_devices check_image
check_target-racks head setting b fl = ground (arith, image_table-racks head b.image fl)

request_install-racks :
    (head : Text → Option Text) (setting : Text) (now : ℕ) (serial : Text) (fl : Fleet)
    → (request_install head setting now serial fl).0.racks ≡ fl.racks
unfolding request_install
request_install-racks head setting now serial fl = elim (Option-cases (get_blade serial fl)) [
  | inl e ↦ rw (e, request_install) (arm_install-racks now serial fl)
  | inr (b, e) ↦
      rw (e, request_install)
        (after (check_target head setting b fl) (check_target-racks head setting b fl))
]
  where
    after :
        (r : Fleet × Option TargetError)
        → r.0.racks ≡ fl.racks
        → (checked now serial r).0.racks ≡ fl.racks
    after (gl, some x) same_racks = same_racks
    after (gl, none) same_racks = arm_install-racks now serial gl ∙ same_racks

forget_blade-racks :
    (now : ℕ) (serial : Text) (fl : Fleet) → (forget_blade now serial fl).0.racks ≡ fl.racks
unfolding forget_blade log_event
forget_blade-racks now serial fl = elim (Option-cases (get_blade serial fl)) [
  | inl e ↦ rw (e, forget_blade) refl
  | inr (b, e) ↦ elim (Option-cases (refuse_forget b)) [
    | inr (x, keep) ↦ rw (e, forget_blade, keep) refl
    | inl may ↦ rw (e, forget_blade, may, sync_dhcp-racks) refl
  ]
]

pub run-racks :
    (head : Text → Option Text) (now : ℕ) (c : Call) (fl : Fleet)
    → (run head now c fl).racks ≡ fl.racks
unfolding run finish_wipe set_blade probe_step
run-racks head now (place serial r s) fl = place_blade-racks serial r s fl
run-racks head now (update serial in_) fl = update_blade-racks now serial in_ fl
run-racks head now (arm_wipe serial) fl = request_wipe-racks serial fl
run-racks head now (wiped_clean serial) fl = refl
run-racks head now (put_by serial) fl = reset_blade-racks now serial fl
run-racks head now (call_off serial) fl = cancel_install-racks now serial fl
run-racks head now (read_firmware serial) fl = request_probe-racks now serial fl
run-racks head now (switch_off serial) fl = request_shutdown-racks now serial fl
run-racks head now (firmware_known serial) fl = clear_probe-racks now serial fl
run-racks head now (forget serial) fl = forget_blade-racks now serial fl
run-racks head now (write_image serial setting) fl =
    request_install-racks head setting now serial fl
run-racks head now tick fl = probe_each-racks now (select awaits_restart fl.blades) fl
