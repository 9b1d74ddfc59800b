-- ===== src/Server/Lifecycle/Changes.antt =====
-- What the calls of the life cycle do to the table of blades.
use sheath.Prelude.{
  true, false, if◌then◌else◌, Bool, ℕ, ◌≡◌, refl, inl, inr, arith, not, List, [], ◌∷◌, Option, none,
  some, Text, any, update_where, select, Bool-cases, Option-cases,
}
use sheath.Server.Fleet.{
  Blade, Fleet, idle, pending, wiping, is, get_blade, set_blade, log_event, queue_command,
  clear_alert,
}
use sheath.Server.Reservations.{
  sync_dhcp, write_hosts, Sync, synced, stopped, finish_sync, probe_armed, armed_state,
}
use sheath.Server.Placement.Slots.{sync_dhcp-blades}
use mathlib.Core.Path.{subst}
use sheath.Server.Targets.{check_target, check_devices, check_image, image_table, TargetError}
use sheath.Server.Lifecycle.{
  arm, is_armed, has_image, request_wipe, finish_wipe, wiped, reset_blade, put_aside,
  cancel_install, request_probe, request_shutdown, clear_probe, probe_one, probe_each, probe_step,
  arm_install, checked, request_install, forget_blade, refuse_forget, is_provisioning,
  awaits_restart, tag_arrived, fetched,
}

-- What stays of a blade that is not moved.
abbrev pub Stays : (Blade → Blade) → Type 0
Stays f =
    (b : Blade)
    → ((f b).serial ≡ b.serial)
      × ((f b).rack_id ≡ b.rack_id)
      × ((f b).slot ≡ b.slot)
      × ((f b).stored ≡ b.stored)

pub data Change : List Blade → List Blade → Type 0 where
  same : {bs : List Blade} → Change bs bs
  edit :
      {bs : List Blade} (p : Blade → Bool) (f : Blade → Blade)
      → Stays f
      → Change bs (update_where p f bs)
  leave :
      {bs : List Blade} (serial : Text) (f : Blade → Blade)
      → ((b : Blade) → ((f b).serial ≡ b.serial) × ((f b).rack_id ≡ none))
      → Change bs (update_where (is serial) f bs)
  drop : {bs : List Blade} (p : Blade → Bool) → Change bs (select p bs)
  both : {bs cs ds : List Blade} → Change bs cs → Change cs ds → Change bs ds

abbrev pub Changes : Fleet → Fleet → Type 0
Changes fl gl = Change fl.blades gl.blades

-- Where this server writes no reservation files, syncDHCP does nothing; where it does, it writes
-- those and nothing else.
pub sync_dhcp-rest :
    (now : ℕ) (fl : Fleet)
    → ((sync_dhcp now fl).commands ≡ fl.commands) × ((sync_dhcp now fl).alerts ≡ fl.alerts)
unfolding sync_dhcp
sync_dhcp-rest now fl = either fl.local_dhcp (write_hosts now fl fl.blades fl.hosts [])
  where
    either :
        (here : Bool) (w : Sync)
        → ((if here then finish_sync fl w else fl).commands ≡ fl.commands)
          × ((if here then finish_sync fl w else fl).alerts ≡ fl.alerts)
    either true (synced hosts want) = (refl, refl)
    either true (stopped hosts) = (refl, refl)
    either false w = (refl, refl)

pub request_wipe-Changes : (serial : Text) (fl : Fleet) → Changes fl (request_wipe serial fl).0
unfolding request_wipe set_blade
request_wipe-Changes serial fl = elim (Bool-cases (not (any (is serial) fl.blades))) [
  | inl e ↦ rw (e, request_wipe) same
  | inr e ↦ rw (e, request_wipe) (edit (is serial) (arm wiping) (λ b. (refl, refl, refl, refl)))
]

pub finish_wipe-Changes : (serial : Text) (fl : Fleet) → Changes fl (finish_wipe serial fl)
unfolding finish_wipe set_blade wiped
finish_wipe-Changes serial fl = leave serial wiped (λ b. (refl, refl))

pub reset_blade-Changes :
    (now : ℕ) (serial : Text) (fl : Fleet) → Changes fl (reset_blade now serial fl).0
unfolding reset_blade log_event clear_alert set_blade put_aside
reset_blade-Changes now serial fl = elim (Option-cases (get_blade serial fl)) [
  | inl e ↦ rw (e, reset_blade) same
  | inr (b, e) ↦ elim (Bool-cases (is_provisioning b.state)) [
    | inl busy ↦ rw (e, reset_blade, busy) same
    | inr free ↦
        rw (e, reset_blade, free, sync_dhcp-blades)
          (leave serial (put_aside now) (λ q. (refl, refl)))
  ]
]

pub cancel_install-Changes :
    (now : ℕ) (serial : Text) (fl : Fleet) → Changes fl (cancel_install now serial fl).0
unfolding cancel_install log_event
cancel_install-Changes now serial fl = elim (Bool-cases (not (any (is_armed serial) fl.blades))) [
  | inl e ↦ rw (e, cancel_install) same
  | inr e ↦
      rw (e, cancel_install, sync_dhcp-blades)
        (edit (is_armed serial) (arm idle) (λ b. (refl, refl, refl, refl)))
]

pub request_probe-Changes :
    (now : ℕ) (serial : Text) (fl : Fleet) → Changes fl (request_probe now serial fl).0
unfolding request_probe log_event set_blade
request_probe-Changes now serial fl = elim (Option-cases (get_blade serial fl)) [
  | inl e ↦ rw (e, request_probe) same
  | inr (b, e) ↦ elim (Bool-cases (armed_state b.install_state)) [
    | inl busy ↦ rw (e, request_probe, busy) same
    | inr free ↦
        rw (e, request_probe, free, sync_dhcp-blades)
          (edit (is serial) _ (λ q. (refl, refl, refl, refl)))
  ]
]

pub request_shutdown-Changes :
    (now : ℕ) (serial : Text) (fl : Fleet) → Changes fl (request_shutdown now serial fl)
unfolding request_shutdown log_event set_blade queue_command clear_alert
request_shutdown-Changes now serial fl = edit (is serial) _ (λ q. (refl, refl, refl, refl))

pub clear_probe-Changes :
    (now : ℕ) (serial : Text) (fl : Fleet) → Changes fl (clear_probe now serial fl)
unfolding clear_probe set_blade
clear_probe-Changes now serial fl =
    rw (sync_dhcp-blades) (edit (is serial) _ (λ q. (refl, refl, refl, refl)))

probe_one-Changes : (now : ℕ) (serial : Text) (fl : Fleet) → Changes fl (probe_one now serial fl)
unfolding probe_one log_event set_blade queue_command
probe_one-Changes now serial fl = elim (Option-cases (get_blade serial fl)) [
  | inl e ↦ rw (e, probe_one) same
  | inr (b, e) ↦ elim (Bool-cases (not (probe_armed now b))) [
    | inl late ↦ rw (e, probe_one, late) (clear_probe-Changes now serial fl)
    | inr armed ↦ elim (Bool-cases (not (tag_arrived now (fetched fl b) b.probe))) [
      | inl wait ↦ rw (e, probe_one, armed, wait) same
      | inr go ↦ rw (e, probe_one, armed, go) (edit (is serial) _ (λ q. (refl, refl, refl, refl)))
    ]
  ]
]

probe_each-Changes : (now : ℕ) (bs : List Blade) (fl : Fleet) → Changes fl (probe_each now bs fl)
unfolding probe_each
probe_each-Changes now [] fl = same
probe_each-Changes now (b ∷ bs) fl =
    both (probe_one-Changes now b.serial fl) (probe_each-Changes now bs (probe_one now b.serial fl))

arm_install-Changes :
    (now : ℕ) (serial : Text) (fl : Fleet) → Changes fl (arm_install now serial fl).0
unfolding arm_install
arm_install-Changes now serial fl = elim (Bool-cases (not (any (has_image serial) fl.blades))) [
  | inl e ↦ rw (e, arm_install) same
  | inr e ↦
      rw (e, arm_install, sync_dhcp-blades)
        (edit (has_image serial) (arm pending) (λ b. (refl, refl, refl, refl)))
]

-- A target's check may remember what an image file holds, and touches no blade.
image_table-blades :
    (head : Text → Option Text) (id : Text) (fl : Fleet)
    → (image_table head id fl).0.blades ≡ fl.blades
unfolding image_table
image_table-blades head id fl = ground arith

check_target-blades :
    (head : Text → Option Text) (setting : Text) (b : Blade) (fl : Fleet)
    → (check_target head setting b fl).0.blades ≡ fl.blades
unfolding check_target check_devices check_image
check_target-blades head setting b fl = ground (arith, image_table-blades head b.image fl)

pub request_install-Changes :
    (head : Text → Option Text) (setting : Text) (now : ℕ) (serial : Text) (fl : Fleet)
    → Changes fl (request_install head setting now serial fl).0
unfolding request_install
request_install-Changes head setting now serial fl = elim (Option-cases (get_blade serial fl)) [
  | inl e ↦ rw (e, request_install) (arm_install-Changes now serial fl)
  | inr (b, e) ↦
      rw (e, request_install)
        (after (check_target head setting b fl) (check_target-blades head setting b fl))
]
  where
    after :
        (r : Fleet × Option TargetError)
        → r.0.blades ≡ fl.blades
        → Changes fl (checked now serial r).0
    after (gl, some x) same_blades = rw same_blades same
    after (gl, none) same_blades =
        subst (λ bs. Change bs (arm_install now serial gl).0.blades) same_blades
          (arm_install-Changes now serial gl)

pub forget_blade-Changes :
    (now : ℕ) (serial : Text) (fl : Fleet) → Changes fl (forget_blade now serial fl).0
unfolding forget_blade log_event
forget_blade-Changes now serial fl = elim (Option-cases (get_blade serial fl)) [
  | inl e ↦ rw (e, forget_blade) same
  | inr (b, e) ↦ elim (Option-cases (refuse_forget b)) [
    | inr (x, keep) ↦ rw (e, forget_blade, keep) same
    | inl may ↦ rw (e, forget_blade, may, sync_dhcp-blades) (drop (λ q. not (is serial q)))
  ]
]

pub probe_step-Changes : (now : ℕ) (fl : Fleet) → Changes fl (probe_step now fl)
unfolding probe_step
probe_step-Changes now fl = probe_each-Changes now (select awaits_restart fl.blades) fl
