-- ===== src/Server/Calls.antt =====
-- What the server is asked for, as data: the calls of server/db.go, server/ipam.go and server/api.go
-- that change a blade, and a history of them.
pub mod Slots
pub mod Aside
mod Examples
use sheath.Prelude.{ℕ, List, [], ◌∷◌, Option, Text}
use sheath.Server.Fleet.{Fleet}
use sheath.Server.Placement.{place_blade, Patch, update_blade}
use sheath.Server.Lifecycle.{
  request_wipe, finish_wipe, reset_blade, cancel_install, request_probe, request_shutdown,
  clear_probe, probe_step, request_install, forget_blade,
}

pub data Call : Type 0 where
  place : Text → Option ℕ → Option ℕ → Call
  update : Text → Patch → Call
  arm_wipe wiped_clean put_by call_off read_firmware switch_off firmware_known forget : Text → Call
  -- with the setting of the target
  write_image : Text → Text → Call
  -- a turn of the loop that restarts blades
  tick : Call

-- `head` gives the first bytes of an image file; each call comes with its time.
unfoldable pub run : (Text → Option Text) → ℕ → Call → Fleet → Fleet
run head now (place serial r s) fl = (place_blade serial r s fl).0
run head now (update serial in_) fl = (update_blade now serial in_ fl).0
run head now (arm_wipe serial) fl = (request_wipe serial fl).0
run head now (wiped_clean serial) fl = finish_wipe serial fl
run head now (put_by serial) fl = (reset_blade now serial fl).0
run head now (call_off serial) fl = (cancel_install now serial fl).0
run head now (read_firmware serial) fl = (request_probe now serial fl).0
run head now (switch_off serial) fl = request_shutdown now serial fl
run head now (firmware_known serial) fl = clear_probe now serial fl
run head now (forget serial) fl = (forget_blade now serial fl).0
run head now (write_image serial setting) fl = (request_install head setting now serial fl).0
run head now tick fl = probe_step now fl

unfoldable pub run_all : (Text → Option Text) → List (ℕ × Call) → Fleet → Fleet
unfolding run
run_all head [] fl = fl
run_all head ((now, c) ∷ cs) fl = run_all head cs (run head now c fl)
