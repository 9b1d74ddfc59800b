-- ===== src/Agent/Policy/Examples.antt =====
-- A window over midnight.
use sheath.Prelude.{◌≡◌, ◌+◌, true, false, [], ◌∷◌, codes, any, if◌then◌else◌}
use sheath.Agent.Policy.{Restart, passes}
use sheath.Agent.Policy.Restarts.{may_restart, passes-restarts}

abbrev waits : Restart
waits = record {
  pol = record { allow = []; reboot_on_cfg = true; window = codes "22:00-04:00" };
  announced = false;
  pending = [];
  sent = [];
  restarts = 0;
}

passes-restarts_example :
    (passes ((true, 720) ∷ (true, 1400) ∷ (true, 1401) ∷ []) waits).restarts
    ≡ 0
      + (if any (may_restart waits.pol) ((true, 720) ∷ (true, 1400) ∷ (true, 1401) ∷ [])
          then 1
          else 0)
passes-restarts_example = passes-restarts ((true, 720) ∷ (true, 1400) ∷ (true, 1401) ∷ []) waits
