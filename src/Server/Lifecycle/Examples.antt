-- ===== src/Server/Lifecycle/Examples.antt =====
-- The life of the blade that is armed for an installation.
use sheath.Prelude.{◌&&◌, ◌≡◌, refl, false, codes, any, text_eq, find_first}
use sheath.Server.Samples.{fleet}
use sheath.Server.Fleet.{is, is_waiting, get_blade}
use sheath.Server.Lifecycle.{reset_blade}
use sheath.Server.Lifecycle.Armed.{on_wire, reset_blade_quiet}

reset_blade_quiet_example :
    (any
        (λ b. is (codes "bb") b && on_wire 900 (reset_blade 100 (codes "bb") fleet).0 b)
        (reset_blade 100 (codes "bb") fleet).0.blades
      ≡ false)
    × (any (is_waiting (codes "bb")) (reset_blade 100 (codes "bb") fleet).0.commands ≡ false)
    × (any (text_eq (codes "bb")) (reset_blade 100 (codes "bb") fleet).0.alerts ≡ false)
unfolding reset_blade get_blade find_first text_eq
reset_blade_quiet_example = reset_blade_quiet 100 900 (codes "bb") fleet refl
