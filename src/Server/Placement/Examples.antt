-- ===== src/Server/Placement/Examples.antt =====
-- Placing the blade that was put aside.
use sheath.Prelude.{none, some, codes, map, ◌≡◌}
use sheath.Server.Samples.{fleet}
use sheath.Server.Fleet.{Blade}
use sheath.Server.Placement.{Patch, update_blade}
use sheath.Server.Placement.Service.{update_blade-stored}

abbrev into_slot : Patch
into_slot = record {
  rack_id = some 7;
  slot = some 3;
  hostname = none;
  image = none;
  mac = none;
  groups = none;
  state = none;
}

update_blade-stored_example :
    map (λ (b : Blade). b.stored) (update_blade 100 (codes "aa") into_slot fleet).0.blades
    ≡ map (λ (b : Blade). b.stored) fleet.blades
update_blade-stored_example = update_blade-stored 100 (codes "aa") into_slot fleet
