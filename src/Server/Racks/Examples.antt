-- ===== src/Server/Racks/Examples.antt =====
-- A BladeRunner is created and another is made smaller, and a site gets a prefix.
use sheath.Prelude.{text_eq, map, ◌≡◌, ◌∷◌, refl, [], none, codes, any, find_first}
use sheath.Server.Addressing.{valid_slot}
use sheath.Server.Fleet.{Blade, get_site, Fleet}
use sheath.Server.Samples.{fleet, home}
use sheath.Server.Racks.{rename_site_blades, NewRack, create_rack, change_rack}
use sheath.Server.Racks.Renaming.{rename_site_blades-map, name_after}
use sheath.Server.Racks.Inside.{AllInside}
use sheath.Server.Racks.History.{created, changed, next, stop, Steps-AllInside}

abbrev second : NewRack
second = record { name = codes "r2"; size = 10; location = []; ip_offset = 0; site_id = 0 }

abbrev grown : Fleet
grown = (create_rack 8 second fleet).0

abbrev shrunk : Fleet
shrunk = (change_rack 100 7 [] [] 2 grown).0

Steps-AllInside_example : AllInside shrunk.racks shrunk.blades
unfolding any find_first valid_slot
Steps-AllInside_example =
    Steps-AllInside (λ _. none) fleet shrunk
      (next (created 8 second refl) (next (changed 100 7 [] [] 2) stop)) (refl, (refl, tt))

abbrev prefixed : Fleet
prefixed = record fleet { sites = record home { host_prefix = codes "lab" } ∷ [] }

rename_site_blades-map_example :
    (rename_site_blades 1 prefixed).0.blades
    ≡ map
        (λ (b : Blade). record b { hostname = name_after (codes "lab") 1 prefixed b })
        prefixed.blades
unfolding text_eq get_site find_first
rename_site_blades-map_example = rename_site_blades-map 1 prefixed ((refl, tt), (tt, tt))
