-- ===== src/Server/Provision/Examples.antt =====
-- An installation that is handed out, reported and not handed out again.
use sheath.Prelude.{[], some, refl, codes, ◌≡◌, false, map, text_eq, find_first}
use sheath.Server.Samples.{fleet, armed_blade, debian}
use sheath.Server.Fleet.{Blade, get_blade}
use sheath.Server.Targets.{get_image}
use sheath.Server.Provision.{
  Desk, Arrival, Report, Config, arrive, provision, provision_status, answer, hand_out, known_blade,
  take_hardware, link_session,
}
use sheath.Server.Provision.Answers.{Told, provision_go}
use sheath.Server.Provision.Standing.{order}
use sheath.Server.Provision.Again.{told_again, provision-provision_status}
use sheath.Server.Provision.Reports.{touches_disk, provision-after-status, armed_for}

abbrev desk : Desk
desk = record { fleet = fleet; sessions = []; marks = [] }

abbrev plain : Blade → Config
plain b = record { target = []; options = []; ssh_keys = [] }

abbrev hello : Arrival
hello = record { mac = []; hardware = [] }

abbrev finished : Report
finished = record { phase = codes "done"; percent = 100; error = []; note = [] }

abbrev stuck : Report
stuck = record { phase = codes "writing"; percent = 40; error = codes "no space"; note = [] }

provision-after-status_example :
    touches_disk
      (provision [] [] plain 200
        (codes "bb")
        hello
        (provision_status 100 (codes "bb") finished desk)).1
    ≡ false
unfolding text_eq
provision-after-status_example =
    provision-after-status [] [] plain 100 200 (codes "bb") finished hello desk refl

abbrev after_failure : Desk
after_failure = provision_status 100 (codes "bb") stuck desk

provision-provision_status_example :
    (map armed_for after_failure.fleet.blades ≡ map armed_for fleet.blades)
    × ((c : Blade) × (get_blade (codes "bb") (arrive [] 200 (codes "bb") hello after_failure).fleet
          ≡ some c)
        × (order c ≡ order armed_blade)
        × ((provision [] [] plain 200 (codes "bb") hello after_failure).1
            ≡ told_again [] plain debian c))
unfolding text_eq get_blade get_image find_first
provision-provision_status_example =
    provision-provision_status [] [] plain 100 200 (codes "bb") stuck hello desk armed_blade debian
      refl refl refl refl refl

provision_go_example :
    (b : Blade) × (get_blade (codes "bb") (arrive [] 100 (codes "bb") hello desk).fleet ≡ some b)
    × Told [] plain b
        (arrive [] 100 (codes "bb") hello desk).fleet
        (provision [] [] plain 100 (codes "bb") hello desk).1
unfolding provision arrive answer hand_out known_blade take_hardware link_session get_blade
    get_image find_first text_eq
provision_go_example = provision_go [] [] plain 100 (codes "bb") hello desk refl
