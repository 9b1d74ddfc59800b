-- ===== src/Server/Agent/Examples.antt =====
-- Two fetches, and a sweep.
use sheath.Prelude.{◌≡◌, ◌||◌, [], ◌∷◌, none, codes, map, any}
use sheath.Server.Policy.{default_policy}
use sheath.Server.Accounts.{Action}
use sheath.Server.Samples.{fleet}
use sheath.Server.Fleet.{Fleet}
use sheath.Server.Agent.{hand_commands, flip_all}
use sheath.Server.Agent.Commands.{hand_commands_once}
use sheath.Server.Agent.Silence.{late_at, late_alone, mark_if, flip_all-map}

abbrev waiting : Fleet
waiting = record fleet {
  commands = record { serial = codes "bb"; kind = Action.reboot; created = 90; taken = none } ∷ [];
}

hand_commands_once_example :
    (hand_commands default_policy 200
      (codes "bb")
      (hand_commands default_policy 100 (codes "bb") waiting).0).1
    ≡ []
hand_commands_once_example =
    hand_commands_once default_policy default_policy 100 200 (codes "bb") waiting

flip_all-map_example :
    flip_all default_policy (λ _. default_policy) 900 fleet
    ≡ map
        (λ b.
          mark_if
            (any (late_at (λ _. default_policy) 900 fleet.racks b) fleet.sites
              || late_alone default_policy 900 fleet.racks b)
            b)
        fleet.blades
flip_all-map_example = flip_all-map default_policy (λ _. default_policy) 900 fleet
