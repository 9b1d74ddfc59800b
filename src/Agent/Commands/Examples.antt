-- ===== src/Agent/Commands/Examples.antt =====
-- Five commands, of which one is stale and two are of one kind.
use sheath.Prelude.{
  ◌≡◌, refl, [], ◌∷◌, List, none, some, false, codes, text_eq, any, Text, find_first,
}
use sheath.Agent.Policy.{AgentPolicy, allows}
use sheath.Agent.Commands.Batch.{OnePerKind, Ranked, batch_lem, last_fresh}
use sheath.Agent.Commands.{
  Command, of_kind, stale, keep_newest, newest, rank, insert_ranked, sort_ranked, batch, refused,
  lamp, restart, act_of, carry_out, run_commands,
}

abbrev waiting : List Command
waiting =
    record { id = 1; kind = codes "reboot"; created = some 1000 }
    ∷ record { id = 2; kind = codes "identify"; created = some 10 }
    ∷ record { id = 3; kind = codes "identify_off"; created = none }
    ∷ record { id = 4; kind = codes "reboot"; created = some 1100 }
    ∷ record { id = 5; kind = codes "shutdown"; created = some 1100 }
    ∷ []

abbrev no_halt : AgentPolicy
no_halt = record {
  allow = codes "reboot" ∷ codes "identify_off" ∷ [];
  reboot_on_cfg = false;
  window = [];
}

ran : run_commands no_halt 1200 waiting ≡ lamp false ∷ restart 5 ∷ refused (codes "shutdown") ∷ []
unfolding run_commands batch newest keep_newest stale sort_ranked insert_ranked rank carry_out
    allows act_of text_eq any
ran = refl

batch_lem_example :
    ((k : Text) → find_first (of_kind k) (batch 1200 waiting) ≡ last_fresh 1200 k waiting none)
    × OnePerKind (batch 1200 waiting)
    × Ranked (batch 1200 waiting)
batch_lem_example = batch_lem 1200 waiting
