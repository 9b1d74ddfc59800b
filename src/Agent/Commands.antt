-- ===== src/Agent/Commands.antt =====
-- runCommands of agent/main.go: which of the commands that wait for a blade it carries out, and in which
-- order. What a command does to the machine is named; times are seconds.
pub mod Batch
mod Examples
use sheath.Prelude.{
  ℕ, ◌+◌, Bool, true, false, not, ◌&&◌, ◌||◌, List, [], ◌∷◌, ◌++◌, map, Option, none, some, ltb,
  ◌==◌, if◌then◌else◌, Text, codes, text_eq, select,
}
use sheath.Agent.Policy.{AgentPolicy, allows}

pub record Command : Type 0 where
  pub id : ℕ
  pub kind : Text
  -- `none` where the server gives no time that parses
  pub created : Option ℕ

-- `commandTTL`
abbrev pub command_ttl : ℕ
command_ttl = 900

unfoldable pub stale : ℕ → Command → Bool
stale now c = elim c.created [ none ↦ false | some t ↦ ltb (t + command_ttl) now ]

abbrev pub of_kind : Text → Command → Bool
of_kind k c = text_eq c.kind k

-- `newest` and `order` as one list: a command takes the place of an earlier one of its kind.
unfoldable pub keep_newest : Command → List Command → List Command
keep_newest c [] = c ∷ []
keep_newest c (d ∷ ds) = if of_kind c.kind d then c ∷ ds else d ∷ keep_newest c ds

unfoldable pub newest : ℕ → List Command → List Command → List Command
newest now [] kept = kept
newest now (c ∷ cs) kept = newest now cs (if stale now c then kept else keep_newest c kept)

unfoldable pub rank : Text → ℕ
rank kind =
    if text_eq kind (codes "identify")
      || (text_eq kind (codes "identify_off")
          || (text_eq kind (codes "stealth_on") || text_eq kind (codes "stealth_off")))
    then 0
    else if text_eq kind (codes "reimage")
    then 8
    else if text_eq kind (codes "reboot")
    then 9
    else if text_eq kind (codes "shutdown")
    then 10
    else 5

-- `sort.SliceStable`, by rank
unfoldable pub insert_ranked : Command → List Command → List Command
insert_ranked c [] = c ∷ []
insert_ranked c (d ∷ ds) =
    if ltb (rank d.kind) (rank c.kind) then d ∷ insert_ranked c ds else c ∷ d ∷ ds

unfoldable pub sort_ranked : List Command → List Command
sort_ranked [] = []
sort_ranked (c ∷ cs) = insert_ranked c (sort_ranked cs)

unfoldable pub batch : ℕ → List Command → List Command
batch now cmds = sort_ranked (newest now cmds [])

pub data Act : Type 0 where
  refused unknown : Text → Act
  lamp stealth : Bool → Act
  -- after so many seconds
  restart halt : ℕ → Act

-- The `switch`
unfoldable pub act_of : Text → Act
act_of kind =
    if text_eq kind (codes "identify")
    then lamp true
    else if text_eq kind (codes "identify_off")
    then lamp false
    else if text_eq kind (codes "stealth_on")
    then stealth true
    else if text_eq kind (codes "stealth_off")
    then stealth false
    else if text_eq kind (codes "reboot")
    then restart 5
    else if text_eq kind (codes "shutdown")
    then halt 5
    else if text_eq kind (codes "reimage")
    then restart 10
    else unknown kind

unfoldable pub carry_out : AgentPolicy → Command → Act
carry_out pol c = if not (allows pol c.kind) then refused c.kind else act_of c.kind

-- `runCommands`: what it does, in order.
unfoldable pub run_commands : AgentPolicy → ℕ → List Command → List Act
run_commands pol now cmds = map (carry_out pol) (batch now cmds)
