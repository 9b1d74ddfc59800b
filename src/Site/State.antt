-- ===== src/Site/State.antt =====
-- site/site.go: the desired state that a site works from, and its buffer of events. A pass is its fetch
-- and its flush; what it does to reservations, images and the boot payload is output. The site is not
-- run dry, and writing its files succeeds.
pub mod Newest
pub mod Buffered
mod Examples
use sheath.Prelude.{
  ℕ, zero, suc, ◌+◌, ◌-◌, ◌/◌, Bool, true, false, List, [], ◌∷◌, ◌++◌, Option, none, some, leb,
  if◌then◌else◌, Text, length, drop,
}

-- What the centre answers to a request for the desired state.
pub data Fetched (D : Type 0) : Type 0 where
  -- no answer, another code than 200 and 304, or a body that does not decode
  down : Fetched D
  -- 304
  same : Fetched D
  fresh : D → Fetched D

-- The part of `site` that holds the desired state, and the file desired.json.
pub record Held (D : Type 0) : Type 0 where
  pub state : Option D
  pub saved : Option D
  pub online : Bool

-- The first half of `pass`: `some` is the state that the rest of the pass works from, and `none` its return.
unfoldable pub take_state : {D : Type 0} → Fetched D → Held D → Held D × Option (Option D)
take_state down s = elim s.state [
  | some d ↦ (record s { online = false }, some (some d))
  | none ↦ elim s.saved [
    | none ↦ (record s { online = false }, none)
    | some d ↦ (record s { online = false; state = some d }, some (some d))
  ]
]
take_state same s = (record s { online = true }, some s.state)
take_state (fresh d) s = (record s { online = true; state = some d; saved = some d }, some (some d))

-- The service starts again: what is in memory is gone.
unfoldable pub restart : {D : Type 0} → Held D → Held D
restart s = record s { state = none; online = false }

-- An observation; its time is left out.
pub record Event : Type 0 where
  pub serial : Text
  pub level : Text
  pub msg : Text
  pub stage : Text
  pub mac : Text
  pub ip : Text

-- `maxQueued`
abbrev pub max_queued : ℕ
max_queued = 2000

-- `note`
unfoldable pub note : Event → List Event → List Event
note e queue =
    let kept =
      (if leb max_queued (length queue)
        then drop (length queue - max_queued / 2) queue
        else queue) in
    kept ++ e ∷ []

-- `stageIP`
unfoldable pub stage_ip : Event → List Event → List Event
stage_ip e queue = queue ++ e ∷ []

-- The buffer, and what the centre has taken.
pub record Buffer : Type 0 where
  pub queue : List Event
  pub delivered : List Event

-- `flush`: whether the centre answers 200, and the events that are staged while it is asked.
unfoldable pub flush : Bool → List Event → Buffer → Buffer
flush taken meanwhile b = elim b.queue [
  | [] ↦ record b { queue = meanwhile }
  | e ∷ es ↦
      if taken
      then record { queue = meanwhile; delivered = b.delivered ++ e ∷ es }
      else record b { queue = (e ∷ es) ++ meanwhile }
]
