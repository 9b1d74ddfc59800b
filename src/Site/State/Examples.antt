-- ===== src/Site/State/Examples.antt =====
-- A site that is cut off after a restart, and its buffer.
use sheath.Prelude.{◌≡◌, refl, [], ◌∷◌, List, none, true, false, codes, Text, inl}
use sheath.Site.State.{down, fresh, Held, take_state, Event}
use sheath.Site.State.Newest.{Turn, passed, restarted, turns, newest, work_from, take_state-newest}
use sheath.Site.State.Buffered.{Deed, staged, flushed}

abbrev blank : Held Text
blank = record { state = none; saved = none; online = false }

abbrev week : List (Turn Text)
week = passed (fresh (codes "v1")) ∷ passed (fresh (codes "v2")) ∷ restarted ∷ passed down ∷ []

take_state-newest_example : (take_state down (turns week blank)).1 ≡ work_from (newest week none)
take_state-newest_example = take_state-newest week blank (inl refl)

abbrev seen : Event
seen = record {
  serial = [];
  level = [];
  msg = codes "dhcp";
  stage = codes "dhcp";
  mac = codes "02";
  ip = [];
}

abbrev outage : List Deed
outage = staged seen ∷ flushed false (seen ∷ []) ∷ flushed true [] ∷ []
