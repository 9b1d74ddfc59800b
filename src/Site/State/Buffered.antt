-- ===== src/Site/State/Buffered.antt =====
-- The buffer of events loses nothing but what note drops.
use sheath.Prelude.{
  ◌-◌, ◌≤◌, inl, inr, arith, Bool, List, [], ◌∷◌, ◌++◌, leb, length, drop, length-append,
  length-drop, Bool-cases,
}
use sheath.Site.State.{Event, max_queued, note, stage_ip, Buffer, flush}

-- What happens to the buffer; a note that finds it full is left out.
pub data Deed : Type 0 where
  staged : Event → Deed
  flushed : Bool → List Event → Deed

abbrev pub deed : Deed → Buffer → Buffer
deed (staged e) b = record b { queue = stage_ip e b.queue }
deed (flushed taken meanwhile) b = flush taken meanwhile b

abbrev pub deeds : List Deed → Buffer → Buffer
deeds [] b = b
deeds (d ∷ ds) b = deeds ds (deed d b)

-- The events in the order in which they were staged.
abbrev pub arrived : List Deed → List Event
arrived [] = []
arrived (staged e ∷ ds) = e ∷ arrived ds
arrived (flushed taken meanwhile ∷ ds) = meanwhile ++ arrived ds

abbrev pub record_of : Buffer → List Event
record_of b = b.delivered ++ b.queue

-- A note keeps a buffer that is within its bound within it.
pub note-length :
    (e : Event) (queue : List Event)
    → length queue ≤ max_queued
    → length (note e queue) ≤ max_queued
unfolding note
note-length e queue h = elim (Bool-cases (leb max_queued (length queue))) [
  | inl full ↦ rw full (
      omega (
        arith,
        h,
        length-append (drop (length queue - 1000) queue) (e ∷ []),
        length-drop (length queue - 1000) queue,
      ))
  | inr room ↦ rw room (ground (arith, room, length-append queue (e ∷ [])))
]
