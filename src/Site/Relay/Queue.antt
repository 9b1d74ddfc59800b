-- ===== src/Site/Relay/Queue.antt =====
-- Reports keep their order, and none is lost but the oldest of a full queue.
use mathlib.Core.List.{append_assoc}
use sheath.Prelude.{
  ℕ, ◌+◌, ◌≤◌, ◌≡◌, ◌≢◌, refl, inl, inr, arith, List, [], ◌∷◌, ◌++◌, Option, none, some, ltb, leb,
  Text, length, length-append, length-drop, Bool-cases, leb→le, ◌-◌, ◌/◌,
}
use sheath.Site.Relay.{
  max_queued_body, Queued, Delivery, malformed, make_room, max_pending, forward_or_queue,
  deliver_all, drain,
}

make_room-length : (pending : List Queued) → length (make_room pending) + 1 ≤ max_pending
unfolding make_room
make_room-length pending = elim (Bool-cases (leb max_pending (length pending))) [
  | inl full ↦
      rw (full, make_room)
        (omega (
          arith,
          leb→le max_pending (length pending) full,
          length-drop (length pending - max_pending / 2) pending,
        ))
  | inr room ↦ rw (room, make_room) (ground (arith, room))
]

-- A queue within its bound stays within it, whether a report is relayed, kept or refused.
pub forward_or_queue-length :
    (centre : Option Text) (q : Queued) (pending : List Queued)
    → length pending ≤ max_pending
    → length (forward_or_queue centre q pending).0 ≤ max_pending
unfolding forward_or_queue
forward_or_queue-length (some answer) q pending h = h
forward_or_queue-length none q pending h = elim (Bool-cases (ltb max_queued_body (length q.body))) [
  | inl big ↦ rw (big, forward_or_queue) h
  | inr fits ↦
      rw (fits, forward_or_queue)
        (omega (arith, make_room-length pending, length-append (make_room pending) (q ∷ [])))
]

deliver_all-append :
    (deliver : ℕ → Queued → Delivery) (i : ℕ) (qs : List Queued)
    → ((i : ℕ) (q : Queued) → deliver i q ≢ malformed)
    → (deliver_all deliver i qs).0 ++ (deliver_all deliver i qs).1 ≡ qs
unfolding deliver_all
deliver_all-append deliver i [] ok = refl
deliver_all-append deliver i (q ∷ qs) ok =
    ground (arith, ok i q, deliver_all-append deliver (i + 1) qs ok)

-- Where every report makes a request, what was sent and what is left are, one after the other, the
-- queue as it was: each report once, in the order in which it came.
pub drain-append :
    (deliver : ℕ → Queued → Delivery) (pending arrived : List Queued)
    → ((i : ℕ) (q : Queued) → deliver i q ≢ malformed)
    → (drain deliver pending arrived).0 ++ (drain deliver pending arrived).1 ≡ pending ++ arrived
unfolding drain
drain-append deliver pending arrived ok = ground (
  arith,
  deliver_all-append deliver 0 pending ok,
  append_assoc (deliver_all deliver 0 pending).0 (deliver_all deliver 0 pending).1 arrived,
)
