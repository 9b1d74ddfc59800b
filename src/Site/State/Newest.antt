-- ===== src/Site/State/Newest.antt =====
-- A site works from the newest state that it has ever fetched.
use sheath.Prelude.{◌≡◌, refl, ap, ◌∙◌, ◌⊎◌, inl, inr, arith, List, [], ◌∷◌, Option, none, some}
use sheath.Site.State.{Fetched, down, same, fresh, Held, take_state, restart}

-- A pass, or the service starting again.
pub data Turn (D : Type 0) : Type 0 where
  passed : Fetched D → Turn D
  restarted : Turn D

abbrev pub turn : {D : Type 0} → Turn D → Held D → Held D
turn (passed f) s = (take_state f s).0
turn restarted s = restart s

abbrev pub turns : {D : Type 0} → List (Turn D) → Held D → Held D
turns [] s = s
turns (t ∷ ts) s = turns ts (turn t s)

-- The last state that was fetched, and the one given where none was.
abbrev pub learn : {D : Type 0} → Turn D → Option D → Option D
learn (passed (fresh d)) known = some d
learn (passed down) known = known
learn (passed same) known = known
learn restarted known = known

abbrev pub newest : {D : Type 0} → List (Turn D) → Option D → Option D
newest [] known = known
newest (t ∷ ts) known = newest ts (learn t known)

-- What is in memory is what was saved.
abbrev pub IsSaved : {D : Type 0} → Held D → Type 0
IsSaved s = (s.state ≡ none) ⊎ (s.state ≡ s.saved)

turn-IsSaved : {D : Type 0} (t : Turn D) (s : Held D) → IsSaved s → IsSaved (turn t s)
unfolding take_state restart
turn-IsSaved (passed down) s h = ground (arith, h)
turn-IsSaved (passed same) s h = h
turn-IsSaved (passed (fresh d)) s h = inr refl
turn-IsSaved restarted s h = inl refl

turn-saved : {D : Type 0} (t : Turn D) (s : Held D) → (turn t s).saved ≡ learn t s.saved
unfolding take_state restart
turn-saved (passed down) s = ground arith
turn-saved (passed same) s = refl
turn-saved (passed (fresh d)) s = refl
turn-saved restarted s = refl

turns-saved :
    {D : Type 0} (ts : List (Turn D)) (s : Held D) → (turns ts s).saved ≡ newest ts s.saved
turns-saved [] s = refl
turns-saved (t ∷ ts) s = turns-saved ts (turn t s) ∙ ap (newest ts) (turn-saved t s)

turns-IsSaved : {D : Type 0} (ts : List (Turn D)) (s : Held D) → IsSaved s → IsSaved (turns ts s)
turns-IsSaved [] s h = h
turns-IsSaved (t ∷ ts) s h = turns-IsSaved ts (turn t s) (turn-IsSaved t s h)

-- What a pass without the centre works from.
abbrev pub work_from : {D : Type 0} → Option D → Option (Option D)
work_from none = none
work_from (some d) = some (some d)

take_state-saved : {D : Type 0} (s : Held D) → IsSaved s → (take_state down s).1 ≡ work_from s.saved
unfolding take_state
take_state-saved s h = ground (arith, h)

-- After any passes and restarts, a pass that does not reach the centre works from the newest state that
-- was ever fetched, or saved before, and gives up only where there is none.
pub take_state-newest :
    {D : Type 0} (ts : List (Turn D)) (s : Held D)
    → IsSaved s
    → (take_state down (turns ts s)).1 ≡ work_from (newest ts s.saved)
take_state-newest ts s h =
    take_state-saved (turns ts s) (turns-IsSaved ts s h) ∙ ap work_from (turns-saved ts s)
