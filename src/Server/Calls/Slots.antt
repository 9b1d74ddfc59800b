-- ===== src/Server/Calls/Slots.antt =====
-- No slot holds two blades, whatever the server is asked for.
use sheath.Prelude.{
  ℕ, ◌≡◌, inl, inr, arith, Bool, List, [], ◌∷◌, Option, Text, All, update_where, select, Bool-cases,
}
use sheath.Server.Fleet.{Blade, Fleet}
use sheath.Server.Placement.Slots.{
  same_slot, Apart, AllApart, place_blade-AllApart, update_blade-AllApart, out-AllApart,
}
use sheath.Server.Lifecycle.Changes.{
  Change, same, edit, leave, drop, both, request_wipe-Changes, finish_wipe-Changes,
  reset_blade-Changes, cancel_install-Changes, request_probe-Changes, request_shutdown-Changes,
  clear_probe-Changes, probe_step-Changes, request_install-Changes, forget_blade-Changes,
}
use sheath.Server.Calls.{
  Call, place, update, arm_wipe, wiped_clean, put_by, call_off, read_firmware, switch_off,
  firmware_known, forget, write_image, tick, run, run_all,
}

-- An update that leaves the serial and the position alone.
module _ (p : Blade → Bool) (f : Blade → Blade) (serial : (b : Blade) → (f b).serial ≡ b.serial)
    (rack_id : (b : Blade) → (f b).rack_id ≡ b.rack_id)
    (slot : (b : Blade) → (f b).slot ≡ b.slot) where
  same_slot_left : (a b : Blade) → same_slot (f a) b ≡ same_slot a b
  same_slot_left a b = ground (arith, rack_id a, slot a)

  same_slot_right : (a b : Blade) → same_slot a (f b) ≡ same_slot a b
  same_slot_right a b = ground (arith, rack_id b, slot b)

  moved_left : (a : Blade) (bs : List Blade) → All (Apart a) bs → All (Apart (f a)) bs
  moved_left a [] h = tt
  moved_left a (b ∷ bs) ((s, t), hs) =
      ((rw (serial a) s, rw (same_slot_left a b) t), moved_left a bs hs)

  kept_right :
      (a : Blade) (bs : List Blade) → All (Apart a) bs → All (Apart a) (update_where p f bs)
  unfolding update_where
  kept_right a [] h = tt
  kept_right a (b ∷ bs) ((s, t), hs) = elim (Bool-cases (p b)) [
    | inl e ↦ rw e ((rw (serial b) s, rw (same_slot_right a b) t), kept_right a bs hs)
    | inr e ↦ rw e ((s, t), kept_right a bs hs)
  ]

  pub stay-AllApart : (bs : List Blade) → AllApart bs → AllApart (update_where p f bs)
  unfolding update_where
  stay-AllApart [] h = tt
  stay-AllApart (a ∷ bs) (h, hs) = elim (Bool-cases (p a)) [
    | inl e ↦ rw e (moved_left a (update_where p f bs) (kept_right a bs h), stay-AllApart bs hs)
    | inr e ↦ rw e (kept_right a bs h, stay-AllApart bs hs)
  ]

-- Taking blades off the list.
select-All :
    {A : Type 0} (P : A → Type 0) (p : A → Bool) (xs : List A) → All P xs → All P (select p xs)
unfolding select
select-All P p [] h = tt
select-All P p (x ∷ xs) (h, hs) = elim (Bool-cases (p x)) [
  | inl e ↦ rw e (h, select-All P p xs hs)
  | inr e ↦ rw e (select-All P p xs hs)
]

select-AllApart : (p : Blade → Bool) (bs : List Blade) → AllApart bs → AllApart (select p bs)
unfolding select
select-AllApart p [] h = tt
select-AllApart p (b ∷ bs) (h, hs) = elim (Bool-cases (p b)) [
  | inl e ↦ rw e (select-All (Apart b) p bs h, select-AllApart p bs hs)
  | inr e ↦ rw e (select-AllApart p bs hs)
]

Change-AllApart : {bs cs : List Blade} → Change bs cs → AllApart bs → AllApart cs
Change-AllApart same h = h
Change-AllApart (edit p f stays) h =
    stay-AllApart p f (λ b. (stays b).0) (λ b. (stays b).1) (λ b. (stays b).2) _ h
Change-AllApart (leave serial f out) h =
    out-AllApart serial f _ (λ b. (out b).0) (λ b. inl (out b).1) h
Change-AllApart (drop p) h = select-AllApart p _ h
Change-AllApart (both first second) h = Change-AllApart second (Change-AllApart first h)

run-AllApart :
    (head : Text → Option Text) (now : ℕ) (c : Call) (fl : Fleet)
    → AllApart fl.blades
    → AllApart (run head now c fl).blades
unfolding run
run-AllApart head now (place serial r s) fl h = place_blade-AllApart serial r s fl h
run-AllApart head now (update serial in_) fl h = update_blade-AllApart now serial in_ fl h
run-AllApart head now (arm_wipe serial) fl h = Change-AllApart (request_wipe-Changes serial fl) h
run-AllApart head now (wiped_clean serial) fl h = Change-AllApart (finish_wipe-Changes serial fl) h
run-AllApart head now (put_by serial) fl h = Change-AllApart (reset_blade-Changes now serial fl) h
run-AllApart head now (call_off serial) fl h =
    Change-AllApart (cancel_install-Changes now serial fl) h
run-AllApart head now (read_firmware serial) fl h =
    Change-AllApart (request_probe-Changes now serial fl) h
run-AllApart head now (switch_off serial) fl h =
    Change-AllApart (request_shutdown-Changes now serial fl) h
run-AllApart head now (firmware_known serial) fl h =
    Change-AllApart (clear_probe-Changes now serial fl) h
run-AllApart head now (forget serial) fl h = Change-AllApart (forget_blade-Changes now serial fl) h
run-AllApart head now (write_image serial setting) fl h =
    Change-AllApart (request_install-Changes head setting now serial fl) h
run-AllApart head now tick fl h = Change-AllApart (probe_step-Changes now fl) h

-- Where serials are distinct and no two blades share a slot, that stays so through any sequence of
-- placements, updates and calls of the life cycle, those that are refused included.
pub run_all-AllApart :
    (head : Text → Option Text) (cs : List (ℕ × Call)) (fl : Fleet)
    → AllApart fl.blades
    → AllApart (run_all head cs fl).blades
unfolding run_all
run_all-AllApart head [] fl h = h
run_all-AllApart head ((now, c) ∷ cs) fl h =
    run_all-AllApart head cs (run head now c fl) (run-AllApart head now c fl h)
