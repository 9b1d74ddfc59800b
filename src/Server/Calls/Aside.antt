-- ===== src/Server/Calls/Aside.antt =====
-- A blade that was put aside stands in no slot.
use sheath.Prelude.{
  ℕ, ◌≡◌, refl, ◌⊎◌, inl, inr, arith, Bool, true, false, not, List, [], ◌∷◌, Option, none, some,
  Text, All, all, update_where, select, Bool-cases, Option-cases,
}
use sheath.Server.Fleet.{Blade, Fleet, is, get_blade, get_rack, set_blade}
use sheath.Server.Addressing.{valid_slot}
use sheath.Server.Placement.{place_blade, place_in_rack, taken_out, put_in, occupied}
use sheath.Server.Lifecycle.Changes.{
  Change, same, edit, leave, drop, both, request_wipe-Changes, finish_wipe-Changes,
  reset_blade-Changes, cancel_install-Changes, request_probe-Changes, request_shutdown-Changes,
  clear_probe-Changes, probe_step-Changes, request_install-Changes, forget_blade-Changes,
}
use sheath.Server.Calls.{
  Call, place, update, arm_wipe, wiped_clean, put_by, call_off, read_firmware, switch_off,
  firmware_known, forget, write_image, tick, run, run_all,
}

abbrev pub Parked : Blade → Type 0
Parked b = (b.stored ≡ none) ⊎ (b.rack_id ≡ none)

edit-Parked :
    (p : Blade → Bool) (f : Blade → Blade)
    → ((b : Blade) → Parked b → Parked (f b))
    → (bs : List Blade) → All Parked bs
    → All Parked (update_where p f bs)
unfolding update_where
edit-Parked p f good [] h = tt
edit-Parked p f good (b ∷ bs) (hb, hbs) = elim (Bool-cases (p b)) [
  | inl e ↦ rw e (good b hb, edit-Parked p f good bs hbs)
  | inr e ↦ rw e (hb, edit-Parked p f good bs hbs)
]

drop-Parked : (p : Blade → Bool) (bs : List Blade) → All Parked bs → All Parked (select p bs)
unfolding select
drop-Parked p [] h = tt
drop-Parked p (b ∷ bs) (hb, hbs) = elim (Bool-cases (p b)) [
  | inl e ↦ rw e (hb, drop-Parked p bs hbs)
  | inr e ↦ rw e (drop-Parked p bs hbs)
]

Change-Parked : {bs cs : List Blade} → Change bs cs → All Parked bs → All Parked cs
Change-Parked same h = h
Change-Parked (edit p f stays) h =
    edit-Parked p f (λ b good. ground (arith, (stays b).1, (stays b).3)) _ h
Change-Parked (leave serial f out) h = edit-Parked (is serial) f (λ b good. inr (out b).1) _ h
Change-Parked (drop p) h = drop-Parked p _ h
Change-Parked (both first second) h = Change-Parked second (Change-Parked first h)

place_in_rack-Parked :
    (serial : Text) (r s : ℕ) (fl : Fleet)
    → All Parked fl.blades
    → All Parked (place_in_rack serial r s fl).0.blades
unfolding place_in_rack set_blade
place_in_rack-Parked serial r s fl h = elim (Option-cases (get_rack r fl)) [
  | inl e ↦ rw (e, place_in_rack) h
  | inr (k, e) ↦ elim (Bool-cases (not (valid_slot k.size s))) [
    | inl bad ↦ rw (e, place_in_rack, bad) h
    | inr good ↦ elim (Option-cases (occupied serial r s fl)) [
      | inr (x, taken) ↦ rw (e, place_in_rack, good, taken) h
      | inl free ↦
          rw (e, place_in_rack, good, free)
            (edit-Parked (is serial) (put_in fl k s) (λ b _. inl refl) fl.blades h)
    ]
  ]
]

taken_out-Parked :
    (serial : Text) (fl : Fleet)
    → All Parked fl.blades
    → All Parked (set_blade serial taken_out fl).blades
unfolding set_blade
taken_out-Parked serial fl h = edit-Parked (is serial) taken_out (λ b _. inr refl) fl.blades h

place_blade-Parked :
    (serial : Text) (rack_id slot : Option ℕ) (fl : Fleet)
    → All Parked fl.blades
    → All Parked (place_blade serial rack_id slot fl).0.blades
unfolding place_blade
place_blade-Parked serial none slot fl h = elim (Option-cases (get_blade serial fl)) [
  | inl e ↦ rw (e, place_blade) h
  | inr (b, e) ↦ rw (e, place_blade) (taken_out-Parked serial fl h)
]
place_blade-Parked serial (some r) none fl h = elim (Option-cases (get_blade serial fl)) [
  | inl e ↦ rw (e, place_blade) h
  | inr (b, e) ↦ rw (e, place_blade) (taken_out-Parked serial fl h)
]
place_blade-Parked serial (some r) (some s) fl h = elim (Option-cases (get_blade serial fl)) [
  | inl e ↦ rw (e, place_blade) h
  | inr (b, e) ↦ rw (e, place_blade) (place_in_rack-Parked serial r s fl h)
]

-- Every call but the PUT of hBladeUpdate, which does not clear `stored`.
abbrev pub not_update : Call → Bool
not_update (update _ _) = false
not_update _ = true

run-Parked :
    (head : Text → Option Text) (now : ℕ) (c : Call) (fl : Fleet)
    → not_update c ≡ true
    → All Parked fl.blades
    → All Parked (run head now c fl).blades
unfolding run
run-Parked head now (place serial r s) fl e h = place_blade-Parked serial r s fl h
run-Parked head now (update serial in_) fl e h = absurd (ground arith)
run-Parked head now (arm_wipe serial) fl e h = Change-Parked (request_wipe-Changes serial fl) h
run-Parked head now (wiped_clean serial) fl e h = Change-Parked (finish_wipe-Changes serial fl) h
run-Parked head now (put_by serial) fl e h = Change-Parked (reset_blade-Changes now serial fl) h
run-Parked head now (call_off serial) fl e h =
    Change-Parked (cancel_install-Changes now serial fl) h
run-Parked head now (read_firmware serial) fl e h =
    Change-Parked (request_probe-Changes now serial fl) h
run-Parked head now (switch_off serial) fl e h =
    Change-Parked (request_shutdown-Changes now serial fl) h
run-Parked head now (firmware_known serial) fl e h =
    Change-Parked (clear_probe-Changes now serial fl) h
run-Parked head now (forget serial) fl e h = Change-Parked (forget_blade-Changes now serial fl) h
run-Parked head now (write_image serial setting) fl e h =
    Change-Parked (request_install-Changes head setting now serial fl) h
run-Parked head now tick fl e h = Change-Parked (probe_step-Changes now fl) h

-- Where no blade in a rack is marked as put aside, none is after any sequence of calls without a
-- PUT: putting aside clears the rack, and placing clears the mark.
pub run_all-Parked :
    (head : Text → Option Text) (cs : List (ℕ × Call)) (fl : Fleet)
    → all (λ c. not_update c.1) cs ≡ true
    → All Parked fl.blades
    → All Parked (run_all head cs fl).blades
unfolding run_all all
run_all-Parked head [] fl e h = h
run_all-Parked head ((now, c) ∷ cs) fl e h =
    run_all-Parked head cs (run head now c fl) (ground arith)
      (run-Parked head now c fl (ground arith) h)
