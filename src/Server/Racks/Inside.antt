-- ===== src/Server/Racks/Inside.antt =====
-- A blade that stands in a rack stands in a slot that the rack has.
use sheath.Prelude.{
  ℕ, ◌≡◌, refl, ◌⊎◌, inl, inr, ap, arith, Bool, true, false, not, List, [], ◌∷◌, Option, none, some,
  Text, All, find_first, update_where, select, Bool-cases, Option-cases,
}
use sheath.Server.Fleet.{Blade, Rack, Fleet, is, has_id, get_rack, get_blade, set_blade, log_event}
use sheath.Server.Addressing.{valid_slot}
use sheath.Server.Placement.{
  occupied, taken_out, put_in, place_in_rack, place_blade, Patch, patched, position,
  refuse_position, update_at, update_blade,
}
use sheath.Server.Placement.Slots.{get_rack_id, sync_dhcp-blades}
use sheath.Server.Lifecycle.Changes.{Change, same, edit, leave, drop, both}

-- A slot of a rack that there is, for a blade that stands in one.
abbrev pub room_at : List Rack → ℕ → ℕ → Bool
room_at racks r s = elim (find_first (has_id r) racks) [
  | none ↦ false
  | some k ↦ valid_slot k.size s
]

abbrev pub inside : List Rack → Blade → Bool
inside racks b = elim b.rack_id [
  | none ↦ true
  | some r ↦ elim b.slot [ none ↦ true | some s ↦ room_at racks r s ]
]

abbrev pub Inside : List Rack → Blade → Type 0
Inside racks b = inside racks b ≡ true

abbrev pub AllInside : List Rack → List Blade → Type 0
AllInside racks bs = All (Inside racks) bs

-- Blades stay inside when the racks keep the room that each has.
widen :
    (rs qs : List Rack) (bs : List Blade)
    → ((b : Blade) → Inside rs b → Inside qs b)
    → AllInside rs bs
    → AllInside qs bs
widen rs qs [] keeps h = tt
widen rs qs (b ∷ bs) keeps (hb, hbs) = (keeps b hb, widen rs qs bs keeps hbs)

select-AllInside :
    (rs : List Rack) (p : Blade → Bool) (bs : List Blade)
    → AllInside rs bs
    → AllInside rs (select p bs)
unfolding select
select-AllInside rs p [] h = tt
select-AllInside rs p (b ∷ bs) (hb, hbs) = elim (Bool-cases (p b)) [
  | inl e ↦ rw e (hb, select-AllInside rs p bs hbs)
  | inr e ↦ rw e (select-AllInside rs p bs hbs)
]

pub update-AllInside :
    (rs : List Rack) (p : Blade → Bool) (f : Blade → Blade) (bs : List Blade)
    → ((b : Blade) → Inside rs b → Inside rs (f b))
    → AllInside rs bs
    → AllInside rs (update_where p f bs)
unfolding update_where
update-AllInside rs p f [] keeps h = tt
update-AllInside rs p f (b ∷ bs) keeps (hb, hbs) = elim (Bool-cases (p b)) [
  | inl e ↦ rw e (keeps b hb, update-AllInside rs p f bs keeps hbs)
  | inr e ↦ rw e (hb, update-AllInside rs p f bs keeps hbs)
]

stays-Inside :
    (rs : List Rack) (a b : Blade)
    → a.rack_id ≡ b.rack_id
    → a.slot ≡ b.slot
    → Inside rs b
    → Inside rs a
stays-Inside rs a b er es h = ground (arith, er, es, h)

pub Change-AllInside :
    {bs cs : List Blade} (rs : List Rack) → Change bs cs → AllInside rs bs → AllInside rs cs
Change-AllInside rs same h = h
Change-AllInside rs (edit p f stays) h =
    update-AllInside rs p f _ (λ b hb. stays-Inside rs (f b) b (stays b).1 (stays b).2 hb) h
Change-AllInside rs (leave serial f out) h =
    update-AllInside rs (is serial) f _ (λ b hb. rw ((out b).1) refl) h
Change-AllInside rs (drop p) h = select-AllInside rs p _ h
Change-AllInside rs (both first second) h = Change-AllInside rs second (Change-AllInside rs first h)

-- One blade is put into a slot that the rack has.
put-AllInside :
    (rs : List Rack) (serial : Text) (r s : ℕ) (f : Blade → Blade) (bs : List Blade)
    → ((b : Blade) → (f b).rack_id ≡ some r)
    → ((b : Blade) → (f b).slot ≡ some s)
    → room_at rs r s ≡ true
    → AllInside rs bs
    → AllInside rs (update_where (is serial) f bs)
put-AllInside rs serial r s f bs at_rack at_slot room h =
    update-AllInside rs (is serial) f bs (λ b hb. there b) h
  where
    there : (b : Blade) → Inside rs (f b)
    there b = ground (arith, at_rack b, at_slot b, room)

out-AllInside :
    (rs : List Rack) (serial : Text) (f : Blade → Blade) (bs : List Blade)
    → ((b : Blade) → ((f b).rack_id ≡ none) ⊎ ((f b).slot ≡ none))
    → AllInside rs bs
    → AllInside rs (update_where (is serial) f bs)
out-AllInside rs serial f bs out h = update-AllInside rs (is serial) f bs (λ b hb. gone b (out b)) h
  where
    gone : (b : Blade) → ((f b).rack_id ≡ none) ⊎ ((f b).slot ≡ none) → Inside rs (f b)
    gone b o = ground (arith, o)

place_in_rack-AllInside :
    (serial : Text) (r s : ℕ) (fl : Fleet)
    → AllInside fl.racks fl.blades
    → AllInside fl.racks (place_in_rack serial r s fl).0.blades
unfolding place_in_rack set_blade get_rack
place_in_rack-AllInside serial r s fl h = elim (Option-cases (get_rack r fl)) [
  | inl e ↦ rw (e, place_in_rack) h
  | inr (k, e) ↦ elim (Bool-cases (not (valid_slot k.size s))) [
    | inl bad ↦ rw (e, place_in_rack, bad) h
    | inr good ↦ elim (Option-cases (occupied serial r s fl)) [
      | inr (x, taken) ↦ rw (e, place_in_rack, good, taken) h
      | inl free ↦
          rw (e, place_in_rack, good, free)
            (put-AllInside fl.racks serial r s (put_in fl k s) fl.blades
              (λ b. ap some (get_rack_id r fl k e)) (λ b. refl) (ground (arith, e, good)) h)
    ]
  ]
]

pub place_blade-AllInside :
    (serial : Text) (r s : Option ℕ) (fl : Fleet)
    → AllInside fl.racks fl.blades
    → AllInside fl.racks (place_blade serial r s fl).0.blades
unfolding place_blade set_blade
place_blade-AllInside serial none s fl h = elim (Option-cases (get_blade serial fl)) [
  | inl e ↦ rw (e, place_blade) h
  | inr (b, e) ↦
      rw (e, place_blade) (out-AllInside fl.racks serial taken_out fl.blades (λ b. inl refl) h)
]
place_blade-AllInside serial (some r) none fl h = elim (Option-cases (get_blade serial fl)) [
  | inl e ↦ rw (e, place_blade) h
  | inr (b, e) ↦
      rw (e, place_blade) (out-AllInside fl.racks serial taken_out fl.blades (λ b. inl refl) h)
]
place_blade-AllInside serial (some r) (some s) fl h = elim (Option-cases (get_blade serial fl)) [
  | inl e ↦ rw (e, place_blade) h
  | inr (b, e) ↦ rw (e, place_blade) (place_in_rack-AllInside serial r s fl h)
]

-- A position that is not refused.
patched-AllInside :
    (serial : Text) (in_ : Patch) (r s : Option ℕ) (fl : Fleet)
    → refuse_position serial r s fl ≡ none
    → AllInside fl.racks fl.blades
    → AllInside fl.racks (set_blade serial (patched fl in_ r s) fl).blades
unfolding set_blade refuse_position get_rack
patched-AllInside serial in_ none s fl e h =
    out-AllInside fl.racks serial (patched fl in_ none s) fl.blades (λ b. inl refl) h
patched-AllInside serial in_ (some r) none fl e h =
    out-AllInside fl.racks serial (patched fl in_ (some r) none) fl.blades (λ b. inr refl) h
patched-AllInside serial in_ (some r) (some s) fl e h = elim (Option-cases (get_rack r fl)) [
  | inl missing ↦ absurd (ground (arith, missing, e))
  | inr (k, found) ↦
      put-AllInside fl.racks serial r s (patched fl in_ (some r) (some s)) fl.blades (λ b. refl)
        (λ b. refl) (ground (arith, found, e)) h
]

update_at-AllInside :
    (now : ℕ) (serial : Text) (in_ : Patch) (r s : Option ℕ) (fl : Fleet)
    → AllInside fl.racks fl.blades
    → AllInside fl.racks (update_at now serial in_ r s fl).0.blades
unfolding update_at log_event
update_at-AllInside now serial in_ r s fl h = elim (Option-cases (refuse_position serial r s fl)) [
  | inr (x, bad) ↦ rw (bad, update_at) h
  | inl good ↦
      rw (good, update_at, sync_dhcp-blades now (set_blade serial (patched fl in_ r s) fl))
        (patched-AllInside serial in_ r s fl good h)
]

pub update_blade-AllInside :
    (now : ℕ) (serial : Text) (in_ : Patch) (fl : Fleet)
    → AllInside fl.racks fl.blades
    → AllInside fl.racks (update_blade now serial in_ fl).0.blades
unfolding update_blade
update_blade-AllInside now serial in_ fl h = elim (Option-cases (get_blade serial fl)) [
  | inl e ↦ rw (e, update_blade) h
  | inr (b, e) ↦
      rw (e, update_blade)
        (update_at-AllInside now serial in_ (position in_.rack_id b.rack_id)
          (position in_.slot b.slot) fl h)
]
