-- ===== src/Server/Placement/Service.antt =====
-- A blade that is placed is back in service; one that is put into a slot by hBladeUpdate is not.
use sheath.Prelude.{
  ap, ℕ, ◌≡◌, refl, inl, inr, arith, Bool, true, not, List, [], ◌∷◌, Option, none, some, Text, All,
  map, update_where, Bool-cases, Option-cases,
}
use sheath.Server.Fleet.{Blade, Fleet, is, set_blade, log_event, get_blade, get_rack}
use sheath.Server.Addressing.{valid_slot}
use sheath.Server.Placement.{
  occupied, put_in, place_in_rack, place_blade, Patch, patched, position, refuse_position,
  update_at, update_blade,
}
use sheath.Server.Placement.Slots.{sync_dhcp-blades, get_rack_id}

-- Where a blade stands in a slot, and is not put aside.
abbrev pub InService : Text → ℕ → ℕ → Blade → Type 0
InService serial r s b =
    is serial b ≡ true → (b.rack_id ≡ some r) × (b.slot ≡ some s) × (b.stored ≡ none)

put_in-InService :
    (serial : Text) (r s : ℕ) (f : Blade → Blade) (bs : List Blade)
    → ((b : Blade) → ((f b).rack_id ≡ some r) × ((f b).slot ≡ some s) × ((f b).stored ≡ none))
    → All (InService serial r s) (update_where (is serial) f bs)
unfolding update_where
put_in-InService serial r s f [] there = tt
put_in-InService serial r s f (b ∷ bs) there = elim (Bool-cases (is serial b)) [
  | inl e ↦ rw e ((λ _. there b), put_in-InService serial r s f bs there)
  | inr e ↦ rw e ((λ i. absurd (ground (arith, i, e))), put_in-InService serial r s f bs there)
]

place_in_rack-InService :
    (serial : Text) (r s : ℕ) (fl : Fleet)
    → (place_in_rack serial r s fl).1 ≡ none
    → All (InService serial r s) (place_in_rack serial r s fl).0.blades
unfolding place_in_rack set_blade
place_in_rack-InService serial r s fl ok = elim (Option-cases (get_rack r fl)) [
  | inl e ↦ absurd (ground arith)
  | inr (k, e) ↦ elim (Bool-cases (not (valid_slot k.size s))) [
    | inl bad ↦ absurd (ground arith)
    | inr good ↦ elim (Option-cases (occupied serial r s fl)) [
      | inr (x, taken) ↦ absurd (ground arith)
      | inl free ↦
          rw (e, place_in_rack, good, free)
            (put_in-InService serial r s (put_in fl k s) fl.blades
              (λ b. (ap some (get_rack_id r fl k e), refl, refl)))
    ]
  ]
]

-- When placeBlade puts a blade into a slot and returns no error, the blade stands in that slot of that
-- rack, and the mark that it was put aside is gone.
pub place_blade-InService :
    (serial : Text) (r s : ℕ) (fl : Fleet)
    → (place_blade serial (some r) (some s) fl).1 ≡ none
    → All (InService serial r s) (place_blade serial (some r) (some s) fl).0.blades
unfolding place_blade
place_blade-InService serial r s fl ok = elim (Option-cases (get_blade serial fl)) [
  | inl e ↦ absurd (ground arith)
  | inr (b, e) ↦ rw (e, place_blade) (place_in_rack-InService serial r s fl (accepted b e))
]
  where
    accepted : (b : Blade) → get_blade serial fl ≡ some b → (place_in_rack serial r s fl).1 ≡ none
    accepted b e = ground arith

map-update_where :
    (p : Blade → Bool) (f : Blade → Blade)
    → ((b : Blade) → (f b).stored ≡ b.stored)
    → (bs : List Blade)
    → map (λ (b : Blade). b.stored) (update_where p f bs) ≡ map (λ (b : Blade). b.stored) bs
unfolding update_where
map-update_where p f keeps [] = refl
map-update_where p f keeps (b ∷ bs) = elim (Bool-cases (p b)) [
  | inl e ↦ rw (e, keeps b, map-update_where p f keeps bs) refl
  | inr e ↦ rw (e, map-update_where p f keeps bs) refl
]

update_at-stored :
    (now : ℕ) (serial : Text) (in_ : Patch) (r s : Option ℕ) (fl : Fleet)
    → map (λ (b : Blade). b.stored) (update_at now serial in_ r s fl).0.blades
      ≡ map (λ (b : Blade). b.stored) fl.blades
unfolding update_at log_event set_blade
update_at-stored now serial in_ r s fl = elim (Option-cases (refuse_position serial r s fl)) [
  | inr (x, bad) ↦ rw (bad, update_at) refl
  | inl good ↦
      rw (good, update_at, sync_dhcp-blades now (set_blade serial (patched fl in_ r s) fl))
        (map-update_where (is serial) (patched fl in_ r s) (λ b. refl) fl.blades)
]

-- hBladeUpdate leaves the mark that a blade was put aside as it is, on every blade and whatever its
-- body says, also when it puts a blade that is marked into a slot.
pub update_blade-stored :
    (now : ℕ) (serial : Text) (in_ : Patch) (fl : Fleet)
    → map (λ (b : Blade). b.stored) (update_blade now serial in_ fl).0.blades
      ≡ map (λ (b : Blade). b.stored) fl.blades
unfolding update_blade
update_blade-stored now serial in_ fl = elim (Option-cases (get_blade serial fl)) [
  | inl e ↦ rw (e, update_blade) refl
  | inr (b, e) ↦
      rw (e, update_blade)
        (update_at-stored now serial in_ (position in_.rack_id b.rack_id) (position in_.slot b.slot)
          fl)
]
