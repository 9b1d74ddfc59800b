-- ===== src/Server/Placement/Slots.antt =====
-- No slot holds two blades, whatever placeBlade and hBladeUpdate are asked for.
use sheath.Prelude.{
  find_first_sound, ℕ, ◌≡◌, ◌⊎◌, inl, inr, refl, ap, arith, Bool, true, false, not, ◌&&◌, List, [],
  ◌∷◌, Option, none, some, ◌==◌, ==_iff, if◌then◌else◌, Text, text_eq, text_eq_iff, find_first,
  update_where, All, Bool-cases, Option-cases,
}
use sheath.Server.Fleet.{Blade, Rack, Fleet, is, set_blade, log_event, get_blade, get_rack}
use sheath.Server.Reservations.{write_hosts, stopped, synced, finish_sync, Sync, sync_dhcp}
use sheath.Server.Placement.{
  valid_slot, at, other_at, occupied, taken_out, put_in, place_in_rack, place_blade, Patch, patched,
  position, refuse_position, update_at, update_blade,
}

-- Two blades in one slot.
abbrev pub same_slot : Blade → Blade → Bool
same_slot a b = elim a.rack_id [
  | none ↦ false
  | some r ↦ elim a.slot [ none ↦ false | some s ↦ at r s b ]
]

abbrev pub Apart : Blade → Blade → Type 0
Apart a b = (text_eq b.serial a.serial ≡ false) × (same_slot a b ≡ false)

-- Serials are distinct, and so are the slots of the blades that stand in one.
abbrev pub AllApart : List Blade → Type 0
AllApart [] = Unit
AllApart (b ∷ bs) = All (Apart b) bs × AllApart bs

other_serial :
    (a : Blade) (bs : List Blade) (s : Text) (f : Blade → Blade)
    → text_eq a.serial s ≡ true
    → All (Apart a) bs
    → update_where (is s) f bs ≡ bs
unfolding update_where
other_serial a [] s f e h = refl
other_serial a (b ∷ bs) s f e (hb, hbs) = ground (
  arith,
  text_eq_iff a.serial s,
  text_eq_iff b.serial s,
  text_eq_iff b.serial a.serial,
  other_serial a bs s f e hbs,
)

module _ (serial : Text) (f : Blade → Blade) (clash : Blade → Bool)
    (keeps : (b : Blade) → (f b).serial ≡ b.serial)
    (left : (a b : Blade) → clash b ≡ false → same_slot (f a) b ≡ false)
    (right : (a b : Blade) → clash a ≡ false → same_slot a (f b) ≡ false) where
  -- No other blade is in the way of the one that `f` moves.
  abbrev Free : List Blade → Type 0
  Free = All (λ b. (is serial b ≡ true) ⊎ (clash b ≡ false))

  head_moves :
      (a : Blade) (bs : List Blade)
      → is serial a ≡ true
      → Free bs
      → All (Apart a) bs
      → All (Apart (f a)) bs
  head_moves a [] e free h = tt
  head_moves a (b ∷ bs) e (fb, fbs) (hb, hbs) =
      ((ground (arith, keeps a, hb.0), clear fb), head_moves a bs e fbs hbs)
    where
      clear : (is serial b ≡ true) ⊎ (clash b ≡ false) → same_slot (f a) b ≡ false
      clear (inl same) = absurd (
          ground (
            arith,
            text_eq_iff a.serial serial,
            text_eq_iff b.serial serial,
            text_eq_iff b.serial a.serial,
          ))
      clear (inr c) = left a b c

  rest_moves :
      (a : Blade) (bs : List Blade)
      → clash a ≡ false
      → All (Apart a) bs
      → All (Apart a) (update_where (is serial) f bs)
  unfolding update_where
  rest_moves a [] c h = tt
  rest_moves a (b ∷ bs) c (hb, hbs) = elim (Bool-cases (is serial b)) [
    | inl same ↦ rw same ((ground (arith, keeps b, hb.0), right a b c), rest_moves a bs c hbs)
    | inr other ↦ rw other (hb, rest_moves a bs c hbs)
  ]

  move-AllApart :
      (bs : List Blade) → Free bs → AllApart bs → AllApart (update_where (is serial) f bs)
  unfolding update_where
  move-AllApart [] free h = tt
  move-AllApart (a ∷ bs) (fa, fbs) (ha, hbs) = elim (Bool-cases (is serial a)) [
    | inl same ↦
        rw same (rw (other_serial a bs serial f same ha) (head_moves a bs same fbs ha, hbs))
    | inr other ↦ rw other (rest_moves a bs (in_the_way other fa) ha, move-AllApart bs fbs hbs)
  ]
    where
      in_the_way : is serial a ≡ false → (is serial a ≡ true) ⊎ (clash a ≡ false) → clash a ≡ false
      in_the_way other (inl same) = cc
      in_the_way other (inr c) = c

-- A blade at (r, s) clashes with those that stand there.
at_left :
    (r s : ℕ) (a b : Blade)
    → a.rack_id ≡ some r
    → a.slot ≡ some s
    → at r s b ≡ false
    → same_slot a b ≡ false
at_left r s a b e f h = ground arith

at_right :
    (r s : ℕ) (a b : Blade)
    → b.rack_id ≡ some r
    → b.slot ≡ some s
    → at r s a ≡ false
    → same_slot a b ≡ false
at_right r s a b e f h = ground (arith)

nowhere_left : (a b : Blade) → (a.rack_id ≡ none) ⊎ (a.slot ≡ none) → same_slot a b ≡ false
nowhere_left a b h = ground arith

nowhere_right : (a b : Blade) → (b.rack_id ≡ none) ⊎ (b.slot ≡ none) → same_slot a b ≡ false
nowhere_right a b h = ground arith

free_of_find :
    (serial : Text) (r s : ℕ) (bs : List Blade)
    → find_first (other_at serial r s) bs ≡ none
    → All (λ b. (is serial b ≡ true) ⊎ (at r s b ≡ false)) bs
unfolding find_first
free_of_find serial r s [] h = tt
free_of_find serial r s (b ∷ bs) h = elim (Bool-cases (other_at serial r s b)) [
  | inl o ↦ absurd (ground arith)
  | inr n ↦ (free_here (at r s b) (is serial b) n, free_of_find serial r s bs (ground arith))
]
  where
    free_here : (a i : Bool) → (a && not i) ≡ false → (i ≡ true) ⊎ (a ≡ false)
    free_here a i n = ground arith

occupied_free :
    (serial : Text) (r s : ℕ) (fl : Fleet)
    → occupied serial r s fl ≡ none
    → find_first (other_at serial r s) fl.blades ≡ none
unfolding occupied
occupied_free serial r s fl h = ground arith

nobody_there :
    (serial : Text) (bs : List Blade) → All (λ b. (is serial b ≡ true) ⊎ (false ≡ false)) bs
nobody_there serial [] = tt
nobody_there serial (b ∷ bs) = (inr refl, nobody_there serial bs)

-- Moving one blade to a slot that no other stands in.
put-AllApart :
    (serial : Text) (r s : ℕ) (f : Blade → Blade) (bs : List Blade)
    → ((b : Blade) → (f b).serial ≡ b.serial)
    → ((b : Blade) → (f b).rack_id ≡ some r)
    → ((b : Blade) → (f b).slot ≡ some s)
    → find_first (other_at serial r s) bs ≡ none
    → AllApart bs
    → AllApart (update_where (is serial) f bs)
put-AllApart serial r s f bs keeps rack slot none_there =
    move-AllApart serial f (at r s) keeps (λ a b c. at_left r s (f a) b (rack a) (slot a) c)
      (λ a b c. at_right r s a (f b) (rack b) (slot b) c) bs (free_of_find serial r s bs none_there)

-- Taking one blade out of its rack or its slot.
pub out-AllApart :
    (serial : Text) (f : Blade → Blade) (bs : List Blade)
    → ((b : Blade) → (f b).serial ≡ b.serial)
    → ((b : Blade) → ((f b).rack_id ≡ none) ⊎ ((f b).slot ≡ none))
    → AllApart bs
    → AllApart (update_where (is serial) f bs)
out-AllApart serial f bs keeps out =
    move-AllApart serial f (λ _. false) keeps (λ a b c. nowhere_left (f a) b (out a))
      (λ a b c. nowhere_right a (f b) (out b)) bs (nobody_there serial bs)

pub get_rack_id : (r : ℕ) (fl : Fleet) (k : Rack) → get_rack r fl ≡ some k → k.id ≡ r
unfolding get_rack
get_rack_id r fl k h = (==_iff k.id r).0 (find_first_sound (λ (q : Rack). q.id == r) fl.racks k h)

place_in_rack-AllApart :
    (serial : Text) (r s : ℕ) (fl : Fleet)
    → AllApart fl.blades
    → AllApart (place_in_rack serial r s fl).0.blades
unfolding place_in_rack set_blade
place_in_rack-AllApart serial r s fl h = elim (Option-cases (get_rack r fl)) [
  | inl e ↦ rw (e, place_in_rack) h
  | inr (k, e) ↦ elim (Bool-cases (not (valid_slot k.size s))) [
    | inl bad ↦ rw (e, place_in_rack, bad) h
    | inr good ↦ elim (Option-cases (occupied serial r s fl)) [
      | inr (x, taken) ↦ rw (e, place_in_rack, good, taken) h
      | inl free ↦
          rw (e, place_in_rack, good, free)
            (put-AllApart serial r s (put_in fl k s) fl.blades (λ b. refl)
              (λ b. ap some (get_rack_id r fl k e)) (λ b. refl) (occupied_free serial r s fl free)
              h)
    ]
  ]
]

taken_out-AllApart :
    (serial : Text) (fl : Fleet)
    → AllApart fl.blades
    → AllApart (set_blade serial taken_out fl).blades
unfolding set_blade
taken_out-AllApart serial fl h =
    out-AllApart serial taken_out fl.blades (λ b. refl) (λ b. inl refl) h

-- Whatever placeBlade is asked for, and whether it refuses or not, serials stay distinct and no two
-- blades come to stand in one slot.
pub place_blade-AllApart :
    (serial : Text) (rack_id slot : Option ℕ) (fl : Fleet)
    → AllApart fl.blades
    → AllApart (place_blade serial rack_id slot fl).0.blades
unfolding place_blade
place_blade-AllApart serial none slot fl h = elim (Option-cases (get_blade serial fl)) [
  | inl e ↦ rw (e, place_blade) h
  | inr (b, e) ↦ rw (e, place_blade) (taken_out-AllApart serial fl h)
]
place_blade-AllApart serial (some r) none fl h = elim (Option-cases (get_blade serial fl)) [
  | inl e ↦ rw (e, place_blade) h
  | inr (b, e) ↦ rw (e, place_blade) (taken_out-AllApart serial fl h)
]
place_blade-AllApart serial (some r) (some s) fl h = elim (Option-cases (get_blade serial fl)) [
  | inl e ↦ rw (e, place_blade) h
  | inr (b, e) ↦ rw (e, place_blade) (place_in_rack-AllApart serial r s fl h)
]

pub sync_dhcp-blades : (now : ℕ) (fl : Fleet) → (sync_dhcp now fl).blades ≡ fl.blades
unfolding sync_dhcp
sync_dhcp-blades now fl = either fl.local_dhcp (write_hosts now fl fl.blades fl.hosts [])
  where
    either : (here : Bool) (w : Sync) → (if here then finish_sync fl w else fl).blades ≡ fl.blades
    either true (synced hosts want) = refl
    either true (stopped hosts) = refl
    either false w = refl

-- A position that is not refused.
patched-AllApart :
    (serial : Text) (in_ : Patch) (rack_id slot : Option ℕ) (fl : Fleet)
    → refuse_position serial rack_id slot fl ≡ none
    → AllApart fl.blades
    → AllApart (set_blade serial (patched fl in_ rack_id slot) fl).blades
unfolding set_blade refuse_position
patched-AllApart serial in_ none slot fl e h =
    out-AllApart serial (patched fl in_ none slot) fl.blades (λ b. refl) (λ b. inl refl) h
patched-AllApart serial in_ (some r) none fl e h =
    out-AllApart serial (patched fl in_ (some r) none) fl.blades (λ b. refl) (λ b. inr refl) h
patched-AllApart serial in_ (some r) (some s) fl e h =
    put-AllApart serial r s (patched fl in_ (some r) (some s)) fl.blades (λ b. refl) (λ b. refl)
      (λ b. refl) (occupied_free serial r s fl (ground (arith))) h

update_at-AllApart :
    (now : ℕ) (serial : Text) (in_ : Patch) (r s : Option ℕ) (fl : Fleet)
    → AllApart fl.blades
    → AllApart (update_at now serial in_ r s fl).0.blades
unfolding update_at log_event
update_at-AllApart now serial in_ r s fl h = elim (Option-cases (refuse_position serial r s fl)) [
  | inr (x, bad) ↦ rw (bad, update_at) h
  | inl good ↦
      rw (good, update_at, sync_dhcp-blades now (set_blade serial (patched fl in_ r s) fl))
        (patched-AllApart serial in_ r s fl good h)
]

-- The same of hBladeUpdate, whatever its body says.
pub update_blade-AllApart :
    (now : ℕ) (serial : Text) (in_ : Patch) (fl : Fleet)
    → AllApart fl.blades
    → AllApart (update_blade now serial in_ fl).0.blades
unfolding update_blade
update_blade-AllApart now serial in_ fl h = elim (Option-cases (get_blade serial fl)) [
  | inl e ↦ rw (e, update_blade) h
  | inr (b, e) ↦
      rw (e, update_blade)
        (update_at-AllApart now serial in_ (position in_.rack_id b.rack_id)
          (position in_.slot b.slot) fl h)
]
