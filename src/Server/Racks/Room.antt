-- ===== src/Server/Racks/Room.antt =====
-- Changing the racks leaves every blade a slot that its rack has.
use mathlib.Core.Path.{subst, sym}
use sheath.Prelude.{
  ==_iff, ℕ, ◌≡◌, ◌≤◌, ◌∙◌, refl, ap, ◌⊎◌, inl, inr, arith, Bool, true, false, not, ◌&&◌, List, [],
  ◌∷◌, Option, none, some, Text, ltb, ◌==◌, if◌then◌else◌, any, find_first, update_where, select,
  is_empty, Bool-cases, Option-cases,
}
use sheath.Server.Fleet.{Blade, Rack, Fleet, has_id, get_rack, get_site, log_event}
use sheath.Server.Addressing.{valid_slot, valid_size}
use sheath.Server.Placement.Slots.{get_rack_id, sync_dhcp-blades}
use sheath.Server.Racks.{
  insert_rack, comes_after, stands_in, max_slot, clashes, add_rack, NewRack, create_rack, site_for,
  block_for, resized, put_rack, update_rack, moved_to, refile, move_rack, delete_rack, free_block,
}
use sheath.Server.Racks.Inside.{room_at, Inside, AllInside}
use sheath.Server.Racks.Untouched.{sync_dhcp-racks}

-- Where each blade keeps its room.
keep-AllInside :
    (rs qs : List Rack) (bs : List Blade)
    → ((r s : ℕ) → room_at rs r s ≡ true → room_at qs r s ≡ true)
    → AllInside rs bs
    → AllInside qs bs
keep-AllInside rs qs [] keeps h = tt
keep-AllInside rs qs (b ∷ bs) keeps (hb, hbs) =
    (stays b.rack_id b.slot hb, keep-AllInside rs qs bs keeps hbs)
  where
    at_place : List Rack → Option ℕ → Option ℕ → Bool
    at_place ks r s = elim r [
      | none ↦ true
      | some n ↦ elim s [ none ↦ true | some m ↦ room_at ks n m ]
    ]

    stays : (r s : Option ℕ) → at_place rs r s ≡ true → at_place qs r s ≡ true
    stays none s h = refl
    stays (some n) none h = refl
    stays (some n) (some m) h = keeps n m h

find-insert_other :
    (r : ℕ) (k : Rack) (rs : List Rack)
    → has_id r k ≡ false
    → find_first (has_id r) (insert_rack k rs) ≡ find_first (has_id r) rs
unfolding find_first insert_rack
find-insert_other r k [] e = rw e refl
find-insert_other r k (q ∷ rs) e = elim (Bool-cases (comes_after k q)) [
  | inl later ↦ rw (later, find-insert_other r k rs e) refl
  | inr here ↦ rw (here, e) refl
]

find-insert_same :
    (r : ℕ) (k : Rack) (rs : List Rack)
    → has_id r k ≡ true
    → find_first (has_id r) rs ≡ none
    → find_first (has_id r) (insert_rack k rs) ≡ some k
unfolding find_first insert_rack
find-insert_same r k [] e absent = rw e refl
find-insert_same r k (q ∷ rs) e absent = elim (Bool-cases (comes_after k q)) [
  | inr here ↦ rw (here, e) refl
  | inl later ↦ elim (Bool-cases (has_id r q)) [
    | inl mine ↦ absurd (ground (arith, mine, absent))
    | inr other ↦ rw (later, other) (find-insert_same r k rs e (ground (arith, other, absent)))
  ]
]

find_absent : (r : ℕ) (rs : List Rack) → any (has_id r) rs ≡ false → find_first (has_id r) rs ≡ none
unfolding find_first any
find_absent r [] h = refl
find_absent r (q ∷ rs) h = ground (arith, h, find_absent r rs)

find-select_same :
    (r : ℕ) (rs : List Rack) → find_first (has_id r) (select (λ q. not (has_id r q)) rs) ≡ none
unfolding find_first select
find-select_same r [] = refl
find-select_same r (q ∷ rs) = elim (Bool-cases (has_id r q)) [
  | inl e ↦ rw e (find-select_same r rs)
  | inr e ↦ rw (e) (rw e (find-select_same r rs))
]

find-select_other :
    (r id : ℕ) (rs : List Rack)
    → (r == id) ≡ false
    → find_first (has_id r) (select (λ q. not (has_id id q)) rs) ≡ find_first (has_id r) rs
unfolding find_first select
find-select_other r id [] other = refl
find-select_other r id (q ∷ rs) other = elim (Bool-cases (has_id id q)) [
  | inl e ↦ ground (arith, e, other, find-select_other r id rs other)
  | inr e ↦ elim (Bool-cases (has_id r q)) [
    | inl f ↦ rw (e, f) refl
    | inr f ↦ rw (e, f) ((find-select_other r id rs other))
  ]
]

find-update_other :
    (r id : ℕ) (f : Rack → Rack) (rs : List Rack)
    → ((q : Rack) → (f q).id ≡ q.id)
    → (r == id) ≡ false
    → find_first (has_id r) (update_where (has_id id) f rs) ≡ find_first (has_id r) rs
unfolding find_first update_where
find-update_other r id f [] keeps other = refl
find-update_other r id f (q ∷ rs) keeps other = elim (Bool-cases (has_id id q)) [
  | inl e ↦ ground (arith, e, other, keeps q, find-update_other r id f rs keeps other)
  | inr e ↦ elim (Bool-cases (has_id r q)) [
    | inl g ↦ rw (e, g) refl
    | inr g ↦ rw (e, g) ((find-update_other r id f rs keeps other))
  ]
]

find-update_same :
    (r : ℕ) (f : Rack → Rack) (rs : List Rack) (k : Rack)
    → ((q : Rack) → (f q).id ≡ q.id)
    → find_first (has_id r) rs ≡ some k
    → find_first (has_id r) (update_where (has_id r) f rs) ≡ some (f k)
unfolding find_first update_where
find-update_same r f [] k keeps h = absurd (ground arith)
find-update_same r f (q ∷ rs) k keeps h = elim (Bool-cases (has_id r q)) [
  | inl mine ↦
      let it : some q ≡ some k = ground (arith, mine, h) in
      let kept : has_id r (f q) ≡ true = ground (arith, keeps q, mine) in
      rw (mine, kept) (ap (λ o. elim o [ none ↦ none | some x ↦ some (f x) ]) it)
  | inr other ↦ rw (other) (rw other (find-update_same r f rs k keeps (ground (arith, other, h))))
]

pub add_rack-AllInside :
    (k : Rack) (fl : Fleet)
    → any (has_id k.id) fl.racks ≡ false
    → AllInside fl.racks fl.blades
    → AllInside (add_rack k fl).0.racks (add_rack k fl).0.blades
unfolding add_rack log_event
add_rack-AllInside k fl fresh h = elim (Bool-cases (any (clashes k) fl.racks)) [
  | inl e ↦ rw (e, add_rack) h
  | inr e ↦ rw (e, add_rack) (keep-AllInside fl.racks (insert_rack k fl.racks) fl.blades room h)
]
  where
    room : (r s : ℕ) → room_at fl.racks r s ≡ true → room_at (insert_rack k fl.racks) r s ≡ true
    room r s hr = elim (Bool-cases (has_id r k)) [
      | inr other ↦ rw (find-insert_other r k fl.racks other, room_at) hr
      | inl mine ↦
          let gone : find_first (has_id r) fl.racks ≡ none =
            find_absent r fl.racks
              (subst (λ n. any (has_id n) fl.racks ≡ false) ((==_iff k.id r).0 mine) fresh) in
          absurd (ground (arith, gone, hr))
    ]

-- A BladeRunner is created under a key that no other has.
pub create_rack-AllInside :
    (id : ℕ) (in_ : NewRack) (fl : Fleet)
    → any (has_id id) fl.racks ≡ false
    → AllInside fl.racks fl.blades
    → AllInside (create_rack id in_ fl).0.racks (create_rack id in_ fl).0.blades
unfolding create_rack
create_rack-AllInside id in_ fl fresh h = elim (Bool-cases (is_empty in_.name)) [
  | inl e ↦ rw (e, create_rack) h
  | inr named ↦ elim (Bool-cases (not (valid_size in_.size))) [
    | inl e ↦ rw (named, create_rack, e) h
    | inr sized ↦ elim (Option-cases (site_for in_.site_id fl)) [
      | inl e ↦ rw (named, create_rack, sized, e) h
      | inr (site_id, at_site) ↦ elim (Option-cases (block_for in_.ip_offset site_id fl)) [
        | inl e ↦ rw (named, create_rack, sized, at_site, e) h
        | inr (off, at_block) ↦
            rw (named, create_rack, sized, at_site, at_block) (add_rack-AllInside _ fl fresh h)
      ]
    ]
  ]
]

-- A rack that keeps the slots in use.
max_slot-AllInside :
    (rs qs : List Rack) (id size : ℕ) (bs : List Blade)
    → ((r s : ℕ) → (r == id) ≡ false → room_at rs r s ≡ true → room_at qs r s ≡ true)
    → ((s : ℕ) → s ≤ size → room_at rs id s ≡ true → room_at qs id s ≡ true)
    → max_slot id bs ≤ size
    → AllInside rs bs
    → AllInside qs bs
unfolding max_slot
max_slot-AllInside rs qs id size [] elsewhere here most h = tt
max_slot-AllInside rs qs id size (b ∷ bs) elsewhere here most (hb, hbs) = (
  stays (Option-cases b.rack_id) (Option-cases b.slot),
  max_slot-AllInside rs qs id size bs elsewhere here (rest_most) hbs,
)
  where
    rest_most : max_slot id bs ≤ size
    rest_most = ground (arith, most)

    stays :
        (b.rack_id ≡ none) ⊎ ((r : ℕ) × (b.rack_id ≡ some r))
        → (b.slot ≡ none) ⊎ ((s : ℕ) × (b.slot ≡ some s))
        → Inside qs b
    stays (inl e) o = ground (arith, e)
    stays (inr (r, e)) (inl f) = ground (arith, e, f)
    stays (inr (r, e)) (inr (s, f)) = elim (Bool-cases (r == id)) [
      | inl mine ↦
          let same : r ≡ id = (==_iff r id).0 mine in
          let low : s ≤ size = ground (arith, e, f, mine, most) in
          let here_before : room_at rs r s ≡ true = ground (arith, e, f, hb) in
          let room : room_at qs id s ≡ true =
            here s low (subst (λ n. room_at rs n s ≡ true) same here_before) in
          let at_id : b.rack_id ≡ some id = e ∙ ap some same in ground (arith, at_id, f, room)
      | inr other ↦
          let room : room_at qs r s ≡ true = elsewhere r s other (ground (arith, e, f, hb)) in
          ground (arith, e, f, room)
    ]

more_slots : (old size s : ℕ) → old ≤ size → valid_slot old s ≡ true → valid_slot size s ≡ true
unfolding valid_slot
more_slots old size s grows fits = ground arith

low_slot : (old size s : ℕ) → s ≤ size → valid_slot old s ≡ true → valid_slot size s ≡ true
unfolding valid_slot
low_slot old size s low fits = ground arith

-- The rack gets another size, which is enough for the slots in use.
resize-AllInside :
    (id size : ℕ) (name location : Text) (k : Rack) (fl : Fleet)
    → find_first (has_id id) fl.racks ≡ some k
    → (k.size ≤ size) ⊎ (max_slot id fl.blades ≤ size)
    → AllInside fl.racks fl.blades
    → AllInside (update_where (has_id id) (resized name location size) fl.racks) fl.blades
resize-AllInside id size name location k fl found (inl grows) h =
    keep-AllInside fl.racks _ fl.blades
      (λ r s hr. elim (Bool-cases (r == id)) [
        | inr other ↦
            rw
              (
                find-update_other r id (resized name location size) fl.racks (λ q. refl) other,
                room_at,
              )
              hr
        | inl mine ↦
            let same : r ≡ id = (==_iff r id).0 mine in
            let before : room_at fl.racks id s ≡ true =
              subst (λ n. room_at fl.racks n s ≡ true) same hr in
            let fits : valid_slot k.size s ≡ true = ground (arith, found, before) in
            subst
              (λ n.
                room_at (update_where (has_id id) (resized name location size) fl.racks) n s ≡ true)
              (sym same)
              (rw
                (
                  find-update_same id (resized name location size) fl.racks k (λ q. refl) found,
                  room_at,
                )
                (more_slots k.size size s grows fits))
      ])
      h
resize-AllInside id size name location k fl found (inr used) h =
    max_slot-AllInside fl.racks _ id size fl.blades
      (λ r s other hr.
        rw (find-update_other r id (resized name location size) fl.racks (λ q. refl) other, room_at)
          hr)
      (λ s low hr.
        rw (find-update_same id (resized name location size) fl.racks k (λ q. refl) found, room_at)
          (low_slot k.size size s low (ground (arith, found, hr))))
      used h

pub update_rack-AllInside :
    (id size : ℕ) (name location : Text) (fl : Fleet)
    → AllInside fl.racks fl.blades
    → AllInside
        (update_rack id name location size fl).0.racks
        (update_rack id name location size fl).0.blades
unfolding update_rack put_rack get_rack
update_rack-AllInside id size name location fl h = elim (Option-cases (get_rack id fl)) [
  | inl e ↦ rw (e, update_rack) h
  | inr (k, found) ↦ elim (Bool-cases (not (valid_size (new_size k)))) [
    | inl bad ↦ rw (found, update_rack, bad) h
    | inr good ↦
        elim (Bool-cases (ltb (new_size k) k.size && ltb (new_size k) (max_slot id fl.blades))) [
          | inl shrinks ↦ rw (found, update_rack, good, shrinks) h
          | inr may ↦
              elim (Bool-cases
                (any (clashes (resized (new_name k) location (new_size k) k)) fl.racks)) [
                  | inl e ↦ rw (found, update_rack, good, may, e) h
                  | inr free ↦
                      rw (found, update_rack, good, may, free, get_rack_id id fl k found)
                        (resize-AllInside id (new_size k) (new_name k) location k fl found
                          (ground (arith, may)) h)
                ]
        ]
  ]
]
  where
    new_size : Rack → ℕ
    new_size k = if size == 0 then k.size else size

    new_name : Rack → Text
    new_name k = if is_empty name then k.name else name

refile-AllInside :
    (id : ℕ) (k q : Rack) (fl : Fleet)
    → has_id id q ≡ true
    → q.size ≡ k.size
    → find_first (has_id id) fl.racks ≡ some k
    → AllInside fl.racks fl.blades
    → AllInside (refile id q fl).racks (refile id q fl).blades
unfolding refile
refile-AllInside id k q fl mine_too size found h =
    keep-AllInside fl.racks _ fl.blades
      (λ r s hr. elim (Bool-cases (r == id)) [
        | inr other ↦
            rw
              (
                find-insert_other r q (select (λ x. not (has_id id x)) fl.racks)
                    (ground (arith, mine_too, other)),
                room_at,
                find-select_other r id fl.racks other,
              )
              hr
        | inl mine ↦
            let same : r ≡ id = (==_iff r id).0 mine in
            let before : room_at fl.racks id s ≡ true =
              subst (λ n. room_at fl.racks n s ≡ true) same hr in
            let fits : valid_slot q.size s ≡ true = ground (arith, found, before, size) in
            subst
              (λ n. room_at (insert_rack q (select (λ x. not (has_id id x)) fl.racks)) n s ≡ true)
              (sym same)
              (rw
                (
                  find-insert_same id q (select (λ x. not (has_id id x)) fl.racks) mine_too
                      (find-select_same id fl.racks),
                  room_at,
                )
                fits)
      ])
      h

pub move_rack-AllInside :
    (id site_id : ℕ) (fl : Fleet)
    → AllInside fl.racks fl.blades
    → AllInside (move_rack id site_id fl).0.racks (move_rack id site_id fl).0.blades
unfolding move_rack get_rack
move_rack-AllInside id site_id fl h = elim (Option-cases (get_rack id fl)) [
  | inl e ↦ rw (e, move_rack) h
  | inr (k, found) ↦ elim (Bool-cases (k.site_id == site_id)) [
    | inl stays ↦ rw (found, move_rack, stays) h
    | inr leaves ↦ elim (Option-cases (get_site site_id fl)) [
      | inl e ↦ rw (found, move_rack, leaves, e) h
      | inr (st, there) ↦ elim (Option-cases (free_block site_id fl)) [
        | inl e ↦ rw (found, move_rack, leaves, there, e) h
        | inr (off, free) ↦ elim (Bool-cases (any (clashes (moved_to site_id off k)) fl.racks)) [
          | inl e ↦ rw (found, move_rack, leaves, there, free, e) h
          | inr clear ↦
              rw (found, move_rack, leaves, there, free, clear)
                (refile-AllInside id k (moved_to site_id off k) fl
                  (ground (arith, get_rack_id id fl k found)) refl found h)
        ]
      ]
    ]
  ]
]

-- A rack in which no blade stands is not missed.
empty-AllInside :
    (rs : List Rack) (id : ℕ) (bs : List Blade)
    → any (stands_in id) bs ≡ false
    → AllInside rs bs
    → AllInside (select (λ r. not (has_id id r)) rs) bs
unfolding any
empty-AllInside rs id [] none_in h = tt
empty-AllInside rs id (b ∷ bs) none_in (hb, hbs) = (
  stays (Option-cases b.rack_id) (Option-cases b.slot),
  empty-AllInside rs id bs (ground (arith, none_in)) hbs,
)
  where
    stays :
        (b.rack_id ≡ none) ⊎ ((r : ℕ) × (b.rack_id ≡ some r))
        → (b.slot ≡ none) ⊎ ((s : ℕ) × (b.slot ≡ some s))
        → Inside (select (λ r. not (has_id id r)) rs) b
    stays (inl e) o = ground (arith, e)
    stays (inr (r, e)) (inl f) = ground (arith, e, f)
    stays (inr (r, e)) (inr (s, f)) =
        let other : (r == id) ≡ false = ground (arith, e, none_in) in
        let before : room_at rs r s ≡ true = ground (arith, e, f, hb) in
        let room : room_at (select (λ q. not (has_id id q)) rs) r s ≡ true =
          rw (find-select_other r id rs other, room_at) before in
        ground (arith, e, f, room)

pub delete_rack-AllInside :
    (now id : ℕ) (fl : Fleet)
    → AllInside fl.racks fl.blades
    → AllInside (delete_rack now id fl).0.racks (delete_rack now id fl).0.blades
unfolding delete_rack
delete_rack-AllInside now id fl h = elim (Bool-cases (any (stands_in id) fl.blades)) [
  | inl e ↦ rw (e, delete_rack) h
  | inr e ↦
      rw (e, delete_rack, sync_dhcp-racks, sync_dhcp-blades)
        (empty-AllInside fl.racks id fl.blades e h)
]
