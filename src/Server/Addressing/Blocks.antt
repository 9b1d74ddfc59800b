-- ===== src/Server/Addressing/Blocks.antt =====
-- Address blocks: nextRackOffset (server/db.go) and checkSite (server/ipam.go).
use mathlib.Core.Path.{subst}
use sheath.Prelude.{
  ◌⊎◌, leb→le, sym, ℕ, zero, suc, ◌+◌, ◌*◌, ◌<◌, ◌≤◌, ◌≡◌, ◌≢◌, refl, arith, Bool, true, false,
  List, [], ◌∷◌, ◌++◌, Option, none, some, leb, ◌==◌, any, All, map, select, Bool-cases, inl, inr,
}
use sheath.Server.Fleet.{Site, Rack}
use sheath.Server.Addressing.{
  next_offset, next_rack_offset, lo, hi, Warning, check_rack, check_racks, check_against,
  check_pairs, check_site,
}

abbrev taken : List ℕ → ℕ → Bool
taken used off = any (λ u. u == off) used

-- What the search returns from `off` on: a free block that lies on the grid and fits, or the
-- knowledge that every block that fits is taken.
abbrev IsAnswer : List ℕ → ℕ → ℕ → Option (Option ℕ) → Type 0
IsAnswer used step off none = ⊥
IsAnswer used step off (some none) =
    (k : ℕ) → off + k * step + step ≤ 250 → taken used (off + k * step) ≡ true
IsAnswer used step off (some (some o)) =
    (taken used o ≡ false) × (o + step ≤ 250) × ((k : ℕ) × (o ≡ off + k * step))

later_full :
    (used : List ℕ) (step off : ℕ)
    → taken used off ≡ true
    → IsAnswer used step (off + step) (some none)
    → (k : ℕ) → off + k * step + step ≤ 250
    → taken used (off + k * step) ≡ true
later_full used step off t a zero fits =
    let e : off + 0 * step ≡ off = omega arith in subst (λ o. taken used o ≡ true) (sym e) t
later_full used step off t a (suc k) fits =
    let e : off + suc k * step ≡ off + step + k * step = grind arith in
    subst (λ o. taken used o ≡ true) (sym e) (a k (grind arith))

later :
    (used : List ℕ) (step off : ℕ) (r : Option (Option ℕ))
    → taken used off ≡ true
    → IsAnswer used step (off + step) r
    → IsAnswer used step off r
later used step off none t a = a
later used step off (some none) t a = later_full used step off t a
later used step off (some (some o)) t (free, fits, at) = (free, fits, (suc at.0, grind arith))

next_offset_answer :
    (f : ℕ) (used : List ℕ) (step off : ℕ)
    → 0 < step
    → 0 < f
    → 251 ≤ f + off
    → IsAnswer used step off (next_offset f used step off)
unfolding next_offset
next_offset_answer zero used step off pos some_left enough = absurd (omega arith)
next_offset_answer (suc f) used step off pos some_left enough =
    elim (Bool-cases (leb (off + step) 250)) [
      | inr beyond ↦ rw beyond (λ k fits. absurd (ground arith))
      | inl fits ↦ rw fits (elim (Bool-cases (taken used off)) [
        | inl t ↦ rw t (
            later used step off _ t
              (next_offset_answer f used step (off + step) pos (ground arith) (omega arith)))
        | inr free ↦ rw free (free, leb→le _ _ fits, (0, omega arith))
      ])
    ]

abbrev pub taken_at : Site → List Rack → ℕ → Bool
taken_at st racks off =
    any (λ u. u == off)
      (map (λ (r : Rack). r.ip_offset) (select (λ (r : Rack). r.site_id == st.id) racks))

-- With a block size above 0 the search for a block ends. A block that it returns is free at this
-- site, lies on the site's grid and ends at .250 or below; where it returns none, every such
-- block is taken.
pub next_rack_offset_lem :
    (st : Site) (racks : List Rack)
    → 0 < st.offset_step
    → ((o : ℕ) × (next_rack_offset st racks ≡ some (some o))
        × (taken_at st racks o ≡ false)
        × (o + st.offset_step ≤ 250)
        × ((k : ℕ) × (o ≡ st.offset_base + k * st.offset_step)))
      ⊎ ((next_rack_offset st racks ≡ some none)
          × ((k : ℕ)
              → st.offset_base + k * st.offset_step + st.offset_step ≤ 250
              → taken_at st racks (st.offset_base + k * st.offset_step) ≡ true))
unfolding next_rack_offset
next_rack_offset_lem st racks pos =
    cases _ _
      (next_offset_answer 251 _ st.offset_step st.offset_base pos (omega arith) (omega arith))
  where
    cases :
        (used : List ℕ) (r : Option (Option ℕ))
        → IsAnswer used st.offset_step st.offset_base r
        → ((o : ℕ) × (r ≡ some (some o))
            × (taken used o ≡ false)
            × (o + st.offset_step ≤ 250)
            × ((k : ℕ) × (o ≡ st.offset_base + k * st.offset_step)))
          ⊎ ((r ≡ some none)
              × ((k : ℕ)
                  → st.offset_base + k * st.offset_step + st.offset_step ≤ 250
                  → taken used (st.offset_base + k * st.offset_step) ≡ true))
    cases used none a = absurd a
    cases used (some none) a = inr (refl, a)
    cases used (some (some o)) (free, fits, at) = inl (o, refl, free, fits, at)

-- Racks whose slots never get the same last number of an address.
abbrev pub IsDisjoint : Rack → Rack → Type 0
IsDisjoint r q =
    (s t : ℕ) → 1 ≤ s → s ≤ r.size → 1 ≤ t → t ≤ q.size → r.ip_offset + s ≢ q.ip_offset + t

abbrev pub AllDisjoint : List Rack → Type 0
AllDisjoint [] = Unit
AllDisjoint (r ∷ rs) = All (IsDisjoint r) rs × AllDisjoint rs

-- The rack's addresses end at .254 or below and stay out of the dynamic pool.
abbrev pub Fits : Site → Rack → Type 0
Fits st r =
    (r.ip_offset + r.size ≤ 254)
    × ((s : ℕ)
        → 1 ≤ s
        → s ≤ r.size
        → (r.ip_offset + s < st.pool_from) ⊎ (st.pool_to < r.ip_offset + s))

check_rack_facts :
    (st : Site) (r : Rack)
    → check_rack st r ≡ []
    → (hi r ≤ 254) × ((st.pool_to < lo r) ⊎ (hi r < st.pool_from))
unfolding check_rack
check_rack_facts st r h = ground arith

check_rack_sound : (st : Site) (r : Rack) → check_rack st r ≡ [] → Fits st r
check_rack_sound st r h =
    let (a, b) = check_rack_facts st r h in
    (a, λ s low high. elim b [ inl p ↦ inr (omega arith) | inr p ↦ inl (omega arith) ])

append-eq-nil : (xs ys : List Warning) → xs ++ ys ≡ [] → (xs ≡ []) × (ys ≡ [])
append-eq-nil [] ys h = (refl, h)
append-eq-nil (x ∷ xs) ys h = ground arith

check_racks_sound : (st : Site) (rs : List Rack) → check_racks st rs ≡ [] → All (Fits st) rs
unfolding check_racks
check_racks_sound st [] h = tt
check_racks_sound st (r ∷ rs) h =
    let (a, b) = append-eq-nil (check_rack st r) (check_racks st rs) h in
    (check_rack_sound st r a, check_racks_sound st rs b)

check_against_facts :
    (r q : Rack) (qs : List Rack)
    → check_against r (q ∷ qs) ≡ []
    → ((hi q < lo r) ⊎ (hi r < lo q)) × (check_against r qs ≡ [])
unfolding check_against
check_against_facts r q qs h = ground arith

IsDisjoint-of : (r q : Rack) → (hi q < lo r) ⊎ (hi r < lo q) → IsDisjoint r q
IsDisjoint-of r q (inl h) s t s1 s2 t1 t2 e = omega arith
IsDisjoint-of r q (inr h) s t s1 s2 t1 t2 e = omega arith

check_against_sound : (r : Rack) (qs : List Rack) → check_against r qs ≡ [] → All (IsDisjoint r) qs
check_against_sound r [] h = tt
check_against_sound r (q ∷ qs) h =
    let (a, b) = check_against_facts r q qs h in (IsDisjoint-of r q a, check_against_sound r qs b)

check_pairs_sound : (rs : List Rack) → check_pairs rs ≡ [] → AllDisjoint rs
unfolding check_pairs
check_pairs_sound [] h = tt
check_pairs_sound (r ∷ rs) h =
    let (a, b) = append-eq-nil (check_against r rs) (check_pairs rs) h in
    (check_against_sound r rs a, check_pairs_sound rs b)

abbrev pub racks_of : Site → List Rack → List Rack
racks_of st racks = select (λ (r : Rack). r.site_id == st.id) racks

-- Where the check of a site has nothing to say, every BladeRunner of the site ends at .254 or
-- below and stays out of the dynamic pool, and no two of them give a blade the same address.
pub check_site_sound :
    (st : Site) (racks : List Rack)
    → check_site st racks ≡ []
    → All (Fits st) (racks_of st racks) × AllDisjoint (racks_of st racks)
unfolding check_site
check_site_sound st racks h =
    let (a, b) =
      append-eq-nil (check_racks st (racks_of st racks)) (check_pairs (racks_of st racks)) h in
    (check_racks_sound st (racks_of st racks) a, check_pairs_sound (racks_of st racks) b)
