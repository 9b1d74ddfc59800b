-- ===== src/Server/Addressing/Examples.antt =====
-- Names, addresses and blocks of the small installation.
use sheath.Prelude.{
  ℕ, ◌+◌, ◌*◌, ◌≤◌, ◌≡◌, ◌⊎◌, refl, arith, [], ◌∷◌, none, some, true, false, All, select,
}
use sheath.Server.Samples.{home, runner}
use sheath.Server.Fleet.{Rack}
use sheath.Server.Addressing.{
  next_rack_offset, check_site, check_racks, check_rack, check_pairs, check_against,
}
use sheath.Server.Addressing.Blocks.{
  taken_at, next_rack_offset_lem, AllDisjoint, Fits, racks_of, check_site_sound,
}

next_rack_offset_lem_example :
    ((o : ℕ) × (next_rack_offset home (runner ∷ []) ≡ some (some o))
      × (taken_at home (runner ∷ []) o ≡ false)
      × (o + 20 ≤ 250)
      × ((k : ℕ) × (o ≡ 100 + k * 20)))
    ⊎ ((next_rack_offset home (runner ∷ []) ≡ some none)
        × ((k : ℕ) → 100 + k * 20 + 20 ≤ 250 → taken_at home (runner ∷ []) (100 + k * 20) ≡ true))
next_rack_offset_lem_example = next_rack_offset_lem home (runner ∷ []) (omega arith)

abbrev second : Rack
second = record runner { id = 8; ip_offset = 120 }

check_site_sound_example :
    All (Fits home) (racks_of home (runner ∷ second ∷ []))
    × AllDisjoint (racks_of home (runner ∷ second ∷ []))
unfolding check_site check_racks check_rack check_pairs check_against select
check_site_sound_example = check_site_sound home (runner ∷ second ∷ []) refl
