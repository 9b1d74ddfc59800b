-- ===== src/Server/Calls/Examples.antt =====
-- A blade that is moved into a taken slot, and one that is reset and comes back.
use sheath.Prelude.{[], ◌∷◌, none, some, refl, inl, inr, codes, All, text_eq, all}
use sheath.Server.Samples.{fleet}
use sheath.Server.Placement.Slots.{AllApart}
use sheath.Server.Calls.{place, put_by, tick, run_all}
use sheath.Server.Calls.Slots.{run_all-AllApart}
use sheath.Server.Calls.Aside.{Parked, run_all-Parked}

run_all-AllApart_example :
    AllApart
      (run_all
        (λ _. none)
        ((100, place (codes "aa") (some 7) (some 2)) ∷ (101, tick) ∷ [])
        fleet).blades
unfolding text_eq
run_all-AllApart_example =
    run_all-AllApart (λ _. none) ((100, place (codes "aa") (some 7) (some 2)) ∷ (101, tick) ∷ [])
      fleet (((refl, refl), tt), (tt, tt))

run_all-Parked_example :
    All Parked
      (run_all
        (λ _. none)
        ((100, put_by (codes "bb")) ∷ (200, place (codes "bb") (some 7) (some 3)) ∷ [])
        fleet).blades
unfolding all
run_all-Parked_example =
    run_all-Parked (λ _. none)
      ((100, put_by (codes "bb")) ∷ (200, place (codes "bb") (some 7) (some 3)) ∷ []) fleet refl
      (inr refl, (inl refl, tt))
