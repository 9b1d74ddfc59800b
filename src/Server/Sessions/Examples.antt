-- ===== src/Server/Sessions/Examples.antt =====
-- A session that outlives another's sign-out, and a page it may not see.
use sheath.Prelude.{◌≡◌, ◌+◌, refl, [], ◌∷◌, none, some, codes, ltb, if◌then◌else◌, text_eq}
use sheath.Server.Accounts.{admin, operator}
use sheath.Server.Sessions.{session_ttl, create, lookup}
use sheath.Server.Sessions.Store.{created, dropped, reaped, happen_all, lookup-created}

lookup-created_example :
    (lookup (codes "s1") 900 (
      happen_all
        ((600, created (codes "s2") (codes "eve") admin)
          ∷ (700, reaped)
          ∷ (800, dropped (codes "s2"))
          ∷ [])
        (create (codes "s1") (codes "ann") operator 500 []))).0
    ≡ (if ltb (500 + session_ttl) 900
        then none
        else some (record { name = codes "ann"; role = operator; exp = 500 + session_ttl }))
unfolding text_eq
lookup-created_example =
    lookup-created (codes "s1") (codes "ann") operator 500 900
      ((600, created (codes "s2") (codes "eve") admin)
        ∷ (700, reaped)
        ∷ (800, dropped (codes "s2"))
        ∷ [])
      [] tt refl refl
