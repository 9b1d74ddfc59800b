-- ===== src/Server/Enroll/Examples.antt =====
-- A site is given a code, and signs in with it twice.
use sheath.Prelude.{
  some, ◌≡◌, ◌+◌, refl, codes, ltb, if◌then◌else◌, text_eq, find_first, select, update_where,
  trim_space, trim_left, is_space, to_upper, inl, inr,
}
use sheath.Server.Fleet.{Fleet, get_site, log_event}
use sheath.Server.Samples.{fleet, home}
use sheath.Server.Enroll.{
  Answer, enroll_window, normalise_code, make_enroll_code, not_valid, expired, enrolled,
  site_enroll,
}
use sheath.Server.Enroll.Codes.{row_after, site_enroll-once, make_enroll_code-site_enroll}

abbrev given : Fleet
given = (make_enroll_code 1 (codes "ABCD-EFGH") 100 fleet).0

site_enroll-once_example :
    (site_enroll
      (codes "abcdefgh")
      (codes "b")
      (codes "t2")
      120
      (site_enroll (codes "ABCD-EFGH") (codes "a") (codes "t1") 110 given).0).1
    ≡ not_valid
unfolding make_enroll_code get_site find_first normalise_code select trim_space trim_left is_space
    to_upper text_eq log_event update_where
site_enroll-once_example =
    site_enroll-once (codes "ABCD-EFGH") (codes "abcdefgh") (codes "a") (codes "b") (codes "t1")
      (codes "t2") 110 120 1 given refl refl (inr refl, tt)

abbrev typed : Fleet × Answer
typed =
    site_enroll (codes " abcd efgh") (codes "a") (codes "t1") 200
      (make_enroll_code 1 (codes "ABCD-EFGH") 100 fleet).0

make_enroll_code-site_enroll_example :
    (typed.1 ≡ (if ltb (100 + enroll_window) 200 then expired else enrolled 1 (codes "t1")))
    × (get_site 1 typed.0 ≡ some (row_after (ltb (100 + enroll_window) 200) (codes "t1") home))
unfolding get_site find_first normalise_code select trim_space trim_left is_space to_upper text_eq
make_enroll_code-site_enroll_example =
    make_enroll_code-site_enroll 1 100 200 (codes "ABCD-EFGH") (codes " abcd efgh") (codes "a")
      (codes "t1") home fleet refl refl refl (inl refl, tt)
