-- ===== src/Server/Provision/Again.antt =====
-- What the mini OS is told when it comes back after a report that ended nothing.
use sheath.Prelude.{
  ℕ, ◌≡◌, refl, ap, ◌∙◌, inl, inr, arith, true, false, some, Text, is_empty, map, if◌then◌else◌,
  Bool-cases,
}
use sheath.Server.Fleet.{Blade, InstallState, Image, get_blade}
use sheath.Server.Reservations.{armed_state}
use sheath.Server.Targets.{get_image, install_target}
use sheath.Server.Provision.{
  Desk, Arrival, Report, Answer, go, wipe, Config, arrive, answer, hand_out, provision,
  provision_status, is_wiping, is_pending, url_of,
}
use sheath.Server.Provision.Reports.{ends, armed_for, provision_status-armed}
use sheath.Server.Provision.Standing.{order, arrive-Stands, status-Stands}

-- To erase the disk, or to write the image.
abbrev pub told_again : Text → (Blade → Config) → Image → Blade → Answer
told_again base_url config img c =
    let target = install_target (config c).target c.facts in
    if is_wiping c.install_state
    then wipe target c.token
    else go img (url_of base_url img) target c.token c.hostname (config c)

module _ (serial : Text) (b : Blade) (img : Image) (has_one : is_empty b.image ≡ false) where
  -- What a blade is told that is armed.
  answer-again :
      (base_url : Text) (config : Blade → Config) (now : ℕ) (c : Blade) (d : Desk)
      → armed_state b.install_state ≡ true
      → order c ≡ order b
      → get_image b.image d.fleet ≡ some img
      → (answer base_url config now serial c d).1 ≡ told_again base_url config img c
  unfolding answer hand_out
  answer-again base_url config now c d armed o i = elim (Bool-cases (is_wiping c.install_state)) [
    | inl w ↦ rw (no_blank, answer, w) refl
    | inr w ↦
        let p : is_pending c.install_state ≡ true = other c.install_state armed_too w in
        rw (no_blank, answer, w, p, hand_out, listed) refl
  ]
    where
      same_image : c.image ≡ b.image
      same_image = ap (λ (r : InstallState × Text × Text × Text). r.1) o

      no_blank : is_empty c.image ≡ false
      no_blank = ap is_empty same_image ∙ has_one

      armed_too : armed_state c.install_state ≡ true
      armed_too = ap (λ (r : InstallState × Text × Text × Text). armed_state r.0) o ∙ armed

      listed : get_image c.image d.fleet ≡ some img
      listed = ap (λ t. get_image t d.fleet) same_image ∙ i

      other : (s : InstallState) → armed_state s ≡ true → is_wiping s ≡ false → is_pending s ≡ true
      other s h k = ground arith

-- A report of a failure, a note, or progress leaves every blade armed as it was, and for the image it had.
-- A blade that was armed before it, with an image that is in the catalogue, is told the same again when its
-- mini OS comes back, whatever that sends: to erase the disk, or to write that image, with the token and the
-- name that it had before the report, and on the disk that its settings and its hardware name by then.
pub provision-provision_status :
    (tok base_url : Text) (config : Blade → Config) (now later : ℕ) (serial : Text) (in_ : Report)
    (next : Arrival) (d : Desk) (b : Blade) (img : Image)
    → ends in_ ≡ false
    → get_blade serial d.fleet ≡ some b
    → armed_state b.install_state ≡ true
    → is_empty b.image ≡ false
    → get_image b.image d.fleet ≡ some img
    → (map armed_for (provision_status now serial in_ d).fleet.blades
        ≡ map armed_for d.fleet.blades)
      × ((c : Blade) × (get_blade serial
              (arrive tok later serial next (provision_status now serial in_ d)).fleet
            ≡ some c)
          × (order c ≡ order b)
          × ((provision tok base_url config later serial next (provision_status now serial in_ d)).1
              ≡ told_again base_url config img c))
unfolding provision
provision-provision_status tok base_url config now later serial in_ next d b img e found armed
      has_one i =
    (provision_status-armed now serial in_ d e, again)
  where
    back : Desk
    back = arrive tok later serial next (provision_status now serial in_ d)

    stands :
        ((c : Blade) × (get_blade serial back.fleet ≡ some c) × (order c ≡ order b))
        × (get_image b.image back.fleet ≡ some img)
    stands =
        arrive-Stands serial b img has_one tok later next (provision_status now serial in_ d)
          (status-Stands serial b img has_one now in_ d e ((b, found, refl), i))

    again :
        (c : Blade) × (get_blade serial back.fleet ≡ some c)
        × (order c ≡ order b)
        × ((provision tok base_url config later serial next (provision_status now serial in_ d)).1
            ≡ told_again base_url config img c)
    again = (
      stands.0.0,
      stands.0.1,
      stands.0.2,
      rw (provision, stands.0.1)
          (answer-again serial b img has_one base_url config later stands.0.0 back armed stands.0.2
            stands.1),
    )
