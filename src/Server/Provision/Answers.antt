-- ===== src/Server/Provision/Answers.antt =====
-- When a mini OS is told to write a disk.
use sheath.Prelude.{
  ℕ, ◌≡◌, refl, inl, inr, arith, Bool, true, false, some, Text, is_empty, Bool-cases, Option-cases,
}
use sheath.Server.Fleet.{Blade, Image, Fleet, InstallState, pending, get_blade}
use sheath.Server.Targets.{get_image, install_target}
use sheath.Server.Provision.{
  Desk, Arrival, Answer, go, Config, arrive, answer, hand_out, provision, is_wiping, is_pending,
  url_of,
}

-- What a mini OS is told of blade `b`.
abbrev pub Told : Text → (Blade → Config) → Blade → Fleet → Answer → Type 0
Told base_url config b fl a =
    (b.install_state ≡ pending)
    × ((img : Image) × (get_image b.image fl ≡ some img)
        × (a
            ≡ go img (url_of base_url img) (install_target (config b).target b.facts) b.token
                b.hostname (config b)))

abbrev pub is_go : Answer → Bool
is_go (go _ _ _ _ _ _) = true
is_go _ = false

is_pending_sound : (s : InstallState) → is_pending s ≡ true → s ≡ pending
is_pending_sound s h = ground arith

answer_go :
    (base_url : Text) (config : Blade → Config) (now : ℕ) (serial : Text) (b : Blade) (d : Desk)
    → is_go (answer base_url config now serial b d).1 ≡ true
    → Told base_url config b d.fleet (answer base_url config now serial b d).1
unfolding answer hand_out
answer_go base_url config now serial b d h = elim (Bool-cases (is_empty b.image)) [
  | inl e ↦ absurd (ground arith)
  | inr e ↦ elim (Bool-cases (is_wiping b.install_state)) [
    | inl w ↦ absurd (ground arith)
    | inr w ↦ elim (Bool-cases (is_pending b.install_state)) [
      | inr p ↦ absurd (ground arith)
      | inl p ↦ elim (Option-cases (get_image b.image d.fleet)) [
        | inl g ↦ absurd (ground arith)
        | inr (img, g) ↦
            (is_pending_sound b.install_state p, (img, g, (rw (e, answer, w, p, hand_out, g) refl)))
      ]
    ]
  ]
]

-- A mini OS is sent to write a disk only for a blade that is armed for it. The image is the one that
-- is assigned, as the catalogue has it, and the target, the token, the name and the settings are
-- those of that blade.
pub provision_go :
    (tok base_url : Text) (config : Blade → Config) (now : ℕ) (serial : Text) (in_ : Arrival)
    (d : Desk)
    → is_go (provision tok base_url config now serial in_ d).1 ≡ true
    → (b : Blade) × (get_blade serial (arrive tok now serial in_ d).fleet ≡ some b)
      × Told base_url config b
          (arrive tok now serial in_ d).fleet
          (provision tok base_url config now serial in_ d).1
unfolding provision
provision_go tok base_url config now serial in_ d h =
    elim (Option-cases (get_blade serial (arrive tok now serial in_ d).fleet)) [
      | inl none_there ↦ absurd (ground arith)
      | inr (b, found) ↦ (b, found, told b found)
    ]
  where
    told :
        (b : Blade)
        → get_blade serial (arrive tok now serial in_ d).fleet ≡ some b
        → Told base_url config b
            (arrive tok now serial in_ d).fleet
            (provision tok base_url config now serial in_ d).1
    told b found =
        rw (found, provision)
          (answer_go base_url config now serial b (arrive tok now serial in_ d) (same b found))
      where
        same :
            (b : Blade)
            → get_blade serial (arrive tok now serial in_ d).fleet ≡ some b
            → is_go (answer base_url config now serial b (arrive tok now serial in_ d)).1 ≡ true
        same b found = ground arith
