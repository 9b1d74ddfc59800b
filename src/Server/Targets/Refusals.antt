-- ===== src/Server/Targets/Refusals.antt =====
-- When checkTarget refuses, and what is known when it does not.
use sheath.Prelude.{
  field, as_str, ℕ, ◌≡◌, ◌≢◌, refl, ◌⊎◌, inl, inr, arith, true, false, ◌&&◌, List, [], ◌∷◌, ◌++◌,
  Option, none, some, ltb, Text, codes, text_eq, Object, find_first, find_first_sound, Bool-cases,
  Option-cases,
}
use sheath.Server.Fleet.{Blade, Image, Fleet}
use sheath.Server.Targets.{
  default_target, InstallDevice, install_devices, nvme_device, card_device, install_target,
  get_image, image_table, check_image, check_devices, check_target, no_device, on_card, path_is,
  size_of,
}

check_image-no_device :
    (head : Text → Option Text) (d : InstallDevice) (image : Text) (fl : Fleet)
    → (check_image head d image fl).1 ≢ some no_device
unfolding check_image
check_image-no_device head d image fl = ground arith

-- The default is the path of a device.
default_found :
    (n e s : Option ℕ) (kind : Text) (f : Object)
    → (nvme_device n f ++ card_device e s kind f ≡ [])
      ⊎ (find_first
            (path_is (default_target (nvme_device n f ++ card_device e s kind f)))
            (nvme_device n f ++ card_device e s kind f)
          ≢ none)
unfolding find_first text_eq
default_found (some n) e s kind f = inr (ground arith)
default_found none (some n) s kind f = inr (ground arith)
default_found none none (some n) kind f = inr (ground arith)
default_found none none none [] f = inl refl
default_found none none none (c ∷ kind) f = inr (ground arith)

-- Without a setting, a blade that reported any device has a target among its devices: it is never
-- refused for want of the device.
pub check_target_without_setting :
    (head : Text → Option Text) (b : Blade) (fl : Fleet)
    → (check_target head [] b fl).1 ≢ some no_device
unfolding check_target check_devices install_target install_devices
check_target_without_setting head b fl =
    elim (default_found (size_of (codes "nvme_bytes") b.facts)
      (size_of (codes "emmc_bytes") b.facts) (size_of (codes "sd_bytes") b.facts)
      (as_str (field (codes "mmc_kind") b.facts)) b.facts) [
        | inl e ↦ rw e (ground arith)
        | inr found ↦ among (install_target [] b.facts) (install_devices b.facts) found
      ]
  where
    among :
        (target : Text) (ds : List InstallDevice)
        → find_first (path_is target) ds ≢ none
        → (check_devices head target ds b.image fl).1 ≢ some no_device
    among target [] h = ground arith
    among target (d ∷ ds) h = elim (Option-cases (find_first (path_is target) (d ∷ ds))) [
      | inl e ↦ absurd (h e)
      | inr (c, e) ↦ rw (e, check_devices) (check_image-no_device head c b.image fl)
    ]

check_image_sound :
    (head : Text → Option Text) (d : InstallDevice) (image : Text) (img : Image) (fl : Fleet)
    → image ≢ []
    → get_image image fl ≡ some img
    → (check_image head d image fl).1 ≡ none
    → ((ltb 0 img.min_disk && (ltb 0 d.bytes && ltb d.bytes img.min_disk)) ≡ false)
      × (on_card d ≡ true → text_eq (image_table head image fl).1 (codes "gpt") ≡ false)
unfolding check_image
check_image_sound head d [] img fl named known pass = absurd (named refl)
check_image_sound head d (c ∷ image) img fl named known pass =
    elim (Bool-cases (ltb 0 img.min_disk && (ltb 0 d.bytes && ltb d.bytes img.min_disk))) [
      | inl small ↦ absurd (ground arith)
      | inr fits ↦ (fits, not_gpt fits)
    ]
  where
    not_gpt :
        (ltb 0 img.min_disk && (ltb 0 d.bytes && ltb d.bytes img.min_disk)) ≡ false
        → on_card d ≡ true
        → text_eq (image_table head (c ∷ image) fl).1 (codes "gpt") ≡ false
    not_gpt fits card = ground arith

-- A blade that passes, with a device and a catalogued image: the target is one of its devices, the
-- image is not known to be larger than the device, and it is not known to carry a GPT where the
-- device is a card.
pub check_target_sound :
    (head : Text → Option Text) (setting : Text) (b : Blade) (img : Image) (fl : Fleet)
    → install_devices b.facts ≢ []
    → b.image ≢ []
    → get_image b.image fl ≡ some img
    → (check_target head setting b fl).1 ≡ none
    → (d : InstallDevice) × (find_first
          (path_is (install_target setting b.facts))
          (install_devices b.facts)
        ≡ some d)
      × (path_is (install_target setting b.facts) d ≡ true)
      × ((ltb 0 img.min_disk && (ltb 0 d.bytes && ltb d.bytes img.min_disk)) ≡ false)
      × (on_card d ≡ true → text_eq (image_table head b.image fl).1 (codes "gpt") ≡ false)
unfolding check_target check_devices
check_target_sound head setting b img fl has named known pass =
    passed (install_target setting b.facts) (install_devices b.facts) has pass
  where
    passed :
        (target : Text) (ds : List InstallDevice)
        → ds ≢ []
        → (check_devices head target ds b.image fl).1 ≡ none
        → (d : InstallDevice) × (find_first (path_is target) ds ≡ some d)
          × (path_is target d ≡ true)
          × ((ltb 0 img.min_disk && (ltb 0 d.bytes && ltb d.bytes img.min_disk)) ≡ false)
          × (on_card d ≡ true → text_eq (image_table head b.image fl).1 (codes "gpt") ≡ false)
    passed target [] h p = absurd (h refl)
    passed target (d ∷ ds) h p = elim (Option-cases (find_first (path_is target) (d ∷ ds))) [
      | inl e ↦ absurd (refused_there e)
      | inr (c, e) ↦
          (c, e, find_first_sound (path_is target) (d ∷ ds) c e, (fits c e).0, (fits c e).1)
    ]
      where
        refused_there : find_first (path_is target) (d ∷ ds) ≡ none → ⊥
        refused_there e = ground arith

        chosen :
            (c : InstallDevice)
            → find_first (path_is target) (d ∷ ds) ≡ some c
            → (check_image head c b.image fl).1 ≡ none
        chosen c e = ground arith

        fits :
            (c : InstallDevice)
            → find_first (path_is target) (d ∷ ds) ≡ some c
            → ((ltb 0 img.min_disk && (ltb 0 c.bytes && ltb c.bytes img.min_disk)) ≡ false)
              × (on_card c ≡ true → text_eq (image_table head b.image fl).1 (codes "gpt") ≡ false)
        fits c e = check_image_sound head c b.image img fl named known (chosen c e)
