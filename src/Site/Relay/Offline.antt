-- ===== src/Site/Relay/Offline.antt =====
-- What a site hands out by itself is what the centre decided last.
use sheath.Prelude.{
  ◌≡◌, refl, inl, inr, arith, true, false, not, ◌||◌, some, Text, codes, text_eq, is_empty,
  find_first, find_first_sound, Bool-cases, Option-cases,
}
use sheath.Site.Relay.{
  Cache, CachedBlade, Answer, waiting, go, wipe, idle, blade_is, image_is, has_file, file_of,
  answer_image, answer_blade, answer_offline,
}

-- What makes an answer right, for the blade that the cache holds.
abbrev pub Decided : (Text → Text) → CachedBlade → Cache → Answer → Type 0
Decided base b c (waiting _) = Unit
Decided base b c (idle image) = image ≡ b.image
Decided base b c (wipe token) = (text_eq b.install_state (codes "wipe") ≡ true) × (token ≡ b.token)
Decided base b c (go im name token) =
    (text_eq b.install_state (codes "wipe") ≡ false)
    × (b.netboot ≡ true)
    × (text_eq im.id b.image ≡ true)
    × (has_file name c.files ≡ true)
    × (name ≡ file_of base im)
    × (token ≡ b.token)

-- What a site answers an installer while the centre is away: an erase only where the blade it holds
-- is armed for one, and an image only where the blade is armed for netboot and not for an erase, the
-- image is the one that it is assigned, and its file has arrived.
pub answer_offline-Decided :
    (base : Text → Text) (serial : Text) (b : CachedBlade) (c : Cache)
    → find_first (blade_is serial) c.blades ≡ some b
    → Decided base b c (answer_offline base serial c)
unfolding answer_offline answer_blade answer_image
answer_offline-Decided base serial b c found =
    elim (Bool-cases (text_eq b.install_state (codes "wipe"))) [
      | inl w ↦ rw (found, answer_offline, w) (w, refl)
      | inr n ↦ elim (Bool-cases (is_empty b.image || not b.netboot)) [
        | inl i ↦ rw (found, answer_offline, n, i) refl
        | inr armed ↦ elim (Option-cases (find_first (image_is b.image) c.images)) [
          | inl missing ↦ rw (found, answer_offline, n, armed, answer_image, missing) tt
          | inr (im, known) ↦ elim (Bool-cases (has_file (file_of base im) c.files)) [
            | inr absent ↦ rw (found, answer_offline, n, armed, answer_image, known, absent) tt
            | inl here ↦
                rw (found, answer_offline, n, armed, answer_image, known, here)
                  (
                    n,
                    ground (arith, armed),
                    find_first_sound (image_is b.image) c.images im known,
                    here,
                    refl,
                    refl,
                  )
          ]
        ]
      ]
    ]
