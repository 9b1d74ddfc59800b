-- ===== src/Server/Targets/Examples.antt =====
-- A module with an eMMC and an image with an MBR.
use sheath.Prelude.{
  ◌≡◌, ◌≢◌, refl, [], ◌∷◌, none, some, true, false, ltb, ◌&&◌, codes, num, text_eq, find_first,
  field, arith,
}
use sheath.Server.Samples.{fleet, armed_blade, debian}
use sheath.Server.Fleet.{Blade}
use sheath.Server.Targets.{
  InstallDevice, install_devices, install_target, path_is, on_card, get_image, image_table,
  check_target, check_devices, check_image, no_device,
}
use sheath.Server.Targets.Refusals.{check_target_without_setting, check_target_sound}

abbrev lite : Blade
lite = record armed_blade { facts = (codes "emmc_bytes", num 8000000000) ∷ [] }

check_target_without_setting_example : (check_target (λ _. none) [] lite fleet).1 ≢ some no_device
check_target_without_setting_example = check_target_without_setting (λ _. none) lite fleet

check_target_sound_example :
    (d : InstallDevice) × (find_first
        (path_is (install_target [] lite.facts))
        (install_devices lite.facts)
      ≡ some d)
    × (path_is (install_target [] lite.facts) d ≡ true)
    × ((ltb 0 debian.min_disk && (ltb 0 d.bytes && ltb d.bytes debian.min_disk)) ≡ false)
    × (on_card d ≡ true
        → text_eq (image_table (λ _. none) (codes "deb") fleet).1 (codes "gpt") ≡ false)
unfolding install_devices install_target find_first field text_eq get_image check_target
    check_devices check_image image_table
check_target_sound_example =
    check_target_sound (λ _. none) [] lite debian fleet (ground arith) (ground arith) refl refl
