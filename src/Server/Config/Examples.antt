-- ===== src/Server/Config/Examples.antt =====
-- A global configuration with two groups laid over it, and a PATCH of it.
use sheath.Prelude.{◌≡◌, refl, [], ◌∷◌, none, codes, text_eq, Text}
use sheath.Server.Fleet.{Blade}
use sheath.Server.Samples.{fleet, armed_blade}
use sheath.Server.Config.{
  plain, null, object, Fields, empty, member, get, Configs, config_for, merge_into, merged_config,
  sort_texts, insert_text, text_lt, patch_config,
}
use sheath.Server.Config.Overlay.{IsMap, setting, speaks, merge_into-setting}
use sheath.Server.Config.Layers.{merged_config-last}
use sheath.Server.Config.Patching.{in_section, patched, patch_config_lem}

abbrev below : Fields
below =
    member (codes "install")
      (object (
        member (codes "after") (plain (codes "reboot"))
          (member (codes "wipe") (plain (codes "no")) empty)))
      empty

abbrev above : Fields
above =
    member (codes "install") (object (member (codes "after") (plain (codes "halt")) empty)) empty

abbrev stored : Configs
stored = (codes "global", below) ∷ (codes "group:a", above) ∷ []

abbrev grouped : Blade
grouped = record armed_blade { groups = codes "z" ∷ codes "a" ∷ [] }

merge_into-setting_example :
    setting (codes "install") (codes "after" ∷ []) (merge_into below above)
    ≡ setting (codes "install") (codes "after" ∷ []) above
unfolding speaks get text_eq IsMap
merge_into-setting_example =
    merge_into-setting (codes "install") (codes "after" ∷ []) below above (refl, (refl, tt, tt), tt)

merged_config-last_example :
    setting (codes "install") (codes "after" ∷ []) (merged_config stored fleet grouped)
    ≡ setting (codes "install") (codes "after" ∷ []) (config_for (codes "group:a") stored)
unfolding speaks get text_eq IsMap config_for sort_texts insert_text text_lt
merged_config-last_example =
    merged_config-last stored fleet grouped (codes "install") (codes "after" ∷ [])
      (codes "global" ∷ []) (codes "group:z" ∷ codes "blade:bb" ∷ []) (codes "group:a")
      ((refl, (refl, tt, (refl, tt, tt)), tt), ((refl, (refl, tt, tt), tt), tt))
      (record { no_url = refl; no_host = refl; no_ip = refl }) refl refl (refl, (refl, tt))

abbrev change : Fields
change = member (codes "install") (object (member (codes "after") null empty)) empty

patch_config_lem_example :
    (in_section
        (codes "install")
        (codes "after")
        (config_for (codes "global") (patch_config (codes "global") change (stored, fleet)).0)
      ≡ none)
    × ((i : Text)
        → get i
            (config_for (codes "global") (patch_config (codes "global") change (stored, fleet)).0)
          ≡ patched (get i below) (get i change))
    × (config_for (codes "group:a") (patch_config (codes "global") change (stored, fleet)).0
        ≡ above)
unfolding get text_eq IsMap config_for
patch_config_lem_example =
    patch_config_lem (codes "global") (codes "install") (codes "after") (codes "group:a") change
      (member (codes "after") (plain (codes "reboot"))
        (member (codes "wipe") (plain (codes "no")) empty))
      (member (codes "after") null empty) stored fleet (refl, (refl, tt, tt), tt) (refl, tt, tt)
      refl refl refl
