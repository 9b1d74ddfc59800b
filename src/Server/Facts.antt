-- ===== src/Server/Facts.antt =====
-- What a blade has said about itself: hardwareKeys and keepHardware of server/api.go, hardwareOnly
-- and mergeFacts of server/db.go, on decoded objects.
pub mod Kept
use sheath.Prelude.{
  Bool, true, false, List, [], ◌∷◌, ◌++◌, Option, none, some, if◌then◌else◌, Text, codes, text_eq,
  Json, Object, map, is_some,
}

unfoldable pub hardware_keys : List Text
hardware_keys =
    codes "board"
    ∷ codes "board_rev"
    ∷ codes "board_revision"
    ∷ codes "soc"
    ∷ codes "maker"
    ∷ codes "ram_mb"
    ∷ codes "cpu_cores"
    ∷ codes "cpu_mhz"
    ∷ codes "emmc_bytes"
    ∷ codes "emmc_model"
    ∷ codes "nvme_bytes"
    ∷ codes "nvme_model"
    ∷ codes "wireless"
    ∷ codes "eth_mac"
    ∷ codes "bootloader"
    ∷ codes "boot_order"
    ∷ []

-- `v, ok := m[k]`
unfoldable pub lookup : Text → Object → Option Json
lookup k [] = none
lookup k ((j, v) ∷ m) = if text_eq j k then some v else lookup k m

-- `m[k] = v`
unfoldable pub store : Text → Json → Object → Object
store k v [] = (k, v) ∷ []
store k v ((j, w) ∷ m) = if text_eq j k then (k, v) ∷ m else (j, w) ∷ store k v m

-- The loop of `hardwareOnly`
unfoldable pub keep_only : List Text → Object → Object
unfolding lookup
keep_only [] m = []
keep_only (k ∷ ks) m = elim (lookup k m) [
  | none ↦ keep_only ks m
  | some v ↦ store k v (keep_only ks m)
]

unfoldable pub hardware_only : Object → Object
hardware_only m = keep_only hardware_keys m

-- The loop of `keepHardware`
unfoldable pub carry_over : List Text → Object → Object → Object
unfolding lookup
carry_over [] old cur = cur
carry_over (k ∷ ks) old cur = elim (lookup k cur) [
  | some _ ↦ carry_over ks old cur
  | none ↦ elim (lookup k old) [
    | none ↦ carry_over ks old cur
    | some v ↦ carry_over ks old (store k v cur)
  ]
]

-- `keepHardware`, where both texts decode.
unfoldable pub keep_hardware : Object → Object → Object
keep_hardware old cur = carry_over hardware_keys old cur

-- The loop of `mergeFacts`
unfoldable pub merge_facts : Object → Object → Object
merge_facts facts [] = facts
merge_facts facts ((k, v) ∷ add) = merge_facts (store k v facts) add
