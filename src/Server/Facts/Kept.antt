-- ===== src/Server/Facts/Kept.antt =====
-- What a report may not erase, and what a reset leaves.
use sheath.Prelude.{
  ◌≡◌, refl, inl, inr, arith, List, [], ◌∷◌, Option, none, some, if◌then◌else◌, Text, text_eq,
  text_eq_iff, Json, Object, any, Bool-cases, Option-cases,
}
use sheath.Server.Facts.{
  hardware_keys, lookup, store, keep_only, hardware_only, carry_over, keep_hardware,
}

-- Reading back.
pub lookup-store :
    (j k : Text) (v : Json) (m : Object)
    → lookup j (store k v m) ≡ (if text_eq k j then some v else lookup j m)
unfolding lookup store
lookup-store j k v [] = refl
lookup-store j k v ((i, w) ∷ m) = elim (Bool-cases (text_eq i k)) [
  | inl e ↦ ground (arith, text_eq_iff i k, text_eq_iff k j, text_eq_iff i j)
  | inr e ↦ ground (arith, text_eq_iff i k, text_eq_iff k j, text_eq_iff i j, lookup-store j k v m)
]

abbrev pub first_of : Option Json → Option Json → Option Json
first_of (some v) _ = some v
first_of none o = o

lookup-keep_only :
    (j : Text) (ks : List Text) (m : Object)
    → lookup j (keep_only ks m) ≡ (if any (text_eq j) ks then lookup j m else none)
unfolding keep_only any lookup
lookup-keep_only j [] m = refl
lookup-keep_only j (k ∷ ks) m = elim (Option-cases (lookup k m)) [
  | inl e ↦ ground (arith, text_eq_iff j k, lookup-keep_only j ks m)
  | inr (v, e) ↦ ground (
    arith,
    text_eq_iff j k,
    text_eq_iff k j,
    lookup-keep_only j ks m,
    lookup-store j k v (keep_only ks m),
  )
]

lookup-carry_over :
    (j : Text) (ks : List Text) (old cur : Object)
    → lookup j (carry_over ks old cur)
      ≡ first_of (lookup j cur) (if any (text_eq j) ks then lookup j old else none)
unfolding carry_over any
lookup-carry_over j [] old cur = ground arith
lookup-carry_over j (k ∷ ks) old cur = elim (Option-cases (lookup k cur)) [
  | inr (w, e) ↦ ground (arith, text_eq_iff j k, lookup-carry_over j ks old cur)
  | inl e ↦ elim (Option-cases (lookup k old)) [
    | inl f ↦ ground (arith, text_eq_iff j k, lookup-carry_over j ks old cur)
    | inr (v, f) ↦ ground (
      arith,
      text_eq_iff j k,
      text_eq_iff k j,
      lookup-carry_over j ks old (store k v cur),
      lookup-store j k v cur,
    )
  ]
]

-- A report keeps what it says itself. What it does not mention is what was known before, if it
-- describes the module, and gone if it does not.
pub lookup-keep_hardware :
    (j : Text) (old cur : Object)
    → lookup j (keep_hardware old cur)
      ≡ first_of (lookup j cur) (if any (text_eq j) hardware_keys then lookup j old else none)
unfolding keep_hardware
lookup-keep_hardware j old cur = lookup-carry_over j hardware_keys old cur

-- A reset that follows a report keeps the module's own facts, as the report or an earlier one said
-- them, and nothing else.
pub hardware_only-keep_hardware :
    (j : Text) (old cur : Object)
    → lookup j (hardware_only (keep_hardware old cur))
      ≡ (if any (text_eq j) hardware_keys then first_of (lookup j cur) (lookup j old) else none)
unfolding hardware_only
hardware_only-keep_hardware j old cur = ground (
  arith,
  lookup-keep_only j hardware_keys (keep_hardware old cur),
  lookup-keep_hardware j old cur,
)
