-- ===== src/Server/Config/Patching.antt =====
-- What a PATCH changes, and what it leaves.
use mathlib.Core.Path.{subst}
use sheath.Prelude.{
  arith, [], ◌∷◌, text_eq_refl, ◌≡◌, refl, ap, ◌∙◌, inl, inr, false, Option, none, some, Text,
  text_eq, text_eq_iff, Bool-cases,
}
use sheath.Server.Fleet.{Fleet}
use sheath.Server.Config.{
  store_config, Configs, patch_fields, patch_member, set_member, config_for, patch_config, Value,
  null, plain, object, Fields, empty, member, get, patch_section, patch_object,
}
use sheath.Server.Config.Members.{get-put_same, get-put_other, get-delete_same, get-delete_other}
use sheath.Server.Config.Overlay.{IsMap}

-- What a member of a section becomes.
abbrev pub set_or_unset : Option Value → Option Value → Option Value
set_or_unset old none = old
set_or_unset old (some null) = none
set_or_unset old (some (plain s)) = some (plain s)
set_or_unset old (some (object m)) = some (object m)

-- What a member of a scope becomes.
abbrev pub patched : Option Value → Option Value → Option Value
patched old none = old
patched old (some null) = none
patched old (some (plain s)) = some (plain s)
patched old (some (object sub)) = some (patch_object sub old)

get-set_member_same :
    (k : Text) (v : Value) (old : Fields)
    → get k (set_member k v old) ≡ set_or_unset (get k old) (some v)
unfolding set_member
get-set_member_same k null old = get-delete_same k old
get-set_member_same k (plain s) old = get-put_same k (plain s) old
get-set_member_same k (object x) old = get-put_same k (object x) old

get-set_member_other :
    (i k : Text) (v : Value) (old : Fields)
    → text_eq k i ≡ false
    → get i (set_member k v old) ≡ get i old
unfolding set_member
get-set_member_other i k null old h = get-delete_other i k old h
get-set_member_other i k (plain s) old h = get-put_other i k (plain s) old h
get-set_member_other i k (object x) old h = get-put_other i k (object x) old h

get-patch_member_same :
    (k : Text) (v : Value) (cur : Fields)
    → get k (patch_member k v cur) ≡ patched (get k cur) (some v)
unfolding patch_member
get-patch_member_same k null cur = get-delete_same k cur
get-patch_member_same k (plain s) cur = get-put_same k (plain s) cur
get-patch_member_same k (object x) cur = get-put_same k (patch_object x (get k cur)) cur

get-patch_member_other :
    (i k : Text) (v : Value) (cur : Fields)
    → text_eq k i ≡ false
    → get i (patch_member k v cur) ≡ get i cur
unfolding patch_member
get-patch_member_other i k null cur h = get-delete_other i k cur h
get-patch_member_other i k (plain s) cur h = get-put_other i k (plain s) cur h
get-patch_member_other i k (object x) cur h = get-put_other i k (patch_object x (get k cur)) cur h

-- Both loops, for members with distinct names.
get-patch_section :
    (k : Text) (sub old : Fields)
    → IsMap sub
    → get k (patch_section sub old) ≡ set_or_unset (get k old) (get k sub)
unfolding patch_section get IsMap
get-patch_section k empty old h = refl
get-patch_section k (member j v m) old (fresh, hv, hm) = elim (Bool-cases (text_eq j k)) [
  | inl e ↦
      let at_j : get j (patch_section m (set_member j v old)) ≡ set_or_unset (get j old) (some v) =
        get-patch_section j m (set_member j v old) hm
        ∙ (ap (λ o. set_or_unset (get j (set_member j v old)) o) fresh
            ∙ get-set_member_same j v old) in
      rw e (
        subst
          (λ i. get i (patch_section m (set_member j v old)) ≡ set_or_unset (get i old) (some v))
          ((text_eq_iff j k).0 e) at_j)
  | inr e ↦ rw e (
      get-patch_section k m (set_member j v old) hm
      ∙ ap (λ o. set_or_unset o (get k m)) (get-set_member_other k j v old e))
]

get-patch_fields :
    (k : Text) (in_ cur : Fields)
    → IsMap in_
    → get k (patch_fields in_ cur) ≡ patched (get k cur) (get k in_)
unfolding patch_fields get IsMap
get-patch_fields k empty cur h = refl
get-patch_fields k (member j v m) cur (fresh, hv, hm) = elim (Bool-cases (text_eq j k)) [
  | inl e ↦
      let at_j : get j (patch_fields m (patch_member j v cur)) ≡ patched (get j cur) (some v) =
        get-patch_fields j m (patch_member j v cur) hm
        ∙ (ap (λ o. patched (get j (patch_member j v cur)) o) fresh
            ∙ get-patch_member_same j v cur) in
      rw e (
        subst (λ i. get i (patch_fields m (patch_member j v cur)) ≡ patched (get i cur) (some v))
          ((text_eq_iff j k).0 e) at_j)
  | inr e ↦ rw e (
      get-patch_fields k m (patch_member j v cur) hm
      ∙ ap (λ o. patched o (get k m)) (get-patch_member_other k j v cur e))
]

config_for-store_same :
    (s : Text) (body : Fields) (cs : Configs) → config_for s (store_config s body cs) ≡ body
unfolding config_for store_config
config_for-store_same s body [] = rw (text_eq_refl s) refl
config_for-store_same s body ((t, m) ∷ cs) = elim (Bool-cases (text_eq t s)) [
  | inl e ↦ rw e (rw e refl)
  | inr e ↦ rw e (rw e (config_for-store_same s body cs))
]

config_for-store_other :
    (i s : Text) (body : Fields) (cs : Configs)
    → text_eq s i ≡ false
    → config_for i (store_config s body cs) ≡ config_for i cs
unfolding config_for store_config
config_for-store_other i s body [] h = rw h refl
config_for-store_other i s body ((t, m) ∷ cs) h = elim (Bool-cases (text_eq t s)) [
  | inl e ↦
      let other : text_eq t i ≡ false =
        ground (arith, text_eq_iff t s, text_eq_iff s i, text_eq_iff t i, e, h) in
      rw (e, other) refl
  | inr e ↦ elim (Bool-cases (text_eq t i)) [
    | inl f ↦ rw (e, f) refl
    | inr f ↦ rw (e, f) (config_for-store_other i s body cs h)
  ]
]

-- What a scope holds at a section and a name in it.
abbrev pub name_in : Text → Option Value → Option Value
name_in j (some (object sub)) = get j sub
name_in j _ = none

abbrev pub in_section : Text → Text → Fields → Option Value
in_section k j m = name_in j (get k m)

-- A PATCH of a scope removes what it names as null and sets what else it names; in a section that is an
-- object before and in the PATCH it does so member by member; and what it does not name stays, in the
-- scope, in such a section and in every other scope.
pub patch_config_lem :
    (scope k j other : Text) (in_ old sub : Fields) (cs : Configs) (fl : Fleet)
    → IsMap in_
    → IsMap sub
    → get k in_ ≡ some (object sub)
    → get k (config_for scope cs) ≡ some (object old)
    → text_eq scope other ≡ false
    → (in_section k j (config_for scope (patch_config scope in_ (cs, fl)).0)
        ≡ set_or_unset (get j old) (get j sub))
      × ((i : Text)
          → get i (config_for scope (patch_config scope in_ (cs, fl)).0)
            ≡ patched (get i (config_for scope cs)) (get i in_))
      × (config_for other (patch_config scope in_ (cs, fl)).0 ≡ config_for other cs)
unfolding patch_config patch_object
patch_config_lem scope k j other in_ old sub cs fl hin hsub names had apart = (
  ap (name_in j) (at k)
      ∙ (ap (λ o. name_in j (patched (get k (config_for scope cs)) o)) names
          ∙ (ap (λ o. name_in j (patched o (some (object sub)))) had
              ∙ get-patch_section j sub old hsub)),
  at,
  config_for-store_other other scope _ cs apart,
)
  where
    at :
        (i : Text)
        → get i (config_for scope (patch_config scope in_ (cs, fl)).0)
          ≡ patched (get i (config_for scope cs)) (get i in_)
    at i =
        ap (get i) (config_for-store_same scope (patch_fields in_ (config_for scope cs)) cs)
        ∙ get-patch_fields i in_ (config_for scope cs) hin
