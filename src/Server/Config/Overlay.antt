-- ===== src/Server/Config/Overlay.antt =====
-- Merging two configurations is laying one's settings over the other's.
use mathlib.Core.Path.{subst}
use sheath.Prelude.{
  ◌≡◌, refl, ap, ◌∙◌, inl, inr, arith, Bool, true, false, List, [], ◌∷◌, Option, none, some,
  if◌then◌else◌, Text, text_eq, text_eq_iff, Bool-cases,
}
use sheath.Server.Config.{
  Value, null, plain, object, Fields, empty, member, get, put, fields_of, merge_into, merge_value,
}
use sheath.Server.Config.Members.{get-put_same, get-put_other}

-- No name stands twice, at any depth: what a decoded object is.
unfoldable mutual
  pub IsMap : Fields → Type 0
  IsMap empty = Unit
  IsMap (member k v m) = (get k m ≡ none) × IsMapValue v × IsMap m

  pub IsMapValue : Value → Type 0
  IsMapValue null = Unit
  IsMapValue (plain s) = Unit
  IsMapValue (object m) = IsMap m

-- A value that is no object.
abbrev pub leaf : Option Value → Option Value
leaf none = none
leaf (some null) = some null
leaf (some (plain s)) = some (plain s)
leaf (some (object m)) = none

-- The setting at a path of names, the first one apart.
unfoldable pub setting : Text → List Text → Fields → Option Value
setting k [] m = leaf (get k m)
setting k (j ∷ ks) m = setting j ks (fields_of (get k m))

-- Whether an object says anything of a path: a value stands at it, or one that is no object before its end.
unfoldable pub speaks : Text → List Text → Fields → Bool
speaks k [] m = elim (get k m) [ none ↦ false | some _ ↦ true ]
speaks k (j ∷ ks) m = elim (get k m) [
  | none ↦ false
  | some null ↦ true
  | some (plain s) ↦ true
  | some (object sub) ↦ speaks j ks sub
]

abbrev merged : Option Value → Option Value → Option Value
merged old none = old
merged old (some v) = some (merge_value old v)

get-merge_into :
    (k : Text) (src dst : Fields)
    → IsMap src
    → get k (merge_into dst src) ≡ merged (get k dst) (get k src)
unfolding merge_into get IsMap
get-merge_into k empty dst h = refl
get-merge_into k (member j v m) dst (fresh, hv, hm) = elim (Bool-cases (text_eq j k)) [
  | inl e ↦
      let at_j : get j (merge_into (put j (merge_value (get j dst) v) dst) m)
          ≡ some (merge_value (get j dst) v) =
        get-merge_into j m (put j (merge_value (get j dst) v) dst) hm
        ∙ (ap (λ o. merged (get j (put j (merge_value (get j dst) v) dst)) o) fresh
            ∙ get-put_same j (merge_value (get j dst) v) dst) in
      rw e (
        subst
          (λ i.
            get i (merge_into (put j (merge_value (get j dst) v) dst) m)
            ≡ some (merge_value (get i dst) v))
          ((text_eq_iff j k).0 e) at_j)
  | inr e ↦ rw e (
      get-merge_into k m (put j (merge_value (get j dst) v) dst) hm
      ∙ ap (λ o. merged o (get k m)) (get-put_other k j (merge_value (get j dst) v) dst e))
]

get-IsMap : (k : Text) (m sub : Fields) → IsMap m → get k m ≡ some (object sub) → IsMap sub
unfolding get IsMap
get-IsMap k empty sub h e = absurd (ground (arith, e))
get-IsMap k (member j v m) sub (fresh, hv, hm) e = elim (Bool-cases (text_eq j k)) [
  | inl f ↦ subst IsMapValue (the_value f) hv
  | inr f ↦ get-IsMap k m sub hm (ground (arith, f, e))
]
  where
    the_value : text_eq j k ≡ true → v ≡ object sub
    the_value f = ground (arith, f, e)

at_end :
    (old new : Option Value)
    → leaf (merged old new)
      ≡ (if (elim new [ none ↦ false | some _ ↦ true ]) then leaf new else leaf old)
unfolding merge_into
at_end old none = refl
at_end old (some null) = refl
at_end old (some (plain s)) = refl
at_end old (some (object m)) = refl

-- What `merge_into-setting` says of the names of a path.
abbrev Lays : Text → List Text → Type 0
Lays k ks =
    (dst src : Fields)
    → IsMap src
    → setting k ks (merge_into dst src)
      ≡ (if speaks k ks src then setting k ks src else setting k ks dst)

below :
    (j : Text) (ks : List Text) (old new : Option Value)
    → Lays j ks
    → ((sub : Fields) → new ≡ some (object sub) → IsMap sub)
    → setting j ks (fields_of (merged old new)) ≡ (
        if (elim new [
          | none ↦ false
          | some null ↦ true
          | some (plain s) ↦ true
          | some (object sub) ↦ speaks j ks sub
        ])
        then setting j ks (fields_of new)
        else setting j ks (fields_of old))
unfolding merge_into
below j ks old none lays maps = refl
below j ks old (some null) lays maps = refl
below j ks old (some (plain s)) lays maps = refl
below j ks old (some (object m)) lays maps = lays (fields_of old) m (maps m refl)

-- A setting of the merged configuration is that of the configuration laid on top where this says anything
-- of its path, and otherwise the one from below.
pub merge_into-setting :
    (k : Text) (ks : List Text) (dst src : Fields)
    → IsMap src
    → setting k ks (merge_into dst src)
      ≡ (if speaks k ks src then setting k ks src else setting k ks dst)
unfolding setting speaks
merge_into-setting k [] dst src h = rw (get-merge_into k src dst h) (at_end (get k dst) (get k src))
merge_into-setting k (j ∷ ks) dst src h = rw (get-merge_into k src dst h) (
    below j ks (get k dst) (get k src) (λ low top hm. merge_into-setting j ks low top hm)
      (λ sub e. get-IsMap k src sub h e))
