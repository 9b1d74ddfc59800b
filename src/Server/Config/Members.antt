-- ===== src/Server/Config/Members.antt =====
-- Looking up a member after another has been set or deleted.
use sheath.Prelude.{
  ◌≡◌, refl, inl, inr, arith, false, none, some, Text, text_eq, text_eq_iff, text_eq_refl,
  Bool-cases,
}
use sheath.Server.Config.{Value, Fields, empty, member, get, put, delete}

pub text_eq-swap : (j k : Text) → text_eq j k ≡ text_eq k j
text_eq-swap j k = ground (arith, text_eq_iff j k, text_eq_iff k j)

pub get-put_same : (k : Text) (v : Value) (m : Fields) → get k (put k v m) ≡ some v
unfolding get put
get-put_same k v empty = rw (text_eq_refl k) refl
get-put_same k v (member j w m) = elim (Bool-cases (text_eq j k)) [
  | inl e ↦ rw (e, text_eq_refl k) refl
  | inr e ↦ rw e (rw e (get-put_same k v m))
]

pub get-put_other :
    (i k : Text) (v : Value) (m : Fields) → text_eq k i ≡ false → get i (put k v m) ≡ get i m
unfolding get put
get-put_other i k v empty h = rw h refl
get-put_other i k v (member j w m) h = elim (Bool-cases (text_eq j k)) [
  | inl e ↦
      let other : text_eq j i ≡ false =
        ground (arith, text_eq_iff j k, text_eq_iff k i, text_eq_iff j i, e, h) in
      rw (e, h, other) refl
  | inr e ↦ elim (Bool-cases (text_eq j i)) [
    | inl f ↦ rw (e, f) refl
    | inr f ↦ rw (e, f) (get-put_other i k v m h)
  ]
]

pub get-delete_same : (k : Text) (m : Fields) → get k (delete k m) ≡ none
unfolding get delete
get-delete_same k empty = refl
get-delete_same k (member j w m) = elim (Bool-cases (text_eq j k)) [
  | inl e ↦ rw e (get-delete_same k m)
  | inr e ↦ rw e (rw e (get-delete_same k m))
]

pub get-delete_other :
    (i k : Text) (m : Fields) → text_eq k i ≡ false → get i (delete k m) ≡ get i m
unfolding get delete
get-delete_other i k empty h = refl
get-delete_other i k (member j w m) h = elim (Bool-cases (text_eq j k)) [
  | inl e ↦
      let other : text_eq j i ≡ false =
        ground (arith, text_eq_iff j k, text_eq_iff k i, text_eq_iff j i, e, h) in
      rw (e, other) (get-delete_other i k m h)
  | inr e ↦ elim (Bool-cases (text_eq j i)) [
    | inl f ↦ rw (e, f) refl
    | inr f ↦ rw (e, f) (get-delete_other i k m h)
  ]
]

-- No name stands twice.
abbrev pub IsMap : Fields → Type 0
IsMap empty = Unit
IsMap (member k v m) = (get k m ≡ none) × IsMap m
