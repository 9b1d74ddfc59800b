-- ===== src/Server/BootOrder/Steps.antt =====
-- What bootOrderSteps (server/bootorder.go) makes of an order.
use mathlib.Core.List.{
  reverse, reverse-append, reverse-reverse, append_assoc, append-nil, map-append,
}
use mathlib.Core.Path.{subst}
use sheath.Prelude.{
  ℕ, ◌+◌, ◌≤◌, ◌<◌, false, List, [], ◌∷◌, ◌++◌, map, Option, none, some, All-append, Option-cases,
  Bool-cases, inl, inr, ◌∙◌, ◌-◌, ◌≡◌, refl, sym, ap, arith, ltb, ◌==◌, if◌then◌else◌, Text, codes,
  to_lower, is_space, trim_left, trim_space, trim_prefix, All,
}
use sheath.Server.BootOrder.{digit_value, read_steps, boot_order_steps, found}

-- A sequence that a module can follow: steps from 1 to 15, and nothing behind a restart.
abbrev pub IsRun : List ℕ → Type 0
IsRun [] = Unit
IsRun (d ∷ ds) = (0 < d) × (d ≤ 15) × (d ≡ 15 → ds ≡ []) × IsRun ds

digit_value_bound : (c d : ℕ) → digit_value c ≡ some d → d ≤ 15
unfolding digit_value
digit_value_bound c d h = ground arith

read_steps-IsRun :
    (s out r : List ℕ) → read_steps s out ≡ some r → (ds : List ℕ) × (r ≡ out ++ ds) × IsRun ds
unfolding read_steps
read_steps-IsRun [] out r h = ([], ground (arith, append-nil out), tt)
read_steps-IsRun (c ∷ s) out r h = elim (Option-cases (digit_value c)) [
  | inl e ↦ absurd (ground arith)
  | inr (d, e) ↦ elim (Bool-cases (d == 0)) [
    | inl z ↦ ([], ground (arith, append-nil out), tt)
    | inr nz ↦ elim (Bool-cases (d == 15)) [
      | inl f ↦ (d ∷ [], ground arith, (ground arith, ground arith, λ _. refl, tt))
      | inr nf ↦
          let (ds, p, q) = read_steps-IsRun s (out ++ d ∷ []) r (ground arith) in
          (
            d ∷ ds,
            p ∙ append_assoc out (d ∷ []) ds,
            (ground arith, digit_value_bound c d e, λ f. ground arith, q),
          )
    ]
  ]
]

found-IsRun :
    (o : Option (List ℕ))
    → ((r : List ℕ) → o ≡ some r → (ds : List ℕ) × (r ≡ ds) × IsRun ds)
    → IsRun (found o)
found-IsRun none h = tt
found-IsRun (some r) h = let (ds, p, q) = h r refl in subst IsRun (sym p) q

-- The digit that a step is written by.
abbrev pub hex_digit : ℕ → ℕ
hex_digit d = if ltb d 10 then b'0' + d else b'a' + (d - 10)

abbrev pub IsStep : ℕ → Type 0
IsStep d = (0 < d) × (d < 15)

digit_value-hex_digit : (d : ℕ) → d ≤ 15 → digit_value (hex_digit d) ≡ some d
unfolding digit_value
digit_value-hex_digit d h = ground arith

read_steps-map :
    (ds rest out : List ℕ)
    → All IsStep ds
    → read_steps (map hex_digit ds ++ rest) out ≡ read_steps rest (out ++ ds)
unfolding read_steps
read_steps-map [] rest out h = rw append-nil
read_steps-map (d ∷ ds) rest out (hd, hds) = ground (
  arith,
  digit_value-hex_digit d,
  read_steps-map ds rest (out ++ d ∷ []) hds,
  append_assoc out (d ∷ []) ds,
)

-- Bytes that trimming and lower case leave alone.
abbrev IsPlain : ℕ → Type 0
IsPlain c = (to_lower c ≡ c) × (is_space c ≡ false)

hex_digit-IsPlain : (d : ℕ) → d ≤ 15 → IsPlain (hex_digit d)
unfolding to_lower is_space
hex_digit-IsPlain d h = ground arith

trim_left-cons : (c : ℕ) (s : Text) → is_space c ≡ false → trim_left (c ∷ s) ≡ c ∷ s
unfolding trim_left
trim_left-cons c s h = ground arith

-- Text between two bytes that are no spaces is not trimmed.
trim_space_plain :
    (a b : ℕ) (s : Text)
    → is_space a ≡ false
    → is_space b ≡ false
    → trim_space (a ∷ (s ++ b ∷ [])) ≡ a ∷ (s ++ b ∷ [])
unfolding trim_space
trim_space_plain a b s ha hb =
    ap (λ u. reverse (trim_left (reverse u))) (trim_left-cons a (s ++ b ∷ []) ha)
    ∙ ap (λ u. reverse (trim_left u)) (reverse-append (a ∷ s) (b ∷ []))
    ∙ ap reverse (trim_left-cons b (reverse (a ∷ s)) hb)
    ∙ ap reverse (sym (reverse-append (a ∷ s) (b ∷ [])))
    ∙ reverse-reverse (a ∷ (s ++ b ∷ []))

map-reverse {ℓ κ} :
    {A : Type ℓ} {B : Type κ} (f : A → B) (xs : List A) → map f (reverse xs) ≡ reverse (map f xs)
map-reverse f [] = refl
map-reverse f (x ∷ xs) =
    ap (map f) (reverse-append (x ∷ []) xs)
    ∙ map-append f (reverse xs) (x ∷ [])
    ∙ ap (λ u. u ++ f x ∷ []) (map-reverse f xs)
    ∙ sym (reverse-append (f x ∷ []) (map f xs))

map-to_lower-hex :
    (ds : List ℕ) → All (λ d. d ≤ 15) ds → map to_lower (map hex_digit ds) ≡ map hex_digit ds
map-to_lower-hex [] h = refl
map-to_lower-hex (d ∷ ds) (hd, hds) = cc (map-to_lower-hex ds hds, (hex_digit-IsPlain d hd).0)

-- How a number is written: its marker, what stands in front, and its digits, the last one first.
abbrev pub written : Text → List ℕ → Text
written front ds = codes "0x" ++ (front ++ reverse (map hex_digit ds))

lower_written :
    (front : Text) (ds : List ℕ)
    → All (λ d. d ≤ 15) ds
    → reverse (map to_lower (front ++ reverse (map hex_digit ds)))
      ≡ map hex_digit ds ++ reverse (map to_lower front)
lower_written front ds h =
    ap reverse (map-append to_lower front (reverse (map hex_digit ds)))
    ∙ reverse-append (map to_lower front) (map to_lower (reverse (map hex_digit ds)))
    ∙ ap (λ u. reverse u ++ reverse (map to_lower front))
        (map-reverse to_lower (map hex_digit ds) ∙ ap reverse (map-to_lower-hex ds h))
    ∙ ap (λ u. u ++ reverse (map to_lower front)) (reverse-reverse (map hex_digit ds))

trim_written :
    (front : Text) (d : ℕ) (ds : List ℕ)
    → d ≤ 15
    → trim_space (written front (d ∷ ds)) ≡ written front (d ∷ ds)
trim_written front d ds h =
    let e : written front (d ∷ ds)
        ≡ b'0' ∷ ((b'x' ∷ (front ++ reverse (map hex_digit ds))) ++ hex_digit d ∷ []) =
      ap (λ u. codes "0x" ++ (front ++ u)) (reverse-append (hex_digit d ∷ []) (map hex_digit ds))
      ∙ ap (λ u. codes "0x" ++ u)
          (sym (append_assoc front (reverse (map hex_digit ds)) (hex_digit d ∷ []))) in
    ap trim_space e
    ∙ trim_space_plain b'0' (hex_digit d) (b'x' ∷ (front ++ reverse (map hex_digit ds)))
        (unfold is_space in refl) (hex_digit-IsPlain d h).1
    ∙ sym e

-- The steps of a written number are read off its digits, and then off what stands in front.
steps_written :
    (front : Text) (d : ℕ) (ds : List ℕ)
    → All (λ d. d ≤ 15) (d ∷ ds)
    → boot_order_steps (written front (d ∷ ds))
      ≡ found (read_steps (map hex_digit (d ∷ ds) ++ reverse (map to_lower front)) [])
unfolding boot_order_steps to_lower trim_prefix
steps_written front d ds h =
    ap (λ u. found (read_steps (reverse (trim_prefix (map to_lower u) (codes "0x"))) []))
      (trim_written front d ds h.0)
    ∙ ap (λ u. found (read_steps u [])) (lower_written front (d ∷ ds) h)

IsStep-le : (ds : List ℕ) → All IsStep ds → All (λ d. d ≤ 15) ds
IsStep-le [] h = tt
IsStep-le (d ∷ ds) (hd, hds) = (omega arith, IsStep-le ds hds)

read_through : (ds : List ℕ) → All IsStep ds → read_steps (map hex_digit ds ++ []) [] ≡ some ds
unfolding read_steps
read_through ds h = read_steps-map ds [] [] h

-- A number that names the steps `ds`, each from 1 to 14, is read back as exactly those steps.
pub boot_order_steps-written : (ds : List ℕ) → All IsStep ds → boot_order_steps (written [] ds) ≡ ds
unfolding boot_order_steps
boot_order_steps-written [] h =
    unfold read_steps trim_space trim_left is_space to_lower trim_prefix in refl
boot_order_steps-written (d ∷ ds) h =
    steps_written [] d ds (IsStep-le (d ∷ ds) h) ∙ ap found (read_through (d ∷ ds) h)

read_restart : (s out : List ℕ) → read_steps (hex_digit 15 ∷ s) out ≡ some (out ++ 15 ∷ [])
unfolding read_steps
read_restart s out = refl

-- Whatever stands in front of a restart (an f), bytes that are no hexadecimal digits included, the
-- steps are those behind it and the restart itself.
pub boot_order_steps-restart :
    (front : Text) (ds : List ℕ)
    → All IsStep ds
    → boot_order_steps (written front (ds ++ 15 ∷ [])) ≡ ds ++ 15 ∷ []
boot_order_steps-restart front [] h =
    steps_written front 15 [] (omega arith, tt) ∙ ap found (read_restart _ [])
boot_order_steps-restart front (d ∷ ds) h =
    steps_written front d (ds ++ 15 ∷ [])
      (omega arith, All-append _ ds (15 ∷ []) (IsStep-le ds h.1) (omega arith, tt))
    ∙ ap (λ u. found (read_steps (u ++ reverse (map to_lower front)) []))
        (map-append hex_digit (d ∷ ds) (15 ∷ []))
    ∙ ap (λ u. found (read_steps u []))
        (append_assoc (map hex_digit (d ∷ ds)) (hex_digit 15 ∷ []) _)
    ∙ ap found (read_steps-map (d ∷ ds) _ [] h ∙ read_restart _ (d ∷ ds))

-- Every order yields a sequence that a module can follow: its steps lie between 1 and 15, and
-- nothing stands behind a restart.
pub boot_order_steps-IsRun : (order : Text) → IsRun (boot_order_steps order)
unfolding boot_order_steps
boot_order_steps-IsRun order =
    let s : Text = reverse (trim_prefix (map to_lower (trim_space order)) (codes "0x")) in
    found-IsRun (read_steps s []) (λ r h. read_steps-IsRun s [] r h)
