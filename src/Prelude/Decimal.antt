-- ===== src/Prelude/Decimal.antt =====
-- `strconv.Itoa` (also `%d`) on numbers that are not negative, and `strconv.Atoi`.
use Prim.Native.Nat.{◌≤◌, ℕ, zero, suc, ◌+◌, ◌-◌, ◌*◌, ◌/◌, ◌%◌, ◌^◌, ◌<◌}
use mathlib.Core.Path.{◌≡◌, refl}
use mathlib.Core.Logic.{◌≢◌, inl, inr}
use mathlib.Core.Option.{Option, none, some}
use mathlib.Core.List.{concat-ne-nil, [], ◌∷◌, ◌++◌}
use native.Mathlib.Omega.{arith}
use sheath.Prelude.Lists.{All, All-append}
use sheath.Prelude.Tests.{Bool-cases, ltb, ◌==◌, if◌then◌else◌}
use sheath.Prelude.Strings.{Text, is_digit}

-- The digits, with fuel: a number below `fuel` has them all.
unfoldable pub print_digits : ℕ → ℕ → Text
print_digits zero n = []
print_digits (suc f) n =
    let rest = print_digits f (n / 10) in
    if ltb n 10 then (b'0' + n) ∷ [] else rest ++ (b'0' + n % 10) ∷ []

unfoldable pub itoa : ℕ → Text
unfolding print_digits
itoa n = print_digits (suc n) n

unfoldable pub parse_digits : Text → ℕ → Option ℕ
parse_digits [] acc = some acc
parse_digits (c ∷ s) acc = if is_digit c then parse_digits s (acc * 10 + (c - b'0')) else none

-- One digit at least.
unfoldable pub parse_number : Text → Option ℕ
unfolding parse_digits
parse_number [] = none
parse_number (c ∷ s) = parse_digits (c ∷ s) 0

-- Below 0, or from 0 on.
pub data Signed : Type 0 where
  minus plus : ℕ → Signed

abbrev in_range : (ℕ → Signed) → ℕ → Option ℕ → Option Signed
in_range sign limit none = none
in_range sign limit (some n) = if ltb n limit then some (sign n) else none

-- `strconv.Atoi`: an optional sign, digits, and the range of an int64.
unfoldable pub atoi : Text → Option Signed
unfolding parse_number
atoi [] = none
atoi (c ∷ s) =
    if c == b'-'
    then in_range minus (2 ^ 63 + 1) (parse_number s)
    else if c == b'+'
    then in_range plus (2 ^ 63) (parse_number s)
    else in_range plus (2 ^ 63) (parse_number (c ∷ s))

pub parse_digits-append :
    (s t : Text) (acc m : ℕ)
    → parse_digits s acc ≡ some m
    → parse_digits (s ++ t) acc ≡ parse_digits t m
unfolding parse_digits
parse_digits-append [] t acc m h = ground arith
parse_digits-append (c ∷ s) t acc m h =
    ground (arith, parse_digits-append s t (acc * 10 + (c - b'0')) m)

parse-print : (f n : ℕ) → n < f → parse_digits (print_digits f n) 0 ≡ some n
unfolding print_digits parse_digits
parse-print zero n h = absurd (omega arith)
parse-print (suc f) n h = ground (
  arith,
  parse-print f (n / 10),
  parse_digits-append (print_digits f (n / 10)) ((b'0' + n % 10) ∷ []) 0 (n / 10),
)

pub parse_digits-itoa : (n : ℕ) → parse_digits (itoa n) 0 ≡ some n
unfolding itoa
parse_digits-itoa n = parse-print (suc n) n (omega arith)

pub itoa-ne-nil : (n : ℕ) → itoa n ≢ []
unfolding itoa
itoa-ne-nil n = ground (arith, concat-ne-nil (b'0' + n % 10) (print_digits n (n / 10)))

-- A text of digits, read as an integer.
atoi_digits :
    (s : Text) (n : ℕ) → s ≢ [] → parse_digits s 0 ≡ some n → n < 2 ^ 63 → atoi s ≡ some (plus n)
unfolding atoi parse_digits
atoi_digits [] n ne h lt = absurd (ne refl)
atoi_digits (c ∷ s) n ne h lt = ground arith

pub atoi-itoa : (n : ℕ) → n < 2 ^ 63 → atoi (itoa n) ≡ some (plus n)
atoi-itoa n lt = atoi_digits (itoa n) n (itoa-ne-nil n) (parse_digits-itoa n) lt

-- Only digits are printed.
print_digits-All : (f n : ℕ) → All (λ c. (b'0' ≤ c) × (c ≤ b'9')) (print_digits f n)
unfolding print_digits
print_digits-All zero n = tt
print_digits-All (suc f) n = elim (Bool-cases (ltb n 10)) [
  | inl lt ↦ rw lt (ground arith)
  | inr ge ↦ rw ge (
      All-append _ (print_digits f (n / 10)) ((b'0' + n % 10) ∷ []) (print_digits-All f (n / 10))
        (omega arith))
]

pub itoa-All : (n : ℕ) → All (λ c. (b'0' ≤ c) × (c ≤ b'9')) (itoa n)
unfolding itoa
itoa-All n = print_digits-All (suc n) n
