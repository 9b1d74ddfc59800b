-- ===== src/Server/Addressing/Names.antt =====
-- The names and MACs that server/ipam.go generates are recognised as its own and tell blades apart.
use sheath.Prelude.{
  ◌∙◌, ◌≢◌, ℕ, suc, ◌+◌, ◌/◌, ◌%◌, ◌<◌, ◌≤◌, ◌≡◌, refl, arith, true, [], ◌∷◌, ◌++◌, ltb, Text,
  codes, length, itoa, itoa-All, itoa-ne-nil, print_digits, zero, Bool-cases, inl, inr, ltb→lt, all,
  All,
}
use sheath.Server.Addressing.{
  hex, hex_byte, blade_mac, two_digits, blade_hostname, is_label_byte, valid_host_prefix, ends_two,
  auto_digits, auto_tail, auto_prefix, auto_host,
}

abbrev IsDigit : ℕ → Type 0
IsDigit c = (b'0' ≤ c) × (c ≤ b'9')

auto_digits-append : (s : Text) (t : Text) → All IsDigit s → auto_digits (s ++ t) ≡ auto_digits t
unfolding auto_digits
auto_digits-append [] t h = refl
auto_digits-append (c ∷ s) t (hc, hs) = ground (arith, auto_digits-append s t hs)

print_small : (n : ℕ) → n < 10 → itoa n ≡ (b'0' + n) ∷ []
unfolding itoa
print_small n h = ground arith

print_two :
    (f n : ℕ)
    → 10 ≤ n
    → n < 100
    → print_digits (suc (suc f)) n ≡ (b'0' + n / 10) ∷ (b'0' + n % 10) ∷ []
unfolding print_digits
print_two f n lo hi = ground arith

itoa_two : (n : ℕ) → 10 ≤ n → n < 100 → itoa n ≡ (b'0' + n / 10) ∷ (b'0' + n % 10) ∷ []
unfolding itoa
itoa_two zero lo hi = absurd (omega arith)
itoa_two (suc n) lo hi = print_two n (suc n) lo hi

two_digits_ends : (n : ℕ) → n < 100 → ends_two (two_digits n) ≡ true
unfolding two_digits
two_digits_ends n h = elim (Bool-cases (ltb n 10)) [
  | inl lt ↦ rw (lt, two_digits, print_small n (ltb→lt n 10 lt)) (ground arith)
  | inr ge ↦ rw (ge, two_digits, itoa_two n (ground arith) h) (ground arith)
]

auto_tail_numbers :
    (s t : Text)
    → All IsDigit s
    → s ≢ []
    → ends_two t ≡ true
    → auto_tail (b'r' ∷ (s ++ b's' ∷ t)) ≡ true
unfolding auto_tail
auto_tail_numbers [] t h ne e = absurd (ne refl)
auto_tail_numbers (c ∷ s) t (hc, hs) ne e = ground (arith, auto_digits-append s (b's' ∷ t) hs)

auto_prefix-append :
    (n : ℕ) (p t : Text)
    → all is_label_byte p ≡ true
    → 1 ≤ n + length p
    → n + length p ≤ 8
    → auto_prefix n (p ++ b'-' ∷ t) ≡ auto_tail t
unfolding auto_prefix all
auto_prefix-append n [] t h lo hi = ground arith
auto_prefix-append n (c ∷ p) t h lo hi = ground (arith, auto_prefix-append (n + 1) p t)

tail_of :
    (idx slot : ℕ) → slot < 100 → auto_tail (b'r' ∷ (itoa idx ++ b's' ∷ two_digits slot)) ≡ true
tail_of idx slot h =
    auto_tail_numbers (itoa idx) (two_digits slot) (itoa-All idx) (itoa-ne-nil idx)
      (two_digits_ends slot h)

auto_host_plain : (t : Text) → auto_tail t ≡ true → auto_host (codes "blade-" ++ t) ≡ true
unfolding auto_host
auto_host_plain t h = ground arith

auto_host_prefixed : (t : Text) → auto_prefix 0 t ≡ true → auto_host (codes "blade-" ++ t) ≡ true
unfolding auto_host
auto_host_prefixed t h = ground arith

valid_parts :
    (p : Text) → valid_host_prefix p ≡ true → (all is_label_byte p ≡ true) × (length p ≤ 8)
unfolding valid_host_prefix
valid_parts p h = ground arith

-- A name that was generated with a valid prefix, for a slot below 100, is recognised as generated,
-- so that it travels with a move.
pub auto_host-blade_hostname :
    (prefix : Text) (idx slot : ℕ)
    → valid_host_prefix prefix ≡ true
    → slot < 100
    → auto_host (blade_hostname prefix idx slot) ≡ true
unfolding blade_hostname
auto_host-blade_hostname [] idx slot v h = auto_host_plain _ (tail_of idx slot h)
auto_host-blade_hostname (c ∷ p) idx slot v h =
    auto_host_prefixed _
      (prefixed (c ∷ p) (valid_parts (c ∷ p) v).0 (omega arith) (valid_parts (c ∷ p) v).1)
  where
    prefixed :
        (q : Text)
        → all is_label_byte q ≡ true
        → 1 ≤ length q
        → length q ≤ 8
        → auto_prefix 0 (q ++ b'-' ∷ (b'r' ∷ (itoa idx ++ b's' ∷ two_digits slot))) ≡ true
    prefixed q a lo hi = auto_prefix-append 0 q _ a (omega arith) (omega arith) ∙ tail_of idx slot h

hex_injective : (a b : ℕ) → a < 16 → b < 16 → hex a ≡ hex b → a ≡ b
unfolding hex
hex_injective a b ha hb h = ground arith

hex_byte_injective : (a b : ℕ) → a < 256 → b < 256 → hex_byte a ≡ hex_byte b → a ≡ b
unfolding hex_byte
hex_byte_injective a b ha hb h =
    ground (arith, hex_injective (a % 256 / 16) (b % 256 / 16), hex_injective (a % 16) (b % 16))

-- The MAC is the site's, the BladeRunner's and the slot's own: below 256, two blades that share it
-- stand in the same place. It is recognised as one that was handed out.
pub blade_mac_injective :
    (site idx slot site' idx' slot' : ℕ)
    → (site < 256) × (idx < 256) × (slot < 256)
    → (site' < 256) × (idx' < 256) × (slot' < 256)
    → blade_mac site idx slot ≡ blade_mac site' idx' slot'
    → (site ≡ site') × (idx ≡ idx') × (slot ≡ slot')
unfolding blade_mac
blade_mac_injective site idx slot site' idx' slot' (a, b, c) (a', b', c') h = ground (
  arith,
  hex_byte_injective site site',
  hex_byte_injective idx idx',
  hex_byte_injective slot slot',
)
