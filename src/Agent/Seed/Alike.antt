-- ===== src/Agent/Seed/Alike.antt =====
-- What one line of a seed says, where the line of the server may have changed.
use mathlib.Core.List.{reverse, reverse-append}
use sheath.Prelude.{
  ℕ, ◌≡◌, refl, sym, ap, ◌∙◌, inl, inr, arith, Bool, true, false, ◌||◌, [], ◌∷◌, ◌++◌, ==_iff,
  if◌then◌else◌, Text, codes, text_eq, is_empty, has_prefix, trim_prefix, trim_space, trim_left,
  is_space, drop, length, Bool-cases, Option-cases, some,
}
use sheath.Agent.Seed.{
  plain_name, Config, cut_once, drop_where, trim_right, is_quote, fill, read_line, server_key,
  is_server_line, put_line,
}

-- The two settings that a seed must not lose are the same.
pub record IsLike (c d : Config) : Type 0 where
  pub same_serial : c.serial ≡ d.serial
  pub same_token : c.token ≡ d.token

IsLike-sym : {c d : Config} → IsLike c d → IsLike d c
IsLike-sym h = record { same_serial = sym h.same_serial; same_token = sym h.same_token }

abbrev filled : Bool → Config → Config → Config
filled b c d = if b then c else d

either-IsLike :
    (b : Bool) {c d c' d' : Config}
    → IsLike c c'
    → IsLike d d'
    → IsLike (filled b c d) (filled b c' d')
either-IsLike true h k = h
either-IsLike false h k = k

server-IsLike :
    (b b' : Bool) (v : Text) {c d : Config}
    → IsLike c d
    → IsLike (filled b (record c { server = v }) c) (filled b' (record d { server = v }) d)
server-IsLike true true v h = record { same_serial = h.same_serial; same_token = h.same_token }
server-IsLike true false v h = record { same_serial = h.same_serial; same_token = h.same_token }
server-IsLike false true v h = record { same_serial = h.same_serial; same_token = h.same_token }
server-IsLike false false v h = h

serial-IsLike :
    (b b' : Bool) (v : Text) {c d : Config}
    → b ≡ b'
    → IsLike c d
    → IsLike (filled b (record c { serial = v }) c) (filled b' (record d { serial = v }) d)
serial-IsLike true true v e h = record { same_serial = refl; same_token = h.same_token }
serial-IsLike true false v e h = absurd (ground (arith, e))
serial-IsLike false true v e h = absurd (ground (arith, e))
serial-IsLike false false v e h = h

token-IsLike :
    (b b' : Bool) (v : Text) {c d : Config}
    → b ≡ b'
    → IsLike c d
    → IsLike (filled b (record c { token = v }) c) (filled b' (record d { token = v }) d)
token-IsLike true true v e h = record { same_serial = h.same_serial; same_token = refl }
token-IsLike true false v e h = absurd (ground (arith, e))
token-IsLike false true v e h = absurd (ground (arith, e))
token-IsLike false false v e h = h

fill-IsLike : (k v : Text) (c d : Config) → IsLike c d → IsLike (fill k v c) (fill k v d)
unfolding fill
fill-IsLike k v c d h =
    either-IsLike (text_eq k (codes "SERVER"))
      (server-IsLike (is_empty c.server) (is_empty d.server) v h)
      (either-IsLike (text_eq k (codes "SERIAL"))
        (serial-IsLike (is_empty c.serial) (is_empty d.serial) v (ap is_empty h.same_serial) h)
        (either-IsLike (text_eq k (codes "TOKEN"))
          (token-IsLike (is_empty c.token) (is_empty d.token) v (ap is_empty h.same_token) h) h))

has_prefix-split : (p s : Text) → has_prefix s p ≡ true → s ≡ p ++ drop (length p) s
unfolding has_prefix
has_prefix-split [] s h = refl
has_prefix-split (b ∷ p) [] h = absurd (ground (arith, h))
has_prefix-split (b ∷ p) (a ∷ s) h =
    let here : a ≡ b = (==_iff a b).0 (ground (arith, h)) in
    ap (λ q. q ∷ s) here ∙ ap (λ q. b ∷ q) (has_prefix-split p s (ground (arith, h)))

-- A line of the server says nothing else.
server_fill : (v : Text) (c d : Config) → IsLike c d → IsLike (fill (codes "SERVER") v c) d
unfolding fill text_eq
server_fill v c d h = server-IsLike (is_empty c.server) false v h

-- Reading a line keeps configurations alike.
read_line-IsLike : (l : Text) (c d : Config) → IsLike c d → IsLike (read_line l c) (read_line l d)
unfolding read_line
read_line-IsLike l c d h =
    elim (Bool-cases (is_empty (trim_space l) || has_prefix (trim_space l) (codes "#"))) [
      | inl e ↦ rw e h
      | inr e ↦ elim (Option-cases (cut_once 61 (trim_space l))) [
        | inl n ↦ rw e (rw n h)
        | inr ((k, v), n) ↦ rw e (
            rw n (
              fill-IsLike (plain_name k) (trim_right is_quote (drop_where is_quote (trim_space v)))
                c d h))
      ]
    ]

cut_key : (rest : Text) → cut_once 61 (server_key ++ rest) ≡ some (codes "SHEATH_SERVER", rest)
unfolding cut_once
cut_key rest = refl

key_name : plain_name (codes "SHEATH_SERVER") ≡ codes "SERVER"
unfolding trim_prefix has_prefix trim_space trim_left is_space
key_name = refl

pub read_key :
    (l : Text) (c d : Config) → is_server_line l ≡ true → IsLike c d → IsLike (read_line l c) d
unfolding read_line has_prefix
read_key l c d e h =
    let there = has_prefix-split server_key (trim_space l) e in
    rw (there, cut_key (drop (length server_key) (trim_space l)), key_name)
      (server_fill
        (trim_right is_quote
          (drop_where is_quote (trim_space (drop (length server_key) (trim_space l)))))
        c d h)

-- White space is taken off behind a byte that is none.
trim_left-kept :
    (x : ℕ) (a b : Text) → is_space x ≡ false → (m : Text) × (trim_left (a ++ x ∷ b) ≡ m ++ x ∷ b)
unfolding trim_left
trim_left-kept x [] b h = ([], rw h refl)
trim_left-kept x (c ∷ a) b h = elim (Bool-cases (is_space c)) [
  | inl e ↦ ((trim_left-kept x a b h).0, rw e (trim_left-kept x a b h).1)
  | inr e ↦ (c ∷ a, rw e refl)
]

abbrev key_back : Text
key_back = codes "REVRES_HTAEHS"

pub put_is_key : (value : Text) → is_server_line (server_key ++ value) ≡ true
unfolding trim_space trim_left is_space has_prefix
put_is_key value =
    let (m, e) = trim_left-kept 61 (reverse value) key_back refl in
    let start : reverse (server_key ++ value) ≡ reverse value ++ 61 ∷ key_back =
      reverse-append server_key value in
    let back : trim_space (server_key ++ value) ≡ server_key ++ reverse m =
      ap (λ t. reverse (trim_left t)) start ∙ (ap reverse e ∙ reverse-append m (61 ∷ key_back)) in
    ap (λ t. has_prefix t server_key) back

pub read_put :
    (value l : Text) (c d : Config)
    → IsLike c d
    → IsLike (read_line (put_line value l) c) (read_line l d)
read_put value l c d h = elim (Bool-cases (is_server_line l)) [
  | inl e ↦ rw e (
      read_key (server_key ++ value) c (read_line l d) (put_is_key value)
        (IsLike-sym (read_key l d c e (IsLike-sym h))))
  | inr e ↦ rw e (read_line-IsLike l c d h)
]
