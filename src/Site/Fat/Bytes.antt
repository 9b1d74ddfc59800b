-- ===== src/Site/Fat/Bytes.antt =====
-- Reading bytes back after others have been written.
use sheath.Prelude.{ℕ, zero, suc, ◌+◌, ◌≤◌, ◌<◌, ◌≡◌, refl, ◌⊎◌, arith, [], ◌∷◌, Text, length, ap}
use sheath.Site.Fat.{byte_at, set_byte, slice, put_bytes}

pub length-set_byte : (i b : ℕ) (d : Text) → length (set_byte i b d) ≡ length d
unfolding set_byte
length-set_byte i b [] = refl
length-set_byte zero b (c ∷ d) = refl
length-set_byte (suc i) b (c ∷ d) = ap suc (length-set_byte i b d)

byte_at-set_byte_same : (i b : ℕ) (d : Text) → i < length d → byte_at i (set_byte i b d) ≡ b
unfolding set_byte
byte_at-set_byte_same i b [] h = absurd (omega arith)
byte_at-set_byte_same zero b (c ∷ d) h = refl
byte_at-set_byte_same (suc i) b (c ∷ d) h = byte_at-set_byte_same i b d (omega arith)

byte_at-set_byte_other :
    (i j b : ℕ) (d : Text) → (i < j) ⊎ (j < i) → byte_at i (set_byte j b d) ≡ byte_at i d
unfolding set_byte
byte_at-set_byte_other i j b [] h = refl
byte_at-set_byte_other zero zero b (c ∷ d) h = absurd (omega arith)
byte_at-set_byte_other zero (suc j) b (c ∷ d) h = refl
byte_at-set_byte_other (suc i) zero b (c ∷ d) h = refl
byte_at-set_byte_other (suc i) (suc j) b (c ∷ d) h = byte_at-set_byte_other i j b d (omega arith)

pub length-put_bytes : (off : ℕ) (bs d : Text) → length (put_bytes off bs d) ≡ length d
unfolding put_bytes
length-put_bytes off [] d = refl
length-put_bytes off (b ∷ bs) d =
    omega (arith, length-put_bytes (off + 1) bs (set_byte off b d), length-set_byte off b d)

-- A byte outside of what is written.
pub byte_at-put_bytes :
    (i off : ℕ) (bs d : Text)
    → (i < off) ⊎ (off + length bs ≤ i)
    → byte_at i (put_bytes off bs d) ≡ byte_at i d
unfolding put_bytes
byte_at-put_bytes i off [] d h = refl
byte_at-put_bytes i off (b ∷ bs) d h = omega (
  arith,
  byte_at-put_bytes i (off + 1) bs (set_byte off b d) (omega arith),
  byte_at-set_byte_other i off b d (omega arith),
)

pub slice_same :
    (off n : ℕ) (d e : Text)
    → ((i : ℕ) → off ≤ i → i < off + n → byte_at i e ≡ byte_at i d)
    → slice off n e ≡ slice off n d
unfolding slice
slice_same off zero d e same = refl
slice_same off (suc n) d e same =
    rw
      (
        same off (omega arith) (omega arith),
        slice_same (off + 1) n d e (λ i lo hi. same i (omega arith) (omega arith)),
      )
      refl

-- What has been written is read back.
pub slice-put_bytes :
    (off : ℕ) (bs d : Text)
    → off + length bs ≤ length d
    → slice off (length bs) (put_bytes off bs d) ≡ bs
unfolding slice put_bytes
slice-put_bytes off [] d h = refl
slice-put_bytes off (b ∷ bs) d h =
    rw
      (
        head_back,
        slice-put_bytes (off + 1) bs (set_byte off b d) (omega (arith, length-set_byte off b d)),
      )
      refl
  where
    head_back : byte_at off (put_bytes (off + 1) bs (set_byte off b d)) ≡ b
    head_back = omega (
      arith,
      byte_at-put_bytes off (off + 1) bs (set_byte off b d) (omega arith),
      byte_at-set_byte_same off b d (omega arith),
    )
