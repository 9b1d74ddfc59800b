-- ===== src/Site/Fat/Replace.antt =====
-- What replacing a file leaves as it is.
use mathlib.Core.Path.{subst}
use native.Mathlib.Nat.{lt-div-mul-add, mul-le-mul, mul-pos}
use sheath.Prelude.{
  ℕ, zero, suc, ◌+◌, ◌-◌, ◌*◌, ◌/◌, ◌%◌, ◌≤◌, ◌<◌, ◌≡◌, refl, sym, ◌∙◌, ap, ◌⊎◌, inl, inr, arith,
  false, ◌||◌, Option, none, some, ltb, leb, ◌==◌, Text, length, replicate, length-replicate,
  Bool-cases, Option-cases,
}
use sheath.Site.Fat.{
  byte_at, slice, put_bytes, uint16, bytes32, Fat16, header, open_fat16, find_entry, cluster_size,
  overwrite,
}
use sheath.Site.Fat.Bytes.{byte_at-put_bytes, length-put_bytes, slice_same}

-- An entry that is found starts a multiple of 32 behind the first, among those of the directory, and
-- lies inside the image.
pub find_entry-within :
    (n off o : ℕ) (want d : Text)
    → find_entry n off want d ≡ some o
    → (off ≤ o) × (o + 32 ≤ off + 32 * n) × (o + 32 ≤ length d) × ((o - off) % 32 ≡ 0)
unfolding find_entry
find_entry-within zero off o want d h = absurd (ground arith)
find_entry-within (suc n) off o want d h = elim (Bool-cases (ltb (length d) (off + 32))) [
  | inl short ↦ absurd (ground arith)
  | inr fits ↦ elim (Bool-cases (byte_at off d == 0)) [
    | inl end ↦ absurd (ground arith)
    | inr more ↦ elim (Option-cases (find_entry n (off + 32) want d)) [
      | inl last ↦ ground (arith, fits, more, last)
      | inr (p, later) ↦
          ground (arith, fits, more, later, find_entry-within n (off + 32) p want d later)
    ]
  ]
]

-- The directory stands behind the first sector and before the data.
pub record IsLaidOut (f : Fat16) (d : Text) : Type 0 where
  pub behind_header : 512 ≤ f.root_off
  pub before_data : f.root_off + 32 * f.root_entries ≤ f.data_off
  pub data_inside : f.data_off < length d

-- The layout that the header gives, for a sector size from `b` on.
root_behind : (r n s b : ℕ) → 0 < n → 0 < s → b ≤ (r + n * s) * b
root_behind r n s b hn hs =
    let pos : 1 ≤ n * s = mul-pos hn hs in
    let grow : 1 * b ≤ (r + n * s) * b = mul-le-mul (omega (arith, pos)) (omega arith) in
    omega (arith, grow)

sectors_hold : (e b : ℕ) → 0 < b → e * 32 ≤ (e * 32 + b - 1) / b * b
sectors_hold e b h =
    let room : e * 32 + b - 1 < (e * 32 + b - 1) / b * b + b = lt-div-mul-add h in
    omega (arith, room, h)

header_checked :
    (d : Text) (f : Fat16)
    → open_fat16 d ≡ some f
    → (header d ≡ f) × (0 < byte_at 16 d) × (0 < uint16 22 d) × ((header d).data_off < length d)
unfolding open_fat16
header_checked d f h = elim (Bool-cases (ltb (length d) 512)) [
  | inl short ↦ absurd (ground arith)
  | inr long ↦
      elim (Bool-cases (
        (uint16 11 d == 0)
        || ((byte_at 13 d == 0) || ((byte_at 16 d == 0) || (uint16 22 d == 0))))) [
          | inl zeros ↦ absurd (ground arith)
          | inr good ↦ elim (Bool-cases (leb (length d) (header d).data_off)) [
            | inl ends ↦ absurd (ground arith)
            | inr inside ↦ (
              same long good inside,
              ground (arith, good),
              ground (arith, good),
              ground (arith, inside),
            )
          ]
        ]
]
  where
    same :
        ltb (length d) 512 ≡ false
        → ((uint16 11 d == 0)
            || ((byte_at 13 d == 0) || ((byte_at 16 d == 0) || (uint16 22 d == 0))))
          ≡ false
        → leb (length d) (header d).data_off ≡ false
        → header d ≡ f
    same long good inside =
        let run : open_fat16 d ≡ some (header d) = rw (long, open_fat16, good, inside) refl in
        ap (λ (o : Option Fat16). elim o [ none ↦ header d | some g ↦ g ]) (sym run ∙ h)

header-IsLaidOut :
    (d : Text)
    → 0 < byte_at 16 d
    → 0 < uint16 22 d
    → (header d).data_off < length d
    → 512 ≤ (header d).bytes_per_sec
    → IsLaidOut (header d) d
header-IsLaidOut d hn hs inside big = record {
  behind_header =
      omega
        (arith, big, root_behind (uint16 14 d) (byte_at 16 d) (uint16 22 d) (uint16 11 d) hn hs);
  before_data = omega (arith, sectors_hold (uint16 17 d) (uint16 11 d) (omega (arith, big)));
  data_inside = inside;
}

pub open_fat16-IsLaidOut :
    (d : Text) (f : Fat16) → open_fat16 d ≡ some f → 512 ≤ f.bytes_per_sec → IsLaidOut f d
open_fat16-IsLaidOut d f h = by_header (header_checked d f h)
  where
    by_header :
        (header d ≡ f) × (0 < byte_at 16 d) × (0 < uint16 22 d) × ((header d).data_off < length d)
        → 512 ≤ f.bytes_per_sec
        → IsLaidOut f d
    by_header (e, hn, hs, inside) =
        subst (λ g. 512 ≤ g.bytes_per_sec → IsLaidOut g d) e (header-IsLaidOut d hn hs inside)

-- Images that differ only in one cluster and in the length of one entry.
pub record IsLike (f : Fat16) (off start : ℕ) (d e : Text) : Type 0 where
  pub same_length : length e ≡ length d
  pub same_byte :
      (i : ℕ)
      → (i < start) ⊎ (start + cluster_size f ≤ i)
      → (i < off + 28) ⊎ (off + 32 ≤ i)
      → byte_at i e ≡ byte_at i d

pub overwrite-IsLike :
    (f : Fat16) (off start : ℕ) (content d : Text)
    → length content ≤ cluster_size f
    → IsLike f off start d (overwrite f off start content d)
unfolding overwrite
overwrite-IsLike f off start content d fits = record {
  same_length = omega (
    arith,
    length-put_bytes (off + 28) (bytes32 (length content))
        (put_bytes start content (put_bytes start (replicate (cluster_size f) 0) d)),
    length-put_bytes start content (put_bytes start (replicate (cluster_size f) 0) d),
    length-put_bytes start (replicate (cluster_size f) 0) d,
  );
  same_byte = λ i outside besides. omega (
    arith,
    byte_at-put_bytes i (off + 28) (bytes32 (length content))
        (put_bytes start content (put_bytes start (replicate (cluster_size f) 0) d))
        (omega (arith, besides)),
    byte_at-put_bytes i start content (put_bytes start (replicate (cluster_size f) 0) d)
        (omega (arith, fits, outside)),
    byte_at-put_bytes i start (replicate (cluster_size f) 0) d
        (omega (arith, outside, length-replicate {A = ℕ} (cluster_size f) 0)),
  );
}

-- Such images have the same header, and an entry of a name stands in the same place.
pub open_fat16-IsLike :
    (f : Fat16) (off start : ℕ) (d e : Text)
    → IsLike f off start d e
    → 512 ≤ off
    → 512 ≤ start
    → open_fat16 e ≡ open_fat16 d
unfolding open_fat16
open_fat16-IsLike f off start d e like ho hs =
    rw
      (
        like.same_length,
        at 11 (omega arith),
        at 12 (omega arith),
        at 13 (omega arith),
        at 14 (omega arith),
        at 15 (omega arith),
        at 16 (omega arith),
        at 17 (omega arith),
        at 18 (omega arith),
        at 22 (omega arith),
        at 23 (omega arith),
      )
      refl
  where
    at : (i : ℕ) → i < 512 → byte_at i e ≡ byte_at i d
    at i h = like.same_byte i (inl (omega arith)) (inl (omega arith))

pub find_entry-IsLike :
    (f : Fat16) (o start n off : ℕ) (want d e : Text)
    → IsLike f o start d e
    → off + 32 * n ≤ start
    → (o + 32 ≤ off) ⊎ ((off ≤ o) × ((o - off) % 32 ≡ 0))
    → find_entry n off want e ≡ find_entry n off want d
unfolding find_entry
find_entry-IsLike f o start zero off want d e like below aligned = refl
find_entry-IsLike f o start (suc n) off want d e like below aligned =
    rw
      (
        like.same_length,
        at off (omega arith) (omega arith),
        at (off + 11) (omega arith) (omega arith),
        same_name,
        find_entry-IsLike f o start n (off + 32) want d e like (omega arith)
            (omega (arith, aligned)),
      )
      refl
  where
    at : (i : ℕ) → off ≤ i → i < off + 28 → byte_at i e ≡ byte_at i d
    at i lo hi = like.same_byte i (inl (omega (arith, below))) (omega (arith, aligned))

    same_name : slice off 11 e ≡ slice off 11 d
    same_name = slice_same off 11 d e (λ i lo hi. at i lo (omega arith))
