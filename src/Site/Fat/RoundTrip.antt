-- ===== src/Site/Fat/RoundTrip.antt =====
-- A file that has been replaced reads back.
use mathlib.Core.Path.{subst}
use native.Mathlib.Nat.{mul-sub, mul-le-mul, mul_comm}
use sheath.Prelude.{
  ℕ, ◌+◌, ◌-◌, ◌*◌, ◌%◌, ◌^◌, ◌≤◌, ◌<◌, ◌≡◌, refl, sym, ◌∙◌, ap, inl, inr, arith, false, some, ltb,
  Text, length, replicate, Bool-cases, Option-cases,
}
use sheath.Site.Fat.{
  byte_at, slice, put_bytes, uint16, uint32, bytes32, Fat16, open_fat16, find, fat83, cluster_size,
  cluster_start, overwrite, Result, ok, replace_at, replace, patch_file, read_at, read_file,
}
use sheath.Site.Fat.Bytes.{byte_at-put_bytes, length-put_bytes, slice_same, slice-put_bytes}
use sheath.Site.Fat.Replace.{
  find_entry-within, IsLaidOut, open_fat16-IsLaidOut, IsLike, overwrite-IsLike, open_fat16-IsLike,
  find_entry-IsLike,
}

-- What it takes for a file to be replaced: the checks of the code.
pub record IsWritable (f : Fat16) (off : ℕ) (content d : Text) : Type 0 where
  pub own_cluster : 2 ≤ uint16 (off + 26) d
  pub fits : length content ≤ cluster_size f
  pub inside : cluster_start f (uint16 (off + 26) d) + cluster_size f ≤ length d

replace_at-ok :
    (f : Fat16) (off : ℕ) (content d e : Text)
    → replace_at f off content d ≡ ok e
    → IsWritable f off content d
      × (overwrite f off (cluster_start f (uint16 (off + 26) d)) content d ≡ e)
unfolding replace_at
replace_at-ok f off content d e h = elim (Bool-cases (ltb (uint16 (off + 26) d) 2)) [
  | inl none_own ↦ absurd (ground arith)
  | inr own ↦ elim (Bool-cases (ltb (cluster_size f) (length content))) [
    | inl long ↦ absurd (ground arith)
    | inr short ↦
        elim (Bool-cases
          (ltb (length d) (cluster_start f (uint16 (off + 26) d) + cluster_size f))) [
            | inl past ↦ absurd (ground arith)
            | inr in_image ↦ (writable own short in_image, written own short in_image)
          ]
  ]
]
  where
    writable :
        ltb (uint16 (off + 26) d) 2 ≡ false
        → ltb (cluster_size f) (length content) ≡ false
        → ltb (length d) (cluster_start f (uint16 (off + 26) d) + cluster_size f) ≡ false
        → IsWritable f off content d
    writable own short in_image = record {
      own_cluster = ground (arith, own);
      fits = ground (arith, short);
      inside = ground (arith, in_image);
    }

    written :
        ltb (uint16 (off + 26) d) 2 ≡ false
        → ltb (cluster_size f) (length content) ≡ false
        → ltb (length d) (cluster_start f (uint16 (off + 26) d) + cluster_size f) ≡ false
        → overwrite f off (cluster_start f (uint16 (off + 26) d)) content d ≡ e
    written own short in_image =
        let run : replace_at f off content d
            ≡ ok (overwrite f off (cluster_start f (uint16 (off + 26) d)) content d) =
          rw (own, replace_at, short, in_image) refl in
        ap (λ (r : Result). elim r [ ok x ↦ x | _ ↦ e ]) (sym run ∙ h)

bytes32_lem : (n off : ℕ) (e : Text) → n < 2 ^ 32 → slice off 4 e ≡ bytes32 n → uint32 off e ≡ n
unfolding slice
bytes32_lem n off e small h = omega (
  arith,
  small,
  ap (λ s. byte_at 0 s) h,
  ap (λ s. byte_at 1 s) h,
  ap (λ s. byte_at 2 s) h,
  ap (λ s. byte_at 3 s) h,
  ap (λ i. byte_at i e) (step 1),
  ap (λ i. byte_at (i + 1) e) (step 1),
)
  where
    step : (k : ℕ) → off + 1 + k ≡ off + (1 + k)
    step k = omega arith

module _ (f : Fat16) (off start : ℕ) (content d : Text) (fits : length content ≤ cluster_size f)
    (apart : off + 32 ≤ start) (inside : start + cluster_size f ≤ length d) where
  -- The image once the cluster has been cleared, and then filled.
  abbrev cleared : Text
  cleared = put_bytes start (replicate (cluster_size f) 0) d

  abbrev filled : Text
  filled = put_bytes start content cleared

  filled-length : length filled ≡ length d
  filled-length = omega (
    arith,
    length-put_bytes start content cleared,
    length-put_bytes start (replicate (cluster_size f) 0) d,
  )

  content_back : slice start (length content) (overwrite f off start content d) ≡ content
  unfolding overwrite
  content_back =
      slice_same start (length content) filled
        (put_bytes (off + 28) (bytes32 (length content)) filled)
        (λ i lo hi.
          byte_at-put_bytes i (off + 28) (bytes32 (length content)) filled
            (inr (omega (arith, apart))))
      ∙ slice-put_bytes start content cleared
          (omega (arith, fits, inside, length-put_bytes start (replicate (cluster_size f) 0) d))

  length_back :
      length content < 2 ^ 32 → uint32 (off + 28) (overwrite f off start content d) ≡ length content
  unfolding overwrite
  length_back small = bytes32_lem (length content) (off + 28) _ small (
      slice-put_bytes (off + 28) (bytes32 (length content)) filled
        (omega (arith, filled-length, apart, inside)))

  cluster_back : uint16 (off + 26) (overwrite f off start content d) ≡ uint16 (off + 26) d
  cluster_back = omega (arith, at (off + 26) (omega arith), at (off + 26 + 1) (omega arith))
    where
      at : (i : ℕ) → i < off + 28 → byte_at i (overwrite f off start content d) ≡ byte_at i d
      at i h =
          (overwrite-IsLike f off start content d fits).same_byte i (inl (omega (arith, apart)))
            (inl h)

-- The offset that reading computes is the one that replacing used.
same_start : (a cl cs : ℕ) → 2 ≤ cl → a + cl * cs - 2 * cs ≡ a + (cl - 2) * cs
same_start a cl cs h =
    let product : cs * (cl - 2) ≡ cs * cl - cs * 2 = mul-sub cs cl 2 in
    let grows : 2 * cs ≤ cl * cs = mul-le-mul h (omega arith) in
    omega (arith, product, grows, mul_comm cs (cl - 2), mul_comm cs cl, mul_comm cs 2)

-- Reading an entry whose length fits a cluster that lies inside the image.
read_at_inside :
    (f : Fat16) (off cluster size : ℕ) (e : Text)
    → uint16 (off + 26) e ≡ cluster
    → uint32 (off + 28) e ≡ size
    → 2 ≤ cluster
    → size ≤ cluster_size f
    → cluster_start f cluster + cluster_size f ≤ length e
    → read_at f off e ≡ ok (slice (cluster_start f cluster) size e)
unfolding read_at
read_at_inside f off cluster size e at_cluster of_size own fits inside =
    let back : f.data_off + cluster * cluster_size f - 2 * cluster_size f
        ≡ cluster_start f cluster =
      same_start f.data_off cluster (cluster_size f) own in
    let grows : 2 * cluster_size f ≤ cluster * cluster_size f = mul-le-mul own (omega arith) in
    let short : ltb (cluster_size f) size ≡ false = ground (arith, fits) in
    let here : ltb (length e + 2 * cluster_size f) (f.data_off + cluster * cluster_size f + size)
        ≡ false =
      ground (arith, fits, back, grows, inside) in
    let behind : ltb (f.data_off + cluster * cluster_size f) (2 * cluster_size f) ≡ false =
      ground (arith, grows) in
    rw (at_cluster, of_size, short, here, behind, back) refl

-- Reading the entry of the file that has been written.
pub read_at-overwrite :
    (f : Fat16) (off : ℕ) (content d : Text)
    → IsWritable f off content d
    → off + 32 ≤ cluster_start f (uint16 (off + 26) d)
    → length content < 2 ^ 32
    → read_at f off (overwrite f off (cluster_start f (uint16 (off + 26) d)) content d) ≡ ok content
read_at-overwrite f off content d w apart small =
    let start : ℕ = cluster_start f (uint16 (off + 26) d) in
    read_at_inside f off (uint16 (off + 26) d) (length content) (overwrite f off start content d)
      (cluster_back f off start content d w.fits apart w.inside)
      (length_back f off start content d w.fits apart w.inside small) w.own_cluster w.fits
      (omega (arith, w.inside, (overwrite-IsLike f off start content d w.fits).same_length))
    ∙ ap ok (content_back f off start content d w.fits apart w.inside)

-- A file that the code has found and written.
patch_file-written :
    (name content d e : Text) (f : Fat16)
    → open_fat16 d ≡ some f
    → patch_file name content d ≡ ok e
    → (off : ℕ) × (find f name d ≡ some off) × (replace_at f off content d ≡ ok e)
unfolding patch_file replace
patch_file-written name content d e f opens h = elim (Option-cases (find f name d)) [
  | inl missing ↦ absurd (ground (arith, opens))
  | inr (off, found) ↦ (off, found, ground (arith, opens, found))
]

-- Replacing changes the bytes of one cluster and of the length, and reading the name again finds them.
IsReplaced : (f : Fat16) (name content d e : Text) → Type 0
IsReplaced f name content d e =
    (off : ℕ) × (find f name d ≡ some off)
    × (IsLike f off (cluster_start f (uint16 (off + 26) d)) d e)
    × (open_fat16 e ≡ some f)
    × (find f name e ≡ some off)
    × (read_at f off e ≡ ok content)

replaced :
    (name content d : Text) (f : Fat16) (off : ℕ)
    → open_fat16 d ≡ some f
    → 512 ≤ f.bytes_per_sec
    → length content < 2 ^ 32
    → find f name d ≡ some off
    → IsWritable f off content d
    → IsReplaced f name content d
        (overwrite f off (cluster_start f (uint16 (off + 26) d)) content d)
unfolding IsReplaced find
replaced name content d f off opens sector small found w =
    let laid : IsLaidOut f d = open_fat16-IsLaidOut d f opens sector in
    let place : (f.root_off ≤ off)
        × (off + 32 ≤ f.root_off + 32 * f.root_entries)
        × (off + 32 ≤ length d)
        × ((off - f.root_off) % 32 ≡ 0) =
      find_entry-within f.root_entries f.root_off off (fat83 name) d found in
    let start : ℕ = cluster_start f (uint16 (off + 26) d) in
    let like : IsLike f off start d (overwrite f off start content d) =
      overwrite-IsLike f off start content d w.fits in
    (
      off,
      found,
      like,
      open_fat16-IsLike f off start d (overwrite f off start content d) like
            (omega (arith, laid.behind_header, place.0))
            (omega (arith, laid.behind_header, laid.before_data))
          ∙ opens,
      find_entry-IsLike f off start f.root_entries f.root_off (fat83 name) d
            (overwrite f off start content d) like (omega (arith, laid.before_data))
            (inr (place.0, place.3))
          ∙ found,
      read_at-overwrite f off content d w (omega (arith, laid.before_data, place.1)) small,
    )

read_file-of :
    (f : Fat16) (name content d e : Text)
    → IsReplaced f name content d e
    → read_file name e ≡ ok content
unfolding IsReplaced read_file
read_file-of f name content d e (off, found, like, opens, again, back) =
    rw (opens, read_file, again, back) refl

-- Whatever a patched file held before, reading the same file of the patched image gives what was written,
-- when the sectors have 512 bytes or more and the content's length fits 32 bits.
pub patch_file-read_file :
    (name content d e : Text) (f : Fat16)
    → open_fat16 d ≡ some f
    → 512 ≤ f.bytes_per_sec
    → length content < 2 ^ 32
    → patch_file name content d ≡ ok e
    → read_file name e ≡ ok content
patch_file-read_file name content d e f opens sector small h =
    let (off, found, run) = patch_file-written name content d e f opens h in
    let (w, same) = replace_at-ok f off content d e run in
    read_file-of f name content d e (
      subst (IsReplaced f name content d) same
        (replaced name content d f off opens sector small found w))

-- A patched image has the length that it had, and every byte outside of the file's first cluster and of
-- the four bytes of its length is the one that it was.
pub patch_file-IsLike :
    (name content d e : Text) (f : Fat16) (off : ℕ)
    → open_fat16 d ≡ some f
    → find f name d ≡ some off
    → patch_file name content d ≡ ok e
    → IsLike f off (cluster_start f (uint16 (off + 26) d)) d e
unfolding patch_file replace
patch_file-IsLike name content d e f off opens found h =
    let run : replace_at f off content d ≡ ok e = ground (arith, opens, found, h) in
    let (w, same) = replace_at-ok f off content d e run in
    subst (IsLike f off (cluster_start f (uint16 (off + 26) d)) d) same
      (overwrite-IsLike f off (cluster_start f (uint16 (off + 26) d)) content d w.fits)
