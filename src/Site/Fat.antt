-- ===== src/Site/Fat.antt =====
-- site/fat.go: one file of a FAT16 image is rewritten in place. An image is its bytes; an offset that
-- the code has checked lies inside them.
pub mod Bytes
pub mod Replace
pub mod RoundTrip
mod Examples
use sheath.Prelude.{
  codes, nl, trim_newlines, ℕ, zero, suc, ◌+◌, ◌-◌, ◌*◌, ◌/◌, ◌%◌, ◌^◌, Bool, true, false, ◌||◌,
  List, [], ◌∷◌, ◌++◌, Option, none, some, ltb, leb, ◌==◌, if◌then◌else◌, Text, text_eq, length,
  take, replicate, map, to_upper,
}

-- `d[i]`
abbrev pub byte_at : ℕ → Text → ℕ
byte_at i [] = 0
byte_at zero (b ∷ d) = b
byte_at (suc i) (b ∷ d) = byte_at i d

-- `d[i] = b`
unfoldable pub set_byte : ℕ → ℕ → Text → Text
set_byte i b [] = []
set_byte zero b (c ∷ d) = b ∷ d
set_byte (suc i) b (c ∷ d) = c ∷ set_byte i b d

-- `d[off : off+n]`
unfoldable pub slice : ℕ → ℕ → Text → Text
slice off zero d = []
slice off (suc n) d = byte_at off d ∷ slice (off + 1) n d

-- `copy(d[off:], bs)`
unfoldable pub put_bytes : ℕ → Text → Text → Text
put_bytes off [] d = d
put_bytes off (b ∷ bs) d = put_bytes (off + 1) bs (set_byte off b d)

-- `binary.LittleEndian.Uint16` and `Uint32`
abbrev pub uint16 : ℕ → Text → ℕ
uint16 off d = byte_at off d + 256 * byte_at (off + 1) d

abbrev pub uint32 : ℕ → Text → ℕ
uint32 off d = uint16 off d + 65536 * uint16 (off + 2) d

-- `PutUint32(…, uint32(n))`
abbrev pub bytes32 : ℕ → Text
bytes32 n = n % 256 ∷ n / 256 % 256 ∷ n / 65536 % 256 ∷ n / 16777216 % 256 ∷ []

pub record Fat16 : Type 0 where
  pub bytes_per_sec : ℕ
  pub sec_per_clus : ℕ
  pub root_off : ℕ
  pub root_entries : ℕ
  pub data_off : ℕ

-- `(entries*32 + bps - 1) / bps`, for a sector size that is not 0
abbrev pub root_sectors : ℕ → ℕ → ℕ
root_sectors entries bps = (entries * 32 + bps - 1) / bps

abbrev header : Text → Fat16
header d =
    let bps = uint16 11 d in
    let entries = uint16 17 d in
    let root_off = (uint16 14 d + byte_at 16 d * uint16 22 d) * bps in
    record {
      bytes_per_sec = bps;
      sec_per_clus = byte_at 13 d;
      root_off = root_off;
      root_entries = entries;
      data_off = root_off + root_sectors entries bps * bps;
    }

-- `openFAT16`
unfoldable pub open_fat16 : Text → Option Fat16
open_fat16 d =
    if ltb (length d) 512
    then none
    else if (uint16 11 d == 0)
        || ((byte_at 13 d == 0) || ((byte_at 16 d == 0) || (uint16 22 d == 0)))
    then none
    else if leb (length d) (header d).data_off
    then none
    else some (header d)

-- `pad`
unfoldable pub pad : ℕ → Text → Text
pad zero s = []
pad (suc n) [] = 32 ∷ pad n []
pad (suc n) (c ∷ s) = c ∷ pad n s

-- `strings.Cut` at a dot
unfoldable pub cut_dot : Text → Text × Text
cut_dot [] = ([], [])
cut_dot (c ∷ s) = if c == b'.' then ([], s) else (c ∷ (cut_dot s).0, (cut_dot s).1)

unfoldable pub fat83 : Text → Text
fat83 name = let parts = cut_dot (map to_upper name) in pad 8 parts.0 ++ pad 3 parts.1

-- A long name part, or the volume label.
abbrev pub is_label : ℕ → Bool
is_label attr = (attr % 16 == 15) || (attr / 8 % 2 == 1)

-- The loop of `find`; `n` entries are left.
unfoldable pub find_entry : ℕ → ℕ → Text → Text → Option ℕ
find_entry zero off want d = none
find_entry (suc n) off want d =
    let rest = find_entry n (off + 32) want d in
    if ltb (length d) (off + 32)
    then none
    else if byte_at off d == 0
    then none
    else if byte_at off d == 229
    then rest
    else if is_label (byte_at (off + 11) d)
    then rest
    else if text_eq (slice off 11 d) want
    then some off
    else rest

-- `find`
unfoldable pub find : Fat16 → Text → Text → Option ℕ
find f name d = find_entry f.root_entries f.root_off (fat83 name) d

abbrev pub cluster_size : Fat16 → ℕ
cluster_size f = f.sec_per_clus * f.bytes_per_sec

-- The offset of a cluster from 2 on.
abbrev pub cluster_start : Fat16 → ℕ → ℕ
cluster_start f cluster = f.data_off + (cluster - 2) * cluster_size f

pub data FatError : Type 0 where
  not_fat16 not_found no_cluster too_long past_end spans : FatError

pub data Result : Type 0 where
  ok : Text → Result
  failed : FatError → Result
  -- a slice with a negative offset
  panics : Result

-- The cluster is cleared, and the content and its length are written.
unfoldable pub overwrite : Fat16 → ℕ → ℕ → Text → Text → Text
overwrite f off start content d =
    put_bytes (off + 28) (bytes32 (length content))
      (put_bytes start content (put_bytes start (replicate (cluster_size f) 0) d))

unfoldable pub replace_at : Fat16 → ℕ → Text → Text → Result
replace_at f off content d =
    let cluster = uint16 (off + 26) d in
    if ltb cluster 2
    then failed no_cluster
    else if ltb (cluster_size f) (length content)
    then failed too_long
    else if ltb (length d) (cluster_start f cluster + cluster_size f)
    then failed past_end
    else ok (overwrite f off (cluster_start f cluster) content d)

-- `replace`: the image afterwards.
unfoldable pub replace : Fat16 → Text → Text → Text → Result
replace f name content d = elim (find f name d) [
  | none ↦ failed not_found
  | some off ↦ replace_at f off content d
]

-- A file of an image is replaced: `patchCmdline` for any name and content, without its files.
unfoldable pub patch_file : Text → Text → Text → Result
patch_file name content d = elim (open_fat16 d) [
  | none ↦ failed not_fat16
  | some f ↦ replace f name content d
]

-- `patchCmdline`
unfoldable pub patch_cmdline : Text → Text → Result
patch_cmdline line d = patch_file (codes "cmdline.txt") (trim_newlines line ++ nl ∷ []) d

unfoldable pub read_at : Fat16 → ℕ → Text → Result
read_at f off d =
    let cluster = uint16 (off + 26) d in
    let size = uint32 (off + 28) d in
    let reach = f.data_off + cluster * cluster_size f in
    let back = 2 * cluster_size f in
    if ltb (cluster_size f) size
    then failed spans
    else if ltb (length d + back) (reach + size)
    then failed spans
    else if ltb reach back
    then panics
    else ok (slice (reach - back) size d)

-- `readFATFile`
unfoldable pub read_file : Text → Text → Result
read_file name d = elim (open_fat16 d) [
  | none ↦ failed not_fat16
  | some f ↦ elim (find f name d) [ none ↦ failed not_found | some off ↦ read_at f off d ]
]
