-- ===== src/Server/Addressing.antt =====
-- server/ipam.go: how the address, the MAC and the name of a blade follow from its site, its
-- BladeRunner and its slot; the checks of names and address blocks. Texts are lists of bytes.
pub mod Names
pub mod Blocks
mod Examples
use sheath.Prelude.{
  split_on, ℕ, zero, suc, ◌+◌, ◌-◌, ◌*◌, ◌/◌, ◌%◌, ◌<◌, ◌≤◌, Bool, true, false, not, ◌&&◌, ◌||◌,
  List, [], ◌∷◌, ◌++◌, Option, none, some, ltb, leb, ◌==◌, if◌then◌else◌, Text, codes, is_digit,
  is_empty, has_prefix, drop, length, itoa, all, any, select, map, to_lower, Signed, plus, minus,
  atoi,
}
use sheath.Server.Fleet.{Site, Rack}

-- `validSlot`
unfoldable pub valid_slot : ℕ → ℕ → Bool
valid_slot size slot = not (ltb slot 1 || ltb size slot)

-- `validSize`
unfoldable pub valid_size : ℕ → Bool
valid_size n = (n == 2) || ((n == 4) || ((n == 10) || (n == 20)))

-- `bladeIP`, and the same lines in `decorate`
unfoldable pub blade_ip : Text → Rack → ℕ → Text
unfolding valid_slot
blade_ip net_base r slot =
    if valid_slot r.size slot then net_base ++ b'.' ∷ itoa (r.ip_offset + slot) else []

-- `rackIndex`, with the site's offsets, or the defaults where the site is unknown
unfoldable pub rack_index : Option Site → Rack → ℕ
rack_index st rk =
    let base : ℕ = elim st [ none ↦ 100 | some s ↦ s.offset_base ] in
    let step : ℕ = elim st [ none ↦ 20 | some s ↦ s.offset_step ] in
    if (step == 0) || ltb rk.ip_offset base then 1 else (rk.ip_offset - base) / step + 1

unfoldable pub hex : ℕ → ℕ
hex d = if ltb d 10 then b'0' + d else b'a' + (d - 10)

-- `%02x` of the low byte
unfoldable pub hex_byte : ℕ → Text
hex_byte n = hex (n % 256 / 16) ∷ hex (n % 16) ∷ []

abbrev pub auto_mac_prefix : Text
auto_mac_prefix = codes "02:b1:ad:"

unfoldable pub blade_mac : ℕ → ℕ → ℕ → Text
unfolding hex_byte
blade_mac site_id rack_idx slot =
    auto_mac_prefix ++ (hex_byte site_id ++ b':' ∷ (hex_byte rack_idx ++ b':' ∷ hex_byte slot))

-- `%02d`
unfoldable pub two_digits : ℕ → Text
two_digits n = if ltb n 10 then b'0' ∷ itoa n else itoa n

unfoldable pub blade_hostname : Text → ℕ → ℕ → Text
blade_hostname [] rack_idx slot =
    codes "blade-" ++ (b'r' ∷ (itoa rack_idx ++ b's' ∷ two_digits slot))
blade_hostname (c ∷ prefix) rack_idx slot =
    codes "blade-" ++ ((c ∷ prefix) ++ b'-' ∷ (b'r' ∷ (itoa rack_idx ++ b's' ∷ two_digits slot)))

abbrev pub is_label_byte : ℕ → Bool
is_label_byte c = (leb b'a' c && leb c b'z') || is_digit c

-- `validHostPrefix`
unfoldable pub valid_host_prefix : Text → Bool
unfolding all
valid_host_prefix p = leb (length p) 8 && all is_label_byte p

-- Two digits and the end of the text.
abbrev pub ends_two : Text → Bool
ends_two (a ∷ b ∷ []) = is_digit a && is_digit b
ends_two _ = false

-- The rest of `\d+s\d{2}$` behind its first digit
unfoldable pub auto_digits : Text → Bool
auto_digits [] = false
auto_digits (c ∷ s) = if is_digit c then auto_digits s else (c == b's') && ends_two s

-- `r\d+s\d{2}$`
unfoldable pub auto_tail : Text → Bool
unfolding auto_digits
auto_tail (r ∷ d ∷ s) = (r == b'r') && (is_digit d && auto_digits s)
auto_tail _ = false

-- `[a-z0-9]{1,8}-` and the tail; `n` bytes have been read.
unfoldable pub auto_prefix : ℕ → Text → Bool
unfolding auto_tail
auto_prefix n [] = false
auto_prefix n (c ∷ s) =
    if c == b'-'
    then leb 1 n && (leb n 8 && auto_tail s)
    else is_label_byte c && auto_prefix (n + 1) s

-- `autoHostRe.MatchString`
unfoldable pub auto_host : Text → Bool
unfolding has_prefix auto_prefix
auto_host s = has_prefix s (codes "blade-") && (auto_tail (drop 6 s) || auto_prefix 0 (drop 6 s))

-- `mac` came from `bladeMAC`
unfoldable pub auto_mac : Text → Bool
auto_mac mac = has_prefix (map to_lower mac) auto_mac_prefix

-- One part of `validNetBase`
unfoldable pub valid_octet : Text → Bool
valid_octet p = elim (atoi p) [
  | none ↦ false
  | some v ↦
      let lead : Bool = elim p [ [] ↦ false | c ∷ _ ↦ c == b'0' ] in
      elim v [ minus n ↦ n == 0 | plus n ↦ leb n 255 ] && not (ltb 1 (length p) && lead)
]

abbrev pub three_octets : List Text → Bool
three_octets (a ∷ b ∷ c ∷ []) = valid_octet a && (valid_octet b && valid_octet c)
three_octets _ = false

-- `validNetBase`
unfoldable pub valid_net_base : Text → Bool
unfolding valid_octet
valid_net_base s = three_octets (split_on b'.' s [])

-- `off+step <= 250; off += step`, with fuel; `none` is where it runs out, and `some none` the end
-- of the loop with no free block.
unfoldable pub next_offset : ℕ → List ℕ → ℕ → ℕ → Option (Option ℕ)
next_offset zero used step off = none
next_offset (suc f) used step off =
    let rest = next_offset f used step (off + step) in
    if leb (off + step) 250
    then (if not (any (λ u. u == off) used) then some (some off) else rest)
    else some none

-- `nextRackOffset`: the blocks of the site's racks are taken.
unfoldable pub next_rack_offset : Site → List Rack → Option (Option ℕ)
next_rack_offset st racks =
    next_offset 251
      (map (λ (r : Rack). r.ip_offset) (select (λ (r : Rack). r.site_id == st.id) racks))
      st.offset_step st.offset_base

pub data Warning : Type 0 where
  overflow : Text → Warning
  pool : Text → ℕ → ℕ → Warning
  blocks : Text → Text → Warning

-- `span`: the addresses of a rack.
abbrev pub lo : Rack → ℕ
lo r = r.ip_offset + 1

abbrev pub hi : Rack → ℕ
hi r = r.ip_offset + r.size

abbrev pub overlap : Rack → Rack → Bool
overlap r q = leb (lo r) (hi q) && leb (lo q) (hi r)

unfoldable pub check_rack : Site → Rack → List Warning
check_rack st r =
    (if ltb 254 (hi r) then overflow r.name ∷ [] else [])
    ++ (if leb (lo r) st.pool_to && leb st.pool_from (hi r)
        then pool r.name (lo r) (hi r) ∷ []
        else [])

unfoldable pub check_racks : Site → List Rack → List Warning
unfolding check_rack
check_racks st [] = []
check_racks st (r ∷ rs) = check_rack st r ++ check_racks st rs

unfoldable pub check_against : Rack → List Rack → List Warning
check_against r [] = []
check_against r (q ∷ qs) =
    (if overlap r q then blocks r.name q.name ∷ [] else []) ++ check_against r qs

unfoldable pub check_pairs : List Rack → List Warning
unfolding check_against
check_pairs [] = []
check_pairs (r ∷ rs) = check_against r rs ++ check_pairs rs

-- `checkSite`, for a network that parses.
unfoldable pub check_site : Site → List Rack → List Warning
unfolding check_racks check_pairs
check_site st racks_all =
    let racks = select (λ (r : Rack). r.site_id == st.id) racks_all in
    check_racks st racks ++ check_pairs racks
