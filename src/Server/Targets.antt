-- ===== src/Server/Targets.antt =====
-- server/targets.go, with installTarget of server/api.go and partTableOf and imageTable of
-- server/parttable.go: which devices a blade has, and whether its image may be written to one. What
-- mergedConfig says under "install_target" is the argument `setting`, and the first bytes of an image
-- file are those of `head`. Sizes in `facts` are in thousandths of a byte.
pub mod Refusals
mod Examples
use sheath.Prelude.{
  zero, suc, suc, ℕ, ◌+◌, ◌*◌, ◌/◌, ◌<◌, Bool, true, false, not, ◌&&◌, ◌||◌, List, [], ◌∷◌, ◌++◌,
  Option, none, some, ltb, ◌==◌, if◌then◌else◌, Text, codes, text_eq, is_empty, length, take, drop,
  get_elem?, Json, Object, field, as_num, as_str, find_first, update_where,
}
use sheath.Server.Fleet.{Blade, Image, Fleet}

pub data DeviceKind : Type 0 where
  nvme emmc sd : DeviceKind
  other_kind : Text → DeviceKind

pub record InstallDevice : Type 0 where
  pub path : Text
  pub kind : DeviceKind
  pub model : Text
  pub bytes : ℕ

abbrev pub nvme_path : Text
nvme_path = codes "/dev/nvme0n1"

abbrev pub card_path : Text
card_path = codes "/dev/mmcblk0"

-- `n, ok := num(f[k]); ok && n > 0`
abbrev pub size_of : Text → Object → Option ℕ
size_of k f = elim (as_num (field k f)) [
  | none ↦ none
  | some n ↦ if ltb 0 n then some (n / 1000) else none
]

abbrev pub device : Text → DeviceKind → Text → ℕ → InstallDevice
device path kind model bytes = record { path = path; kind = kind; model = model; bytes = bytes }

abbrev pub card_kind : Text → DeviceKind
card_kind k =
    if text_eq k (codes "nvme")
    then nvme
    else if text_eq k (codes "emmc")
    then emmc
    else if text_eq k (codes "sd")
    then sd
    else other_kind k

abbrev pub nvme_device : Option ℕ → Object → List InstallDevice
nvme_device none f = []
nvme_device (some n) f = device nvme_path nvme (as_str (field (codes "nvme_model") f)) n ∷ []

-- The eMMC's size, or else the card's, or else a kind with no size.
abbrev pub card_device : Option ℕ → Option ℕ → Text → Object → List InstallDevice
card_device (some n) _ _ f = device card_path emmc (as_str (field (codes "emmc_model") f)) n ∷ []
card_device none (some n) _ f = device card_path sd (as_str (field (codes "mmc_model") f)) n ∷ []
card_device none none [] f = []
card_device none none (c ∷ kind) f = device card_path (card_kind (c ∷ kind)) [] 0 ∷ []

unfoldable pub install_devices : Object → List InstallDevice
install_devices f =
    nvme_device (size_of (codes "nvme_bytes") f) f
    ++ card_device (size_of (codes "emmc_bytes") f) (size_of (codes "sd_bytes") f)
        (as_str (field (codes "mmc_kind") f)) f

abbrev pub is_nvme : InstallDevice → Bool
is_nvme d = elim d.kind [ nvme ↦ true | _ ↦ false ]

abbrev pub only_path : List InstallDevice → Text
only_path (d ∷ []) = d.path
only_path _ = nvme_path

abbrev pub default_target : List InstallDevice → Text
default_target ds = elim (find_first is_nvme ds) [ some d ↦ d.path | none ↦ only_path ds ]

-- `installTarget`
unfoldable pub install_target : Text → Object → Text
install_target [] f = default_target (install_devices f)
install_target (c ∷ setting) f = c ∷ setting

pub data PartTable : Type 0 where
  unread gpt mbr : PartTable

abbrev pub byte_at : ℕ → Text → ℕ
byte_at i s = elim (get_elem? s i) [ none ↦ 0 | some b ↦ b ]

-- The loop over the four entries, from entry `i`; `n` are left.
unfoldable pub real_entry : ℕ → ℕ → Text → Bool
real_entry zero i head = false
real_entry (suc n) i head =
    let t = byte_at (446 + 16 * i + 4) head in
    (not (t == 0) && not (t == 238)) || real_entry n (i + 1) head

-- `partTableOf`
unfoldable pub part_table_of : Text → PartTable
unfolding real_entry
part_table_of head =
    if ltb (length head) 520
    then unread
    else if not (byte_at 510 head == 85) || not (byte_at 511 head == 170)
    then unread
    else if text_eq (take 8 (drop 512 head)) (codes "EFI PART")
    then gpt
    else if real_entry 4 0 head
    then mbr
    else unread

abbrev pub table_text : PartTable → Text
table_text unread = []
table_text gpt = codes "gpt"
table_text mbr = codes "mbr"

abbrev pub image_is : Text → Image → Bool
image_is id img = text_eq img.id id

unfoldable pub get_image : Text → Fleet → Option Image
get_image id fl = find_first (image_is id) fl.images

abbrev remember : Text → PartTable → Fleet → Fleet × Text
remember id unread fl = (fl, [])
remember id t fl = (
  record fl {
    images =
        update_where (image_is id) (λ (q : Image). record q { part_table = table_text t })
          fl.images;
  },
  table_text t,
)

-- `imageTable`: what is found in the file is remembered.
unfoldable pub image_table : (Text → Option Text) → Text → Fleet → Fleet × Text
image_table head id fl = if is_empty id then (fl, []) else elim (get_image id fl) [
  | none ↦ (fl, [])
  | some img ↦
      if not (is_empty img.part_table) || is_empty img.local
      then (fl, img.part_table)
      else elim (head img.local) [
        | none ↦ (fl, [])
        | some bytes ↦ remember id (part_table_of bytes) fl
      ]
]

pub data TargetError : Type 0 where
  no_device too_small gpt_on_card : TargetError

abbrev pub on_card : InstallDevice → Bool
on_card d = elim d.kind [ emmc ↦ true | sd ↦ true | _ ↦ false ]

abbrev pub path_is : Text → InstallDevice → Bool
path_is p d = text_eq d.path p

abbrev card_table : InstallDevice → Fleet × Text → Fleet × Option TargetError
card_table d (fl, t) = (fl, if text_eq t (codes "gpt") then some gpt_on_card else none)

-- The second half of `checkTarget`: the image on the chosen device.
unfoldable pub check_image :
    (Text → Option Text) → InstallDevice → Text → Fleet → Fleet × Option TargetError
check_image head d image fl = if is_empty image then (fl, none) else elim (get_image image fl) [
  | none ↦ (fl, none)
  | some img ↦
      if ltb 0 img.min_disk && (ltb 0 d.bytes && ltb d.bytes img.min_disk)
      then (fl, some too_small)
      else if on_card d
      then card_table d (image_table head image fl)
      else (fl, none)
]

unfoldable pub check_devices :
    (Text → Option Text) → Text → List InstallDevice → Text → Fleet → Fleet × Option TargetError
unfolding check_image
check_devices head target [] image fl = (fl, none)
check_devices head target (d ∷ ds) image fl = elim (find_first (path_is target) (d ∷ ds)) [
  | none ↦ (fl, some no_device)
  | some c ↦ check_image head c image fl
]

-- `checkTarget`
unfoldable pub check_target :
    (Text → Option Text) → Text → Blade → Fleet → Fleet × Option TargetError
check_target head setting b fl =
    check_devices head (install_target setting b.facts) (install_devices b.facts) b.image fl
