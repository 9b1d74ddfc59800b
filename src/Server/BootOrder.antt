-- ===== src/Server/BootOrder.antt =====
-- server/bootorder.go: the boot order number of a module's EEPROM. A `byte` is a number below 256
-- and a string a list of bytes.
pub mod Steps
mod Examples
use mathlib.Core.List.{reverse}
use sheath.Prelude.{
  ℕ, ◌+◌, ◌-◌, Bool, false, ◌&&◌, ◌||◌, List, [], ◌∷◌, map, ◌++◌, Option, none, some, leb, ◌==◌,
  if◌then◌else◌, Text, codes, to_lower, trim_space, trim_prefix, text_eq, any, is_digit,
}

-- The digit that a byte of the number stands for; `none` is the `default` branch.
unfoldable pub digit_value : ℕ → Option ℕ
digit_value c =
    if is_digit c
    then some (c - b'0')
    else if leb b'a' c && leb c b'f'
    then some (c - b'a' + 10)
    else none

-- The loop over the bytes, last one first. `none` is the `nil` returned for what is no digit.
unfoldable pub read_steps : Text → List ℕ → Option (List ℕ)
unfolding digit_value
read_steps [] out = some out
read_steps (c ∷ s) out = elim (digit_value c) [
  | none ↦ none
  | some d ↦
      if d == 0
      then some out
      else if d == 0xf
      then some (out ++ d ∷ [])
      else read_steps s (out ++ d ∷ [])
]

-- The slice that is returned: `nil` is the empty one.
abbrev pub found : Option (List ℕ) → List ℕ
found none = []
found (some out) = out

-- `bootOrderSteps`: the devices in the order in which they are tried.
unfoldable pub boot_order_steps : Text → List ℕ
unfolding read_steps
boot_order_steps order =
    let s = trim_prefix (map to_lower (trim_space order)) (codes "0x") in
    found (read_steps (reverse s) [])

-- One device of the order and one kind: the `switch` of `bootOrderReaches`.
unfoldable pub step_is_kind : Text → ℕ → Bool
unfolding text_eq
step_is_kind kind d =
    if d == 1
    then text_eq kind (codes "sd") || text_eq kind (codes "emmc")
    else if d == 6
    then text_eq kind (codes "nvme")
    else ((d == 4) || (d == 5)) && text_eq kind (codes "usb")

-- `bootOrderReaches`: whether the order names a kind of device.
unfoldable pub boot_order_reaches : Text → Text → Bool
unfolding boot_order_steps step_is_kind any
boot_order_reaches order kind = any (step_is_kind kind) (boot_order_steps order)

pub data StepKey : Type 0 where
  card network rpiboot usb nvme http stop restart other : StepKey

-- `bootStepKey`: the message key of a step.
unfoldable pub boot_step_key : ℕ → StepKey
boot_step_key d =
    if d == 1
    then card
    else if d == 2
    then network
    else if d == 3
    then rpiboot
    else if (d == 4) || (d == 5)
    then usb
    else if d == 6
    then nvme
    else if d == 7
    then http
    else if d == 0xe
    then stop
    else if d == 0xf
    then restart
    else other
