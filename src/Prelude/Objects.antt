-- ===== src/Prelude/Objects.antt =====
-- Decoded JSON objects: what the program reads of a `map[string]any`. Numbers are not negative and
-- counted in thousandths, so that a comparison of floats is one of numbers.
use mathlib.Core.Bool.{Bool, false}
use mathlib.Core.Option.{Option, none, some}
use mathlib.Core.List.{List, [], ◌∷◌}
use Prim.Native.Nat.{ℕ, ◌*◌}
use sheath.Prelude.Tests.{if◌then◌else◌}
use sheath.Prelude.Strings.{Text, text_eq}

pub data Json : Type 0 where
  null compound : Json
  bool : Bool → Json
  num : ℕ → Json
  str : Text → Json

abbrev pub Object : Type 0
Object = List (Text × Json)

-- `m[k]`
unfoldable pub field : Text → Object → Json
field k [] = null
field k ((j, v) ∷ m) = if text_eq j k then v else field k m

-- `num(v)`, `v.(bool)`, `v.(string)`: the value, if it is of that kind
abbrev pub as_num : Json → Option ℕ
as_num (num n) = some n
as_num _ = none

abbrev pub is_true : Json → Bool
is_true (bool b) = b
is_true _ = false

abbrev pub as_str : Json → Text
as_str (str s) = s
as_str _ = []

-- A whole number, in thousandths.
abbrev pub milli : ℕ → ℕ
milli n = n * 1000
