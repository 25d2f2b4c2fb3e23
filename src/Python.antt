-- ===== src/Python.antt =====
-- The Python values that JSON documents decode to, and the tests that the tools make on them.
use firmingo.Common.{ℕ, Bool, true, false, Option, none, some, ◌==◌, if◌then◌else◌}
use Prim.Native.String.{String}
use text.Mathlib.Text.{◌==◌ as str_eq}

mutual
  -- `neg n` is the integer -(n + 1); `real` is a float, with the natural number that it equals, if any.
  pub data Value : Type 0 where
    null : Value
    bool : Bool → Value
    int : ℕ → Value
    neg : ℕ → Value
    real : Option ℕ → Value
    str : String → Value
    obj : Fields → Value
    arr : Items → Value

  pub data Items : Type 0 where
    no_items : Items
    item : Value → Items → Items

  -- A dictionary: its keys are distinct.
  pub data Fields : Type 0 where
    end : Fields
    field : String → Value → Fields → Fields

-- `d.get(key)` of a dictionary, with `none` for a missing key.
unfoldable pub lookup : String → Fields → Option Value
lookup key end = none
lookup key (field k v fields) = if str_eq k key then some v else lookup key fields

-- `isinstance(value, dict)`
abbrev pub as_dict : Value → Option Fields
as_dict (obj fields) = some fields
as_dict _ = none

-- `value if type(value) is int and value >= 0`; of a missing key, nothing.
abbrev pub as_int : Option Value → Option ℕ
as_int (some (int n)) = some n
as_int _ = none

abbrev pub as_bool : Option Value → Option Bool
as_bool (some (bool b)) = some b
as_bool _ = none

abbrev pub as_str : Option Value → Option String
as_str (some (str s)) = some s
as_str _ = none

-- `value == n`: `True` equals 1, `False` equals 0, and a float may equal an integer.
abbrev pub equals_int : Option Value → ℕ → Bool
equals_int (some (int m)) n = m == n
equals_int (some (bool true)) n = 1 == n
equals_int (some (bool false)) n = 0 == n
equals_int (some (real (some m))) n = m == n
equals_int _ n = false

-- `value == s`
abbrev pub equals_str : Option Value → String → Bool
equals_str (some (str t)) s = str_eq t s
equals_str _ s = false
