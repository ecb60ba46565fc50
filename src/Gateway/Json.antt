-- ===== src/Gateway/Json.antt =====
-- The JSON values that src/shard.cpp reads, and what it asks of them. The parser, a library, is a
-- parameter where it is called.
use Prim.Native.String.{String}
use text.Mathlib.Text.{◌==◌ as str_eq}
use ekizu.Prelude.{ℕ, ◌-◌, ◌%◌, ◌^◌, Bool, Option, none, some, if◌then◌else◌}

-- An integer from 0, a negative integer by its amount, or a number with a fraction by the integer
-- that it is converted to.
pub data Number : Type 0 where
  unsigned negative fraction : ℕ → Number

mutual
  pub data Json : Type 0 where
    null : Json
    boolean : Bool → Json
    number : Number → Json
    string : String → Json
    array : Items → Json
    object : Fields → Json

  pub data Items : Type 0 where
    nil : Items
    cons : Json → Items → Items

  pub data Fields : Type 0 where
    end : Fields
    field : String → Json → Fields → Fields

-- `contains` and `operator[]` in one: the value of a key.
unfoldable pub find : String → Fields → Option Json
find k end = none
find k (field j v fs) = if str_eq j k then some v else find k fs

unfoldable pub at : String → Json → Option Json
unfolding find
at k (object fs) = find k fs
at k _ = none

-- `get` as an unsigned integer of 2^w values.
unfoldable pub to_unsigned : ℕ → Number → ℕ
to_unsigned w (unsigned n) = n % 2 ^ w
to_unsigned w (negative n) = (2 ^ w - n % 2 ^ w) % 2 ^ w
to_unsigned w (fraction n) = n % 2 ^ w

-- A value with the type that is asked for.
unfoldable pub as_number : Option Json → Option Number
as_number (some (number n)) = some n
as_number _ = none

unfoldable pub as_unsigned : Option Json → Option ℕ
as_unsigned (some (number (unsigned n))) = some n
as_unsigned _ = none

unfoldable pub as_text : Option Json → Option String
as_text (some (string s)) = some s
as_text _ = none

unfoldable pub as_boolean : Option Json → Option Bool
as_boolean (some (boolean b)) = some b
as_boolean _ = none

unfoldable pub as_object : Option Json → Option Json
as_object (some (object fs)) = some (object fs)
as_object _ = none
