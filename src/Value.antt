-- ===== src/Value.antt =====
-- The JavaScript values that cross a trust boundary as `unknown`, and the tests that the validators
-- make of them. An object is the list of its properties, the first of a name being the one read.
use Prim.Native.String.{String}
use text.Mathlib.Text.{◌==◌ as str_eq}
use network_self_md.Prelude.{
  ℕ, Bool, true, false, List, [], ◌∷◌, Option, none, some, Bytes, Text, if◌then◌else◌,
}

-- A `number`: an integer from 0 up, one below 0 (`negative n` is -(n + 1)), a finite number that is
-- no integer (by a name for it), an infinity, or NaN.
pub data Number : Type 0 where
  nat : ℕ → Number
  negative : ℕ → Number
  fraction : ℕ → Number
  infinite : Bool → Number
  nan : Number

mutual
  pub data Value : Type 0 where
    undefined : Value
    null : Value
    bool : Bool → Value
    number : Number → Value
    string : Text → Value
    bytes : Bytes → Value
    array : Values → Value
    object : Fields → Value

  pub data Values : Type 0 where
    nil : Values
    cons : Value → Values → Values

  pub data Fields : Type 0 where
    end : Fields
    field : String → Value → Fields → Fields

abbrev pub get_field : String → Fields → Value
get_field k end = undefined
get_field k (field j v fs) = let rest = get_field k fs in if str_eq j k then v else rest

-- `value.name`, where a value that holds no such property gives `undefined`.
abbrev pub get : String → Value → Value
get k (object fs) = get_field k fs
get k _ = undefined

-- `typeof v === 'object' && v !== null && !Array.isArray(v)`. A `Uint8Array` passes.
abbrev pub is_plain_object : Value → Bool
is_plain_object (object fs) = true
is_plain_object (bytes b) = true
is_plain_object _ = false

abbrev pub as_string : Value → Option Text
as_string (string s) = some s
as_string _ = none

abbrev pub as_bytes : Value → Option Bytes
as_bytes (bytes b) = some b
as_bytes _ = none

abbrev pub is_finite : Number → Bool
is_finite (infinite b) = false
is_finite nan = false
is_finite _ = true

abbrev pub as_finite : Value → Option Number
as_finite (number n) = if is_finite n then some n else none
as_finite _ = none

abbrev pub elements : Values → List Value
elements nil = []
elements (cons v vs) = v ∷ elements vs
