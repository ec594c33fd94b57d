-- ===== src/Value.antt =====
-- The values that the decoder of an entry payload or a JSON message returns, and the tests that the
-- source makes on an `unknown` (types/guards.ts, and the `is_uint` of the record files). A field that
-- is missing reads as `none`. A link is an object with no field that the source names; what an object
-- inherits from its prototype is not modelled.
use record_node.Prelude.{
  ℕ, zero, suc, ◌+◌, ◌*◌, ◌^◌, ◌-◌, ◌%◌, ◌/◌, Text, Bytes, text_eq, Bool, true, false, ◌&&◌, ◌||◌,
  not, Option, none, some, List, [], ◌∷◌, ◌==◌, leb, ltb, if◌then◌else◌, any,
}

-- A finite double: its sign, and magnitude / 2^scale.
pub record Number : Type 0 where
  pub negative : Bool
  pub magnitude : ℕ
  pub scale : ℕ

mutual
  pub data Value : Type 0 where
    null : Value
    bool : Bool → Value
    num : Number → Value
    bigint : Bool → ℕ → Value
    text : Text → Value
    bytes : Bytes → Value
    link : Bytes → Value
    array : Items → Value
    map_of : Fields → Value

  pub data Items : Type 0 where
    nil : Items
    item : Value → Items → Items

  -- The keys of a decoded map are distinct.
  pub data Fields : Type 0 where
    end : Fields
    field : Text → Value → Fields → Fields

unfoldable pub uint : ℕ → Value
uint n = num (record { negative = false; magnitude = n; scale = 0 })

unfoldable pub items : Items → List Value
items nil = []
items (item v vs) = v ∷ items vs

unfoldable pub get_field : Text → Fields → Option Value
get_field k end = none
get_field k (field j v fs) = if text_eq j k then some v else get_field k fs

unfoldable pub field_names : Fields → List Text
field_names end = []
field_names (field j v fs) = j ∷ field_names fs

unfoldable pub field_values : Fields → List Value
field_values end = []
field_values (field j v fs) = v ∷ field_values fs

-- The decimal digits of a number before what follows them, on fuel.
digits_onto : ℕ → ℕ → Text → Text
digits_onto zero n rest = rest
digits_onto (suc fuel) n rest =
    let longer = digits_onto fuel (n / 10) ((b'0' + n % 10) ∷ rest) in
    if ltb n 10 then (b'0' + n) ∷ rest else longer

-- The own properties of a byte array: its indices and its bytes.
unfoldable pub byte_fields : ℕ → Bytes → Fields
unfolding digits_onto
byte_fields i [] = end
byte_fields i (b ∷ bs) = field (digits_onto (suc i) i []) (uint b) (byte_fields (i + 1) bs)

-- `is_record`: an object that is neither null nor an array; with its own properties.
unfoldable pub as_record : Value → Option Fields
unfolding byte_fields
as_record (map_of fs) = some fs
as_record (bytes bs) = some (byte_fields 0 bs)
as_record (link _) = some end
as_record _ = none

unfoldable pub as_text : Option Value → Option Text
as_text (some (text t)) = some t
as_text _ = none

unfoldable pub as_array : Option Value → Option (List Value)
unfolding items
as_array (some (array vs)) = some (items vs)
as_array _ = none

abbrev pub max_safe_integer : ℕ
max_safe_integer = 2 ^ 53 - 1

-- `Number.isSafeInteger(value) && value >= 0`, with the number that it is.
unfoldable pub uint_of : Number → Option ℕ
uint_of n =
    let m = n.magnitude / 2 ^ n.scale in
    if n.magnitude % 2 ^ n.scale == 0
      && (not n.negative || n.magnitude == 0)
      && leb m max_safe_integer
    then some m
    else none

unfoldable pub as_uint : Option Value → Option ℕ
unfolding uint_of
as_uint (some (num n)) = uint_of n
as_uint _ = none

-- `value.v === 1`, and so for other small constants.
unfoldable pub is_uint : ℕ → Option Value → Bool
unfolding as_uint
is_uint k v = elim (as_uint v) [ none ↦ false | some n ↦ n == k ]

-- `value.type === name`.
unfoldable pub is_text : Text → Option Value → Bool
unfolding as_text
is_text t v = elim (as_text v) [ none ↦ false | some s ↦ text_eq s t ]

-- `names.includes(name)`.
unfoldable pub includes : List Text → Text → Bool
includes names t = any (λ n. text_eq n t) names

-- Cross-multiplied comparison of finite doubles; the two zeros are equal.
abbrev up : Number → Number → ℕ
up a b = if a.negative then 0 else a.magnitude * 2 ^ b.scale

abbrev down : Number → Number → ℕ
down a b = if a.negative then a.magnitude * 2 ^ b.scale else 0

unfoldable pub number_le : Number → Number → Bool
number_le a b = leb (up a b + down b a) (up b a + down a b)

unfoldable pub number_lt : Number → Number → Bool
number_lt a b = ltb (up a b + down b a) (up b a + down a b)

unfoldable pub number_eq : Number → Number → Bool
number_eq a b = up a b + down b a == up b a + down a b

abbrev bool_eq : Bool → Bool → Bool
bool_eq true b = b
bool_eq false b = not b

-- `typeof a === typeof b && a === b`, where objects are equal only to themselves: those of a subject
-- and those of a filter are never the same object, and a filter holds scalars.
unfoldable pub scalar_eq : Value → Value → Bool
unfolding number_eq
scalar_eq null null = true
scalar_eq (bool a) (bool b) = bool_eq a b
scalar_eq (num a) (num b) = number_eq a b
scalar_eq (bigint s a) (bigint t b) = a == b && (bool_eq s t || a == 0)
scalar_eq (text a) (text b) = text_eq a b
scalar_eq _ _ = false

-- null, a string, a number or a boolean.
unfoldable pub is_scalar : Value → Bool
is_scalar null = true
is_scalar (bool _) = true
is_scalar (num _) = true
is_scalar (text _) = true
is_scalar _ = false
