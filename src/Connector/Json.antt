-- ===== src/Connector/Json.antt =====
-- src/core/domain/connector/json.ts and constants.ts: JSON values, their numbers and lengths, and
-- the values of the language that are not yet known to be JSON, as references into a heap.
pub mod Bounds
use Prim.Native.Char.{code}
use Prim.Native.Nat.{◌%◌}
use Prim.Native.String.{[] as empty, ◌∷◌ as ◌then◌}
use open_claw_bot_neo.Prelude.{
  ℕ, zero, suc, ◌+◌, ◌*◌, ◌^◌, Bool, true, false, not, ◌&&◌, ◌||◌, String, String_eq, Option, List,
  none, some, if◌then◌else◌, ◌==◌, ltb, ℕ_eq,
}

-- A number of the language: a finite one is its numerator over a power of 2, with its sign.
pub data Number : Type 0 where
  finite : (negative : Bool) (numerator exponent : ℕ) → Number
  infinite : (negative : Bool) → Number
  nan : Number

-- Number.isFinite
unfoldable pub is_finite : Number → Bool
is_finite (finite s n e) = true
is_finite (infinite s) = false
is_finite nan = false

-- Number.isInteger
unfoldable pub is_integer : Number → Bool
is_integer (finite s n e) = n % 2 ^ e == 0
is_integer (infinite s) = false
is_integer nan = false

-- `x < y` on whole numbers with their signs
unfoldable pub signed_lt : Bool → ℕ → Bool → ℕ → Bool
signed_lt false m false n = ltb m n
signed_lt false m true n = false
signed_lt true m false n = not (m == 0 && n == 0)
signed_lt true m true n = ltb n m

-- `x < y`
unfoldable pub number_lt : Number → Number → Bool
unfolding signed_lt
number_lt (finite s m d) (finite t n e) = signed_lt s (m * 2 ^ e) t (n * 2 ^ d)
number_lt (finite s m d) (infinite t) = not t
number_lt (infinite s) (finite t n e) = s
number_lt (infinite s) (infinite t) = s && not t
number_lt _ _ = false

-- `x === y`
unfoldable pub number_same : Number → Number → Bool
number_same (finite s m d) (finite t n e) =
    m * 2 ^ e == n * 2 ^ d && (m == 0 || (if s then t else not t))
number_same (infinite s) (infinite t) = if s then t else not t
number_same _ _ = false

-- A length, as a number.
abbrev pub whole : ℕ → Number
whole n = finite false n 0

-- The length of a text: its code units in UTF-16.
unfoldable pub utf16_length : String → ℕ
utf16_length empty = 0
utf16_length (c then s) = (if ltb (code c) 65536 then 1 else 2) + utf16_length s

-- JsonValue, JsonArray, JsonObject
mutual
  pub data JsonValue : Type 0 where
    null : JsonValue
    boolean : Bool → JsonValue
    number : Number → JsonValue
    text : String → JsonValue
    array : JsonItems → JsonValue
    object : JsonFields → JsonValue

  pub data JsonItems : Type 0 where
    end : JsonItems
    item : JsonValue → JsonItems → JsonItems

  pub data JsonFields : Type 0 where
    done : JsonFields
    field : String → JsonValue → JsonFields → JsonFields

unfoldable pub count_items : JsonItems → ℕ
count_items end = 0
count_items (item v vs) = suc (count_items vs)

-- `Object.keys(value).length`
unfoldable pub count_fields : JsonFields → ℕ
count_fields done = 0
count_fields (field k v fs) = suc (count_fields fs)

-- `Object.hasOwn(value, key)`
unfoldable pub has_own : String → JsonFields → Bool
has_own key done = false
has_own key (field k v fs) = k == key || has_own key fs

-- A value before it is known to be JSON: a bigint, a symbol and a function are
-- `other`, an array or object is its address.
pub data Unknown : Type 0 where
  null_literal undefined other : Unknown
  truth : Bool → Unknown
  numeral : Number → Unknown
  string : String → Unknown
  reference : ℕ → Unknown

-- What stands at an address. An object is plain if its prototype is Object.prototype or null; its
-- fields are its own enumerable properties, in the order of Object.keys.
pub data Node : Type 0 where
  array_node : List Unknown → Node
  object_node : (is_plain : Bool) → List (String × Unknown) → Node

abbrev pub Heap : Type 0
Heap = ℕ → Node

abbrev pub max_depth : ℕ
max_depth = 16

abbrev pub max_object_keys : ℕ
max_object_keys = 128

abbrev pub max_array_items : ℕ
max_array_items = 128

abbrev pub max_string_length : ℕ
max_string_length = 16384

abbrev pub max_key_length : ℕ
max_key_length = 256

abbrev pub max_serialized_bytes : ℕ
max_serialized_bytes = 65536
