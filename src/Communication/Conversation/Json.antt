-- ===== src/Communication/Conversation/Json.antt =====
-- The JSON values of the language, with the operations on them that the serialization takes as
-- given: JSON.stringify, JSON.parse, the length in UTF-8 and the SHA-256 digest.
use open_claw_bot_neo.Prelude.{ℕ, Option, some, String, ◌≡◌, ◌==◌, String_eq, if◌then◌else◌}

mutual
  pub data Value : Type 0 where
    null other : Value
    text : String → Value
    number : ℕ → Value
    array : Values → Value
    object : Fields → Value

  pub data Values : Type 0 where
    end : Values
    item : Value → Values → Values

  pub data Fields : Type 0 where
    done : Fields
    field : String → Value → Fields → Fields

-- `value[name]`; an absent property is undefined, which no test of the source accepts.
unfoldable pub get : String → Fields → Value
get name done = other
get name (field n v rest) = if n == name then v else get name rest

-- `stringify` is `none` where it throws or gives no text, `parse` where it throws.
pub record Json : Type 0 where
  pub stringify : Value → Option String
  pub parse : String → Option Value
  pub byte_length : String → ℕ
  pub digest : String → String

-- What JSON.stringify writes for the value, JSON.parse reads back.
abbrev pub ReadsBack : Json → Value → Type 0
ReadsBack j v = (t : String) → j.stringify v ≡ some t → j.parse t ≡ some v
