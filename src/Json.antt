-- ===== src/Json.antt =====
-- The JSON library that the driver is linked with, as far as the driver uses it. It is a parameter of
-- the definitions that read their arguments from a document.
use uscope_driver.Prelude.{ℕ, ◌≡◌, String, Bool, List, Option, some}
use uscope_driver.Prelude.Dict.{Dict, lookup, string_eq}
use uscope_driver.Exec.{Result, ok}
use uscope_driver.Floats.{Float, Double}

-- `nlohmann::detail::value_t`, without the two that no parser gives.
pub data JsonType : Type 0 where
  null object array string boolean number_integer number_unsigned number_float : JsonType

-- `contains` is false of what is no object. `subscript` is `j[key]` of a document that can be changed:
-- a missing key reads as null, which it also enters; the driver reads such a key again only where null
-- and no entry mean the same. `const_subscript` is `j[key]` of a constant document. `elements` are
-- what a loop over the document visits, `items` the pairs of an object. A conversion throws where the
-- type does not fit, and else truncates as the language does.
pub record JsonLibrary (Json : Type 0) : Type 0 where
  pub type_of : Json → JsonType
  pub is_number : Json → Bool
  pub contains : Json → String → Bool
  pub subscript : Json → String → Result Json
  pub const_subscript : Json → String → Result Json
  pub elements : Json → List Json
  pub items : Json → List (String × Json)
  pub text : Json → Option String
  pub get_bool : Json → Result Bool
  pub get_string : Json → Result String
  pub get_double : Json → Result Double
  pub get_float : Json → Result Float
  pub get_uint64 : Json → Result ℕ
  pub get_uint32 : Json → Result ℕ
  pub get_uint16 : Json → Result ℕ
  pub get_uint8 : Json → Result ℕ
  pub get_words : Json → Result (List ℕ)
  pub get_floats : Json → Result (List Float)
  pub of_uint64 : ℕ → Json
  pub of_fields : Dict String Json → Json
  pub dump : Json → String

-- The documented behaviour that the address map relies on: a field reads as it was entered, and a
-- number as it was written.
pub record IsFaithful {Json : Type 0} (json : JsonLibrary Json) : Type 0 where
  pub const_subscript-of_fields :
      (fields : Dict String Json) (key : String) (j : Json)
      → lookup key fields ≡ some j
      → json.const_subscript (json.of_fields fields) key ≡ ok j
  pub get_uint64-of_uint64 : (n : ℕ) → json.get_uint64 (json.of_uint64 n) ≡ ok n
