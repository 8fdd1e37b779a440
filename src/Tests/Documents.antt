-- ===== src/Tests/Documents.antt =====
-- A small library of documents, for the tests: its numbers are natural.
use uscope_driver.Prelude.{
  ℕ, ◌≡◌, refl, ap, ◌∙◌, String, Bool, true, false, [], ◌∷◌, Option, none, some, if◌then◌else◌,
  str_eq,
}
use uscope_driver.Prelude.Dict.{Dict, lookup, string_eq}
use uscope_driver.Exec.{Result, ok, err, json_error, fault}
use uscope_driver.Json.{
  JsonLibrary, JsonType, IsFaithful, null, object, string, boolean, number_unsigned,
}

mutual
  pub data Doc : Type 0 where
    empty : Doc
    number : ℕ → Doc
    words : String → Doc
    flag : Bool → Doc
    fields : Fields → Doc

  pub data Fields : Type 0 where
    no_field : Fields
    field : String → Doc → Fields → Fields

abbrev pub to_fields : Dict String Doc → Fields
to_fields [] = no_field
to_fields ((key, j) ∷ entries) = field key j (to_fields entries)

abbrev pub find : Fields → String → Option Doc
find no_field key = none
find (field k j rest) key = if str_eq k key then some j else find rest key

abbrev pub member : Doc → String → Option Doc
member (fields fs) key = find fs key
member _ key = none

abbrev type_of : Doc → JsonType
type_of empty = null
type_of (number n) = number_unsigned
type_of (words s) = string
type_of (flag b) = boolean
type_of (fields fs) = object

abbrev is_number : Doc → Bool
is_number (number n) = true
is_number _ = false

abbrev get_number : Doc → Result ℕ
get_number (number n) = ok n
get_number _ = err json_error

abbrev get_words : Doc → Result String
get_words (words s) = ok s
get_words _ = err json_error

abbrev get_flag : Doc → Result Bool
get_flag (flag b) = ok b
get_flag _ = err json_error

abbrev text : Doc → Option String
text (words s) = some s
text _ = none

abbrev pub documents : JsonLibrary Doc
documents = record {
  type_of = type_of;
  is_number = is_number;
  contains = λ j key. elim (member j key) [ none ↦ false | some v ↦ true ];
  subscript = λ j key. elim (member j key) [ none ↦ ok empty | some v ↦ ok v ];
  const_subscript = λ j key. elim (member j key) [ none ↦ err fault | some v ↦ ok v ];
  elements = λ j. [];
  items = λ j. [];
  text = text;
  get_bool = get_flag;
  get_string = get_words;
  get_double = get_number;
  get_float = get_number;
  get_uint64 = get_number;
  get_uint32 = get_number;
  get_uint16 = get_number;
  get_uint8 = get_number;
  get_words = λ j. err json_error;
  get_floats = λ j. err json_error;
  of_uint64 = number;
  of_fields = λ entries. fields (to_fields entries);
  dump = λ j. "";
}

found : Option Doc → Result Doc
found o = elim o [ none ↦ err fault | some v ↦ ok v ]

lookup-find :
    (entries : Dict String Doc) (key : String) → find (to_fields entries) key ≡ lookup key entries
unfolding lookup
lookup-find [] key = refl
lookup-find ((k, j) ∷ entries) key =
    ap (λ o. if str_eq k key then some j else o) (lookup-find entries key)

pub documents-IsFaithful : IsFaithful documents
documents-IsFaithful = record {
  const_subscript-of_fields = λ entries key j h.
      ap (λ o. elim o [ none ↦ err fault | some v ↦ ok v ]) (lookup-find entries key ∙ h);
  get_uint64-of_uint64 = λ n. refl;
}
