-- ===== src/Tools/Schema.antt =====
-- src/tools.rs: the JSON schemas of tools, their shape and the validation of arguments. A schema is
-- read from its leaves: each entry of an object comes with the checks that it stands for as a
-- schema, and the code's recursion on a sub-schema is the use of its check. An error keeps the
-- rule, not the path.
use venice_e2ee_proxy.Base.{
  Bool, true, false, not, ◌&&◌, ◌||◌, Option, none, some, is_some, Result, ok, ◌>>◌, List, [], ◌∷◌,
  ◌==◌, if◌then◌else◌,
}
use venice_e2ee_proxy.Text.{Text, text, text_eq}
use venice_e2ee_proxy.Dict
use venice_e2ee_proxy.Json.{
  Fields, Items, Number, Value, array, boolean, cons, end, field, float, get_field, items, neg_int,
  nil, null, number, object, pos_int, string, is_null,
}

pub data SchemaProblem : Type 0 where
  type_not_text empty_types unsupported_type required_not_array required_not_texts : SchemaProblem
  properties_not_object schema_not_object additional_not_schema enum_not_array : SchemaProblem
  not_in_enum wrong_type expected_object missing_property not_allowed expected_array : SchemaProblem

unfoldable pub number_eq : Number → Number → Bool
number_eq (pos_int a) (pos_int b) = a == b
number_eq (neg_int a) (neg_int b) = a == b
number_eq (float a) (float b) =
    a == b || (a == 0 && b == 0x8000_0000_0000_0000) || (a == 0x8000_0000_0000_0000 && b == 0)
number_eq _ _ = false

unfoldable mutual
  -- `==` on values.
  pub value_eq : Value → Value → Bool
  value_eq (string a) (string b) = text_eq a b
  value_eq (number a) (number b) = number_eq a b
  value_eq (boolean true) (boolean b) = b
  value_eq (boolean false) (boolean b) = not b
  value_eq null null = true
  value_eq (object a) (object b) = fields_eq a b
  value_eq (array a) (array b) = items_eq a b
  value_eq _ _ = false

  pub fields_eq : Fields → Fields → Bool
  fields_eq end end = true
  fields_eq (field k v m) (field l w n) = text_eq k l && value_eq v w && fields_eq m n
  fields_eq _ _ = false

  pub items_eq : Items → Items → Bool
  items_eq nil nil = true
  items_eq (cons v vs) (cons w ws) = value_eq v w && items_eq vs ws
  items_eq _ _ = false

abbrev is_object : Value → Bool
is_object (object m) = true
is_object _ = false

abbrev is_array : Value → Bool
is_array (array vs) = true
is_array _ = false

abbrev is_string : Value → Bool
is_string (string s) = true
is_string _ = false

abbrev is_boolean : Value → Bool
is_boolean (boolean b) = true
is_boolean _ = false

abbrev is_number : Value → Bool
is_number (number n) = true
is_number _ = false

-- `as_i64().is_some() || as_u64().is_some()`.
abbrev is_integer : Value → Bool
is_integer (number (float bits)) = false
is_integer (number n) = true
is_integer _ = false

unfoldable pub value_matches_schema_type : Value → Text → Bool
value_matches_schema_type value kind =
    if text_eq kind (text "object")
    then is_object value
    else if text_eq kind (text "array")
    then is_array value
    else if text_eq kind (text "string")
    then is_string value
    else if text_eq kind (text "integer")
    then is_integer value
    else if text_eq kind (text "number")
    then is_number value
    else if text_eq kind (text "boolean")
    then is_boolean value
    else if text_eq kind (text "null")
    then is_null value
    else true

-- `any` of the texts among the items.
unfoldable pub any_text : (Text → Bool) → List Value → Bool
any_text test [] = false
any_text test (string s ∷ vs) = test s || any_text test vs
any_text test (v ∷ vs) = any_text test vs

unfoldable pub schema_type_matches : Value → Value → Bool
schema_type_matches value (string kind) = value_matches_schema_type value kind
schema_type_matches value (array kinds) = any_text (value_matches_schema_type value) (items kinds)
schema_type_matches value _ = true

unfoldable pub schema_type_includes : Value → Text → Bool
schema_type_includes (string kind) expected = text_eq kind expected
schema_type_includes (array kinds) expected = any_text (λ kind. text_eq kind expected) (items kinds)
schema_type_includes _ expected = false

abbrev pub type_includes : Fields → Text → Bool
type_includes schema expected = elim (get_field (text "type") schema) [
  | none ↦ false
  | some kind ↦ schema_type_includes kind expected
]

unfoldable pub schema_implies_object : Fields → Bool
schema_implies_object schema =
    type_includes schema (text "object")
    || is_some (get_field (text "properties") schema)
    || is_some (get_field (text "required") schema)
    || is_some (get_field (text "additionalProperties") schema)

unfoldable pub schema_implies_array : Fields → Bool
schema_implies_array schema =
    type_includes schema (text "array") || is_some (get_field (text "items") schema)

abbrev pub Check : Type 0
Check = Result SchemaProblem (Unit {0})

-- `for` over a list, up to the first error.
unfoldable pub for_each {ℓ} : {A : Type ℓ} → (A → Check) → List A → Check
for_each check [] = ok tt
for_each check (x ∷ xs) = check x >> for_each check xs

-- A value as a schema: the check of its shape, that of another value against it, and these of its
-- entries.
pub record SubSchema : Type 0 where
  pub schema : Value
  pub shape : Check
  pub validate : Value → Check
  pub shapes : List (Text × Check)
  pub validators : List (Text × (Value → Check))

abbrev pub get_sub : Text → List (Text × SubSchema) → Option SubSchema
get_sub key subs = Dict.get key subs
