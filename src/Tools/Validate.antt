-- ===== src/Tools/Validate.antt =====
-- src/tools.rs: validate_schema_shape and validate_value_against_schema.
use venice_e2ee_proxy.Base.{
  Bool, true, false, not, ◌||◌, Option, none, some, is_some, is_none, ok, err, ◌>>=◌, ◌>>◌, ensure,
  ok_or, map, List, [], ◌∷◌, if◌then◌else◌,
}
use venice_e2ee_proxy.Text.{Text, text, text_eq}
use venice_e2ee_proxy.Dict
use venice_e2ee_proxy.Json.{
  Fields, Value, array, as_array, as_object, boolean, end, entries, field, get_field, items, object,
  string,
}
use venice_e2ee_proxy.Tools.Schema.{
  Check, SubSchema, additional_not_schema, empty_types, enum_not_array, expected_array,
  expected_object, for_each, get_sub, missing_property, not_allowed, not_in_enum,
  properties_not_object, required_not_array, required_not_texts, schema_implies_array,
  schema_implies_object, schema_not_object, schema_type_matches, type_not_text, unsupported_type,
  value_eq, wrong_type,
}

-- A check of an entry, if it is there.
abbrev pub when_some {ℓ} : {A : Type ℓ} → Option A → (A → Check) → Check
when_some none check = ok tt
when_some (some a) check = check a

-- The seven types, in the order of the code.
unfoldable pub validate_schema_type_name : Text → Check
validate_schema_type_name kind =
    ensure
      (text_eq kind (text "object")
        || text_eq kind (text "array")
        || text_eq kind (text "string")
        || text_eq kind (text "integer")
        || text_eq kind (text "number")
        || text_eq kind (text "boolean")
        || text_eq kind (text "null"))
      unsupported_type

abbrev type_item : Value → Check
type_item (string kind) = validate_schema_type_name kind
type_item _ = err type_not_text

abbrev some_types : List Value → Check
some_types [] = err empty_types
some_types (kind ∷ kinds) = for_each type_item (kind ∷ kinds)

unfoldable pub validate_schema_type_shape : Value → Check
validate_schema_type_shape (string kind) = validate_schema_type_name kind
validate_schema_type_shape (array kinds) = some_types (items kinds)
validate_schema_type_shape _ = err type_not_text

abbrev is_text : Value → Bool
is_text (string s) = true
is_text _ = false

abbrev texts_only : Value → Check
texts_only (array vs) = for_each (λ v. ensure (is_text v) required_not_texts) (items vs)
texts_only _ = err required_not_array

abbrev properties_shape : SubSchema → Check
properties_shape sub = elim (as_object sub.schema) [
  | none ↦ err properties_not_object
  | some m ↦ for_each (λ (entry : Text × Check). entry.1) sub.shapes
]

abbrev additional_shape : SubSchema → Check
additional_shape sub = elim sub.schema [
  | boolean b ↦ ok tt
  | object m ↦ sub.shape
  | _ ↦ err additional_not_schema
]

-- `validate_schema_object_shape` of an object with these entries.
unfoldable pub validate_schema_object_shape : Fields → List (Text × SubSchema) → Check
validate_schema_object_shape m subs = do
  when_some (get_field (text "type") m) validate_schema_type_shape
  when_some (get_field (text "required") m) texts_only
  when_some (get_sub (text "properties") subs) properties_shape
  when_some (get_sub (text "items") subs) (λ sub. sub.shape)
  when_some (get_sub (text "additionalProperties") subs) additional_shape
  when_some (get_field (text "enum") m) (λ v. ensure (is_some (as_array v)) enum_not_array)

unfoldable pub is_listed : Value → List Value → Bool
is_listed value [] = false
is_listed value (v ∷ vs) = value_eq v value || is_listed value vs

-- The value is one of the enum, where the schema has one.
unfoldable pub check_enum : Fields → Value → Check
check_enum schema value = elim (get_field (text "enum") schema) [
  | none ↦ ok tt
  | some listed ↦ elim (as_array listed) [
    | none ↦ ok tt
    | some vs ↦ ensure (is_listed value (items vs)) not_in_enum
  ]
]

unfoldable pub check_type : Fields → Value → Check
check_type schema value =
    when_some (get_field (text "type") schema)
      (λ kind. ensure (schema_type_matches value kind) wrong_type)

abbrev pub required_text : Fields → Value → Check
required_text m (string name) = ensure (is_some (get_field name m)) missing_property
required_text m _ = ok tt

abbrev pub check_required : Fields → Value → Check
check_required m (array names) = for_each (required_text m) (items names)
check_required m _ = ok tt

-- The property of the object against its schema, where the object has it.
abbrev pub check_property : Fields → Text × (Value → Check) → Check
check_property m (name, validate) = when_some (get_field name m) validate

abbrev is_additional : Option SubSchema → Text → Bool
is_additional none name = true
is_additional (some properties) name = is_none (Dict.get name properties.validators)

unfoldable pub check_additional : Option SubSchema → Fields → SubSchema → Check
check_additional properties m additional = elim additional.schema [
  | boolean false ↦
      for_each
        (λ (entry : Text × Value). ensure (not (is_additional properties entry.0)) not_allowed)
        (entries m)
  | object schema ↦
      for_each
        (λ (entry : Text × Value).
          if is_additional properties entry.0 then additional.validate entry.1 else ok tt)
        (entries m)
  | _ ↦ ok tt
]

unfoldable pub check_object : Fields → List (Text × SubSchema) → Value → Check
check_object schema subs value = do
  m ← ok_or (as_object value) expected_object
  when_some (get_field (text "required") schema) (check_required m)
  let properties = get_sub (text "properties") subs
  when_some properties (λ sub. for_each (check_property m) sub.validators)
  when_some (get_sub (text "additionalProperties") subs) (check_additional properties m)

unfoldable pub check_array : List (Text × SubSchema) → Value → Check
check_array subs value = do
  vs ← ok_or (as_array value) expected_array
  when_some (get_sub (text "items") subs) (λ sub. for_each sub.validate (items vs))

-- `validate_value_against_schema` of a value, against an object with these entries.
unfoldable pub validate_value_against_schema : Fields → List (Text × SubSchema) → Value → Check
validate_value_against_schema schema subs value = do
  check_enum schema value
  check_type schema value
  if schema_implies_object schema then check_object schema subs value else ok tt
  if schema_implies_array schema then check_array subs value else ok tt

abbrev sub_of : Fields → List (Text × SubSchema) → SubSchema
sub_of m subs = record {
  schema = object m;
  shape = validate_schema_object_shape m subs;
  validate = validate_value_against_schema m subs;
  shapes = map (λ (entry : Text × SubSchema). (entry.0, entry.1.shape)) subs;
  validators = map (λ (entry : Text × SubSchema). (entry.0, entry.1.validate)) subs;
}

-- A value that is no object is no schema.
abbrev no_schema : Value → SubSchema
no_schema value = record {
  schema = value;
  shape = err schema_not_object;
  validate = λ v. err schema_not_object;
  shapes = [];
  validators = [];
}

unfoldable mutual
  pub sub_schemas : Fields → List (Text × SubSchema)
  sub_schemas end = []
  sub_schemas (field name value m) = (name, sub_schema value) ∷ sub_schemas m

  pub sub_schema : Value → SubSchema
  sub_schema (object m) = sub_of m (sub_schemas m)
  sub_schema value = no_schema value

unfoldable pub validate_schema_shape : Fields → Check
validate_schema_shape schema = validate_schema_object_shape schema (sub_schemas schema)

-- `validate_value_against_schema` of a tool's arguments.
unfoldable pub validate_arguments : Value → Fields → Check
validate_arguments value schema = validate_value_against_schema schema (sub_schemas schema) value
