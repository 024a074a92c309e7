-- ===== src/Tools/Satisfied.antt =====
-- What the arguments of an accepted call have, by the tool's schema.
use venice_e2ee_proxy.Base.{
  ◌≡◌, refl, Bool, true, false, Option, none, some, ok, ensure, ensure-ok, ok_of_then, map_err,
  map_err-ok, if◌then◌else◌, Result,
}
use venice_e2ee_proxy.Text.{text}
use venice_e2ee_proxy.Json.{Fields, Value, array, as_array, get_field, items, object}
use venice_e2ee_proxy.Chat.{ChatToolDefinition}
use venice_e2ee_proxy.Tools.Schema.{
  Check, get_sub, not_in_enum, schema_implies_object, schema_type_matches, wrong_type,
}
use venice_e2ee_proxy.Tools.Validate.{
  check_enum, check_type, is_listed, sub_schemas, validate_arguments, validate_value_against_schema,
  when_some,
}
use venice_e2ee_proxy.Tools.Required.{HasRequired, PropertiesPass, check_object-ok, object_checked}
use venice_e2ee_proxy.Tools.Emulation.{
  ToolLib, ToolsConfig, Failure, check_arguments, schema_problem,
}

-- The value is of the schema's type, where it has one.
abbrev pub HasType : Value → Option Value → Type 0
HasType value none = Unit
HasType value (some kind) = schema_type_matches value kind ≡ true

-- The value is one of the schema's list, where it has one.
abbrev pub InEnum : Value → Option Value → Type 0
InEnum value (some (array vs)) = is_listed value (items vs) ≡ true
InEnum value _ = Unit

-- Where the schema is an object's, the value is an object with the required properties, each
-- property accepted against its own schema.
abbrev pub HasProperties : Bool → Fields → Value → Type 0
HasProperties false schema value = Unit
HasProperties true schema value =
    (m : Fields) × (value ≡ object m)
    × HasRequired m (get_field (text "required") schema)
    × PropertiesPass m (get_sub (text "properties") (sub_schemas schema))

-- The value is of the schema's type, in its enum and has its properties, and the code's validation
-- of the value, with all that is nested, succeeds.
unfoldable pub Satisfies : Fields → Value → Type 0
Satisfies schema value =
    HasType value (get_field (text "type") schema)
    × InEnum value (get_field (text "enum") schema)
    × HasProperties (schema_implies_object schema) schema value
    × (validate_arguments value schema ≡ ok tt)

-- A tool's arguments satisfy its schema, where it has one and schemas are validated.
abbrev pub Validated : Option Fields → Bool → Value → Type 0
Validated none validates value = Unit
Validated (some schema) false value = Unit
Validated (some schema) true value = Satisfies schema value

-- `check_enum` on the entry that it finds.
abbrev listed_check : Value → Option Value → Check
listed_check value found = elim found [
  | none ↦ ok tt
  | some listed ↦ elim (as_array listed) [
    | none ↦ ok tt
    | some vs ↦ ensure (is_listed value (items vs)) not_in_enum
  ]
]

listed_in :
    (value : Value) (found : Option Value) → listed_check value found ≡ ok tt → InEnum value found
listed_in value none h = tt
listed_in value (some (array vs)) h = ensure-ok (is_listed value (items vs)) not_in_enum h
listed_in value (some (Value.string s)) h = tt
listed_in value (some (Value.number n)) h = tt
listed_in value (some (Value.boolean b)) h = tt
listed_in value (some Value.null) h = tt
listed_in value (some (object m)) h = tt

enum-InEnum :
    (schema : Fields) (value : Value)
    → check_enum schema value ≡ ok tt
    → InEnum value (get_field (text "enum") schema)
unfolding check_enum
enum-InEnum schema value h = listed_in value (get_field (text "enum") schema) h

of_type :
    (value : Value) (kind : Option Value)
    → when_some kind (λ k. ensure (schema_type_matches value k) wrong_type) ≡ ok tt
    → HasType value kind
of_type value none h = tt
of_type value (some kind) h = ensure-ok (schema_type_matches value kind) wrong_type h

type-HasType :
    (schema : Fields) (value : Value)
    → check_type schema value ≡ ok tt
    → HasType value (get_field (text "type") schema)
unfolding check_type
type-HasType schema value h = of_type value (get_field (text "type") schema) h

properties :
    (implied : Bool) (schema : Fields) (value : Value)
    → schema_implies_object schema ≡ implied
    → validate_arguments value schema ≡ ok tt
    → HasProperties implied schema value
unfolding validate_arguments
properties false schema value e h = tt
properties true schema value e h =
    check_object-ok schema (sub_schemas schema) value
      (object_checked schema (sub_schemas schema) value e h)

validate_arguments-Satisfies :
    (schema : Fields) (value : Value)
    → validate_arguments value schema ≡ ok tt
    → Satisfies schema value
unfolding validate_arguments validate_value_against_schema Satisfies
validate_arguments-Satisfies schema value h =
    let (listed, h1) = ok_of_then (check_enum schema value) _ h in
    let (typed, h2) = ok_of_then (check_type schema value) _ h1 in
    (
      type-HasType schema value typed,
      enum-InEnum schema value listed,
      properties _ schema value refl h,
      h,
    )

module _ (lib : ToolLib) where
  -- `check_arguments` on the tool's schema.
  abbrev parameters_check : Option Fields → Bool → Value → Result (Failure lib) (Unit {0})
  parameters_check parameters validates value = elim parameters [
    | none ↦ ok tt
    | some schema ↦
        if validates then map_err schema_problem (validate_arguments value schema) else ok tt
  ]

  parameters-Validated :
      (parameters : Option Fields) (validates : Bool) (value : Value)
      → parameters_check parameters validates value ≡ ok tt
      → Validated parameters validates value
  parameters-Validated none validates value h = tt
  parameters-Validated (some schema) false value h = tt
  parameters-Validated (some schema) true value h =
      validate_arguments-Satisfies schema value
        (map_err-ok schema_problem (validate_arguments value schema) h)

  pub check_arguments-Validated :
      (config : ToolsConfig) (tool : ChatToolDefinition) (value : Value)
      → check_arguments lib config tool value ≡ ok tt
      → Validated tool.parameters config.validate_json_schema value
  unfolding check_arguments
  check_arguments-Validated config tool value h =
      parameters-Validated tool.parameters config.validate_json_schema value h
