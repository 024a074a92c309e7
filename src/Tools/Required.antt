-- ===== src/Tools/Required.antt =====
-- What a value that is accepted against an object's schema has.
use venice_e2ee_proxy.Base.{
  ◌≡◌, true, Option, none, some, is_some, ok, ok_or, ok_or-ok, List, [], ◌∷◌, All, arith,
  ok_of_bind, ok_of_then, ensure-ok, if◌then◌else◌,
}
use venice_e2ee_proxy.Text.{Text, text}
use venice_e2ee_proxy.Json.{Fields, Value, array, as_object, get_field, items, object, string}
use venice_e2ee_proxy.Tools.Schema.{
  Check, SubSchema, expected_object, for_each, get_sub, missing_property, schema_implies_object,
}
use venice_e2ee_proxy.Tools.Validate.{
  check_enum, check_object, check_property, check_required, check_type, required_text,
  validate_value_against_schema, when_some,
}

-- The object has the property, where the value names one.
abbrev pub HasProperty : Fields → Value → Type 0
HasProperty m (string name) = is_some (get_field name m) ≡ true
HasProperty m _ = Unit

-- The object has every property that is required.
unfoldable pub HasRequired : Fields → Option Value → Type 0
HasRequired m (some (array names)) = All (HasProperty m) (items names)
HasRequired m _ = Unit

-- What is there is accepted.
abbrev pub Passes : Option Value → (Value → Check) → Type 0
Passes none validate = Unit
Passes (some value) validate = validate value ≡ ok tt

-- Every property that has a schema and is there is accepted against its own schema.
abbrev pub PropertiesPass : Fields → Option SubSchema → Type 0
PropertiesPass m none = Unit
PropertiesPass m (some sub) =
    All (λ (entry : Text × (Value → Check)). Passes (get_field entry.0 m) entry.1) sub.validators

for_each-All :
    {A : Type 0} {P : A → Type 0} (check : A → Check) (vs : List A)
    → ((v : A) → check v ≡ ok tt → P v)
    → for_each check vs ≡ ok tt
    → All P vs
unfolding for_each
for_each-All check [] holds h = tt
for_each-All check (v ∷ vs) holds h =
    let (one, rest) = ok_of_then (check v) (for_each check vs) h in
    (holds v one, for_each-All check vs holds rest)

required_text-HasProperty : (m : Fields) (v : Value) → required_text m v ≡ ok tt → HasProperty m v
required_text-HasProperty m (string name) h =
    ensure-ok (is_some (get_field name m)) missing_property h
required_text-HasProperty m (Value.number n) h = tt
required_text-HasProperty m (Value.boolean b) h = tt
required_text-HasProperty m Value.null h = tt
required_text-HasProperty m (object n) h = tt
required_text-HasProperty m (array vs) h = tt

required-HasRequired :
    (m : Fields) (required : Option Value)
    → when_some required (check_required m) ≡ ok tt
    → HasRequired m required
unfolding HasRequired
required-HasRequired m none h = tt
required-HasRequired m (some (array names)) h =
    for_each-All (required_text m) (items names) (required_text-HasProperty m) h
required-HasRequired m (some (string s)) h = tt
required-HasRequired m (some (Value.number n)) h = tt
required-HasRequired m (some (Value.boolean b)) h = tt
required-HasRequired m (some Value.null) h = tt
required-HasRequired m (some (object n)) h = tt

as_object-some : (value : Value) (m : Fields) → as_object value ≡ some m → value ≡ object m
as_object-some (object n) m h = ground (arith, h)
as_object-some (array vs) m h = cc
as_object-some (string s) m h = cc
as_object-some (Value.number n) m h = cc
as_object-some (Value.boolean b) m h = cc
as_object-some Value.null m h = cc

found-Passes :
    (found : Option Value) (validate : Value → Check)
    → when_some found validate ≡ ok tt
    → Passes found validate
found-Passes none validate h = tt
found-Passes (some value) validate h = h

properties-PropertiesPass :
    (m : Fields) (properties : Option SubSchema)
    → when_some properties (λ sub. for_each (check_property m) sub.validators) ≡ ok tt
    → PropertiesPass m properties
properties-PropertiesPass m none h = tt
properties-PropertiesPass m (some sub) h =
    for_each-All (check_property m) sub.validators
      (λ entry e. found-Passes (get_field entry.0 m) entry.1 e) h

-- What an object that is accepted as such has.
pub check_object-ok :
    (schema : Fields) (subs : List (Text × SubSchema)) (value : Value)
    → check_object schema subs value ≡ ok tt
    → (m : Fields) × (value ≡ object m)
      × HasRequired m (get_field (text "required") schema)
      × PropertiesPass m (get_sub (text "properties") subs)
unfolding check_object
check_object-ok schema subs value h =
    let (m, e, h1) = ok_of_bind (ok_or (as_object value) expected_object) _ h in
    let (required, h2) =
      ok_of_then (when_some (get_field (text "required") schema) (check_required m)) _ h1 in
    let (passed, h3) =
      ok_of_then
        (when_some (get_sub (text "properties") subs)
          (λ sub. for_each (check_property m) sub.validators))
        _ h2 in
    (
      m,
      as_object-some value m (ok_or-ok (as_object value) expected_object e),
      required-HasRequired m _ required,
      properties-PropertiesPass m _ passed,
    )

-- The check as an object of a value that is accepted against an object's schema.
pub object_checked :
    (schema : Fields) (subs : List (Text × SubSchema)) (value : Value)
    → schema_implies_object schema ≡ true
    → validate_value_against_schema schema subs value ≡ ok tt
    → check_object schema subs value ≡ ok tt
unfolding validate_value_against_schema
object_checked schema subs value implied h =
    let (listed, h1) = ok_of_then (check_enum schema value) _ h in
    let (typed, h2) = ok_of_then (check_type schema value) _ h1 in
    let (checked, h3) =
      ok_of_then (if schema_implies_object schema then check_object schema subs value else ok tt) _
        h2 in
    rw (implied) at checked

-- A value that is accepted against a schema that the code takes for an object's is an object and has
-- every required property, also where the schema's type lists other types beside object.
pub validate_value_against_schema-HasRequired :
    (schema : Fields) (subs : List (Text × SubSchema)) (value : Value)
    → schema_implies_object schema ≡ true
    → validate_value_against_schema schema subs value ≡ ok tt
    → (m : Fields) × (value ≡ object m) × HasRequired m (get_field (text "required") schema)
validate_value_against_schema-HasRequired schema subs value implied h =
    let (m, same, required, passed) =
      check_object-ok schema subs value (object_checked schema subs value implied h) in
    (m, same, required)
