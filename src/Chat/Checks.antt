-- ===== src/Chat/Checks.antt =====
-- What each check of a request leaves, where it succeeds.
use venice_e2ee_proxy.Base.{
  ◌≡◌, refl, sym, ap, subst, ◌∙◌, inl, inr, true, false, not, Option, none, some, ok, ok_or, List,
  [], ◌∷◌, All, Bool-cases, Option-cases, ok_of_bind, ok_of_ensure, ok-injective, arith, unwrap_or,
}
use venice_e2ee_proxy.Text.{Text, text, text_eq, text_eq_iff}
use venice_e2ee_proxy.Json.{Value, Fields, entries, get_field, as_str}
use venice_e2ee_proxy.Chat.{
  ChatToolChoice, ChatToolDefinition, NormalizedChatMessage, RawVeniceParameters,
  RawVeniceWebSearch, Serde, VeniceParameters, auto, function, no_tool, required, search_text,
  search_flag,
}
use venice_e2ee_proxy.Chat.Reading.{
  is_blank, contains, first_unknown, reject_unknown_fields, required_non_empty_string,
  deserialize_typed_value,
}
use venice_e2ee_proxy.Chat.Parse.{
  allowed_parameters, any_blank_name, default_parameters, parse_venice_parameters, same_effort,
  validate_tool_choice, validate_tools, web_search,
}

-- The key of an entry is on the list.
abbrev pub IsAllowed : List Text → Text × Value → Type 0
IsAllowed allowed entry = contains allowed entry.0 ≡ true

-- The roles that Venice is sent.
abbrev pub upstream_roles : List Text
upstream_roles = text "system" ∷ text "developer" ∷ text "user" ∷ text "assistant" ∷ []

abbrev pub HasUpstreamRole : NormalizedChatMessage → Type 0
HasUpstreamRole message = contains upstream_roles message.role ≡ true

-- Encryption on, no system prompt of Venice's and no web search.
unfoldable pub IsPrivate : VeniceParameters → Type 0
IsPrivate p =
    (p.enable_e2ee ≡ true)
    × (p.include_venice_system_prompt ≡ false)
    × (p.enable_web_search ≡ text "off")

unfoldable pub IsNamed : ChatToolChoice → Type 0
IsNamed (function name) = is_blank name ≡ false
IsNamed auto = Unit
IsNamed no_tool = Unit
IsNamed required = Unit

-- Both efforts are the same, where both are given.
unfoldable pub Agree : Option Text → Option Text → Type 0
Agree none flat = Unit
Agree (some nested) none = Unit
Agree (some nested) (some flat) = nested ≡ flat

pub first_unknown-none :
    (allowed : List Text) (m : List (Text × Value))
    → first_unknown allowed m ≡ none
    → All (IsAllowed allowed) m
unfolding first_unknown
first_unknown-none allowed [] h = tt
first_unknown-none allowed ((key, value) ∷ m) h = elim (Bool-cases (contains allowed key)) [
  | inl e ↦ (e, first_unknown-none allowed m (ground (arith, e, h)))
  | inr e ↦ ground (arith, e, h)
]

pub reject_unknown_fields-ok :
    (m : Fields) (allowed : List Text)
    → reject_unknown_fields m allowed ≡ ok tt
    → All (IsAllowed allowed) (entries m)
unfolding reject_unknown_fields
reject_unknown_fields-ok m allowed h = elim (Option-cases (first_unknown allowed (entries m))) [
  | inl e ↦ first_unknown-none allowed (entries m) e
  | inr (key, e) ↦ ground (arith, e, h)
]

pub required_non_empty_string-ok :
    (m : Fields) (name s : Text) → required_non_empty_string m name ≡ ok s → is_blank s ≡ false
unfolding required_non_empty_string
required_non_empty_string-ok m name s h =
    let (value, e, h1) = ok_of_bind (ok_or (get_field name m) _) _ h in
    let (t, e2, h2) = ok_of_bind (ok_or (as_str value) _) _ h1 in
    elim (Bool-cases (is_blank t)) [
      | inl blank ↦ ground (arith, blank, h2)
      | inr kept ↦ ground (arith, kept, h2)
    ]

web_search-off :
    (raw : Option RawVeniceWebSearch) (s : Text) → web_search raw ≡ ok s → s ≡ text "off"
unfolding web_search
web_search-off none s h = sym (ok-injective h)
web_search-off (some (search_text value)) s h = elim (Bool-cases (text_eq value (text "off"))) [
  | inl e ↦ ground (arith, e, h)
  | inr e ↦ ground (arith, e, h)
]
web_search-off (some (search_flag false)) s h = sym (ok-injective h)
web_search-off (some (search_flag true)) s h = cc

allowed_parameters-IsPrivate :
    (raw : RawVeniceParameters) (p : VeniceParameters) → allowed_parameters raw ≡ ok p → IsPrivate p
unfolding allowed_parameters IsPrivate
allowed_parameters-IsPrivate raw p h =
    let (on, h1) = ok_of_ensure (unwrap_or raw.enable_e2ee true) _ _ h in
    let (off, h2) = ok_of_ensure (not (unwrap_or raw.include_venice_system_prompt false)) _ _ h1 in
    let (search, e, h3) = ok_of_bind (web_search raw.enable_web_search) _ h2 in
    let same = sym (ok-injective h3) in
    (
      ap (λ (q : VeniceParameters). q.enable_e2ee) same ∙ on,
      ap (λ (q : VeniceParameters). q.include_venice_system_prompt) same ∙ ground (arith, off),
      ap (λ (q : VeniceParameters). q.enable_web_search) same ∙ web_search-off _ search e,
    )

default_parameters-IsPrivate : IsPrivate default_parameters
unfolding IsPrivate default_parameters
default_parameters-IsPrivate = (refl, refl, refl)

pub parse_venice_parameters-IsPrivate :
    (serde : Serde) (value : Option Value) (p : VeniceParameters)
    → parse_venice_parameters serde value ≡ ok p
    → IsPrivate p
unfolding parse_venice_parameters default_parameters
parse_venice_parameters-IsPrivate serde none p h =
    subst IsPrivate (ok-injective h) default_parameters-IsPrivate
parse_venice_parameters-IsPrivate serde (some value) p h =
    let (raw, e, h1) =
      ok_of_bind (deserialize_typed_value _ value (serde.venice_parameters value)) _ h in
    allowed_parameters-IsPrivate raw p h1

pub validate_tools-ok :
    (tools : List ChatToolDefinition) → validate_tools tools ≡ ok tt → any_blank_name tools ≡ false
unfolding validate_tools
validate_tools-ok tools h = ground (arith, h)

pub validate_tool_choice-ok : (c : ChatToolChoice) → validate_tool_choice c ≡ ok tt → IsNamed c
unfolding validate_tool_choice IsNamed
validate_tool_choice-ok (function name) h = ground (arith, h)
validate_tool_choice-ok auto h = tt
validate_tool_choice-ok no_tool h = tt
validate_tool_choice-ok required h = tt

pub same_effort-ok :
    (nested flat : Option Text) → same_effort nested flat ≡ ok tt → Agree nested flat
unfolding same_effort Agree
same_effort-ok none flat h = tt
same_effort-ok (some nested) none h = tt
same_effort-ok (some nested) (some flat) h = (text_eq_iff nested flat).0 (ground (arith, h))
