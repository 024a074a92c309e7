-- ===== src/Venice.antt =====
-- src/venice.rs and src/openai.rs: the answer of Venice's model list and what the proxy lists of
-- it, the check of a status and the codes of the client's errors.
pub mod Listed
mod Tests
use venice_e2ee_proxy.Base.{
  ℕ, Bool, true, false, not, ◌||◌, ◌&&◌, Option, none, some, Result, ok, err, List, [], ◌∷◌,
  unwrap_or, ltb, leb, ◌==◌, if◌then◌else◌,
}
use venice_e2ee_proxy.Text.{Text, text, text_eq}
use venice_e2ee_proxy.Json.{Number, pos_int}

pub record VeniceCapabilities : Type 0 where
  pub supports_e2ee : Bool
  pub supports_tee_attestation : Bool
  pub supports_function_calling : Option Bool
  pub supports_builtin_tools : Option Bool
  pub supports_web_search : Option Bool
  pub supports_code_interpreter : Option Bool
  pub supports_vision : Option Bool
  pub supports_reasoning : Option Bool
  pub supports_reasoning_effort : Option Bool

-- With the capabilities of its `VeniceModelSpec`.
pub record VeniceModel : Type 0 where
  pub id : Text
  pub created : Option Number
  pub owned_by : Option Text
  pub model_type : Text
  pub capabilities : VeniceCapabilities

pub record ModelCapabilities : Type 0 where
  pub function_calling : Bool
  pub builtin_tools : Bool
  pub web_search : Bool
  pub code_interpreter : Bool
  pub vision : Bool
  pub reasoning : Bool
  pub reasoning_effort : Bool

pub record VeniceModelMetadata : Type 0 where
  pub id : Text
  pub supports_e2ee : Bool
  pub supports_tee_attestation : Bool
  pub supports_reasoning : Bool
  pub supports_reasoning_effort : Bool

-- `info.meta.capabilities` is the field `capabilities`.
pub record ModelObject : Type 0 where
  pub id : Text
  pub object : Text
  pub created : Number
  pub owned_by : Text
  pub name : Text
  pub capabilities : ModelCapabilities
  pub venice : VeniceModelMetadata

pub record ModelListResponse : Type 0 where
  pub object : Text
  pub models : List ModelObject

unfoldable pub to_openai_capabilities : VeniceCapabilities → ModelCapabilities
to_openai_capabilities c =
    let web_search = unwrap_or c.supports_web_search false in
    let code_interpreter = unwrap_or c.supports_code_interpreter false in
    record {
      function_calling = unwrap_or c.supports_function_calling false;
      builtin_tools = unwrap_or c.supports_builtin_tools (web_search || code_interpreter);
      web_search = web_search;
      code_interpreter = code_interpreter;
      vision = unwrap_or c.supports_vision false;
      reasoning = unwrap_or c.supports_reasoning false;
      reasoning_effort = unwrap_or c.supports_reasoning_effort false;
    }

-- `ModelObject::new`.
unfoldable pub new_model :
    Text → Number → Text → ModelCapabilities → VeniceModelMetadata → ModelObject
new_model id created owned_by capabilities venice = record {
  id = id;
  object = text "model";
  created = created;
  owned_by = owned_by;
  name = id;
  capabilities = capabilities;
  venice = venice;
}

unfoldable pub into_openai_model : VeniceModel → ModelObject
into_openai_model model =
    let c = model.capabilities in
    new_model model.id (unwrap_or model.created (pos_int 0))
      (unwrap_or model.owned_by (text "venice.ai")) (to_openai_capabilities c)
      (record {
        id = model.id;
        supports_e2ee = c.supports_e2ee;
        supports_tee_attestation = c.supports_tee_attestation;
        supports_reasoning = unwrap_or c.supports_reasoning false;
        supports_reasoning_effort = unwrap_or c.supports_reasoning_effort false;
      })

unfoldable pub into_openai_model_if_supported : VeniceModel → Option ModelObject
into_openai_model_if_supported model =
    if not (text_eq model.model_type (text "text"))
      || not model.capabilities.supports_e2ee
      || not model.capabilities.supports_tee_attestation
    then none
    else some (into_openai_model model)

abbrev keep : Option ModelObject → List ModelObject → List ModelObject
keep none models = models
keep (some model) models = model ∷ models

-- `filter_map` of the models.
unfoldable pub supported : List VeniceModel → List ModelObject
supported [] = []
supported (model ∷ models) = keep (into_openai_model_if_supported model) (supported models)

unfoldable pub into_openai_model_list : List VeniceModel → ModelListResponse
into_openai_model_list models = record { object = text "list"; models = supported models }

-- The error of the configuration is the missing key or another; messages are not kept.
pub data VeniceClientError : Type 0 where
  missing_api_key other_config invalid_base_url client_build endpoint_url : VeniceClientError
  authentication upstream_status : ℕ → VeniceClientError
  timeout request malformed_payload malformed_attestation_payload : VeniceClientError

unfoldable pub check_status : ℕ → Result VeniceClientError (Unit {0})
check_status status =
    if status == 401 || status == 403
    then err (authentication status)
    else if leb 200 status && ltb status 300
    then ok tt
    else err (upstream_status status)

unfoldable pub client_error_type : VeniceClientError → Text
client_error_type missing_api_key = text "proxy_configuration_error"
client_error_type other_config = text "proxy_configuration_error"
client_error_type invalid_base_url = text "proxy_configuration_error"
client_error_type client_build = text "proxy_configuration_error"
client_error_type endpoint_url = text "proxy_configuration_error"
client_error_type (authentication status) = text "proxy_upstream_authentication_error"
client_error_type (upstream_status status) = text "proxy_upstream_error"
client_error_type timeout = text "proxy_upstream_error"
client_error_type request = text "proxy_upstream_error"
client_error_type malformed_payload = text "proxy_upstream_error"
client_error_type malformed_attestation_payload = text "proxy_upstream_error"

unfoldable pub client_error_code : VeniceClientError → Text
client_error_code missing_api_key = text "venice_api_key_missing"
client_error_code other_config = text "venice_client_configuration_failed"
client_error_code invalid_base_url = text "venice_client_configuration_failed"
client_error_code client_build = text "venice_client_configuration_failed"
client_error_code endpoint_url = text "venice_client_configuration_failed"
client_error_code (authentication status) = text "upstream_authentication_failed"
client_error_code (upstream_status status) = text "upstream_status_error"
client_error_code timeout = text "upstream_timeout"
client_error_code request = text "upstream_unavailable"
client_error_code malformed_payload = text "upstream_malformed_response"
client_error_code malformed_attestation_payload = text "upstream_malformed_response"
