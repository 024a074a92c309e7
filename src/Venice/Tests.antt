-- ===== src/Venice/Tests.antt =====
-- The model list on concrete models.
use venice_e2ee_proxy.Base.{◌≡◌, refl, Bool, true, false, none, List, [], ◌∷◌, map, length}
use venice_e2ee_proxy.Text.{Text, text, text_eq}
use venice_e2ee_proxy.Venice.{
  VeniceModel, into_openai_model, into_openai_model_if_supported, into_openai_model_list, supported,
}
use venice_e2ee_proxy.Venice.Listed.{into_openai_model_list-private_models, private_models}

abbrev model : Text → Bool → VeniceModel
model id e2ee = record {
  id = id;
  created = none;
  owned_by = none;
  model_type = text "text";
  capabilities = record {
    supports_e2ee = e2ee;
    supports_tee_attestation = true;
    supports_function_calling = none;
    supports_builtin_tools = none;
    supports_web_search = none;
    supports_code_interpreter = none;
    supports_vision = none;
    supports_reasoning = none;
    supports_reasoning_effort = none;
  };
}

abbrev models : List VeniceModel
models = model (text "a") true ∷ model (text "b") false ∷ []

one_listed : length (into_openai_model_list models).models ≡ 1
unfolding into_openai_model_list supported into_openai_model_if_supported text_eq
one_listed = refl

into_openai_model_list-private_models_example :
    (into_openai_model_list models).models ≡ map into_openai_model (private_models models)
into_openai_model_list-private_models_example = into_openai_model_list-private_models models
