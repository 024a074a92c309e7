-- ===== src/Venice/Listed.antt =====
-- The models that the proxy lists.
use venice_e2ee_proxy.Base.{
  ◌≡◌, refl, inl, inr, Bool, true, false, ◌&&◌, none, some, List, [], ◌∷◌, map, arith, Bool-cases,
  if◌then◌else◌,
}
use venice_e2ee_proxy.Text.{text, text_eq}
use venice_e2ee_proxy.Venice.{
  VeniceModel, into_openai_model, into_openai_model_if_supported, into_openai_model_list, supported,
}

-- A text model with encryption and attestation.
unfoldable pub is_private : VeniceModel → Bool
is_private model =
    text_eq model.model_type (text "text")
    && model.capabilities.supports_e2ee
    && model.capabilities.supports_tee_attestation

-- The library's `filter`, on the models.
unfoldable pub private_models : List VeniceModel → List VeniceModel
private_models [] = []
private_models (model ∷ models) =
    let rest = private_models models in if is_private model then model ∷ rest else rest

listed :
    (model : VeniceModel)
    → is_private model ≡ true
    → into_openai_model_if_supported model ≡ some (into_openai_model model)
unfolding is_private into_openai_model_if_supported
listed model h = ground (arith, h)

unlisted :
    (model : VeniceModel) → is_private model ≡ false → into_openai_model_if_supported model ≡ none
unfolding is_private into_openai_model_if_supported
unlisted model h = ground (arith, h)

supported-map :
    (models : List VeniceModel) → supported models ≡ map into_openai_model (private_models models)
unfolding supported private_models
supported-map [] = refl
supported-map (model ∷ models) = elim (Bool-cases (is_private model)) [
  | inl h ↦ ground (arith, h, listed model h, supported-map models)
  | inr h ↦ ground (arith, h, unlisted model h, supported-map models)
]

-- The list has exactly the text models of the payload that support encryption and attestation, in
-- their order.
pub into_openai_model_list-private_models :
    (models : List VeniceModel)
    → (into_openai_model_list models).models ≡ map into_openai_model (private_models models)
unfolding into_openai_model_list
into_openai_model_list-private_models models = supported-map models
