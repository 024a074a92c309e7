-- ===== src/Attestation.antt =====
-- src/attestation.rs: the evidence that Venice returns, the policy on it and its result. serde's
-- deserialisation of the response is a parameter, as are the hashes; hex and keys are those of the
-- codec's crates.
pub mod Keys
pub mod Evidence
pub mod Checks
pub mod Accepted
pub mod Codec
pub mod Quote
pub mod Tests
use venice_e2ee_proxy.Base.{
  ℕ, Bool, true, false, not, Option, none, some, is_none, List, if◌then◌else◌,
}
use venice_e2ee_proxy.Text.{Text, text, is_empty}
use venice_e2ee_proxy.Text.Trim.{trim}
use venice_e2ee_proxy.Json.{Value, is_null}

pub data AttestationMode : Type 0 where
  independent : AttestationMode

pub data NvidiaRequirement : Type 0 where
  required when_present never : NvidiaRequirement

pub record AttestationConfig : Type 0 where
  pub mode : AttestationMode
  pub require_tdx : Bool
  pub require_nvidia : NvidiaRequirement
  pub allow_debug : Bool
  pub pccs_url : Text

unfoldable pub default_policy : AttestationConfig
default_policy = record {
  mode = independent;
  require_tdx = false;
  require_nvidia = never;
  allow_debug = false;
  pccs_url = text "";
}

pub record TdxVerificationSummary : Type 0 where
  pub present : Bool
  pub verified : Bool
  pub debug : Option Bool
  pub tee_type : Option ℕ

pub data NvidiaVerificationStatus : Type 0 where
  status_not_present ignored_by_policy present_verifier_unavailable : NvidiaVerificationStatus

unfoldable pub as_header_value : NvidiaVerificationStatus → Text
as_header_value status_not_present = text "not-present"
as_header_value ignored_by_policy = text "ignored"
as_header_value present_verifier_unavailable = text "verifier-unavailable"

pub record NvidiaVerificationSummary : Type 0 where
  pub present : Bool
  pub verified : NvidiaVerificationStatus

unfoldable pub tdx_not_present : TdxVerificationSummary
tdx_not_present = record { present = false; verified = false; debug = none; tee_type = none }

unfoldable pub nvidia_not_present : NvidiaVerificationSummary
nvidia_not_present = record { present = false; verified = status_not_present }

-- The time of the verification is an argument.
pub record VerifiedAttestation : Type 0 where
  pub model_id : Text
  pub model_public_key : Text
  pub signing_address : Option Text
  pub tee_provider : Option Text
  pub debug : Option Bool
  pub tdx : TdxVerificationSummary
  pub nvidia : NvidiaVerificationSummary
  pub verified_at : ℕ

pub data AttestationFailureCode : Type 0 where
  upstream_not_verified nonce_mismatch model_mismatch invalid_signing_key : AttestationFailureCode
  signing_address_mismatch debug_mode_detected missing_tdx_evidence : AttestationFailureCode
  invalid_tdx_evidence missing_nvidia_evidence invalid_nvidia_evidence : AttestationFailureCode

unfoldable pub as_str : AttestationFailureCode → Text
as_str upstream_not_verified = text "attestation_upstream_not_verified"
as_str nonce_mismatch = text "attestation_nonce_mismatch"
as_str model_mismatch = text "attestation_model_mismatch"
as_str invalid_signing_key = text "attestation_invalid_signing_key"
as_str signing_address_mismatch = text "attestation_signing_address_mismatch"
as_str debug_mode_detected = text "attestation_debug_mode_detected"
as_str missing_tdx_evidence = text "attestation_missing_tdx_evidence"
as_str invalid_tdx_evidence = text "attestation_invalid_tdx_evidence"
as_str missing_nvidia_evidence = text "attestation_missing_nvidia_evidence"
as_str invalid_nvidia_evidence = text "attestation_invalid_nvidia_evidence"

pub data Verifier : Type 0 where
  tdx_dcap_qvl nvidia_nras : Verifier

-- The variants of the error with their codes and fields; of the messages, only which field is
-- blank. The client's error and serde's are parameters.
pub data AttestationError (FetchError SerdeError : Type 0) : Type 0 where
  blank_model_id nonce_length nonce_not_hex : AttestationError FetchError SerdeError
  fetch : FetchError → AttestationError FetchError SerdeError
  malformed_response : SerdeError → AttestationError FetchError SerdeError
  blank_field : Text → AttestationError FetchError SerdeError
  missing_field : Text → AttestationError FetchError SerdeError
  policy_violation : AttestationFailureCode → AttestationError FetchError SerdeError
  external_verifier_unavailable : Verifier → AttestationError FetchError SerdeError

module _ {FetchError SerdeError : Type 0} where
  unfoldable pub api_error_type : AttestationError FetchError SerdeError → Text
  api_error_type blank_model_id = text "invalid_request_error"
  api_error_type nonce_length = text "invalid_request_error"
  api_error_type nonce_not_hex = text "invalid_request_error"
  api_error_type (external_verifier_unavailable v) = text "proxy_attestation_verifier_unavailable"
  api_error_type (fetch why) = text "proxy_attestation_error"
  api_error_type (malformed_response why) = text "proxy_attestation_error"
  api_error_type (blank_field f) = text "proxy_attestation_error"
  api_error_type (missing_field f) = text "proxy_attestation_error"
  api_error_type (policy_violation code) = text "proxy_attestation_error"

  unfoldable pub api_error_code : AttestationError FetchError SerdeError → Text
  api_error_code blank_model_id = text "invalid_attestation_request"
  api_error_code nonce_length = text "invalid_attestation_request"
  api_error_code nonce_not_hex = text "invalid_attestation_request"
  api_error_code (fetch why) = text "attestation_fetch_failed"
  api_error_code (malformed_response why) = text "attestation_malformed_response"
  api_error_code (blank_field f) = text "attestation_malformed_response"
  api_error_code (missing_field f) = text "attestation_missing_required_field"
  api_error_code (policy_violation code) = as_str code
  api_error_code (external_verifier_unavailable v) = text "attestation_verifier_unavailable"

  unfoldable pub verifier_unavailable : AttestationError FetchError SerdeError → Bool
  verifier_unavailable (external_verifier_unavailable v) = true
  verifier_unavailable _ = false

-- `VeniceAttestationFields`, as they stand in the response.
pub record VeniceAttestationFields : Type 0 where
  pub verified : Option Bool
  pub nonce : Option Text
  pub model : Option Text
  pub tee_provider : Option Text
  pub signing_public_key : Option Text
  pub signing_address : Option Text
  pub debug : Option Bool
  pub nvidia_payload : Option Value

-- With the evidence of its `AciAttestationEnvelope`.
pub record VeniceAttestationResponse : Type 0 where
  pub fields : VeniceAttestationFields
  pub quote : Option Text
  pub quote_report_data : Option Text

unfoldable pub non_blank : Text → Option Text
non_blank value = if is_empty (trim value) then none else some value

-- `non_empty`.
unfoldable pub non_empty : Option Text → Option Text
non_empty none = none
non_empty (some value) = non_blank value

unfoldable pub non_null : Value → Option Value
non_null value = if is_null value then none else some value

-- `VeniceAttestationFields::nvidia_payload`.
unfoldable pub nvidia_payload : VeniceAttestationFields → Option Value
nvidia_payload fields = elim fields.nvidia_payload [ none ↦ none | some value ↦ non_null value ]
