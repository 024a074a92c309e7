-- ===== src/Attestation/Evidence.antt =====
-- src/attestation.rs: the verification of the evidence.
use venice_e2ee_proxy.Base.{
  ℕ, Bool, true, false, not, ◌&&◌, Option, none, some, Result, ok, err, ◌>>=◌, ◌>>◌, ensure, ok_or,
  map_err, unwrap_or, ◌==◌, if◌then◌else◌,
}
use venice_e2ee_proxy.Text.{Text, text, text_eq, is_empty}
use venice_e2ee_proxy.Text.Trim.{trim}
use venice_e2ee_proxy.Json.{Value, object, string}
use venice_e2ee_proxy.E2ee.{CryptoLib}
use venice_e2ee_proxy.Attestation.{
  AttestationConfig, NvidiaRequirement, NvidiaVerificationSummary, TdxVerificationSummary,
  VeniceAttestationFields, VeniceAttestationResponse, VerifiedAttestation, blank_field,
  blank_model_id, debug_mode_detected, external_verifier_unavailable, fetch, ignored_by_policy,
  invalid_nvidia_evidence, invalid_tdx_evidence, malformed_response, missing_field,
  missing_nvidia_evidence, missing_tdx_evidence, model_mismatch, never, non_empty, nonce_mismatch,
  nvidia_not_present, nvidia_nras, nvidia_payload, policy_violation, required,
  signing_address_mismatch, tdx_dcap_qvl, tdx_not_present, upstream_not_verified, when_present,
}
use venice_e2ee_proxy.Attestation.Keys.{
  AttestationLib, Failure, ethereum_address_from_uncompressed_key_hex, normalize_ethereum_address,
  normalize_public_key_hex, parse_tdx_quote, tdx_tee_type, validate_nonce_hex,
  verify_reportdata_binding,
}

module _ (lib : CryptoLib) (digests : AttestationLib) where
  unfoldable pub required_string : Text → Option Text → Result (Failure lib digests) Text
  required_string field none = err (missing_field field)
  required_string field (some value) =
      if is_empty (trim value) then err (blank_field field) else ok value

  -- `evidence.signing_address().map(normalize_ethereum_address).transpose()`.
  unfoldable pub optional_address : Option Text → Result (Failure lib digests) (Option Text)
  optional_address none = ok none
  optional_address (some value) = do
    address ← normalize_ethereum_address lib digests value
    ok (some address)

  abbrev pub same_address : Option Text → Text → Bool
  same_address none derived = true
  same_address (some address) derived = text_eq address derived

  unfoldable pub check_report_data :
      Option Text → Text → Option Text → Result (Failure lib digests) (Unit {0})
  check_report_data none signing_key signing_address = ok tt
  check_report_data (some reportdata) signing_key signing_address =
      verify_reportdata_binding lib digests reportdata signing_key signing_address

  -- A quote that is present.
  unfoldable pub evaluate_quote :
      AttestationConfig
      → VeniceAttestationResponse
      → Text
      → Option Text
      → Text
      → Result (Failure lib digests) TdxVerificationSummary
  evaluate_quote policy response signing_key signing_address quote = do
    parsed ← parse_tdx_quote lib digests quote
    ensure (parsed.tee_type == tdx_tee_type) (policy_violation invalid_tdx_evidence)
    ensure (not (parsed.debug && not policy.allow_debug)) (policy_violation debug_mode_detected)
    check_report_data (non_empty response.quote_report_data) signing_key signing_address
    ensure (not policy.require_tdx) (external_verifier_unavailable tdx_dcap_qvl)
    ok (record {
      present = true;
      verified = false;
      debug = some parsed.debug;
      tee_type = some parsed.tee_type;
    })

  unfoldable pub evaluate_tdx_policy :
      AttestationConfig
      → VeniceAttestationResponse
      → Text
      → Option Text
      → Result (Failure lib digests) TdxVerificationSummary
  evaluate_tdx_policy policy response signing_key signing_address =
      elim (non_empty response.quote) [
        | none ↦
            if policy.require_tdx
            then err (policy_violation missing_tdx_evidence)
            else ok tdx_not_present
        | some quote ↦ evaluate_quote policy response signing_key signing_address quote
      ]

  -- A payload that the policy wants verified.
  unfoldable pub unverified_payload : Value → Result (Failure lib digests) NvidiaVerificationSummary
  unverified_payload (object m) = err (external_verifier_unavailable nvidia_nras)
  unverified_payload (string s) = err (external_verifier_unavailable nvidia_nras)
  unverified_payload value = err (policy_violation invalid_nvidia_evidence)

  unfoldable pub by_requirement :
      NvidiaRequirement → Option Value → Result (Failure lib digests) NvidiaVerificationSummary
  by_requirement required none = err (policy_violation missing_nvidia_evidence)
  by_requirement never none = ok nvidia_not_present
  by_requirement never (some value) = ok (record { present = true; verified = ignored_by_policy })
  by_requirement required (some value) = unverified_payload value
  by_requirement when_present (some value) = unverified_payload value
  by_requirement when_present none = ok nvidia_not_present

  unfoldable pub evaluate_nvidia_policy :
      AttestationConfig
      → VeniceAttestationFields
      → Result (Failure lib digests) NvidiaVerificationSummary
  evaluate_nvidia_policy policy evidence =
      by_requirement policy.require_nvidia (nvidia_payload evidence)

  -- Venice's decision, and the nonce and the model that it answers.
  unfoldable pub check_answer :
      Text → Text → VeniceAttestationFields → Result (Failure lib digests) (Unit {0})
  check_answer requested_model_id client_nonce evidence = do
    verified ← ok_or evidence.verified (missing_field (text "verified"))
    ensure verified (policy_violation upstream_not_verified)
    nonce ← required_string (text "nonce") evidence.nonce
    ensure (text_eq nonce client_nonce) (policy_violation nonce_mismatch)
    model ← required_string (text "model") evidence.model
    ensure (text_eq model requested_model_id) (policy_violation model_mismatch)

  -- The normalized signing key and the signing address.
  unfoldable pub attested_key :
      VeniceAttestationFields → Result (Failure lib digests) (Text × Option Text)
  attested_key evidence = do
    signing_key ←
        ok_or (non_empty evidence.signing_public_key) (missing_field (text "signing_public_key"))
    normalized_signing_key ← normalize_public_key_hex lib digests signing_key
    derived_address ← ethereum_address_from_uncompressed_key_hex lib digests normalized_signing_key
    signing_address ← optional_address (non_empty evidence.signing_address)
    ensure (same_address signing_address derived_address)
        (policy_violation signing_address_mismatch)
    ok ((normalized_signing_key, signing_address))

  -- The policy on a response with this key and address.
  unfoldable pub by_policy :
      AttestationConfig
      → Text
      → VeniceAttestationResponse
      → ℕ
      → Text × Option Text
      → Result (Failure lib digests) VerifiedAttestation
  by_policy policy requested_model_id response now (key, address) = do
    ensure (not (unwrap_or response.fields.debug false && not policy.allow_debug))
        (policy_violation debug_mode_detected)
    tdx ← evaluate_tdx_policy policy response key address
    nvidia ← evaluate_nvidia_policy policy response.fields
    ok (record {
      model_id = requested_model_id;
      model_public_key = key;
      signing_address = address;
      tee_provider = non_empty response.fields.tee_provider;
      debug = response.fields.debug;
      tdx = tdx;
      nvidia = nvidia;
      verified_at = now;
    })

  -- On what serde reads of the response, at a time.
  unfoldable pub verify_attestation_evidence :
      AttestationConfig
      → Text
      → Text
      → Result digests.SerdeError VeniceAttestationResponse
      → ℕ
      → Result (Failure lib digests) VerifiedAttestation
  verify_attestation_evidence policy requested_model_id client_nonce upstream_response now = do
    validate_nonce_hex lib digests client_nonce
    response ← map_err malformed_response upstream_response
    check_answer requested_model_id client_nonce response.fields
    key ← attested_key response.fields
    by_policy policy requested_model_id response now key

  -- On what the client fetches for the fresh nonce.
  unfoldable pub verify_model_attestation :
      AttestationConfig
      → Text
      → Text
      → Result digests.FetchError Value
      → (Value → Result digests.SerdeError VeniceAttestationResponse)
      → ℕ
      → Result (Failure lib digests) VerifiedAttestation
  verify_model_attestation policy model_id nonce fetched from_value now =
      if is_empty (trim model_id)
      then err blank_model_id
      else map_err fetch fetched >>= λ evidence.
          verify_attestation_evidence policy model_id nonce (from_value evidence) now
