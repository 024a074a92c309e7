-- ===== src/Attestation/Accepted.antt =====
-- What holds of every attestation that is accepted.
use venice_e2ee_proxy.Base.{
  ◌≡◌, refl, sym, ap, subst, true, false, not, ◌&&◌, Option, some, ok, ok_or, map_err, unwrap_or,
  ok_of_bind, ok_of_then, ok_of_ensure, ok-injective, Result, ensure-ok, ok_or-ok, ◌∙◌, map_err-ok,
}
use venice_e2ee_proxy.Text.{Text, text_eq_iff, text_eq}
use venice_e2ee_proxy.E2ee.{CryptoLib}
use venice_e2ee_proxy.Attestation.{
  AttestationConfig, VeniceAttestationFields, VeniceAttestationResponse, VerifiedAttestation,
  non_empty, nvidia_payload, text, ℕ, malformed_response,
}
use venice_e2ee_proxy.Attestation.Keys.{
  AttestationLib, ethereum_address_from_uncompressed_key_hex, normalize_public_key_hex,
  validate_nonce_hex,
}
use venice_e2ee_proxy.Attestation.Evidence.{
  evaluate_tdx_policy, required_string, same_address, attested_key, by_policy, check_answer,
  verify_attestation_evidence, evaluate_nvidia_policy, optional_address,
}
use venice_e2ee_proxy.Attestation.Checks.{
  required_string-some, normalized-point, may_debug, tdx-accepted, nvidia-accepted, address-bound,
  Bound, Debuggable, Unverified, Accepted,
}

module _ (lib : CryptoLib) (digests : AttestationLib) (policy : AttestationConfig) where
  answered :
      (requested_model_id client_nonce : Text) (evidence : VeniceAttestationFields)
      → check_answer lib digests requested_model_id client_nonce evidence ≡ ok tt
      → (evidence.verified ≡ some true)
        × (evidence.nonce ≡ some client_nonce)
        × (evidence.model ≡ some requested_model_id)
  unfolding check_answer
  answered requested_model_id client_nonce evidence h =
      let (verified, e3, h3) = ok_of_bind (ok_or evidence.verified _) _ h in
      let (marked, h4) = ok_of_ensure verified _ _ h3 in
      let (nonce, e5, h5) =
        ok_of_bind (required_string lib digests (text "nonce") evidence.nonce) _ h4 in
      let (same_nonce, h6) = ok_of_ensure (text_eq nonce client_nonce) _ _ h5 in
      let (model, e7, h7) =
        ok_of_bind (required_string lib digests (text "model") evidence.model) _ h6 in
      let same_model = ensure-ok (text_eq model requested_model_id) _ h7 in
      (
        ok_or-ok evidence.verified _ e3 ∙ ap some marked,
        required_string-some lib digests policy _ evidence.nonce nonce e5
            ∙ ap some ((text_eq_iff nonce client_nonce).0 same_nonce),
        required_string-some lib digests policy _ evidence.model model e7
            ∙ ap some ((text_eq_iff model requested_model_id).0 same_model),
      )

  bound :
      (evidence : VeniceAttestationFields) (key : Text) (address : Option Text)
      → attested_key lib digests evidence ≡ ok ((key, address))
      → Bound lib digests policy key address
  unfolding attested_key Bound
  bound evidence key address h =
      let (signing_key, e9, h9) =
        ok_of_bind (ok_or (non_empty evidence.signing_public_key) _) _ h in
      let (normal, e10, h10) = ok_of_bind (normalize_public_key_hex lib digests signing_key) _ h9 in
      let (derived, e11, h11) =
        ok_of_bind (ethereum_address_from_uncompressed_key_hex lib digests normal) _ h10 in
      let (given, e12, h12) =
        ok_of_bind (optional_address lib digests (non_empty evidence.signing_address)) _ h11 in
      let (same, h13) = ok_of_ensure (same_address lib digests given derived) _ _ h12 in
      let (point, normalized) = normalized-point lib digests policy signing_key normal e10 in
      subst (λ (r : Text × Option Text). Bound lib digests policy r.0 r.1) (ok-injective h13)
        (point, derived, normalized, e11, address-bound lib digests policy given derived same)

  -- What the policy leaves of a response with this key.
  unfoldable Kept :
      Text → VeniceAttestationResponse → Text × Option Text → VerifiedAttestation → Type 0
  Kept requested_model_id response (key, address) attestation =
      (attestation.model_id ≡ requested_model_id)
      × (attestation.model_public_key ≡ key)
      × (attestation.signing_address ≡ address)
      × Debuggable lib digests policy response.fields.debug
      × Debuggable lib digests policy attestation.tdx.debug
      × Unverified lib digests policy response.fields

  kept :
      (requested_model_id : Text) (response : VeniceAttestationResponse) (now : ℕ) (key : Text)
      (address : Option Text) (attestation : VerifiedAttestation)
      → by_policy lib digests policy requested_model_id response now (key, address) ≡ ok attestation
      → Kept requested_model_id response (key, address) attestation
  unfolding by_policy Kept Unverified evaluate_nvidia_policy
  kept requested_model_id response now key address attestation h =
      let (debug, h14) =
        ok_of_ensure (not (unwrap_or response.fields.debug false && not policy.allow_debug)) _ _
          h in
      let (tdx, e15, h15) =
        ok_of_bind (evaluate_tdx_policy lib digests policy response key address) _ h14 in
      let (nvidia, e16, h16) =
        ok_of_bind (evaluate_nvidia_policy lib digests policy response.fields) _ h15 in
      let (quote_debug, free) = tdx-accepted lib digests policy response key address tdx e15 in
      subst (Kept requested_model_id response (key, address)) (ok-injective h16) (
        refl,
        refl,
        refl,
        may_debug lib digests policy (unwrap_or response.fields.debug false) debug,
        quote_debug,
        (
          free,
          nvidia-accepted lib digests policy policy.require_nvidia (nvidia_payload response.fields)
              nvidia e16,
        ),
      )

  pub verify_attestation_evidence-Accepted :
      (requested_model_id client_nonce : Text)
      (upstream : Result digests.SerdeError VeniceAttestationResponse) (now : ℕ)
      (attestation : VerifiedAttestation)
      → verify_attestation_evidence lib digests policy requested_model_id client_nonce upstream now
        ≡ ok attestation
      → (response : VeniceAttestationResponse) × (upstream ≡ ok response)
        × Accepted lib digests policy requested_model_id client_nonce response attestation
  unfolding verify_attestation_evidence Accepted Kept
  verify_attestation_evidence-Accepted requested_model_id client_nonce upstream now attestation h =
      let (valid, h1) = ok_of_then (validate_nonce_hex lib digests client_nonce) _ h in
      let (response, e2, h2) = ok_of_bind (map_err malformed_response upstream) _ h1 in
      let (checked, h3) =
        ok_of_then (check_answer lib digests requested_model_id client_nonce response.fields) _
          h2 in
      let ((key, address), e4, h4) = ok_of_bind (attested_key lib digests response.fields) _ h3 in
      let (marked, same_nonce, same_model) =
        answered requested_model_id client_nonce response.fields checked in
      let (id, same_key, same_address, debug, quote_debug, unverified) =
        kept requested_model_id response now key address attestation h4 in
      (
        response,
        map_err-ok malformed_response upstream e2,
        (
          marked,
          same_nonce,
          same_model,
          id,
          subst (λ (r : Text × Option Text). Bound lib digests policy r.0 r.1)
              (λ i. (sym same_key i, sym same_address i)) (bound response.fields key address e4),
          debug,
          quote_debug,
          unverified,
        ),
      )
