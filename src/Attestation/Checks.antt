-- ===== src/Attestation/Checks.antt =====
-- What each check of an attestation leaves, where it succeeds.
use venice_e2ee_proxy.Base.{
  ◌≡◌, refl, sym, ap, subst, ◌⊎◌, inl, inr, Bool, true, false, not, ◌&&◌, Option, none, some, ok,
  ok_or, map_err, unwrap_or, Bool-cases, Option-cases, ok_of_bind, ok_of_then, ok_of_ensure,
  ok-injective, arith, length, ◌||◌, ◌==◌, denied,
}
use venice_e2ee_proxy.Text.{Text, text_eq_iff}
use venice_e2ee_proxy.Json.{Value, object, string}
use venice_e2ee_proxy.E2ee.{CryptoLib}
use venice_e2ee_proxy.Attestation.{
  AttestationConfig, NvidiaRequirement, NvidiaVerificationSummary, TdxVerificationSummary,
  VeniceAttestationFields, VeniceAttestationResponse, VerifiedAttestation, never, non_empty,
  nvidia_payload, required, tdx_not_present, when_present,
}
use venice_e2ee_proxy.Attestation.Keys.{
  AttestationLib, ethereum_address_from_uncompressed_key_hex, normalize_public_key_hex,
  parse_tdx_quote, with_tag,
}
use venice_e2ee_proxy.Attestation.Evidence.{
  by_requirement, check_report_data, evaluate_quote, evaluate_tdx_policy, required_string,
  same_address, unverified_payload,
}

module _ (lib : CryptoLib) (digests : AttestationLib) (policy : AttestationConfig) where
  -- Not in debug mode, unless the policy allows it.
  abbrev pub Debuggable : Option Bool → Type 0
  Debuggable debug = (policy.allow_debug ≡ true) ⊎ (unwrap_or debug false ≡ false)

  -- The policy wants no verification that the proxy cannot do.
  unfoldable pub Unverified : VeniceAttestationFields → Type 0
  Unverified evidence =
      (policy.require_tdx ≡ false)
      × ((policy.require_nvidia ≡ never)
          ⊎ ((policy.require_nvidia ≡ when_present) × (nvidia_payload evidence ≡ none)))

  -- The key is one in uncompressed form, and the address is derived from it where there is one.
  unfoldable pub Bound : Text → Option Text → Type 0
  Bound key address =
      (point : lib.PublicKey) × (derived : Text) × (key
        ≡ lib.hex_encode (lib.to_encoded_point point))
      × (ethereum_address_from_uncompressed_key_hex lib digests key ≡ ok derived)
      × ((address ≡ none) ⊎ (address ≡ some derived))

  unfoldable pub Accepted : Text → Text → VeniceAttestationResponse → VerifiedAttestation → Type 0
  Accepted requested_model_id client_nonce response attestation =
      (response.fields.verified ≡ some true)
      × (response.fields.nonce ≡ some client_nonce)
      × (response.fields.model ≡ some requested_model_id)
      × (attestation.model_id ≡ requested_model_id)
      × Bound attestation.model_public_key attestation.signing_address
      × Debuggable response.fields.debug
      × Debuggable attestation.tdx.debug
      × Unverified response.fields

  pub required_string-some :
      (field : Text) (value : Option Text) (s : Text)
      → required_string lib digests field value ≡ ok s
      → value ≡ some s
  unfolding required_string
  required_string-some field none s h = cc
  required_string-some field (some value) s h = ground (arith, h)

  pub normalized-point :
      (value key : Text)
      → normalize_public_key_hex lib digests value ≡ ok key
      → (point : lib.PublicKey) × (key ≡ lib.hex_encode (lib.to_encoded_point point))
  unfolding normalize_public_key_hex
  normalized-point value key h =
      let (bytes, e, h1) = ok_of_bind (map_err _ (lib.hex_decode _)) _ h in
      let (long, h2) =
        ok_of_ensure
          (length (with_tag lib digests bytes) == 33 || length (with_tag lib digests bytes) == 65) _
          _ h1 in
      let (point, e3, h3) = ok_of_bind (ok_or (lib.from_sec1_bytes _) _) _ h2 in
      (point, sym (ok-injective h3))

  pub may_debug :
      (debug : Bool)
      → not (debug && not policy.allow_debug) ≡ true
      → (policy.allow_debug ≡ true) ⊎ (debug ≡ false)
  may_debug debug h = elim (Bool-cases policy.allow_debug) [
    | inl e ↦ inl e
    | inr e ↦ elim (Bool-cases debug) [ inl d ↦ ground (arith, h, e, d) | inr d ↦ inr d ]
  ]

  quote-accepted :
      (response : VeniceAttestationResponse) (key quote : Text) (address : Option Text)
      (tdx : TdxVerificationSummary)
      → evaluate_quote lib digests policy response key address quote ≡ ok tdx
      → Debuggable tdx.debug × (policy.require_tdx ≡ false)
  unfolding evaluate_quote
  quote-accepted response key quote address tdx h =
      let (parsed, e, h1) = ok_of_bind (parse_tdx_quote lib digests quote) _ h in
      let (kind, h2) = ok_of_ensure _ _ _ h1 in
      let (debug, h3) = ok_of_ensure (not (parsed.debug && not policy.allow_debug)) _ _ h2 in
      let (bound, h4) = ok_of_then (check_report_data lib digests _ key address) _ h3 in
      let (free, h5) = ok_of_ensure (not policy.require_tdx) _ _ h4 in
      (
        subst (λ (t : TdxVerificationSummary). Debuggable t.debug) (ok-injective h5)
            (may_debug parsed.debug debug),
        denied policy.require_tdx free,
      )

  pub tdx-accepted :
      (response : VeniceAttestationResponse) (key : Text) (address : Option Text)
      (tdx : TdxVerificationSummary)
      → evaluate_tdx_policy lib digests policy response key address ≡ ok tdx
      → Debuggable tdx.debug × (policy.require_tdx ≡ false)
  unfolding evaluate_tdx_policy tdx_not_present
  tdx-accepted response key address tdx h = elim (Option-cases (non_empty response.quote)) [
    | inl e ↦ elim (Bool-cases policy.require_tdx) [
      | inl demand ↦ ground (arith, h, e, demand)
      | inr free ↦ (inr (ground (arith, h, e, free)), free)
    ]
    | inr (quote, e) ↦ quote-accepted response key quote address tdx (ground (arith, h, e))
  ]

  refused :
      (value : Value) (nvidia : NvidiaVerificationSummary)
      → unverified_payload lib digests value ≡ ok nvidia
      → ⊥
  unfolding unverified_payload
  refused (object m) nvidia h = cc
  refused (string s) nvidia h = cc
  refused (Value.number n) nvidia h = cc
  refused (Value.boolean b) nvidia h = cc
  refused Value.null nvidia h = cc
  refused (Value.array vs) nvidia h = cc

  pub nvidia-accepted :
      (requirement : NvidiaRequirement) (payload : Option Value)
      (nvidia : NvidiaVerificationSummary)
      → by_requirement lib digests requirement payload ≡ ok nvidia
      → (requirement ≡ never) ⊎ ((requirement ≡ when_present) × (payload ≡ none))
  unfolding by_requirement unverified_payload
  nvidia-accepted never payload nvidia h = inl refl
  nvidia-accepted when_present none nvidia h = inr (refl, refl)
  nvidia-accepted required none nvidia h = cc
  nvidia-accepted required (some value) nvidia h = absurd (refused value nvidia h)
  nvidia-accepted when_present (some value) nvidia h = absurd (refused value nvidia h)

  pub address-bound :
      (address : Option Text) (derived : Text)
      → same_address lib digests address derived ≡ true
      → (address ≡ none) ⊎ (address ≡ some derived)
  address-bound none derived h = inl refl
  address-bound (some a) derived h = inr (ap some ((text_eq_iff a derived).0 h))
