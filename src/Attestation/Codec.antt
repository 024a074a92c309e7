-- ===== src/Attestation/Codec.antt =====
-- The attested key and the codec: what the attestation hands on, the codec encrypts to.
use venice_e2ee_proxy.Base.{ℕ, ◌≡◌, sym, subst, Result, ok}
use venice_e2ee_proxy.Text.{Text}
use venice_e2ee_proxy.E2ee.{CryptoLib, decode_uncompressed_public_key_hex}
use venice_e2ee_proxy.E2ee.Crypto.{CryptoLaws}
use venice_e2ee_proxy.E2ee.RoundTrip.{decode-point}
use venice_e2ee_proxy.Attestation.{
  AttestationConfig, VeniceAttestationResponse, VerifiedAttestation,
}
use venice_e2ee_proxy.Attestation.Keys.{AttestationLib}
use venice_e2ee_proxy.Attestation.Evidence.{verify_attestation_evidence}
use venice_e2ee_proxy.Attestation.Checks.{Accepted, Bound}
use venice_e2ee_proxy.Attestation.Accepted.{verify_attestation_evidence-Accepted}

Accepted-Bound :
    (lib : CryptoLib) (digests : AttestationLib) (policy : AttestationConfig)
    (requested_model_id client_nonce : Text) (response : VeniceAttestationResponse)
    (attestation : VerifiedAttestation)
    → Accepted lib digests policy requested_model_id client_nonce response attestation
    → Bound lib digests policy attestation.model_public_key attestation.signing_address
unfolding Accepted
Accepted-Bound lib digests policy requested_model_id client_nonce response attestation accepted =
    accepted.4

-- The model's key of an accepted attestation is one that the codec reads.
pub verify_attestation_evidence-decode :
    (lib : CryptoLib) (laws : CryptoLaws lib) (digests : AttestationLib)
    (policy : AttestationConfig) (requested_model_id client_nonce : Text)
    (upstream : Result digests.SerdeError VeniceAttestationResponse) (now : ℕ)
    (attestation : VerifiedAttestation)
    → verify_attestation_evidence lib digests policy requested_model_id client_nonce upstream now
      ≡ ok attestation
    → (point : lib.PublicKey) × (decode_uncompressed_public_key_hex lib attestation.model_public_key
        ≡ ok point)
unfolding Bound
verify_attestation_evidence-decode lib laws digests policy requested_model_id client_nonce upstream
      now attestation h =
    let (response, e, accepted) =
      verify_attestation_evidence-Accepted lib digests policy requested_model_id client_nonce
        upstream now attestation h in
    let (point, derived, key, rest, address) =
      Accepted-Bound lib digests policy requested_model_id client_nonce response attestation
        accepted in
    (
      point,
      subst (λ k. decode_uncompressed_public_key_hex lib k ≡ ok point) (sym key)
          (decode-point lib laws point),
    )
