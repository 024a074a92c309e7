-- ===== src/E2ee/Authentic.antt =====
-- What the codec hands out: only text that was authenticated.
use venice_e2ee_proxy.Base.{
  ℕ, ◌≡◌, sym, ap, subst, ◌∙◌, false, not, Option, none, some, ok, List, map, length, take, drop,
  ok_of_bind, ok-injective, ok_or, ok_or-ok, ok_of_ensure, map_err, map_err-ok, ltb, Bool-cases,
  inl, arith, inr,
}
use venice_e2ee_proxy.Text.{Text, lower}
use venice_e2ee_proxy.Text.Utf8.{from_utf8}
use venice_e2ee_proxy.E2ee.{
  CryptoLib, E2eeCodec, PackedEncryptedPayload, derive_content_key_from_public_key, unpack,
  decrypt_content, decrypt_response_content, from_hex, malformed_encrypted_payload, not_hex,
  authentication_failed, invalid_plaintext_utf8, is_uncompressed,
}
use venice_e2ee_proxy.E2ee.Payload.{IsPackedHex, from_hex_iff}

module _ (lib : CryptoLib) (codec : E2eeCodec) (recipient : lib.SecretKey) where
  -- The text is the authenticated plaintext of the packed bytes that the content spells.
  unfoldable pub Decrypted : Text → Text → Type 0
  Decrypted content plaintext =
      (bytes message : List ℕ) × (key : lib.PublicKey) × (lib.hex_decode (map lower content)
        ≡ ok bytes)
      × (lib.from_sec1_bytes (take 65 bytes) ≡ some key)
      × (lib.decrypt (derive_content_key_from_public_key lib codec recipient key)
            (take 12 (drop 65 bytes)) (drop 77 bytes)
          ≡ some message)
      × (from_utf8 message ≡ some plaintext)

  -- No content, which the codec does not demand, or the plaintext of well-formed content.
  unfoldable pub Authentic : Option Text → Option Text → Type 0
  Authentic none none = codec.require_encrypted_response_content ≡ false
  Authentic none (some plaintext) = ⊥
  Authentic (some content) none = ⊥
  Authentic (some content) (some plaintext) = IsPackedHex content × Decrypted content plaintext

  unpack_lem :
      (hex : Text) (packed : PackedEncryptedPayload lib)
      → unpack lib (record { as_hex = hex }) ≡ ok packed
      → (bytes : List ℕ) × (lib.hex_decode hex ≡ ok bytes)
        × (lib.from_sec1_bytes (take 65 bytes) ≡ some packed.ephemeral_public_key)
        × (packed.nonce ≡ take 12 (drop 65 bytes))
        × (packed.ciphertext_and_tag ≡ drop 77 bytes)
  unfolding unpack
  unpack_lem hex packed h =
      let (bytes, e, h1) =
        ok_of_bind (map_err (λ e. malformed_encrypted_payload (not_hex e)) (lib.hex_decode hex)) _
          h in
      let (enough, h2) = ok_of_ensure (not (ltb (length bytes) 93)) _ _ h1 in
      let (tag, h3) = ok_of_ensure (is_uncompressed bytes) _ _ h2 in
      let (key, e4, h4) = ok_of_bind (ok_or (lib.from_sec1_bytes (take 65 bytes)) _) _ h3 in
      let same = sym (ok-injective h4) in
      (
        bytes,
        map_err-ok _ (lib.hex_decode hex) e,
        ok_or-ok _ _ e4
            ∙ ap (λ (p : PackedEncryptedPayload lib). some p.ephemeral_public_key) (sym same),
        ap (λ (p : PackedEncryptedPayload lib). p.nonce) same,
        ap (λ (p : PackedEncryptedPayload lib). p.ciphertext_and_tag) same,
      )

  decrypted :
      (content plaintext : Text)
      → decrypt_content lib codec (record { as_hex = map lower content }) recipient ≡ ok plaintext
      → Decrypted content plaintext
  unfolding decrypt_content Decrypted
  decrypted content plaintext h =
      let (packed, e1, h1) = ok_of_bind (unpack lib (record { as_hex = map lower content })) _ h in
      let (message, e2, h2) = ok_of_bind (ok_or _ authentication_failed) _ h1 in
      let (bytes, hex, key, nonce, sealed) = unpack_lem (map lower content) packed e1 in
      let at = derive_content_key_from_public_key lib codec recipient packed.ephemeral_public_key in
      (
        bytes,
        message,
        packed.ephemeral_public_key,
        hex,
        key,
        subst (λ (p : List ℕ × List ℕ). lib.decrypt at p.0 p.1 ≡ some message)
            (λ i. (nonce i, sealed i)) (ok_or-ok _ authentication_failed e2),
        ok_or-ok (from_utf8 message) invalid_plaintext_utf8 h2,
      )

  -- A successful decryption hands out the authenticated plaintext of a well-formed payload, or
  -- nothing where there is no content and the codec does not demand it.
  pub decrypt_response_content-Authentic :
      (content result : Option Text)
      → decrypt_response_content lib codec content recipient ≡ ok result
      → Authentic content result
  unfolding decrypt_response_content Authentic
  decrypt_response_content-Authentic none none h =
      elim (Bool-cases codec.require_encrypted_response_content) [
        | inl demand ↦ ground (arith, h, demand)
        | inr free ↦ free
      ]
  decrypt_response_content-Authentic none (some plaintext) h = ground (arith, h)
  decrypt_response_content-Authentic (some content) none h =
      let (payload, e, h1) = ok_of_bind (from_hex lib content) _ h in
      let (plaintext, e2, h2) = ok_of_bind (decrypt_content lib codec payload recipient) _ h1 in
      absurd (ground (arith, h2))
  decrypt_response_content-Authentic (some content) (some plaintext) h =
      let (payload, e, h1) = ok_of_bind (from_hex lib content) _ h in
      let (text, e2, h2) = ok_of_bind (decrypt_content lib codec payload recipient) _ h1 in
      let (valid, lowered) = (from_hex_iff lib content payload).0 e in
      let clear = subst (λ p. decrypt_content lib codec p recipient ≡ ok text) lowered e2 in
      (valid, subst (Decrypted content) (ground (arith, h2)) (decrypted content text clear))
