-- ===== src/E2ee/RoundTrip.antt =====
-- A field that is encrypted to a key is decrypted by it.
use venice_e2ee_proxy.Base.{
  ℕ, ◌+◌, ◌*◌, ◌≡◌, refl, sym, ap, subst, ◌∙◌, true, some, ok, List, length, ◌>>=◌, All, arith,
  ok_of_bind, ok-injective, ok_or, ok_or-ok,
}
use venice_e2ee_proxy.Text.{Text}
use venice_e2ee_proxy.Text.Bytes.{byte_len}
use venice_e2ee_proxy.Text.Utf8.{IsByte, IsScalar, as_bytes}
use venice_e2ee_proxy.Text.Utf8.RoundTrip.{from_utf8-as_bytes, length-as_bytes, as_bytes-IsByte}
use venice_e2ee_proxy.E2ee.{
  CryptoLib, E2eeCodec, EncryptedPayload, derive_content_key_from_public_key,
  encrypt_content_with_parts, encrypt_content, decode_uncompressed_public_key_hex, decrypt_content,
  decrypt_response_content, encryption_failed, is_uncompressed,
}
use venice_e2ee_proxy.E2ee.Crypto.{CryptoLaws}
use venice_e2ee_proxy.E2ee.Keys.{public_key_hex}
use venice_e2ee_proxy.E2ee.Packed.{
  payload_of, packed_bytes, packed-length, packed-IsByte, from_hex-hex_encode, unpack-hex_encode,
}

module _ (lib : CryptoLib) (laws : CryptoLaws lib) where
  tagged : (key : lib.PublicKey) → is_uncompressed (lib.to_encoded_point key) ≡ true
  tagged key =
      let (more, e) = laws.point_tag key in
      subst (λ point. is_uncompressed point ≡ true) (sym e) refl

  -- The uncompressed form of a key, in hex, is read as the key.
  pub decode-point :
      (key : lib.PublicKey)
      → decode_uncompressed_public_key_hex lib (lib.hex_encode (lib.to_encoded_point key)) ≡ ok key
  unfolding decode_uncompressed_public_key_hex
  decode-point key = rw (
    laws.hex_decode-hex_encode (lib.to_encoded_point key) (laws.point-IsByte key),
    laws.point-length key,
    tagged key,
    laws.from_sec1_bytes-point key,
  )

  -- The announced key of an instance is the key that a peer reads.
  pub decode-public_key_hex :
      (secret : lib.SecretKey)
      → decode_uncompressed_public_key_hex lib (public_key_hex lib secret)
        ≡ ok (lib.public_key secret)
  unfolding public_key_hex
  decode-public_key_hex secret = decode-point (lib.public_key secret)

  -- What an encryption that succeeds has made.
  sealed_by :
      (codec : E2eeCodec) (plaintext : Text) (recipient ephemeral : lib.SecretKey) (nonce : List ℕ)
      (payload : EncryptedPayload)
      → encrypt_content lib codec plaintext (public_key_hex lib recipient) ephemeral nonce
        ≡ ok payload
      → (sealed : List ℕ) × (lib.encrypt
            (derive_content_key_from_public_key lib codec ephemeral (lib.public_key recipient))
            nonce
            (as_bytes plaintext)
          ≡ some sealed)
        × (payload ≡ payload_of (lib.hex_encode (packed_bytes lib laws ephemeral nonce sealed)))
  unfolding encrypt_content encrypt_content_with_parts
  sealed_by codec plaintext recipient ephemeral nonce payload h =
      let h' =
        subst
          (λ r.
            (r >>= λ peer. encrypt_content_with_parts lib codec plaintext peer ephemeral nonce)
            ≡ ok payload)
          (decode-public_key_hex recipient) h in
      let (sealed, e, kept) = ok_of_bind (ok_or _ encryption_failed) _ h' in
      (sealed, ok_or-ok _ encryption_failed e, sym (ok-injective kept))

  -- Where AES-GCM encrypts the bytes of a text, the codec encrypts the text.
  pub encrypt_content-ok :
      (codec : E2eeCodec) (plaintext : Text) (recipient ephemeral : lib.SecretKey)
      (nonce sealed : List ℕ)
      → lib.encrypt
          (derive_content_key_from_public_key lib codec ephemeral (lib.public_key recipient))
          nonce
          (as_bytes plaintext)
        ≡ some sealed
      → encrypt_content lib codec plaintext (public_key_hex lib recipient) ephemeral nonce
        ≡ ok (payload_of (lib.hex_encode (packed_bytes lib laws ephemeral nonce sealed)))
  unfolding encrypt_content encrypt_content_with_parts
  encrypt_content-ok codec plaintext recipient ephemeral nonce sealed h =
      rw (decode-public_key_hex recipient, h)

  same_key :
      (codec : E2eeCodec) (mine yours : lib.SecretKey)
      → derive_content_key_from_public_key lib codec mine (lib.public_key yours)
        ≡ derive_content_key_from_public_key lib codec yours (lib.public_key mine)
  unfolding derive_content_key_from_public_key
  same_key codec mine yours = ap (λ z. lib.expand z codec.hkdf_info) (laws.agreement mine yours)

  module _ (codec : E2eeCodec) (plaintext : Text) (recipient ephemeral : lib.SecretKey)
      (nonce : List ℕ) (payload : EncryptedPayload) (scalars : All IsScalar plaintext)
      (long_nonce : length nonce ≡ 12) (bytes : All IsByte nonce)
      (encrypted : encrypt_content lib codec plaintext
          (public_key_hex lib recipient)
          ephemeral
          nonce
        ≡ ok payload) where
    -- The packed bytes of the payload, all below 256 and with those of the plaintext behind the 93
    -- of the key, the nonce and the tag.
    made :
        (sealed : List ℕ) × (lib.encrypt
            (derive_content_key_from_public_key lib codec ephemeral (lib.public_key recipient))
            nonce
            (as_bytes plaintext)
          ≡ some sealed)
        × (payload ≡ payload_of (lib.hex_encode (packed_bytes lib laws ephemeral nonce sealed)))
        × All IsByte sealed
        × All IsByte (packed_bytes lib laws ephemeral nonce sealed)
        × (length (packed_bytes lib laws ephemeral nonce sealed) ≡ 93 + byte_len plaintext)
        × (length sealed ≡ byte_len plaintext + 16)
    made =
        let (sealed, e, kept) =
          sealed_by codec plaintext recipient ephemeral nonce payload encrypted in
        let grown = laws.encrypt-length _ nonce (as_bytes plaintext) sealed e in
        let small =
          laws.encrypt-IsByte _ nonce (as_bytes plaintext) sealed
            (as_bytes-IsByte plaintext scalars) e in
        (
          sealed,
          e,
          kept,
          small,
          packed-IsByte lib laws ephemeral nonce sealed bytes small,
          omega (
            arith,
            grown,
            packed-length lib laws ephemeral nonce sealed long_nonce,
            length-as_bytes plaintext,
          ),
          omega (arith, grown, length-as_bytes plaintext),
        )

    -- The payload of a text of scalar values has two hex digits for each of 93 bytes and of those of
    -- the text, where the encryption succeeds with a nonce of 12 bytes.
    pub encrypt_content-length : length payload.as_hex ≡ 2 * (93 + byte_len plaintext)
    encrypt_content-length =
        let (sealed, e, kept, small, all_small, long, grown) = made in
        ap (λ (p : EncryptedPayload). length p.as_hex) kept
        ∙ laws.hex_encode-length (packed_bytes lib laws ephemeral nonce sealed) all_small
        ∙ ap (λ n. 2 * n) long

    -- A text of scalar values that is encrypted to the announced key of an instance, where the
    -- encryption succeeds with a nonce of 12 bytes, is what the instance decrypts.
    pub decrypt_response_content-encrypt_content :
        decrypt_response_content lib codec (some payload.as_hex) recipient ≡ ok (some plaintext)
    unfolding decrypt_response_content decrypt_content
    decrypt_response_content-encrypt_content =
        let (sealed, e, kept, small, all_small, long, grown) = made in
        let packed = packed_bytes lib laws ephemeral nonce sealed in
        rw (
          kept,
          from_hex-hex_encode lib laws packed all_small (omega (arith, long)),
          unpack-hex_encode lib laws ephemeral nonce sealed long_nonce bytes small
              (omega (arith, grown)),
          same_key codec recipient ephemeral,
          laws.decrypt-encrypt _ nonce (as_bytes plaintext) sealed e,
          from_utf8-as_bytes plaintext scalars,
        )
