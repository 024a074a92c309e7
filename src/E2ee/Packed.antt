-- ===== src/E2ee/Packed.antt =====
-- The hex form of a packed payload is accepted, and taken apart into what was packed.
use venice_e2ee_proxy.Base.{
  ℕ, ◌+◌, ◌≤◌, ◌≡◌, refl, sym, ap, subst, ◌∙◌, true, false, some, ok, List, [], ◌∷◌, ◌++◌, map,
  length, take, drop, All, All-append, take_part, drop_part, length-append, append_assoc, arith,
  ltb,
}
use venice_e2ee_proxy.Text.{Text, lower}
use venice_e2ee_proxy.Text.Utf8.{IsByte}
use venice_e2ee_proxy.E2ee.{CryptoLib, EncryptedPayload, unpack, from_hex, is_uncompressed}
use venice_e2ee_proxy.E2ee.Crypto.{CryptoLaws, IsLowerHex}
use venice_e2ee_proxy.E2ee.Payload.{IsPackedHex, IsHex, from_hex_iff}

pub IsLowerHex-IsHex : (s : Text) → All IsLowerHex s → All IsHex s
IsLowerHex-IsHex [] h = tt
IsLowerHex-IsHex (c ∷ s) ((digit, low), hs) = (digit, IsLowerHex-IsHex s hs)

pub IsLowerHex-lower : (s : Text) → All IsLowerHex s → map lower s ≡ s
IsLowerHex-lower [] h = refl
IsLowerHex-lower (c ∷ s) ((digit, low), hs) = ground (arith, low, IsLowerHex-lower s hs)

abbrev pub payload_of : Text → EncryptedPayload
payload_of hex = record { as_hex = hex }

module _ (lib : CryptoLib) (laws : CryptoLaws lib) where
  -- The bytes of a payload.
  abbrev pub packed_bytes : lib.SecretKey → List ℕ → List ℕ → List ℕ
  packed_bytes ephemeral nonce sealed =
      lib.to_encoded_point (lib.public_key ephemeral) ++ (nonce ++ sealed)

  pub packed-length :
      (ephemeral : lib.SecretKey) (nonce sealed : List ℕ)
      → length nonce ≡ 12
      → length (packed_bytes ephemeral nonce sealed) ≡ 77 + length sealed
  packed-length ephemeral nonce sealed h = omega (
    arith,
    h,
    laws.point-length (lib.public_key ephemeral),
    length-append (lib.to_encoded_point (lib.public_key ephemeral)) (nonce ++ sealed),
    length-append nonce sealed,
  )

  -- What `hex::encode` writes of 93 bytes or more is a payload as it stands.
  pub from_hex-hex_encode :
      (bytes : List ℕ)
      → All IsByte bytes
      → 93 ≤ length bytes
      → from_hex lib (lib.hex_encode bytes) ≡ ok (record { as_hex = lib.hex_encode bytes })
  unfolding IsPackedHex
  from_hex-hex_encode bytes small enough =
      let low = laws.hex_encode-IsLowerHex bytes small in
      (from_hex_iff lib (lib.hex_encode bytes) _).1 (
        (
          length bytes,
          laws.hex_encode-length bytes small,
          enough,
          IsLowerHex-IsHex (lib.hex_encode bytes) low,
        ),
        ap payload_of (sym (IsLowerHex-lower (lib.hex_encode bytes) low)),
      )

  -- The three parts of a packed payload.
  unfoldable Parts : lib.SecretKey → List ℕ → List ℕ → List ℕ → Type 0
  Parts ephemeral nonce sealed bytes =
      (take 65 bytes ≡ lib.to_encoded_point (lib.public_key ephemeral))
      × (take 12 (drop 65 bytes) ≡ nonce)
      × (drop 77 bytes ≡ sealed)

  packed-Parts :
      (ephemeral : lib.SecretKey) (nonce sealed : List ℕ)
      → length nonce ≡ 12
      → Parts ephemeral nonce sealed (packed_bytes ephemeral nonce sealed)
  unfolding Parts
  packed-Parts ephemeral nonce sealed h =
      let point = lib.to_encoded_point (lib.public_key ephemeral) in
      let long = laws.point-length (lib.public_key ephemeral) in
      (
        take_part 65 point (nonce ++ sealed) long,
        ap (take 12) (drop_part 65 point (nonce ++ sealed) long) ∙ take_part 12 nonce sealed h,
        ap (drop 77) (sym (append_assoc point nonce sealed))
            ∙ drop_part 77 (point ++ nonce) sealed
                (omega (arith, length-append point nonce, long, h)),
      )

  pub packed-IsByte :
      (ephemeral : lib.SecretKey) (nonce sealed : List ℕ)
      → All IsByte nonce
      → All IsByte sealed
      → All IsByte (packed_bytes ephemeral nonce sealed)
  packed-IsByte ephemeral nonce sealed h k =
      All-append IsByte _ _ (laws.point-IsByte (lib.public_key ephemeral))
        (All-append IsByte nonce sealed h k)

  starts_with_tag :
      (key : lib.PublicKey) (rest : List ℕ)
      → is_uncompressed (lib.to_encoded_point key ++ rest) ≡ true
  starts_with_tag key rest =
      let (more, e) = laws.point_tag key in
      subst (λ point. is_uncompressed (point ++ rest) ≡ true) (sym e) refl

  long : (bytes : List ℕ) → 93 ≤ length bytes → ltb (length bytes) 93 ≡ false
  long bytes h = ground arith

  unpacked :
      (hex : Text) (bytes : List ℕ) (key : lib.PublicKey)
      → lib.hex_decode hex ≡ ok bytes
      → 93 ≤ length bytes
      → is_uncompressed bytes ≡ true
      → lib.from_sec1_bytes (take 65 bytes) ≡ some key
      → unpack lib (payload_of hex)
        ≡ ok (record {
          ephemeral_public_key = key;
          nonce = take 12 (drop 65 bytes);
          ciphertext_and_tag = drop 77 bytes;
        })
  unfolding unpack
  unpacked hex bytes key decoded enough tag read = rw (decoded, long bytes enough, tag, read)

  pub unpack-hex_encode :
      (ephemeral : lib.SecretKey) (nonce sealed : List ℕ)
      → length nonce ≡ 12
      → All IsByte nonce
      → All IsByte sealed
      → 16 ≤ length sealed
      → unpack lib (payload_of (lib.hex_encode (packed_bytes ephemeral nonce sealed)))
        ≡ ok (record {
          ephemeral_public_key = lib.public_key ephemeral;
          nonce = nonce;
          ciphertext_and_tag = sealed;
        })
  unfolding Parts
  unpack-hex_encode ephemeral nonce sealed h bytes more enough =
      let packed = packed_bytes ephemeral nonce sealed in
      let (front, middle, back) = packed-Parts ephemeral nonce sealed h in
      unpacked (lib.hex_encode packed) packed (lib.public_key ephemeral)
        (laws.hex_decode-hex_encode packed (packed-IsByte ephemeral nonce sealed bytes more))
        (omega (arith, packed-length ephemeral nonce sealed h, enough))
        (starts_with_tag (lib.public_key ephemeral) (nonce ++ sealed))
        (ap lib.from_sec1_bytes front ∙ laws.from_sec1_bytes-point (lib.public_key ephemeral))
      ∙ ap
          (λ (parts : List ℕ × List ℕ). ok (record {
            ephemeral_public_key = lib.public_key ephemeral;
            nonce = parts.0;
            ciphertext_and_tag = parts.1;
          }))
          (λ i. (middle i, back i))
