-- ===== src/E2ee.antt =====
-- src/e2ee.rs: the codec of the encrypted fields. Bytes are numbers below 256; the crypto crates
-- and the hex crate are the parameter `CryptoLib`, with their documented laws in `E2ee/Crypto`; the
-- random key and nonce of an encryption are arguments.
pub mod Crypto
pub mod Payload
pub mod Keys
pub mod Packed
pub mod RoundTrip
pub mod Authentic
pub mod Completion
pub mod Sample
mod Tests
use venice_e2ee_proxy.Base.{
  ℕ, ◌+◌, ◌*◌, ◌%◌, Bool, false, not, Option, none, some, Result, ok, err, ◌>>=◌, ◌>>◌, ensure,
  ok_or, map_err, List, [], ◌∷◌, ◌++◌, map, length, take, drop, ltb, ◌==◌, if◌then◌else◌,
}
use venice_e2ee_proxy.Text.{Text, is_empty, lower, is_hexdigit, len_utf8}
use venice_e2ee_proxy.Text.Bytes.{byte_len}
use venice_e2ee_proxy.Text.Utf8.{as_bytes, from_utf8}

-- The operations of the crates k256, hkdf, aes-gcm and hex that the codec calls.
pub record CryptoLib : Type 1 where
  pub HexError : Type 0
  pub SecretKey : Type 0
  pub PublicKey : Type 0
  pub SharedSecret : Type 0
  pub hex_encode : List ℕ → Text
  pub hex_decode : Text → Result HexError (List ℕ)
  -- `SecretKey::public_key`, `to_encoded_point(false)` and `PublicKey::from_sec1_bytes`.
  pub public_key : SecretKey → PublicKey
  pub to_encoded_point : PublicKey → List ℕ
  pub from_sec1_bytes : List ℕ → Option PublicKey
  pub diffie_hellman : SecretKey → PublicKey → SharedSecret
  -- HKDF-SHA256 without salt: the 32 bytes for an info string.
  pub expand : SharedSecret → List ℕ → List ℕ
  -- AES-256-GCM, by key, nonce and message.
  pub encrypt : List ℕ → List ℕ → List ℕ → Option (List ℕ)
  pub decrypt : List ℕ → List ℕ → List ℕ → Option (List ℕ)

abbrev pub ephemeral_public_key_len : ℕ
ephemeral_public_key_len = 65

abbrev pub nonce_len : ℕ
nonce_len = 12

abbrev pub aes_gcm_tag_len : ℕ
aes_gcm_tag_len = 16

abbrev pub packed_prefix_len : ℕ
packed_prefix_len = ephemeral_public_key_len + nonce_len

abbrev pub min_packed_payload_len : ℕ
min_packed_payload_len = packed_prefix_len + aes_gcm_tag_len

-- The message of a malformed payload, or of an invalid public key.
pub data BadBytes (HexError : Type 0) : Type 0 where
  not_hex : HexError → BadBytes HexError
  too_short : ℕ → BadBytes HexError
  wrong_length : ℕ → BadBytes HexError
  not_uncompressed not_a_key empty_hex odd_length : BadBytes HexError
  hex_too_short : ℕ → BadBytes HexError
  non_hex_character : ℕ → ℕ → BadBytes HexError

pub data E2eeCodecError (HexError : Type 0) : Type 0 where
  empty_hkdf_info missing_encrypted_content authentication_failed : E2eeCodecError HexError
  malformed_encrypted_payload invalid_public_key : BadBytes HexError → E2eeCodecError HexError
  invalid_plaintext_utf8 encryption_failed : E2eeCodecError HexError

pub record E2eeCodec : Type 0 where
  pub hkdf_info : List ℕ
  pub require_encrypted_response_content : Bool

-- A packed payload in lowercase hex.
pub record EncryptedPayload : Type 0 where
  pub as_hex : Text

pub record E2eeConfig : Type 0 where
  pub hkdf_info : Text
  pub require_encrypted_response_content : Bool

-- The first character that is no hex digit, and the byte where it stands.
unfoldable pub first_non_hex : ℕ → Text → Option (ℕ × ℕ)
first_non_hex index [] = none
first_non_hex index (c ∷ s) =
    let rest = first_non_hex (index + len_utf8 c) s in
    if is_hexdigit c then rest else some (c, index)

abbrev pub is_uncompressed : List ℕ → Bool
is_uncompressed [] = false
is_uncompressed (b ∷ bytes) = b == 4

module _ (lib : CryptoLib) where
  abbrev CodecError : Type 0
  CodecError = E2eeCodecError lib.HexError

  -- `E2eeCodec::new`, on bytes.
  unfoldable pub new_codec : List ℕ → Bool → Result CodecError E2eeCodec
  new_codec [] required = err empty_hkdf_info
  new_codec (b ∷ info) required =
      ok (record { hkdf_info = b ∷ info; require_encrypted_response_content = required })

  unfoldable pub from_config : E2eeConfig → Result CodecError E2eeCodec
  from_config config =
      new_codec (as_bytes config.hkdf_info) config.require_encrypted_response_content

  unfoldable pub decode_uncompressed_public_key_hex : Text → Result CodecError lib.PublicKey
  decode_uncompressed_public_key_hex value = do
    bytes ← map_err (λ e. invalid_public_key (not_hex e)) (lib.hex_decode value)
    ensure (length bytes == ephemeral_public_key_len)
        (invalid_public_key (wrong_length (length bytes)))
    ensure (is_uncompressed bytes) (invalid_public_key not_uncompressed)
    ok_or (lib.from_sec1_bytes bytes) (invalid_public_key not_a_key)

  -- With `derive_aes_key`.
  unfoldable pub derive_content_key_from_public_key :
      E2eeCodec → lib.SecretKey → lib.PublicKey → List ℕ
  derive_content_key_from_public_key codec local peer =
      lib.expand (lib.diffie_hellman local peer) codec.hkdf_info

  unfoldable pub derive_content_key : E2eeCodec → lib.SecretKey → Text → Result CodecError (List ℕ)
  derive_content_key codec local peer_public_key_hex = do
    peer ← decode_uncompressed_public_key_hex peer_public_key_hex
    ok (derive_content_key_from_public_key codec local peer)

  unfoldable pub encrypt_content_with_parts :
      E2eeCodec → Text → lib.PublicKey → lib.SecretKey → List ℕ → Result CodecError EncryptedPayload
  encrypt_content_with_parts codec plaintext peer ephemeral nonce = do
    let key = derive_content_key_from_public_key codec ephemeral peer
    ciphertext_and_tag ← ok_or (lib.encrypt key nonce (as_bytes plaintext)) encryption_failed
    let packed = lib.to_encoded_point (lib.public_key ephemeral) ++ (nonce ++ ciphertext_and_tag)
    ok (record { as_hex = lib.hex_encode packed })

  unfoldable pub encrypt_content :
      E2eeCodec → Text → Text → lib.SecretKey → List ℕ → Result CodecError EncryptedPayload
  encrypt_content codec plaintext peer_public_key_hex ephemeral nonce = do
    peer ← decode_uncompressed_public_key_hex peer_public_key_hex
    encrypt_content_with_parts codec plaintext peer ephemeral nonce

  unfoldable pub validate_packed_payload_hex : Text → Result CodecError (Unit {0})
  validate_packed_payload_hex value =
      if is_empty value
      then err (malformed_encrypted_payload empty_hex)
      else if not (byte_len value % 2 == 0)
      then err (malformed_encrypted_payload odd_length)
      else if ltb (byte_len value) (min_packed_payload_len * 2)
      then err (malformed_encrypted_payload (hex_too_short (byte_len value)))
      else elim (first_non_hex 0 value) [
        | none ↦ ok tt
        | some (c, index) ↦ err (malformed_encrypted_payload (non_hex_character c index))
      ]

  unfoldable pub from_hex : Text → Result CodecError EncryptedPayload
  from_hex value = do
    done ← validate_packed_payload_hex value
    ok (record { as_hex = map lower value })

  pub record PackedEncryptedPayload : Type 0 where
    pub ephemeral_public_key : lib.PublicKey
    pub nonce : List ℕ
    pub ciphertext_and_tag : List ℕ

  unfoldable pub unpack : EncryptedPayload → Result CodecError PackedEncryptedPayload
  unpack payload = do
    bytes ← map_err (λ e. malformed_encrypted_payload (not_hex e)) (lib.hex_decode payload.as_hex)
    ensure (not (ltb (length bytes) min_packed_payload_len))
        (malformed_encrypted_payload (too_short (length bytes)))
    ensure (is_uncompressed bytes) (malformed_encrypted_payload not_uncompressed)
    key ←
        ok_or (lib.from_sec1_bytes (take ephemeral_public_key_len bytes))
          (malformed_encrypted_payload not_a_key)
    ok (record {
      ephemeral_public_key = key;
      nonce = take nonce_len (drop ephemeral_public_key_len bytes);
      ciphertext_and_tag = drop packed_prefix_len bytes;
    })

  unfoldable pub decrypt_content :
      E2eeCodec → EncryptedPayload → lib.SecretKey → Result CodecError Text
  decrypt_content codec payload recipient = do
    packed ← unpack payload
    let key = derive_content_key_from_public_key codec recipient packed.ephemeral_public_key
    plaintext ← ok_or (lib.decrypt key packed.nonce packed.ciphertext_and_tag) authentication_failed
    ok_or (from_utf8 plaintext) invalid_plaintext_utf8

  unfoldable pub decrypt_response_content :
      E2eeCodec → Option Text → lib.SecretKey → Result CodecError (Option Text)
  decrypt_response_content codec none recipient =
      if codec.require_encrypted_response_content then err missing_encrypted_content else ok none
  decrypt_response_content codec (some content) recipient = do
    payload ← from_hex content
    plaintext ← decrypt_content codec payload recipient
    ok (some plaintext)
