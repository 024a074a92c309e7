-- ===== src/E2ee/Tests.antt =====
-- The codec on a concrete key pair, and its theorems there.
use venice_e2ee_proxy.Base.{
  ◌≡◌, refl, ◌+◌, ◌*◌, true, none, some, ok, err, [], ◌∷◌, ◌++◌, map, length, All, arith, ◌↔◌,
}
use venice_e2ee_proxy.Text.{Text, lower, is_hexdigit, len_utf8, text_eq}
use venice_e2ee_proxy.Text.Bytes.{byte_len}
use venice_e2ee_proxy.Text.Utf8.{
  IsScalar, as_bytes, encode_utf8, from_utf8, decode, decode_byte, first_byte, next_byte,
}
use venice_e2ee_proxy.E2ee.{
  EncryptedPayload, new_codec, empty_hkdf_info, encrypt_content, encrypt_content_with_parts,
  decrypt_response_content, decrypt_content, from_hex, validate_packed_payload_hex, first_non_hex,
  unpack, decode_uncompressed_public_key_hex, missing_encrypted_content,
}
use venice_e2ee_proxy.E2ee.Keys.{public_key_hex}
use venice_e2ee_proxy.E2ee.Sample.{
  codec, nonce, nonce-IsByte, crates, crates_laws, hex_encode, hex_decode, hex_value, digit, unseal,
  tag, to_point,
}
use venice_e2ee_proxy.E2ee.Payload.{IsPackedHex, from_hex_iff}
use venice_e2ee_proxy.E2ee.RoundTrip.{
  encrypt_content-length, decrypt_response_content-encrypt_content,
}
use venice_e2ee_proxy.E2ee.Authentic.{Authentic, decrypt_response_content-Authentic}

-- Two characters, of one byte and of two.
abbrev pub message : Text
message = b'H' ∷ 233 ∷ []

abbrev pub payload : EncryptedPayload
payload = record { as_hex = hex_encode (to_point true ++ (nonce ++ (tag ++ as_bytes message))) }

pub scalars : All IsScalar message
scalars = ground arith

pub encrypted :
    encrypt_content crates codec message (public_key_hex crates true) true nonce ≡ ok payload
unfolding encrypt_content encrypt_content_with_parts public_key_hex
    decode_uncompressed_public_key_hex hex_encode hex_decode hex_value digit as_bytes encode_utf8
encrypted = refl

decrypt_response_content-encrypt_content_example :
    decrypt_response_content crates codec (some payload.as_hex) true ≡ ok (some message)
decrypt_response_content-encrypt_content_example =
    decrypt_response_content-encrypt_content crates crates_laws codec message true true nonce
      payload scalars refl nonce-IsByte encrypted

encrypt_content-length_example : length payload.as_hex ≡ 2 * (93 + byte_len message)
encrypt_content-length_example =
    encrypt_content-length crates crates_laws codec message true true nonce payload scalars refl
      nonce-IsByte encrypted

message_read : from_utf8 (as_bytes message) ≡ some message
unfolding from_utf8 as_bytes encode_utf8 decode decode_byte first_byte next_byte
message_read = refl

-- Overlong forms and surrogates are refused.
overlong : from_utf8 (0xc0 ∷ 0x80 ∷ []) ≡ none
unfolding from_utf8 decode decode_byte first_byte next_byte
overlong = refl

surrogate : from_utf8 (0xed ∷ 0xa0 ∷ 0x80 ∷ []) ≡ none
unfolding from_utf8 decode decode_byte first_byte next_byte
surrogate = refl

no_info : new_codec crates [] true ≡ err empty_hkdf_info
unfolding new_codec
no_info = refl

missing : decrypt_response_content crates codec none true ≡ err missing_encrypted_content
unfolding decrypt_response_content
missing = refl

decrypted : decrypt_response_content crates codec (some payload.as_hex) true ≡ ok (some message)
unfolding decrypt_response_content decrypt_content from_hex validate_packed_payload_hex
    first_non_hex is_hexdigit len_utf8 byte_len lower unpack hex_encode hex_decode hex_value digit
    unseal text_eq from_utf8 as_bytes encode_utf8 decode decode_byte first_byte next_byte
decrypted = refl

decrypt_response_content-Authentic_example :
    Authentic crates codec true (some payload.as_hex) (some message)
decrypt_response_content-Authentic_example =
    decrypt_response_content-Authentic crates codec true (some payload.as_hex) (some message)
      decrypted

from_hex_iff_example :
    (from_hex crates payload.as_hex ≡ ok payload)
    ↔ (IsPackedHex payload.as_hex × (payload ≡ record { as_hex = map lower payload.as_hex }))
from_hex_iff_example = from_hex_iff crates payload.as_hex payload
