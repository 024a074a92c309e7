-- ===== src/E2ee/Crypto.antt =====
-- What the codec relies on of the crates k256, aes-gcm and hex: their documented laws.
use venice_e2ee_proxy.Base.{ℕ, ◌+◌, ◌*◌, ◌≡◌, true, some, ok, List, ◌∷◌, length, All}
use venice_e2ee_proxy.Text.{lower, is_hexdigit}
use venice_e2ee_proxy.Text.Utf8.{IsByte}
use venice_e2ee_proxy.E2ee.{CryptoLib, ephemeral_public_key_len, aes_gcm_tag_len}

-- A digit that `hex::encode` writes.
abbrev pub IsLowerHex : ℕ → Type 0
IsLowerHex c = (is_hexdigit c ≡ true) × (lower c ≡ c)

pub record CryptoLaws (lib : CryptoLib) : Type 0 where
  -- hex: two lowercase digits for a byte, which are read back.
  pub hex_encode-length :
      (bytes : List ℕ) → All IsByte bytes → length (lib.hex_encode bytes) ≡ 2 * length bytes
  pub hex_encode-IsLowerHex :
      (bytes : List ℕ) → All IsByte bytes → All IsLowerHex (lib.hex_encode bytes)
  pub hex_decode-hex_encode :
      (bytes : List ℕ) → All IsByte bytes → lib.hex_decode (lib.hex_encode bytes) ≡ ok bytes
  -- k256: an uncompressed SEC1 point is the byte 4 and 64 bytes, and is read back; two sides agree
  -- on a secret.
  pub point-length :
      (key : lib.PublicKey) → length (lib.to_encoded_point key) ≡ ephemeral_public_key_len
  pub point-IsByte : (key : lib.PublicKey) → All IsByte (lib.to_encoded_point key)
  pub point_tag : (key : lib.PublicKey) → (rest : List ℕ) × (lib.to_encoded_point key ≡ 4 ∷ rest)
  pub from_sec1_bytes-point :
      (key : lib.PublicKey) → lib.from_sec1_bytes (lib.to_encoded_point key) ≡ some key
  pub agreement :
      (mine yours : lib.SecretKey)
      → lib.diffie_hellman mine (lib.public_key yours)
        ≡ lib.diffie_hellman yours (lib.public_key mine)
  -- aes-gcm: a message grows by the tag, and decrypts to itself under the same key and nonce.
  pub encrypt-length :
      (key nonce message sealed : List ℕ)
      → lib.encrypt key nonce message ≡ some sealed
      → length sealed ≡ length message + aes_gcm_tag_len
  pub encrypt-IsByte :
      (key nonce message sealed : List ℕ)
      → All IsByte message
      → lib.encrypt key nonce message ≡ some sealed
      → All IsByte sealed
  pub decrypt-encrypt :
      (key nonce message sealed : List ℕ)
      → lib.encrypt key nonce message ≡ some sealed
      → lib.decrypt key nonce sealed ≡ some message
