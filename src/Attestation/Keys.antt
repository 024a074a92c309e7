-- ===== src/Attestation/Keys.antt =====
-- src/attestation.rs: the signing key, its address, the nonce and the quote.
use venice_e2ee_proxy.Base.{
  ℕ, ◌+◌, ◌*◌, ◌%◌, Bool, true, not, ◌||◌, ◌&&◌, Option, none, some, Result, ok, err, ◌>>=◌, ◌>>◌,
  ensure, ok_or, map_err, List, [], ◌∷◌, ◌++◌, map, length, take, drop, ltb, ◌==◌, if◌then◌else◌,
}
use venice_e2ee_proxy.Text.{Text, text, lower, is_hexdigit}
use venice_e2ee_proxy.Text.Trim.{trim}
use venice_e2ee_proxy.Text.Bytes.{byte_len}
use venice_e2ee_proxy.Text.Utf8.{as_bytes}
use venice_e2ee_proxy.Text.Search.{starts_with}
use venice_e2ee_proxy.E2ee.{CryptoLib, is_uncompressed}
use venice_e2ee_proxy.Attestation.{
  AttestationError, policy_violation, nonce_length, nonce_not_hex, invalid_signing_key,
  signing_address_mismatch, invalid_tdx_evidence,
}

-- The hashes, the errors of the HTTP client and of serde.
pub record AttestationLib : Type 1 where
  pub sha256 : List ℕ → List ℕ
  pub keccak256 : List ℕ → List ℕ
  pub FetchError : Type 0
  pub SerdeError : Type 0

-- `strip_prefix("0x")`, then `unwrap_or` the text.
unfoldable pub strip_0x : Text → Text
strip_0x value = if starts_with (text "0x") value then drop 2 value else value

unfoldable pub all_hex : Text → Bool
all_hex [] = true
all_hex (c ∷ s) = is_hexdigit c && all_hex s

-- `from_le_bytes`.
unfoldable pub from_le_bytes : List ℕ → ℕ
from_le_bytes [] = 0
from_le_bytes (b ∷ bytes) = b + 256 * from_le_bytes bytes

abbrev pub tdx_tee_type : ℕ
tdx_tee_type = 0x81

abbrev pub tdx_report_data_len : ℕ
tdx_report_data_len = 64

abbrev pub tdx_report_body_offset : ℕ
tdx_report_body_offset = 48

abbrev pub tdx_report_td_attributes_offset : ℕ
tdx_report_td_attributes_offset = tdx_report_body_offset + 120

abbrev pub tdx_report_data_end : ℕ
tdx_report_data_end = tdx_report_body_offset + 520 + tdx_report_data_len

pub record ParsedTdxQuote : Type 0 where
  pub tee_type : ℕ
  pub debug : Bool

module _ (lib : CryptoLib) (digests : AttestationLib) where
  abbrev pub Failure : Type 0
  Failure = AttestationError digests.FetchError digests.SerdeError

  -- The 64 bytes of x and y alone get the tag of an uncompressed point.
  unfoldable pub with_tag : List ℕ → List ℕ
  with_tag bytes = if length bytes == 64 then 4 ∷ bytes else bytes

  unfoldable pub normalize_public_key_hex : Text → Result Failure Text
  normalize_public_key_hex value = do
    decoded ←
        map_err (λ e. policy_violation invalid_signing_key) (lib.hex_decode (strip_0x (trim value)))
    let bytes = with_tag decoded
    ensure (length bytes == 33 || length bytes == 65) (policy_violation invalid_signing_key)
    key ← ok_or (lib.from_sec1_bytes bytes) (policy_violation invalid_signing_key)
    ok (lib.hex_encode (lib.to_encoded_point key))

  unfoldable pub ethereum_address_from_uncompressed_key_hex : Text → Result Failure Text
  ethereum_address_from_uncompressed_key_hex value = do
    bytes ← map_err (λ e. policy_violation invalid_signing_key) (lib.hex_decode value)
    ensure (length bytes == 65 && is_uncompressed bytes) (policy_violation invalid_signing_key)
    let hash = digests.keccak256 (drop 1 bytes)
    ok (text "0x" ++ lib.hex_encode (drop 12 hash))

  unfoldable pub normalize_ethereum_address : Text → Result Failure Text
  normalize_ethereum_address value = do
    let stripped = strip_0x (trim value)
    ensure (byte_len stripped == 40 && all_hex stripped) (policy_violation signing_address_mismatch)
    ok (text "0x" ++ map lower stripped)

  unfoldable pub validate_nonce_hex : Text → Result Failure (Unit {0})
  validate_nonce_hex value = do
    ensure (byte_len value == 64) nonce_length
    ensure (all_hex value) nonce_not_hex

  unfoldable pub decode_tdx_quote : Text → Result Failure (List ℕ)
  decode_tdx_quote value =
      map_err (λ e. policy_violation invalid_tdx_evidence) (lib.hex_decode (strip_0x (trim value)))

  unfoldable pub parse_tdx_quote : Text → Result Failure ParsedTdxQuote
  parse_tdx_quote value = do
    bytes ← decode_tdx_quote value
    ensure (not (ltb (length bytes) tdx_report_data_end)) (policy_violation invalid_tdx_evidence)
    let td_attributes = from_le_bytes (take 8 (drop tdx_report_td_attributes_offset bytes))
    ok (record { tee_type = from_le_bytes (take 4 (drop 4 bytes)); debug = td_attributes % 2 == 1 })

  -- The signing address's forms that the report data may start with.
  unfoldable pub binds_address : List ℕ → Text → Result Failure (Unit {0})
  binds_address reportdata address =
      if starts_with (digests.sha256 (as_bytes address)) reportdata
      then ok tt
      else map_err (λ e. policy_violation signing_address_mismatch)
          (lib.hex_decode (strip_0x address))
        >>= λ bytes.
            if length bytes == 20 && starts_with bytes reportdata
            then ok tt
            else err (policy_violation invalid_tdx_evidence)

  unfoldable pub binds : List ℕ → List ℕ → Option Text → Result Failure (Unit {0})
  binds reportdata key address =
      if starts_with (digests.sha256 key) reportdata then ok tt else elim address [
        | none ↦ err (policy_violation invalid_tdx_evidence)
        | some a ↦ binds_address reportdata a
      ]

  unfoldable pub verify_reportdata_binding : Text → Text → Option Text → Result Failure (Unit {0})
  verify_reportdata_binding reportdata_hex signing_key signing_address = do
    reportdata ←
        map_err (λ e. policy_violation invalid_tdx_evidence) (lib.hex_decode reportdata_hex)
    ensure (length reportdata == tdx_report_data_len) (policy_violation invalid_tdx_evidence)
    key ← map_err (λ e. policy_violation invalid_signing_key) (lib.hex_decode signing_key)
    binds reportdata key signing_address
