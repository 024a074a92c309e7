-- ===== src/Attestation/Tests.antt =====
-- An attestation and its theorems on concrete evidence.
use venice_e2ee_proxy.Base.{
  ℕ, zero, suc, ◌%◌, ◌^◌, ◌≤◌, ◌<◌, ◌≡◌, refl, Bool, true, false, none, some, ok, List, ◌∷◌, All,
  length, drop, ◌==◌, arith,
}
use venice_e2ee_proxy.Text.{Text, text, text_eq, is_whitespace, is_hexdigit, len_utf8}
use venice_e2ee_proxy.Text.Trim.{trim, trim_start}
use venice_e2ee_proxy.Text.Bytes.{byte_len}
use venice_e2ee_proxy.Text.Utf8.{IsByte}
use venice_e2ee_proxy.E2ee.{CryptoLib, decode_uncompressed_public_key_hex}
use venice_e2ee_proxy.E2ee.Sample.{
  crates, crates_laws, digit, hex_decode, hex_encode, hex_value, repeat, to_point,
}
use venice_e2ee_proxy.Attestation.{
  VeniceAttestationResponse, VerifiedAttestation, default_policy, non_blank, non_empty,
  nvidia_not_present, nvidia_payload, status_not_present, tdx_not_present,
}
use venice_e2ee_proxy.Attestation.Keys.{
  AttestationLib, ParsedTdxQuote, all_hex, decode_tdx_quote,
  ethereum_address_from_uncompressed_key_hex, from_le_bytes, normalize_public_key_hex,
  parse_tdx_quote, strip_0x, validate_nonce_hex, with_tag,
}
use venice_e2ee_proxy.Attestation.Evidence.{
  attested_key, by_policy, by_requirement, check_answer, evaluate_nvidia_policy,
  evaluate_tdx_policy, optional_address, required_string, verify_attestation_evidence,
}
use venice_e2ee_proxy.Attestation.Checks.{Accepted}
use venice_e2ee_proxy.Attestation.Codec.{verify_attestation_evidence-decode}
use venice_e2ee_proxy.Attestation.Quote.{parse_tdx_quote-ok}

-- Hashes that forget what they hash.
abbrev pub digests : AttestationLib
digests = record {
  sha256 = λ bytes. repeat 32 1;
  keccak256 = λ bytes. repeat 32 2;
  FetchError = Unit {0};
  SerdeError = Unit {0};
}

abbrev nonce : Text
nonce = repeat 64 b'a'

abbrev key : Text
key = hex_encode (to_point true)

abbrev response : VeniceAttestationResponse
response = record {
  fields = record {
    verified = some true;
    nonce = some nonce;
    model = some (text "glm");
    tee_provider = none;
    signing_public_key = some key;
    signing_address = none;
    debug = some false;
    nvidia_payload = none;
  };
  quote = none;
  quote_report_data = none;
}

abbrev attestation : VerifiedAttestation
attestation = record {
  model_id = text "glm";
  model_public_key = key;
  signing_address = none;
  tee_provider = none;
  debug = some false;
  tdx = record { present = false; verified = false; debug = none; tee_type = none };
  nvidia = record { present = false; verified = status_not_present };
  verified_at = 5;
}

verified :
    verify_attestation_evidence crates digests default_policy (text "glm") nonce (ok response) 5
    ≡ ok attestation
unfolding verify_attestation_evidence validate_nonce_hex all_hex is_hexdigit byte_len len_utf8
    check_answer required_string text_eq trim trim_start is_whitespace attested_key non_empty
    non_blank normalize_public_key_hex strip_0x with_tag hex_encode hex_decode hex_value digit
    ethereum_address_from_uncompressed_key_hex optional_address by_policy default_policy
    evaluate_tdx_policy tdx_not_present evaluate_nvidia_policy by_requirement nvidia_payload
    nvidia_not_present
verified = refl

verify_attestation_evidence-decode_example :
    (point : Bool) × (decode_uncompressed_public_key_hex crates key ≡ ok point)
verify_attestation_evidence-decode_example =
    verify_attestation_evidence-decode crates crates_laws digests default_policy (text "glm") nonce
      (ok response) 5 attestation verified

-- A hex decoder that yields one quote.
abbrev bytes : List ℕ
bytes = repeat 632 1

abbrev quote_crates : CryptoLib
quote_crates = record crates { hex_decode = λ s. ok bytes }

abbrev parsed : ParsedTdxQuote
parsed = record { tee_type = 0x0101_0101; debug = true }

quote_parsed : parse_tdx_quote quote_crates digests (text "00") ≡ ok parsed
unfolding parse_tdx_quote decode_tdx_quote from_le_bytes
quote_parsed = refl

repeat-IsByte : (n : ℕ) → All IsByte (repeat n 1)
repeat-IsByte zero = tt
repeat-IsByte (suc n) = (omega arith, repeat-IsByte n)

parse_tdx_quote-ok_example :
    (632 ≤ length bytes)
    × (0x0101_0101 < 2 ^ 32)
    × ((attributes : ℕ) × (rest : List ℕ) × (drop 168 bytes ≡ attributes ∷ rest)
        × (true ≡ (attributes % 2 == 1)))
parse_tdx_quote-ok_example =
    parse_tdx_quote-ok quote_crates digests (text "00") bytes parsed refl (repeat-IsByte 632)
      quote_parsed
