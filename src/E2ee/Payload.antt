-- ===== src/E2ee/Payload.antt =====
-- The payloads that `EncryptedPayload::from_hex` accepts.
use venice_e2ee_proxy.Base.{
  ok-injective, ℕ, ◌+◌, ◌*◌, ◌%◌, ◌≤◌, ◌≡◌, refl, sym, ◌↔◌, true, none, ok, [], ◌∷◌, map, length,
  All, inl, inr, Bool-cases, arith, ok_of_bind, ltb, ◌==◌, ◌/◌,
}
use venice_e2ee_proxy.Text.{Text, lower, is_hexdigit, len_utf8}
use venice_e2ee_proxy.Text.Bytes.{byte_len}
use venice_e2ee_proxy.E2ee.{
  CryptoLib, EncryptedPayload, first_non_hex, validate_packed_payload_hex, from_hex,
}

abbrev pub IsHex : ℕ → Type 0
IsHex c = is_hexdigit c ≡ true

-- The hex form of at least 93 bytes.
unfoldable pub IsPackedHex : Text → Type 0
IsPackedHex value = (n : ℕ) × (length value ≡ 2 * n) × (93 ≤ n) × All IsHex value

hexdigit-len_utf8 : (c : ℕ) → is_hexdigit c ≡ true → len_utf8 c ≡ 1
unfolding is_hexdigit len_utf8
hexdigit-len_utf8 c h = ground (arith, h)

pub hex-byte_len : (s : Text) → All IsHex s → byte_len s ≡ length s
unfolding byte_len
hex-byte_len [] h = refl
hex-byte_len (c ∷ s) (h, hs) = omega (arith, hexdigit-len_utf8 c h, hex-byte_len s hs)

first_non_hex-none : (index : ℕ) (s : Text) → All IsHex s → first_non_hex index s ≡ none
unfolding first_non_hex
first_non_hex-none index [] h = refl
first_non_hex-none index (c ∷ s) (h, hs) =
    ground (arith, h, first_non_hex-none (index + len_utf8 c) s hs)

none-IsHex : (index : ℕ) (s : Text) → first_non_hex index s ≡ none → All IsHex s
unfolding first_non_hex
none-IsHex index [] e = tt
none-IsHex index (c ∷ s) e = elim (Bool-cases (is_hexdigit c)) [
  | inl h ↦ (h, none-IsHex (index + len_utf8 c) s (ground (arith, h, e)))
  | inr h ↦ ground (arith, h, e)
]

module _ (lib : CryptoLib) where
  accepts : (value : Text) → IsPackedHex value → validate_packed_payload_hex lib value ≡ ok tt
  unfolding validate_packed_payload_hex IsPackedHex
  accepts [] (n, len, enough, digits) = ground arith
  accepts (c ∷ s) (n, len, enough, digits) =
      ground (arith, len, enough, hex-byte_len (c ∷ s) digits, first_non_hex-none 0 (c ∷ s) digits)

  accepted :
      (value : Text)
      → validate_packed_payload_hex lib value ≡ ok tt
      → (first_non_hex 0 value ≡ none) × (byte_len value % 2 ≡ 0) × (186 ≤ byte_len value)
  unfolding validate_packed_payload_hex
  accepted value e = elim (Bool-cases (byte_len value % 2 == 0)) [
    | inr odd ↦ ground (arith, odd, e)
    | inl even ↦ elim (Bool-cases (ltb (byte_len value) 186)) [
      | inl short ↦ ground (arith, even, short, e)
      | inr enough ↦ (ground (arith, even, enough, e), ground (arith, even), ground (arith, enough))
    ]
  ]

  packed : (value : Text) → validate_packed_payload_hex lib value ≡ ok tt → IsPackedHex value
  unfolding IsPackedHex
  packed value e =
      let (digits, even, enough) = accepted value e in
      let hex = none-IsHex 0 value digits in
      (byte_len value / 2, omega (arith, even, hex-byte_len value hex), omega (arith, enough), hex)

  -- `EncryptedPayload::from_hex` accepts exactly the hex form of 93 bytes or more, in either case of
  -- letters, and keeps it in lowercase.
  pub from_hex_iff :
      (value : Text) (payload : EncryptedPayload)
      → (from_hex lib value ≡ ok payload)
        ↔ (IsPackedHex value × (payload ≡ record { as_hex = map lower value }))
  unfolding from_hex
  from_hex_iff value payload = (
    (λ e.
        let (done, valid, kept) = ok_of_bind (validate_packed_payload_hex lib value) _ e in
        (packed value valid, sym (ok-injective kept))),
    (λ (valid, kept). ground (arith, accepts value valid, kept)),
  )
