-- ===== src/Attestation/Quote.antt =====
-- The fields that are read of a TDX quote.
use venice_e2ee_proxy.Base.{
  ℕ, zero, suc, ◌%◌, ◌^◌, ◌≤◌, ◌<◌, ◌≡◌, refl, sym, ap, ◌∙◌, subst, true, not, ok, List, [], ◌∷◌,
  All, length, take, drop, ltb, ◌==◌, arith, ok_of_ensure, ok-injective,
}
use venice_e2ee_proxy.Text.{Text}
use venice_e2ee_proxy.Text.Trim.{trim}
use venice_e2ee_proxy.Text.Utf8.{IsByte}
use venice_e2ee_proxy.E2ee.{CryptoLib}
use venice_e2ee_proxy.Attestation.Keys.{
  AttestationLib, ParsedTdxQuote, decode_tdx_quote, from_le_bytes, parse_tdx_quote, strip_0x,
}

-- Four bytes make a number of 32 bits.
from_le_bytes-lt :
    (bytes : List ℕ) → All IsByte (take 4 bytes) → from_le_bytes (take 4 bytes) < 2 ^ 32
unfolding from_le_bytes
from_le_bytes-lt [] h = omega arith
from_le_bytes-lt (a ∷ []) h = omega arith
from_le_bytes-lt (a ∷ b ∷ []) h = omega arith
from_le_bytes-lt (a ∷ b ∷ c ∷ []) h = omega arith
from_le_bytes-lt (a ∷ b ∷ c ∷ d ∷ bytes) h = omega arith

All-take : (n : ℕ) (xs : List ℕ) → All IsByte xs → All IsByte (take n xs)
All-take zero xs h = tt
All-take (suc n) [] h = tt
All-take (suc n) (x ∷ xs) (h, hs) = (h, All-take n xs hs)

All-drop : (n : ℕ) (xs : List ℕ) → All IsByte xs → All IsByte (drop n xs)
All-drop zero xs h = h
All-drop (suc n) [] h = tt
All-drop (suc n) (x ∷ xs) (h, hs) = All-drop n xs hs

drop_some :
    (n : ℕ) (xs : List ℕ) → n < length xs → (x : ℕ) × (rest : List ℕ) × (drop n xs ≡ x ∷ rest)
drop_some n [] h = absurd (omega arith)
drop_some zero (x ∷ xs) h = (x, xs, refl)
drop_some (suc n) (x ∷ xs) h = drop_some n xs (omega arith)

lowest_bit : (b : ℕ) (bytes : List ℕ) → from_le_bytes (take 8 (b ∷ bytes)) % 2 ≡ b % 2
unfolding from_le_bytes
lowest_bit b bytes = omega arith

long : (bytes : List ℕ) → not (ltb (length bytes) 632) ≡ true → 632 ≤ length bytes
long bytes h = ground (arith, h)

-- A quote that is parsed has 632 bytes or more; its type of TEE is of 32 bits, and it is in debug
-- mode exactly when the byte at 168 is odd.
pub parse_tdx_quote-ok :
    (lib : CryptoLib) (digests : AttestationLib) (value : Text) (bytes : List ℕ)
    (parsed : ParsedTdxQuote)
    → lib.hex_decode (strip_0x (trim value)) ≡ ok bytes
    → All IsByte bytes
    → parse_tdx_quote lib digests value ≡ ok parsed
    → (632 ≤ length bytes)
      × (parsed.tee_type < 2 ^ 32)
      × ((attributes : ℕ) × (rest : List ℕ) × (drop 168 bytes ≡ attributes ∷ rest)
          × (parsed.debug ≡ (attributes % 2 == 1)))
unfolding parse_tdx_quote decode_tdx_quote
parse_tdx_quote-ok lib digests value bytes parsed decoded small h =
    let h0 = rw (decoded) at h in
    let (enough, h1) = ok_of_ensure (not (ltb (length bytes) 632)) _ _ h0 in
    let same = sym (ok-injective h1) in
    let (attributes, rest, e) = drop_some 168 bytes (omega (arith, long bytes enough)) in
    (
      long bytes enough,
      subst (λ n. n < 2 ^ 32) (ap (λ (p : ParsedTdxQuote). p.tee_type) (sym same))
          (from_le_bytes-lt (drop 4 bytes) (All-take 4 (drop 4 bytes) (All-drop 4 bytes small))),
      (
        attributes,
        rest,
        e,
        ap (λ (p : ParsedTdxQuote). p.debug) same
            ∙ ap (λ bs. from_le_bytes (take 8 bs) % 2 == 1) e
            ∙ ap (λ n. n == 1) (lowest_bit attributes rest),
      ),
    )
