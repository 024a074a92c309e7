-- ===== src/Text/Utf8/RoundTrip.antt =====
-- The bytes of a text read back: what `as_bytes` writes, `from_utf8` reads.
use venice_e2ee_proxy.Base.{
  ℕ, suc, ◌+◌, ◌/◌, ◌≤◌, ◌<◌, ◌≡◌, refl, inl, inr, some, List, [], ◌∷◌, ◌++◌, length, All,
  All-append, length-append, ltb, ◌==◌, if◌then◌else◌, arith, Bool-cases,
}
use venice_e2ee_proxy.Text.{Text, len_utf8}
use venice_e2ee_proxy.Text.Bytes.{byte_len}
use venice_e2ee_proxy.Text.Utf8.{
  IsByte, IsScalar, encode_utf8, as_bytes, decode, decode_byte, first_byte, next_byte, put,
  from_utf8, ready, inside, char, more, tail_byte,
}

-- The bytes of a character of two, three or four bytes, read one after the other.
abbrev low_three : ℕ → ℕ
low_three v = if v == 0 then 0xa0 else 0x80

abbrev high_three : ℕ → ℕ
high_three v = if v == 13 then 0x9f else 0xbf

abbrev low_four : ℕ → ℕ
low_four v = if v == 0 then 0x90 else 0x80

abbrev high_four : ℕ → ℕ
high_four v = if v == 4 then 0x8f else 0xbf

lead_two :
    (c : ℕ) → 0x80 ≤ c → c < 0x800 → first_byte (0xc0 + c / 64) ≡ more (inside 0 (c / 64) 0x80 0xbf)
unfolding first_byte
lead_two c h k = ground arith

lead_three :
    (v : ℕ) → v < 16 → first_byte (0xe0 + v) ≡ more (inside 1 v (low_three v) (high_three v))
unfolding first_byte
lead_three v h = ground arith

lead_four : (v : ℕ) → v < 5 → first_byte (0xf0 + v) ≡ more (inside 2 v (low_four v) (high_four v))
unfolding first_byte
lead_four v h = ground arith

next_last :
    (c low high : ℕ)
    → low ≤ tail_byte c
    → tail_byte c ≤ high
    → next_byte 0 (c / 64) low high (tail_byte c) ≡ char c
unfolding next_byte
next_last c low high h k = ground arith

next_more :
    (left c low high : ℕ)
    → low ≤ tail_byte c
    → tail_byte c ≤ high
    → next_byte (suc left) (c / 64) low high (tail_byte c) ≡ more (inside left c 0x80 0xbf)
unfolding next_byte
next_more left c low high h k = ground arith

div_div : (c : ℕ) → c / 64 / 64 ≡ c / 4096
div_div c = omega arith

div_div_div : (c : ℕ) → c / 4096 / 64 ≡ c / 262144
div_div_div c = omega arith

module _ (bytes : List ℕ) where
  one : (c : ℕ) → c < 0x80 → decode ready (encode_utf8 c ++ bytes) ≡ put c (decode ready bytes)
  unfolding encode_utf8 decode decode_byte first_byte
  one c h = ground arith

  two :
      (c : ℕ)
      → 0x80 ≤ c
      → c < 0x800
      → decode ready (encode_utf8 c ++ bytes) ≡ put c (decode ready bytes)
  unfolding encode_utf8 decode decode_byte
  two c h k = ground (arith, lead_two c h k, next_last c 0x80 0xbf (omega arith) (omega arith))

  three :
      (c : ℕ)
      → 0x800 ≤ c
      → c < 0x1_0000
      → IsScalar c
      → decode ready (encode_utf8 c ++ bytes) ≡ put c (decode ready bytes)
  unfolding encode_utf8 decode decode_byte
  three c h k scalar = ground (
    arith,
    lead_three (c / 4096) (omega arith),
    next_more 0 (c / 64) (low_three (c / 4096)) (high_three (c / 4096)) (ground arith)
        (ground arith),
    next_last c 0x80 0xbf (omega arith) (omega arith),
    div_div c,
  )

  four :
      (c : ℕ)
      → 0x1_0000 ≤ c
      → c < 0x11_0000
      → decode ready (encode_utf8 c ++ bytes) ≡ put c (decode ready bytes)
  unfolding encode_utf8 decode decode_byte
  four c h k = ground (
    arith,
    lead_four (c / 262144) (omega arith),
    next_more 1 (c / 4096) (low_four (c / 262144)) (high_four (c / 262144)) (ground arith)
        (ground arith),
    next_more 0 (c / 64) 0x80 0xbf (omega arith) (omega arith),
    next_last c 0x80 0xbf (omega arith) (omega arith),
    div_div c,
    div_div_div c,
  )

  decode-encode_utf8 :
      (c : ℕ) → IsScalar c → decode ready (encode_utf8 c ++ bytes) ≡ put c (decode ready bytes)
  decode-encode_utf8 c scalar = elim (Bool-cases (ltb c 0x80)) [
    | inl h ↦ one c (ground (arith, h))
    | inr h ↦ elim (Bool-cases (ltb c 0x800)) [
      | inl k ↦ two c (ground (arith, h)) (ground (arith, k))
      | inr k ↦ elim (Bool-cases (ltb c 0x1_0000)) [
        | inl l ↦ three c (ground (arith, k)) (ground (arith, l)) scalar
        | inr l ↦ four c (ground (arith, l)) (ground (arith, l, scalar))
      ]
    ]
  ]

-- What `as_bytes` writes, `from_utf8` reads back.
pub from_utf8-as_bytes : (s : Text) → All IsScalar s → from_utf8 (as_bytes s) ≡ some s
unfolding from_utf8 as_bytes decode
from_utf8-as_bytes [] scalars = refl
from_utf8-as_bytes (c ∷ s) (scalar, scalars) =
    ground (arith, decode-encode_utf8 (as_bytes s) c scalar, from_utf8-as_bytes s scalars)

encode_utf8-length : (c : ℕ) → length (encode_utf8 c) ≡ len_utf8 c
unfolding encode_utf8 len_utf8
encode_utf8-length c = ground arith

pub length-as_bytes : (s : Text) → length (as_bytes s) ≡ byte_len s
unfolding as_bytes byte_len
length-as_bytes [] = refl
length-as_bytes (c ∷ s) =
    omega
      (arith, length-append (encode_utf8 c) (as_bytes s), encode_utf8-length c, length-as_bytes s)

encode_utf8-IsByte : (c : ℕ) → IsScalar c → All IsByte (encode_utf8 c)
unfolding encode_utf8
encode_utf8-IsByte c h = ground arith

pub as_bytes-IsByte : (s : Text) → All IsScalar s → All IsByte (as_bytes s)
unfolding as_bytes
as_bytes-IsByte [] scalars = tt
as_bytes-IsByte (c ∷ s) (scalar, scalars) =
    All-append IsByte _ _ (encode_utf8-IsByte c scalar) (as_bytes-IsByte s scalars)
