-- ===== src/Text/Utf8.antt =====
-- `str::as_bytes` and `String::from_utf8`: the UTF-8 form of a text. The decoder reads byte by byte,
-- with what it knows of the character that has begun; it refuses overlong forms, surrogates and
-- numbers above the last scalar value.
pub mod RoundTrip
use venice_e2ee_proxy.Base.{
  ℕ, zero, suc, ◌+◌, ◌-◌, ◌*◌, ◌/◌, ◌%◌, ◌≤◌, ◌<◌, ◌≡◌, ◌⊎◌, ◌&&◌, Option, none, some, List, [],
  ◌∷◌, ◌++◌, ltb, leb, ◌==◌, if◌then◌else◌, arith, All, Bool-cases, All-append, inl, length, inr,
  length-append,
}
use venice_e2ee_proxy.Text.{Text, len_utf8}
use venice_e2ee_proxy.Text.Bytes.{byte_len}

abbrev pub IsByte : ℕ → Type 0
IsByte b = b < 256

-- A Rust `char`.
abbrev pub IsScalar : ℕ → Type 0
IsScalar c = (c < 0xd800) ⊎ (0xe000 ≤ c) × (c < 0x11_0000)

-- The byte of six bits behind the first.
abbrev pub tail_byte : ℕ → ℕ
tail_byte c = 0x80 + c % 64

unfoldable pub encode_utf8 : ℕ → List ℕ
encode_utf8 c =
    if ltb c 0x80
    then c ∷ []
    else if ltb c 0x800
    then (0xc0 + c / 64) ∷ tail_byte c ∷ []
    else if ltb c 0x1_0000
    then (0xe0 + c / 4096) ∷ tail_byte (c / 64) ∷ tail_byte c ∷ []
    else (0xf0 + c / 262144) ∷ tail_byte (c / 4096) ∷ tail_byte (c / 64) ∷ tail_byte c ∷ []

unfoldable pub as_bytes : Text → List ℕ
as_bytes [] = []
as_bytes (c ∷ s) = encode_utf8 c ++ as_bytes s

-- Before a character, or inside one: the bytes that it still needs, the value so far, and the range
-- of the next byte.
pub data Decoder : Type 0 where
  ready : Decoder
  inside : ℕ → ℕ → ℕ → ℕ → Decoder

pub data Decoded : Type 0 where
  refused : Decoded
  char : ℕ → Decoded
  more : Decoder → Decoded

unfoldable pub first_byte : ℕ → Decoded
first_byte b =
    if ltb b 0x80
    then char b
    else if ltb b 0xc2
    then refused
    else if ltb b 0xe0
    then more (inside 0 (b - 0xc0) 0x80 0xbf)
    else if b == 0xe0
    then more (inside 1 0 0xa0 0xbf)
    else if b == 0xed
    then more (inside 1 13 0x80 0x9f)
    else if ltb b 0xf0
    then more (inside 1 (b - 0xe0) 0x80 0xbf)
    else if b == 0xf0
    then more (inside 2 0 0x90 0xbf)
    else if ltb b 0xf4
    then more (inside 2 (b - 0xf0) 0x80 0xbf)
    else if b == 0xf4
    then more (inside 2 4 0x80 0x8f)
    else refused

unfoldable pub next_byte : ℕ → ℕ → ℕ → ℕ → ℕ → Decoded
next_byte needed value low high b =
    if leb low b && leb b high
    then (elim needed [
      | zero ↦ char (value * 64 + (b - 0x80))
      | suc left ↦ more (inside left (value * 64 + (b - 0x80)) 0x80 0xbf)
    ])
    else refused

unfoldable pub decode_byte : Decoder → ℕ → Decoded
decode_byte ready b = first_byte b
decode_byte (inside needed value low high) b = next_byte needed value low high b

abbrev pub put : ℕ → Option Text → Option Text
put c none = none
put c (some s) = some (c ∷ s)

unfoldable pub decode : Decoder → List ℕ → Option Text
decode ready [] = some []
decode (inside needed value low high) [] = none
decode state (b ∷ bytes) = elim (decode_byte state b) [
  | refused ↦ none
  | char c ↦ put c (decode ready bytes)
  | more next ↦ decode next bytes
]

unfoldable pub from_utf8 : List ℕ → Option Text
from_utf8 bytes = decode ready bytes
