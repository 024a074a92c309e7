-- ===== src/E2ee/Sample.antt =====
-- A concrete instance of the crates' operations for the tests, with their laws: hex in full, two
-- keys that agree on one secret of four, and a cipher that puts a tag of sixteen bytes before the
-- message.
use venice_e2ee_proxy.Base.{
  ℕ, zero, suc, ◌+◌, ◌-◌, ◌*◌, ◌/◌, ◌%◌, ◌<◌, ◌≡◌, refl, sym, ap, ◌∙◌, Bool, true, false, ◌&&◌,
  Option, none, some, Result, ok, err, List, [], ◌∷◌, ◌++◌, length, take, drop, All, All-append,
  ltb, leb, ◌==◌, if◌then◌else◌, arith, subst,
}
use venice_e2ee_proxy.Text.{Text, text_eq, lower, is_hexdigit}
use venice_e2ee_proxy.Text.Utf8.{IsByte}
use venice_e2ee_proxy.E2ee.{CryptoLib, E2eeCodec}
use venice_e2ee_proxy.E2ee.Crypto.{CryptoLaws, IsLowerHex}

unfoldable pub digit : ℕ → ℕ
digit d = if ltb d 10 then 48 + d else 87 + d

unfoldable pub hex_value : ℕ → Option ℕ
hex_value c =
    if leb 48 c && leb c 57
    then some (c - 48)
    else if leb 97 c && leb c 102
    then some (c - 87)
    else if leb 65 c && leb c 70
    then some (c - 55)
    else none

unfoldable pub hex_encode : List ℕ → Text
hex_encode [] = []
hex_encode (b ∷ bytes) = digit (b / 16) ∷ digit (b % 16) ∷ hex_encode bytes

abbrev join : Option ℕ → Option ℕ → Result (Unit {0}) (List ℕ) → Result (Unit {0}) (List ℕ)
join (some high) (some low) (ok bytes) = ok ((high * 16 + low) ∷ bytes)
join _ _ _ = err tt

unfoldable pub hex_decode : Text → Result (Unit {0}) (List ℕ)
hex_decode [] = ok []
hex_decode (c ∷ []) = err tt
hex_decode (c ∷ d ∷ s) = join (hex_value c) (hex_value d) (hex_decode s)

abbrev pub repeat : ℕ → ℕ → List ℕ
repeat zero b = []
repeat (suc n) b = b ∷ repeat n b

abbrev mark : Bool → ℕ
mark true = 1
mark false = 0

abbrev both : Bool → Bool → Bool
both true b = b
both false b = false

abbrev pub to_point : Bool → List ℕ
to_point key = 4 ∷ repeat 64 (mark key)

abbrev from_point : List ℕ → Option Bool
from_point (t ∷ b ∷ rest) = if t == 4 && leb b 1 then some (b == 1) else none
from_point _ = none

abbrev pub tag : List ℕ
tag = repeat 16 7

abbrev seal : List ℕ → List ℕ → List ℕ → Option (List ℕ)
seal key nonce message = some (tag ++ message)

unfoldable pub unseal : List ℕ → List ℕ → List ℕ → Option (List ℕ)
unseal key nonce sealed = if text_eq (take 16 sealed) tag then some (drop 16 sealed) else none

abbrev pub crates : CryptoLib
crates = record {
  HexError = Unit {0};
  SecretKey = Bool;
  PublicKey = Bool;
  SharedSecret = Bool;
  hex_encode = hex_encode;
  hex_decode = hex_decode;
  public_key = λ secret. secret;
  to_encoded_point = to_point;
  from_sec1_bytes = from_point;
  diffie_hellman = both;
  expand = λ secret info. repeat 32 (mark secret);
  encrypt = seal;
  decrypt = unseal;
}

hex_encode-length : (bytes : List ℕ) → length (hex_encode bytes) ≡ 2 * length bytes
unfolding hex_encode
hex_encode-length [] = refl
hex_encode-length (b ∷ bytes) = omega (arith, hex_encode-length bytes)

digit-IsLowerHex : (d : ℕ) → d < 16 → IsLowerHex (digit d)
unfolding digit lower is_hexdigit
digit-IsLowerHex d h = (ground arith, ground arith)

hex_encode-IsLowerHex : (bytes : List ℕ) → All IsByte bytes → All IsLowerHex (hex_encode bytes)
unfolding hex_encode
hex_encode-IsLowerHex [] h = tt
hex_encode-IsLowerHex (b ∷ bytes) (h, hs) =
    let rest : IsLowerHex (digit (b % 16)) × All IsLowerHex (hex_encode bytes) =
      (digit-IsLowerHex (b % 16) (omega arith), hex_encode-IsLowerHex bytes hs) in
    (digit-IsLowerHex (b / 16) (omega arith), rest)

hex_value-digit : (d : ℕ) → d < 16 → hex_value (digit d) ≡ some d
unfolding hex_value digit
hex_value-digit d h = ground arith

hex_decode-hex_encode :
    (bytes : List ℕ) → All IsByte bytes → hex_decode (hex_encode bytes) ≡ ok bytes
unfolding hex_encode hex_decode
hex_decode-hex_encode [] h = refl
hex_decode-hex_encode (b ∷ bytes) (h, hs) =
    rw
      (
        hex_value-digit (b / 16) (omega arith),
        hex_value-digit (b % 16) (omega arith),
        hex_decode-hex_encode bytes hs,
      )
      (ap (λ c. ok (c ∷ bytes)) (omega arith))

both_comm : (a b : Bool) → both a b ≡ both b a
both_comm true true = refl
both_comm true false = refl
both_comm false true = refl
both_comm false false = refl

point-IsByte : (key : Bool) → All IsByte (to_point key)
point-IsByte true = ground arith
point-IsByte false = ground arith

from_point-to_point : (key : Bool) → from_point (to_point key) ≡ some key
from_point-to_point true = refl
from_point-to_point false = refl

unseal-seal : (key nonce message : List ℕ) → unseal key nonce (tag ++ message) ≡ some message
unfolding unseal text_eq
unseal-seal key nonce message = refl

sealed_is :
    (message sealed : List ℕ)
    → ◌≡◌ {A = Option (List ℕ)} (some (tag ++ message)) (some sealed)
    → tag ++ message ≡ sealed
sealed_is message sealed h = cc

sealed-length :
    (message sealed : List ℕ) → tag ++ message ≡ sealed → length sealed ≡ length message + 16
sealed-length message sealed h = sym (ap length h) ∙ omega arith

tag-IsByte : All IsByte tag
tag-IsByte = ground arith

pub crates_laws : CryptoLaws crates
crates_laws = record {
  hex_encode-length = λ bytes h. hex_encode-length bytes;
  hex_encode-IsLowerHex = hex_encode-IsLowerHex;
  hex_decode-hex_encode = hex_decode-hex_encode;
  point-length = λ key. refl;
  point-IsByte = point-IsByte;
  point_tag = λ key. (_, refl);
  from_sec1_bytes-point = from_point-to_point;
  agreement = both_comm;
  encrypt-length =
      λ key nonce message sealed h. sealed-length message sealed (sealed_is message sealed h);
  encrypt-IsByte = λ key nonce message sealed small h.
      subst (All IsByte) (sealed_is message sealed h)
        (All-append IsByte tag message tag-IsByte small);
  decrypt-encrypt = λ key nonce message sealed h.
      subst (λ z. unseal key nonce z ≡ some message) (sealed_is message sealed h)
        (unseal-seal key nonce message);
}

abbrev pub codec : E2eeCodec
codec = record { hkdf_info = 1 ∷ []; require_encrypted_response_content = true }

abbrev pub nonce : List ℕ
nonce = repeat 12 9

pub nonce-IsByte : All IsByte nonce
nonce-IsByte = ground arith
