-- ===== src/Base/Results.antt =====
-- `Result<T, E>` of the source, with `?` as bind.
use mathlib.Core.Path.{◌≡◌, refl}
use mathlib.Core.Bool.{Bool, true, false}
use mathlib.Core.Logic.{◌⊎◌, inl, inr}
use mathlib.Core.Option.{Option, none, some}

-- The error type comes first here: a function has one error type and many values.
pub data Result {ℓ κ} (Err : Type ℓ) (Val : Type κ) : Type (ℓ ⊔ κ) where
  err : Err → Result Err Val
  ok : Val → Result Err Val

module _ {ℓ κ} {Err : Type ℓ} {Val : Type κ} where
  infixl 5 ◌>>=◌
  abbrev pub ◌>>=◌ {μ} : {Out : Type μ} → Result Err Val → (Val → Result Err Out) → Result Err Out
  err why >>= next = err why
  ok val >>= next = next val

  -- `Option::ok_or`.
  abbrev pub ok_or : Option Val → Err → Result Err Val
  ok_or (some val) why = ok val
  ok_or none why = err why

  -- `Result::map_err`.
  abbrev pub map_err {μ} : {Why : Type μ} → (Err → Why) → Result Err Val → Result Why Val
  map_err wrap (err why) = err (wrap why)
  map_err wrap (ok val) = ok val

  pub Result-cases :
      (r : Result Err Val) → ((val : Val) × (r ≡ ok val)) ⊎ ((why : Err) × (r ≡ err why))
  Result-cases (err why) = inr (why, refl)
  Result-cases (ok val) = inl (val, refl)

  -- What went before a successful `?`.
  pub ok_of_bind {μ} :
      {Out : Type μ} (r : Result Err Val) (next : Val → Result Err Out) {out : Out}
      → (r >>= next) ≡ ok out
      → (val : Val) × (r ≡ ok val) × (next val ≡ ok out)
  ok_of_bind (err why) next e = cc
  ok_of_bind (ok val) next e = (val, refl, e)

-- `if !test { return Err(why) }`, for a `do` block.
abbrev pub ensure {ℓ} : {Err : Type ℓ} → Bool → Err → Result Err (Unit {0})
ensure test why = elim test [ false ↦ err why | true ↦ ok tt ]

infixl 5 ◌>>◌
abbrev pub ◌>>◌ {ℓ κ} :
    {Err : Type ℓ} {Val : Type κ} → Result Err (Unit {0}) → Result Err Val → Result Err Val
err why >> next = err why
ok done >> next = next

-- What a successful `map_err` was given.
pub map_err-ok {ℓ κ μ} :
    {Err : Type ℓ} {Why : Type κ} {Val : Type μ} (wrap : Err → Why) (r : Result Err Val) {val : Val}
    → map_err wrap r ≡ ok val
    → r ≡ ok val
map_err-ok wrap (err e) h = cc
map_err-ok wrap (ok v) h = cc

pub ok-injective {ℓ κ} :
    {Err : Type ℓ} {Val : Type κ} {x y : Val} → ◌≡◌ {A = Result Err Val} (ok x) (ok y) → x ≡ y
ok-injective h = cc

-- What a successful `ensure` saw.
pub ensure-ok {ℓ} : {Err : Type ℓ} (test : Bool) (why : Err) → ensure test why ≡ ok tt → test ≡ true
ensure-ok true why h = refl
ensure-ok false why h = cc

pub ok_or-ok {ℓ κ} :
    {Err : Type ℓ} {Val : Type κ} (o : Option Val) (why : Err) {val : Val}
    → ok_or o why ≡ ok val
    → o ≡ some val
ok_or-ok none why h = cc
ok_or-ok (some a) why h = cc

-- What a `do` block past an `ensure` saw, and what follows it.
pub ok_of_ensure {ℓ κ} :
    {Err : Type ℓ} {Val : Type κ} (test : Bool) (why : Err) (next : Result Err Val) {val : Val}
    → (ensure test why >> next) ≡ ok val
    → (test ≡ true) × (next ≡ ok val)
ok_of_ensure true why next h = (refl, h)
ok_of_ensure false why next h = cc

-- What went before a successful step without a value.
pub ok_of_then {ℓ κ} :
    {Err : Type ℓ} {Val : Type κ} (r : Result Err (Unit {0})) (next : Result Err Val) {val : Val}
    → (r >> next) ≡ ok val
    → (r ≡ ok tt) × (next ≡ ok val)
ok_of_then (err why) next h = cc
ok_of_then (ok done) next h = (refl, h)
