-- ===== src/Stream/Sends.antt =====
-- What a step of a transformer sends, if the step succeeds.
use venice_e2ee_proxy.Base.{
  ◌≡◌, refl, subst, Bool, true, false, Result, ok, err, ◌>>=◌, ◌>>◌, if◌then◌else◌,
}

module _ {Err Sent : Type 0} where
  -- Whatever a step that succeeds sends is of this kind.
  unfoldable pub Sends : (Sent → Type 0) → Result Err Sent → Type 0
  Sends P (err e) = Unit
  Sends P (ok sent) = P sent

  pub Sends-bind :
      {A : Type 0} (P : Sent → Type 0) (r : Result Err A) (next : A → Result Err Sent)
      → ((a : A) → r ≡ ok a → Sends P (next a))
      → Sends P (r >>= next)
  unfolding Sends
  Sends-bind P (err e) next h = tt
  Sends-bind P (ok a) next h = h a refl

  pub Sends-then :
      (P : Sent → Type 0) (r : Result Err (Unit {0})) (next : Result Err Sent)
      → Sends P next
      → Sends P (r >> next)
  unfolding Sends
  Sends-then P (err e) next h = tt
  Sends-then P (ok checked) next h = h

  pub Sends-if :
      (P : Sent → Type 0) (b : Bool) (x y : Result Err Sent)
      → (b ≡ true → Sends P x)
      → (b ≡ false → Sends P y)
      → Sends P (if b then x else y)
  Sends-if P true x y h k = h refl
  Sends-if P false x y h k = k refl

  pub Sends-ok :
      (P : Sent → Type 0) (r : Result Err Sent) (sent : Sent) → Sends P r → r ≡ ok sent → P sent
  unfolding Sends
  Sends-ok P r sent h k = subst (Sends P) k h
