-- ===== src/Stream/Roles.antt =====
-- The role and the finish reason of an output, as a client reads them.
use venice_e2ee_proxy.Base.{
  ℕ, ◌+◌, ◌≡◌, Bool, true, false, not, List, [], ◌∷◌, ◌++◌, Option, none, some, and_then, is_some,
  arith,
}
use venice_e2ee_proxy.Text.{text}
use venice_e2ee_proxy.Json.{Value, get, as_array, items, is_null}
use venice_e2ee_proxy.Stream.{StreamOutput}

unfoldable pub first : List Value → Option Value
first [] = none
first (v ∷ vs) = some v

unfoldable pub choice_of : StreamOutput → Option Value
choice_of StreamOutput.done = none
choice_of (StreamOutput.json value) =
    and_then (and_then (get (text "choices") value) as_array) (λ choices. first (items choices))

-- Whether an output's delta has a role.
unfoldable pub has_role : StreamOutput → Bool
unfolding choice_of first
has_role o = is_some (and_then (and_then (choice_of o) (get (text "delta"))) (get (text "role")))

unfoldable pub not_null : Option Value → Bool
not_null none = false
not_null (some v) = not (is_null v)

-- Whether an output has a finish reason.
unfoldable pub finishes : StreamOutput → Bool
unfolding choice_of first not_null
finishes o = not_null (and_then (choice_of o) (get (text "finish_reason")))

abbrev pub bit : Bool → ℕ
bit true = 1
bit false = 0

unfoldable pub count : (StreamOutput → Bool) → List StreamOutput → ℕ
count p [] = 0
count p (o ∷ os) = bit (p o) + count p os

pub count-append :
    (p : StreamOutput → Bool) (xs ys : List StreamOutput)
    → count p (xs ++ ys) ≡ count p xs + count p ys
unfolding count
count-append p [] ys = omega arith
count-append p (x ∷ xs) ys = omega (arith, count-append p xs ys)
