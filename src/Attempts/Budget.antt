-- ===== src/Attempts/Budget.antt =====
-- The loop of attempts ends within its budget of retries, each retry with the correction of the
-- attempt before.
use venice_e2ee_proxy.Base.{
  ℕ, suc, zero, ◌+◌, ◌≤◌, ◌≡◌, refl, sym, subst, inl, inr, ◌⊎◌, true, false, Option, none, some,
  Result, ok, err, arith, Bool-cases, leb, if◌then◌else◌,
}
use venice_e2ee_proxy.Text.{Text}
use venice_e2ee_proxy.Json.{Value, Number}
use venice_e2ee_proxy.Tools.{
  ToolEmulationContext, ToolOutputClassification, normal_text, tool_calls, invalid_tool_call,
}
use venice_e2ee_proxy.Attempts.{
  Attempt, failed, timed_out, completed, Correction, ValidationError, ResponseError, attempt_failed,
  tool_call_retry_exhausted, Response, Verdict, final, retry, verdict, classified, retry_or_give_up,
  respond, [],
}

-- A verdict within the budget: a retry only while some are left, and giving up only when none is.
unfoldable pub InBudget : {Failure ToolError : Type 0} → ℕ → ℕ → Verdict Failure ToolError → Type 0
InBudget max retries (retry next) = suc retries ≤ max
InBudget max retries (final (ok r)) = Unit
InBudget max retries (final (err (attempt_failed why))) = Unit
InBudget max retries (final (err (tool_call_retry_exhausted m why))) = (m ≡ max) × (max ≤ retries)

retry_in_budget : (max retries : ℕ) → leb max retries ≡ false → suc retries ≤ max
retry_in_budget max retries e = ground (arith, e)

spent : (max retries : ℕ) → leb max retries ≡ true → max ≤ retries
spent max retries e = ground (arith, e)

Verdict-cases :
    {Failure ToolError : Type 0} (v : Verdict Failure ToolError)
    → ((r : Result (ResponseError Failure ToolError) Response) × (v ≡ final r))
      ⊎ ((next : Correction (ValidationError ToolError)) × (v ≡ retry next))
Verdict-cases (final r) = inl (r, refl)
Verdict-cases (retry next) = inr (next, refl)

module _ {Failure ToolError : Type 0} (now : Number) (tools : ToolEmulationContext ToolError)
    (attempt : ℕ → Option (Correction (ValidationError ToolError)) → Attempt Failure) where
  retry_or_give_up-InBudget :
      (retries : ℕ) (why : ValidationError ToolError) (output : Text)
      → InBudget {Failure = Failure} tools.max_retries retries
          (retry_or_give_up now tools retries why output)
  unfolding InBudget retry_or_give_up
  retry_or_give_up-InBudget retries why output = elim (Bool-cases (leb tools.max_retries retries)) [
    | inl e ↦
        subst
          (λ b. InBudget {Failure = Failure} tools.max_retries retries (
            if b
            then final (err (tool_call_retry_exhausted tools.max_retries why))
            else retry (record { validation_error = why; invalid_output = output })))
          (sym e) (refl, spent tools.max_retries retries e)
    | inr e ↦
        subst
          (λ b. InBudget {Failure = Failure} tools.max_retries retries (
            if b
            then final (err (tool_call_retry_exhausted tools.max_retries why))
            else retry (record { validation_error = why; invalid_output = output })))
          (sym e) (retry_in_budget tools.max_retries retries e)
  ]

  classified-InBudget :
      (retries : ℕ) (completion : Value) (c : ToolOutputClassification ToolError)
      → InBudget {Failure = Failure} tools.max_retries retries
          (classified now tools retries completion c)
  unfolding InBudget classified
  classified-InBudget retries completion normal_text = tt
  classified-InBudget retries completion (tool_calls calls) = tt
  classified-InBudget retries completion (invalid_tool_call why output) =
      retry_or_give_up-InBudget retries _ output

  verdict-InBudget :
      (retries : ℕ) (a : Attempt Failure)
      → InBudget tools.max_retries retries (verdict now tools retries a)
  unfolding InBudget verdict
  verdict-InBudget retries (failed why) = tt
  verdict-InBudget retries timed_out = retry_or_give_up-InBudget retries _ []
  verdict-InBudget retries (completed completion) = classified-InBudget retries completion _

  -- The attempt after so many retries is made, with this correction.
  pub data Reaches : ℕ → Option (Correction (ValidationError ToolError)) → Type 0 where
    start : Reaches 0 none
    again :
        {n : ℕ} {c : Option (Correction (ValidationError ToolError))}
        {next : Correction (ValidationError ToolError)}
        → Reaches n c
        → verdict now tools n (attempt n c) ≡ retry next
        → Reaches (n + 1) (some next)

  -- How the loop ends: with the verdict on an attempt that it reaches within the budget.
  abbrev pub Ends : Option (Result (ResponseError Failure ToolError) Response) → Type 0
  Ends result =
      (n : ℕ) × (c : Option (Correction (ValidationError ToolError))) × (r : Result
        (ResponseError Failure ToolError) Response)
      × Reaches n c
      × (n ≤ tools.max_retries)
      × (verdict now tools n (attempt n c) ≡ final r)
      × InBudget tools.max_retries n (final r)
      × (result ≡ some r)

  respond-Ends :
      (fuel n : ℕ) (c : Option (Correction (ValidationError ToolError)))
      → Reaches n c
      → n ≤ tools.max_retries
      → suc tools.max_retries ≤ fuel + n
      → Ends (respond now tools attempt fuel n c)
  unfolding respond InBudget
  respond-Ends zero n c h k enough = ground (arith, k, enough)
  respond-Ends (suc fuel) n c h k enough =
      let budget = verdict-InBudget n (attempt n c) in
      elim (Verdict-cases (verdict now tools n (attempt n c))) [
        | inl (r, e) ↦
            (n, c, r, h, k, e, subst (InBudget tools.max_retries n) e budget, ground (arith, e))
        | inr (next, e) ↦
            let left = subst (InBudget tools.max_retries n) e budget in
            subst Ends (sym (ground (arith, e))) (
              respond-Ends fuel (n + 1) (some next) (again h e) (omega (arith, left))
                (omega (arith, enough)))
      ]

  -- The loop needs no more than `max_retries + 1` rounds. It ends with the verdict on an attempt
  -- that it reaches by retrying each attempt before with its correction, and it reports exhausted
  -- retries only when all of them are used.
  pub respond-max_retries : Ends (respond now tools attempt (suc tools.max_retries) 0 none)
  respond-max_retries =
      respond-Ends (suc tools.max_retries) 0 none start (omega arith) (omega arith)
