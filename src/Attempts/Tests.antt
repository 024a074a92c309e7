-- ===== src/Attempts/Tests.antt =====
-- The loop of attempts on concrete outcomes, and its theorem there.
use venice_e2ee_proxy.Base.{ℕ, suc, zero, ◌≡◌, refl, Option, none, some, ok, err, [], ◌∷◌, false}
use venice_e2ee_proxy.Text.{text, text_eq, len_utf8}
use venice_e2ee_proxy.Text.Bytes.{byte_len}
use venice_e2ee_proxy.Dict
use venice_e2ee_proxy.Json.{Value, pos_int, object, array, string, from_entries, from_items}
use venice_e2ee_proxy.Tools.{ToolEmulationContext, classify_assistant_output, classify_parsed}
use venice_e2ee_proxy.Stream.Classify.{string_field}
use venice_e2ee_proxy.Attempts.{
  Attempt, timed_out, completed, Correction, ValidationError, not_finished_in_time, respond,
  tool_call_retry_exhausted, verdict, classified, retry_or_give_up, response,
}
use venice_e2ee_proxy.Attempts.Completion.{assistant_content, first_choice, first, message_field}
use venice_e2ee_proxy.Attempts.Budget.{Ends, respond-max_retries}

abbrev tools : ToolEmulationContext (Unit {0})
tools = record {
  tool_call_max_bytes = 100;
  max_retries = 1;
  require_tool_call = false;
  parse_tool_calls = λ s. ok [];
}

abbrev completion : Value
completion = object (
    from_entries (
      (
        text "choices",
        array (
            from_items (
              object (
                from_entries (
                  (
                    text "message",
                    object (from_entries ((text "content", string (text "Hi")) ∷ [])),
                  )
                  ∷ []))
              ∷ [])),
      )
      ∷ []))

-- The first attempt times out, the later ones answer.
abbrev slow_start : ℕ → Option (Correction (ValidationError (Unit {0}))) → Attempt (Unit {0})
slow_start zero c = timed_out
slow_start (suc n) c = completed completion

abbrev never : ℕ → Option (Correction (ValidationError (Unit {0}))) → Attempt (Unit {0})
never n c = timed_out

second_answers :
    respond (pos_int 0) tools slow_start 2 0 none
    ≡ some (ok (record { body = completion; tool_retries = some 1 }))
unfolding respond verdict classified retry_or_give_up response assistant_content first_choice first
    message_field Dict.get text_eq string_field classify_assistant_output classify_parsed byte_len
    len_utf8
second_answers = refl

none_answers :
    respond (pos_int 0) tools never 2 0 none
    ≡ some (err (tool_call_retry_exhausted 1 not_finished_in_time))
unfolding respond verdict retry_or_give_up
none_answers = refl

respond-max_retries_example :
    Ends (pos_int 0) tools slow_start (respond (pos_int 0) tools slow_start 2 0 none)
respond-max_retries_example = respond-max_retries (pos_int 0) tools slow_start
