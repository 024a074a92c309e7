-- ===== src/Chat/Rejected.antt =====
-- What the parser refuses, and the assistant messages that lose their tool calls.
use venice_e2ee_proxy.Base.{
  ℕ, ◌≡◌, sym, ap, ◌∙◌, true, false, none, some, Option, ok, err, List, [], ◌∷◌, ◌++◌, All, arith,
  ok_of_bind, ok_of_then, ok_of_ensure, ok-injective, subst,
}
use venice_e2ee_proxy.Text.{Text, text}
use venice_e2ee_proxy.Json.{Value, Fields, entries, get_field, object, string}
use venice_e2ee_proxy.Chat.{NormalizedChatMessage, Serde, unsupported_field}
use venice_e2ee_proxy.Chat.Reading.{contains, first_unknown, reject_unknown_fields}
use venice_e2ee_proxy.Chat.Messages.{
  joined_content, content_text, normalize_assistant_message, normalize_assistant_tool_calls,
  optional_content_text,
}
use venice_e2ee_proxy.Chat.Parse.{parse, allowed_fields}
use venice_e2ee_proxy.Chat.Checks.{IsAllowed}

first_unknown-some :
    (allowed : List Text) (before after : List (Text × Value)) (key : Text) (value : Value)
    → All (IsAllowed allowed) before
    → contains allowed key ≡ false
    → first_unknown allowed (before ++ ((key, value) ∷ after)) ≡ some key
unfolding first_unknown
first_unknown-some allowed [] after key value h unknown = ground (arith, unknown)
first_unknown-some allowed ((k, v) ∷ before) after key value (h, hs) unknown =
    rw (h) (first_unknown-some allowed before after key value hs unknown)

refused :
    (m : Fields) (allowed : List Text) (key : Text)
    → first_unknown allowed (entries m) ≡ some key
    → reject_unknown_fields m allowed ≡ err (unsupported_field key)
unfolding reject_unknown_fields
refused m allowed key h = ground (arith, h)

empty_read :
    (serde : Serde) (index : ℕ) (m : Fields) (content : Option Text)
    → get_field (text "content") m ≡ some (string [])
    → optional_content_text serde m index true ≡ ok content
    → content ≡ some []
unfolding optional_content_text content_text
empty_read serde index m content empty h = ground (arith, empty, h)

-- A request whose first key that is not allowed is this one is refused with its name, whatever its
-- other entries are.
pub parse-unsupported_field :
    (serde : Serde) (m : Fields) (before after : List (Text × Value)) (key : Text) (value : Value)
    → entries m ≡ before ++ ((key, value) ∷ after)
    → All (IsAllowed allowed_fields) before
    → contains allowed_fields key ≡ false
    → parse serde (object m) ≡ err (unsupported_field key)
unfolding parse
parse-unsupported_field serde m before after key value split known unknown = rw (
    refused m allowed_fields key (
      subst (λ es. first_unknown allowed_fields es ≡ some key) (sym split)
        (first_unknown-some allowed_fields before after key value known unknown)))

joined_empty : (content calls : Option Text) → content ≡ some [] → joined_content content calls ≡ []
unfolding joined_content
joined_empty content none h = rw (h)
joined_empty content (some calls) h = rw (h)

-- An assistant message whose content is the empty text is normalised to an empty message, if it is
-- accepted: the tool calls that it needs for that are not in it.
pub normalize_assistant_message-empty_content :
    (serde : Serde) (index : ℕ) (m : Fields) (message : NormalizedChatMessage)
    → get_field (text "content") m ≡ some (string [])
    → normalize_assistant_message serde index m ≡ ok message
    → message.content ≡ []
unfolding normalize_assistant_message
normalize_assistant_message-empty_content serde index m message empty h =
    let (known, h1) = ok_of_then (reject_unknown_fields m _) _ h in
    let (content, e2, h2) = ok_of_bind (optional_content_text serde m index true) _ h1 in
    let (calls, e3, h3) = ok_of_bind (normalize_assistant_tool_calls serde _) _ h2 in
    let (kept, h4) = ok_of_ensure _ _ _ h3 in
    ap (λ (x : NormalizedChatMessage). x.content) (sym (ok-injective h4))
    ∙ joined_empty content calls (empty_read serde index m content empty e2)
