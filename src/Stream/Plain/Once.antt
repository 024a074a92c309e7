-- ===== src/Stream/Plain/Once.antt =====
-- The role and the finish reason over the parts of the plain transformer.
use venice_e2ee_proxy.Base.{
  ℕ, ◌+◌, ◌≤◌, ◌≡◌, refl, ap, Bool, true, false, not, List, [], ◌∷◌, ◌++◌, Option, none, some,
  arith, if◌then◌else◌, inl, inr, Bool-cases,
}
use venice_e2ee_proxy.Text.{Text, text, text_eq}
use venice_e2ee_proxy.Dict
use venice_e2ee_proxy.Json.{Value, null, string, is_null}
use venice_e2ee_proxy.Stream.{StreamOutput}
use venice_e2ee_proxy.Stream.Chunk.{
  ChunkContext, chunk_with_choice, chunk_head, choice_value, usage_chunk,
}
use venice_e2ee_proxy.Stream.Roles.{
  first, choice_of, has_role, not_null, finishes, bit, count, count-append,
}
use venice_e2ee_proxy.Stream.Plain.{
  OpenAiChatStreamTransformer, empty_delta, role_entry, text_entry, text_delta, finish_outputs,
  text_outputs,
}

abbrev pub Sent : Type 0
Sent = OpenAiChatStreamTransformer × List StreamOutput

-- As many roles are sent in all as the transformer has noted, and as many finish reasons at least.
unfoldable pub Noted : OpenAiChatStreamTransformer → Sent → Type 0
Noted t (t', outputs) =
    (bit t.sent_role + count has_role outputs ≡ bit t'.sent_role)
    × (bit t'.sent_final_finish ≤ bit t.sent_final_finish + count finishes outputs)

pub Noted-nothing : (t : OpenAiChatStreamTransformer) → Noted t (t, [])
unfolding Noted count
Noted-nothing t = (omega arith, omega arith)

pub Noted-append :
    (t t' t'' : OpenAiChatStreamTransformer) (xs ys : List StreamOutput)
    → Noted t (t', xs)
    → Noted t' (t'', ys)
    → Noted t (t'', xs ++ ys)
unfolding Noted
Noted-append t t' t'' xs ys (r, f) (r', f') = (
  omega (arith, r, r', count-append has_role xs ys),
  omega (arith, f, f', count-append finishes xs ys),
)

-- The finish chunk has no role, and its reason if there is one.
pub finish_outputs-count :
    (ctx : ChunkContext) (value : Value) (index : ℕ) (reason : Value)
    → (count has_role (finish_outputs ctx value index reason) ≡ 0)
      × (count finishes (finish_outputs ctx value index reason) ≡ bit (not (is_null reason)))
unfolding finish_outputs count has_role finishes choice_of first not_null chunk_with_choice
    chunk_head choice_value Dict.get text_eq
finish_outputs-count ctx value index reason = elim (Bool-cases (is_null reason)) [
  | inl e ↦ (ground (arith, e), ground (arith, e))
  | inr e ↦ (ground (arith, e), ground (arith, e))
]

text_delta-role :
    (ctx : ChunkContext) (value : Value) (index : ℕ) (sent : Bool) (content reasoning : Option Text)
    → has_role (
        StreamOutput.json
          (chunk_with_choice ctx value index (text_delta sent content reasoning) null))
      ≡ not sent
unfolding text_delta has_role choice_of first chunk_with_choice chunk_head choice_value role_entry
    text_entry Dict.get text_eq
text_delta-role ctx value index true none none = refl
text_delta-role ctx value index true none (some r) = refl
text_delta-role ctx value index true (some c) none = refl
text_delta-role ctx value index true (some c) (some r) = refl
text_delta-role ctx value index false content reasoning = refl

pub text_outputs-Noted :
    (t : OpenAiChatStreamTransformer) (value : Value) (index : ℕ) (content reasoning : Option Text)
    (reason : Value)
    → Noted t (text_outputs t value index content reasoning reason)
unfolding Noted text_outputs count
text_outputs-Noted t value index content reasoning reason =
    let (roles, finished) = finish_outputs-count t.ctx value index reason in
    let role = text_delta-role t.ctx value index t.sent_role content reasoning in
    (ground (arith, roles, role), ground (arith, finished))

pub usage_chunk-Noted :
    (t : OpenAiChatStreamTransformer) (value u : Value)
    → Noted t (t, StreamOutput.json (usage_chunk t.ctx value u) ∷ [])
unfolding Noted count has_role finishes choice_of first not_null usage_chunk chunk_head Dict.get
    text_eq
usage_chunk-Noted t value u = (omega arith, omega arith)

-- The end of the stream: a finish chunk unless there was one, then the sentinel.
pub done-Noted :
    (t : OpenAiChatStreamTransformer) (b : Bool)
    → t.sent_final_finish ≡ b
    → Noted t (
      record t { sent_final_finish = true },
      (if b
            then []
            else StreamOutput.json
                (chunk_with_choice t.ctx null 0 empty_delta (string (text "stop")))
              ∷ [])
          ++ StreamOutput.done ∷ [],
    )
unfolding Noted count has_role finishes choice_of first not_null chunk_with_choice chunk_head
    choice_value Dict.get text_eq
done-Noted t true e = (omega arith, omega (arith, ap bit e))
done-Noted t false e = (omega arith, omega arith)
