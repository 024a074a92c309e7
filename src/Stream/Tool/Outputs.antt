-- ===== src/Stream/Tool/Outputs.antt =====
-- The role and the finish reason in the outputs of the tool-emulated transformer, as a client reads
-- them.
use venice_e2ee_proxy.Base.{
  ℕ, ◌+◌, ◌≡◌, refl, Bool, true, false, not, List, [], ◌∷◌, ◌++◌, arith, suc,
}
use venice_e2ee_proxy.Text.{Text, text, text_eq}
use venice_e2ee_proxy.Dict
use venice_e2ee_proxy.Json.{Value, null, string, is_null, object, from_entries}
use venice_e2ee_proxy.Tools.{ValidatedToolCall}
use venice_e2ee_proxy.Stream.{StreamOutput}
use venice_e2ee_proxy.Stream.Chunk.{
  ChunkContext, chunk_with_choice, chunk_head, choice_value, usage_chunk,
}
use venice_e2ee_proxy.Stream.Plain.{role_entry, empty_delta}
use venice_e2ee_proxy.Stream.Roles.{
  first, choice_of, has_role, not_null, finishes, bit, count, count-append,
}
use venice_e2ee_proxy.Stream.Tool.{
  Transformer, delta_chunk, text_field_chunk, text_chunk_if_not_empty, full_tool_call_chunk,
  tool_call_chunks,
}

-- With the outputs, as many roles and finish reasons are sent in all as the transformer has noted.
unfoldable pub Once : Bool → Bool → Transformer × List StreamOutput → Type 0
Once role finished (t, outputs) =
    (bit role + count has_role outputs ≡ bit t.sent_role)
    × (bit finished + count finishes outputs ≡ bit t.sent_final_finish)

pub Once-nothing : (t : Transformer) → Once t.sent_role t.sent_final_finish (t, [])
unfolding Once count
Once-nothing t = (omega arith, omega arith)

pub Once-append :
    (role finished : Bool) (t t' : Transformer) (xs ys : List StreamOutput)
    → Once role finished (t, xs)
    → Once t.sent_role t.sent_final_finish (t', ys)
    → Once role finished (t', xs ++ ys)
unfolding Once
Once-append role finished t t' xs ys (r, f) (r', f') = (
  omega (arith, r, r', count-append has_role xs ys),
  omega (arith, f, f', count-append finishes xs ys),
)

-- A delta with one entry other than the role, after the role if it was not sent.
delta_role :
    (ctx : ChunkContext) (upstream : Value) (index : ℕ) (name : Text) (value : Value) (sent : Bool)
    → text_eq name (text "role") ≡ false
    → has_role (
        StreamOutput.json (
          chunk_with_choice ctx upstream index
            (object (from_entries (role_entry sent ++ (name, value) ∷ [])))
            null))
      ≡ not sent
unfolding has_role choice_of first chunk_with_choice chunk_head choice_value role_entry Dict.get
    text_eq
delta_role ctx upstream index name value true e = ground (arith, e)
delta_role ctx upstream index name value false e = refl

-- A chunk whose delta has such an entry.
pub delta_chunk-Once :
    (t : Transformer) (upstream : Value) (index : ℕ) (name : Text) (value : Value)
    → text_eq name (text "role") ≡ false
    → let (t', chunk) = delta_chunk t upstream index ((name, value) ∷ []) in
      Once t.sent_role t.sent_final_finish (t', chunk ∷ [])
unfolding delta_chunk Once count finishes choice_of first not_null chunk_with_choice chunk_head
    choice_value Dict.get text_eq
delta_chunk-Once t upstream index name value e =
    (ground (arith, delta_role t.ctx upstream index name value t.sent_role e), omega arith)

pub text_chunk_if_not_empty-Once :
    (t : Transformer) (upstream : Value) (index : ℕ) (content : Text)
    → Once t.sent_role t.sent_final_finish (text_chunk_if_not_empty t upstream index content)
unfolding text_chunk_if_not_empty text_field_chunk text_eq
text_chunk_if_not_empty-Once t upstream index [] = Once-nothing t
text_chunk_if_not_empty-Once t upstream index (c ∷ content) =
    delta_chunk-Once t upstream index (text "content") (string (c ∷ content)) refl

pub tool_call_chunks-Once :
    (t : Transformer) (upstream : Value) (index tool_index : ℕ) (calls : List ValidatedToolCall)
    → Once t.sent_role t.sent_final_finish (tool_call_chunks t upstream index tool_index calls)
unfolding tool_call_chunks full_tool_call_chunk text_eq delta_chunk
tool_call_chunks-Once t upstream index tool_index [] = Once-nothing t
tool_call_chunks-Once t upstream index tool_index (call ∷ calls) =
    let (t', chunk) = full_tool_call_chunk t upstream index tool_index call in
    let (t'', chunks) = tool_call_chunks t' upstream index (suc tool_index) calls in
    Once-append t.sent_role t.sent_final_finish t' t'' (chunk ∷ []) chunks
      (delta_chunk-Once t upstream index (text "tool_calls") _ refl)
      (tool_call_chunks-Once t' upstream index (suc tool_index) calls)

-- The finish chunk, from a transformer that has not sent one.
pub finish_chunk-Once :
    (t : Transformer) (upstream : Value) (index : ℕ) (reason : Value)
    → t.sent_final_finish ≡ false
    → is_null reason ≡ false
    → Once t.sent_role t.sent_final_finish (
      record t { sent_final_finish = true },
      StreamOutput.json (chunk_with_choice t.ctx upstream index empty_delta reason) ∷ [],
    )
unfolding Once count has_role finishes choice_of first not_null chunk_with_choice chunk_head
    choice_value Dict.get text_eq
finish_chunk-Once t upstream index reason e k = (omega arith, ground (arith, e, k))

pub usage_chunk-Once :
    (t : Transformer) (upstream usage : Value)
    → Once t.sent_role t.sent_final_finish
        (t, StreamOutput.json (usage_chunk t.ctx upstream usage) ∷ [])
unfolding Once count has_role finishes choice_of first not_null usage_chunk chunk_head Dict.get
    text_eq
usage_chunk-Once t upstream usage = (omega arith, omega arith)

pub done-Once : (t : Transformer) → Once t.sent_role t.sent_final_finish (t, StreamOutput.done ∷ [])
unfolding Once count has_role finishes choice_of not_null
done-Once t = (omega arith, omega arith)
