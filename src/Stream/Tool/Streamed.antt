-- ===== src/Stream/Tool/Streamed.antt =====
-- What the tool-emulated transformer streams of the decrypted text, in whatever pieces it comes.
use venice_e2ee_proxy.Base.{
  ℕ, ◌+◌, ◌-◌, ◌≤◌, ◌≡◌, refl, sym, ap, subst, ◌∙◌, ◌⊎◌, inl, inr, Bool, true, false, List, [], ◌∷◌,
  ◌++◌, Option, none, some, and_then, unwrap_or, arith, Bool-cases, if◌then◌else◌, leb, append-nil,
  Result, ok,
}
use venice_e2ee_proxy.Text.{Text, text, text_eq, len_utf8}
use venice_e2ee_proxy.Text.Search.{find, starts_with}
use venice_e2ee_proxy.Text.Bytes.{byte_len}
use venice_e2ee_proxy.Text.Marker.{Clear, IsAscii, Clear-extend}
use venice_e2ee_proxy.Dict
use venice_e2ee_proxy.Json.{Value, get, as_array, as_str, items}
use venice_e2ee_proxy.Stream.{StreamLib, StreamError, StreamOutput}
use venice_e2ee_proxy.Stream.Chunk.{chunk_with_choice, chunk_head, choice_value}
use venice_e2ee_proxy.Stream.Plain.{role_entry}
use venice_e2ee_proxy.Stream.Tool.{
  Transformer, tool_call_start_marker, split_within, streamable_pending_text, delta_chunk,
  text_field_chunk, text_chunk_if_not_empty,
}

abbrev pub marker : Text
marker = tool_call_start_marker

unfoldable first : List Value → Option Value
first [] = none
first (v ∷ vs) = some v

-- The text that a client reads in an output: the content of its choice's delta.
unfoldable pub streamed_content : StreamOutput → Text
unfolding first
streamed_content StreamOutput.done = []
streamed_content (StreamOutput.json value) =
    unwrap_or
      (and_then (and_then (get (text "choices") value) as_array) (λ choices.
        and_then (first (items choices)) (λ choice.
          and_then (get (text "delta") choice)
            (λ delta. and_then (get (text "content") delta) as_str))))
      []

unfoldable pub streamed_contents : List StreamOutput → Text
streamed_contents [] = []
streamed_contents (o ∷ os) = streamed_content o ++ streamed_contents os

streamed_content-text :
    (t : Transformer) (upstream : Value) (index : ℕ) (content : Text)
    → streamed_content (text_field_chunk t upstream index (text "content") content).1 ≡ content
unfolding streamed_content text_field_chunk delta_chunk chunk_with_choice chunk_head choice_value
    role_entry Dict.get text_eq first
streamed_content-text t upstream index content = elim (Bool-cases t.sent_role) [
  | inl e ↦ rw e
  | inr e ↦ rw e
]

-- A chunk of the text, or none for an empty text: the text streamed is that text, and what is held
-- back stays.
pub text_chunk :
    (t : Transformer) (upstream : Value) (index : ℕ) (content : Text)
    → let (t', outputs) = text_chunk_if_not_empty t upstream index content in
      (streamed_contents outputs ≡ content)
      × (t'.pending_text ≡ t.pending_text)
      × (t'.tool_buffer ≡ t.tool_buffer)
      × (t'.buffering_tool_call ≡ t.buffering_tool_call)
      × (t'.suppress_normal_output ≡ t.suppress_normal_output)
unfolding text_chunk_if_not_empty streamed_contents text_field_chunk delta_chunk
text_chunk t upstream index [] = (refl, refl, refl, refl, refl)
text_chunk t upstream index (c ∷ content) =
    (append-nil _ ∙ streamed_content-text t upstream index (c ∷ content), refl, refl, refl, refl)

one_more :
    (b : Bool) (n c : ℕ) (s before after : Text)
    → leb (len_utf8 c) n ≡ b
    → before ++ after ≡ s
    → byte_len s ≤ n - len_utf8 c + byte_len after
    → let (x, y) = if◌then◌else◌ {A = Text × Text} b (c ∷ before, after) ([], c ∷ s) in
      (x ++ y ≡ c ∷ s) × (len_utf8 c + byte_len s ≤ n + byte_len y)
unfolding byte_len
one_more true n c s before after e whole bytes = (ap (λ z. c ∷ z) whole, ground (arith, e, bytes))
one_more false n c s before after e whole bytes = (refl, omega arith)

split_within-append :
    (n : ℕ) (s : Text)
    → let (before, after) = split_within n s in
      (before ++ after ≡ s) × (byte_len s ≤ n + byte_len after)
unfolding split_within byte_len
split_within-append n [] = (refl, omega arith)
split_within-append n (c ∷ s) =
    let (whole, bytes) = split_within-append (n - len_utf8 c) s in
    one_more (leb (len_utf8 c) n) n c s _ _ refl whole bytes

cut :
    (b : Bool) (s : Text) (p : Text × Text)
    → leb (byte_len s) 10 ≡ b
    → (p.0 ++ p.1 ≡ s) × (byte_len s ≤ (byte_len s - 10) + byte_len p.1)
    → let (streamed, kept) = if◌then◌else◌ {A = Text × Text} b ([], s) p in
      (streamed ++ kept ≡ s) × ((streamed ≡ []) ⊎ (10 ≤ byte_len kept))
cut true s p e (whole, bytes) = (refl, inl refl)
cut false s p e (whole, bytes) = (whole, inr (ground (arith, e, bytes)))

-- Cutting a text loses nothing, and holds back all of it or ten bytes at least.
pub streamable_pending_text-append :
    (s : Text)
    → let (streamed, kept) = streamable_pending_text s in
      (streamed ++ kept ≡ s) × ((streamed ≡ []) ⊎ (10 ≤ byte_len kept))
unfolding streamable_pending_text byte_len len_utf8
streamable_pending_text-append s =
    cut (leb (byte_len s) 10) s _ refl (split_within-append (byte_len s - 10) s)

-- What a transformer holds back of the text it was given.
unfoldable pub held : Transformer → Text
held t = t.pending_text ++ t.tool_buffer

-- Before the marker the tool buffer is empty, from it on the pending text is, and the tool buffer
-- starts with it.
unfoldable pub Phase : Bool → Text → Text → Type 0
Phase true pending buffer =
    (pending ≡ []) × (starts_with marker buffer ≡ true) × (10 ≤ byte_len buffer)
Phase false pending buffer = (buffer ≡ []) × (find marker pending ≡ none)

-- The text streamed so far, and how the transformer goes on from it.
unfoldable pub IsStreaming : Text → Transformer → Type 0
IsStreaming streamed t =
    Clear marker streamed (held t)
    × ((streamed ≡ []) ⊎ (10 ≤ byte_len (held t)))
    × Phase t.buffering_tool_call t.pending_text t.tool_buffer
    × (t.suppress_normal_output ≡ false)

marker-IsAscii : IsAscii marker
unfolding IsAscii len_utf8
marker-IsAscii =
    (refl, (refl, (refl, (refl, (refl, (refl, (refl, (refl, (refl, (refl, (refl, tt)))))))))))

-- Enough is held back for more text to be safe.
pub Clear-more :
    (streamed kept more : Text)
    → Clear marker streamed kept
    → (streamed ≡ []) ⊎ (10 ≤ byte_len kept)
    → Clear marker streamed (kept ++ more)
unfolding Clear
Clear-more streamed kept more h (inl e) = subst (λ z. Clear marker z (kept ++ more)) (sym e) tt
Clear-more streamed kept more h (inr e) =
    Clear-extend marker streamed kept more marker-IsAscii (omega (arith, e)) h

-- A step of the transformer: it succeeds, the text goes into what is streamed and what is held
-- back, and the transformer still streams.
unfoldable pub Step :
    (lib : StreamLib)
    → Text
    → Transformer
    → Text
    → Result (StreamError lib) (Transformer × List StreamOutput)
    → Type 0
Step lib streamed t content result =
    (t' : Transformer) × (outputs : List StreamOutput) × (result ≡ ok (t', outputs))
    × (streamed_contents outputs ++ held t' ≡ held t ++ content)
    × IsStreaming (streamed ++ streamed_contents outputs) t'
