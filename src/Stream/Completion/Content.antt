-- ===== src/Stream/Completion/Content.antt =====
-- The buffered completion's content is the decrypted content of the events before the stream's end,
-- in order.
use venice_e2ee_proxy.Base.{
  map_err-ok, ok-injective, ◌≡◌, sym, ap, ◌∙◌, Bool, true, false, Option, none, Result, ok, err,
  map_err, List, [], ◌∷◌, ◌++◌, unwrap_or, append_assoc, append-nil, ok_of_bind, arith,
  if◌then◌else◌,
}
use venice_e2ee_proxy.Text.{Text}
use venice_e2ee_proxy.Json.{Value}
use venice_e2ee_proxy.Stream.{
  StreamLib, StreamError, RawSseEvent, malformed_event, decrypt_field, decrypt,
}
use venice_e2ee_proxy.Stream.Classify.{
  UpstreamEventKind, done, usage, choice, classify_upstream_event, read_choice, read_index,
  read_usage,
}
use venice_e2ee_proxy.Stream.Completion.{
  OpenAiChatCompletionBuffer, handle_event, handle_kind, handle_choice_chunk, handle_done,
  same_index, append_choice, record_metadata, close,
}
use venice_e2ee_proxy.Stream.Completion.Loop.{handle_all}

module _ (lib : StreamLib) where
  -- The decrypted content of one choice: nothing where there is none or it does not decrypt.
  unfoldable pub choice_content : Value → Text
  choice_content value = elim (read_choice value) [
    | err e ↦ []
    | ok c ↦ elim (decrypt_field lib c.content) [ err e ↦ [] | ok content ↦ unwrap_or content [] ]
  ]

  unfoldable pub content_before_end : List RawSseEvent → Text
  content_before_end [] = []
  content_before_end (e ∷ es) = elim (classify_upstream_event lib e) [
    | err why ↦ []
    | ok done ↦ []
    | ok (usage value) ↦ content_before_end es
    | ok (choice value c) ↦ choice_content c ++ content_before_end es
  ]

  handle_choice_chunk-content :
      (b b' : OpenAiChatCompletionBuffer) (value : Value)
      → handle_choice_chunk lib b value ≡ ok b'
      → b'.content ≡ b.content ++ choice_content value
  unfolding handle_choice_chunk append_choice choice_content
  handle_choice_chunk-content b b' value h =
      let (index, e1, h1) = ok_of_bind (map_err malformed_event (read_index value)) _ h in
      let (same, e2, h2) =
        ok_of_bind (map_err malformed_event (same_index b.choice_index index)) _ h1 in
      let (c, e3, h3) = ok_of_bind (map_err malformed_event (read_choice value)) _ h2 in
      let (content, e4, h4) = ok_of_bind (decrypt_field lib c.content) _ h3 in
      let (reasoning, e5, h5) = ok_of_bind (decrypt_field lib c.reasoning_content) _ h4 in
      let read = map_err-ok malformed_event (read_choice value) e3 in
      ap (λ (x : OpenAiChatCompletionBuffer). x.content) (sym (ok-injective h5))
      ∙ ap (λ z. b.content ++ z) (ground (arith, read, e4))

  -- Whether the kind ends the stream, and what it adds to the content.
  unfoldable pub is_end : UpstreamEventKind → Bool
  is_end done = true
  is_end (usage value) = false
  is_end (choice value c) = false

  unfoldable added : UpstreamEventKind → Text
  added done = []
  added (usage value) = []
  added (choice value c) = choice_content c

  unfoldable Handled :
      OpenAiChatCompletionBuffer → UpstreamEventKind → Bool × OpenAiChatCompletionBuffer → Type 0
  Handled b kind (ended, b') = (ended ≡ is_end kind) × (b'.content ≡ b.content ++ added kind)

  handle_kind-content :
      (b : OpenAiChatCompletionBuffer) (kind : UpstreamEventKind)
      (r : Bool × OpenAiChatCompletionBuffer)
      → handle_kind lib b kind ≡ ok r
      → Handled b kind r
  unfolding handle_kind is_end added Handled record_metadata handle_done close
  handle_kind-content b done (ended, b') h =
      let (closed, e, h') = ok_of_bind (handle_done lib b) _ h in
      let (checked, e', h'') =
        ok_of_bind
          (if◌then◌else◌ {A = Result (StreamError lib) (Option Text)} b.saw_encrypted_response_field
            (ok none) (decrypt lib none))
          _ e in
      let same = ok-injective h' in
      (
        sym (ap (λ (x : Bool × OpenAiChatCompletionBuffer). x.0) same),
        ap (λ (x : Bool × OpenAiChatCompletionBuffer). x.1.content) (sym same)
            ∙ ap (λ (x : OpenAiChatCompletionBuffer). x.content) (sym (ok-injective h''))
            ∙ sym (append-nil b.content),
      )
  handle_kind-content b (usage value) (ended, b') h =
      let (u, e, h') = ok_of_bind (map_err malformed_event (read_usage value)) _ h in
      let same = ok-injective h' in
      (
        sym (ap (λ (x : Bool × OpenAiChatCompletionBuffer). x.0) same),
        ap (λ (x : Bool × OpenAiChatCompletionBuffer). x.1.content) (sym same)
            ∙ sym (append-nil b.content),
      )
  handle_kind-content b (choice value c) (ended, b') h =
      let (after, e, h') = ok_of_bind (handle_choice_chunk lib (record_metadata b value) c) _ h in
      let same = ok-injective h' in
      (
        sym (ap (λ (x : Bool × OpenAiChatCompletionBuffer). x.0) same),
        ap (λ (x : Bool × OpenAiChatCompletionBuffer). x.1.content) (sym same)
            ∙ handle_choice_chunk-content (record_metadata b value) after c e,
      )

  goes_on :
      (es : List RawSseEvent) (b b' : OpenAiChatCompletionBuffer)
      (r : Bool × OpenAiChatCompletionBuffer) (e : RawSseEvent) (kind : UpstreamEventKind)
      (ended : Bool)
      → classify_upstream_event lib e ≡ ok kind
      → ended ≡ is_end kind
      → b'.content ≡ b.content ++ added kind
      → elim ended [ true ↦ ok ((true, b')) | false ↦ handle_all lib b' es ] ≡ ok r
      → (handle_all lib b' es ≡ ok r → r.1.content ≡ b'.content ++ content_before_end es)
      → r.1.content ≡ b.content ++ content_before_end (e ∷ es)
  unfolding is_end added content_before_end
  goes_on es b b' r e done true k end more h rest =
      ap (λ (x : Bool × OpenAiChatCompletionBuffer). x.1.content) (sym (ok-injective h))
      ∙ more
      ∙ ap (λ z. b.content ++ z) (ground (arith, k))
  goes_on es b b' r e (usage value) false k end more h rest =
      rest h
      ∙ ap (λ z. z ++ content_before_end es) (more ∙ append-nil b.content)
      ∙ ap (λ z. b.content ++ z) (ground (arith, k))
  goes_on es b b' r e (choice value c) false k end more h rest =
      rest h
      ∙ ap (λ z. z ++ content_before_end es) more
      ∙ append_assoc b.content (choice_content c) (content_before_end es)
      ∙ ap (λ z. b.content ++ z) (ground (arith, k))
  goes_on es b b' r e done false k end more h rest = cc
  goes_on es b b' r e (usage value) true k end more h rest = cc
  goes_on es b b' r e (choice value c) true k end more h rest = cc

  -- When the events of a body are all handled, what they add to the content is the decrypted
  -- content of their choices, in order, up to the event that ends the stream.
  pub handle_all-content :
      (events : List RawSseEvent) (b : OpenAiChatCompletionBuffer)
      (r : Bool × OpenAiChatCompletionBuffer)
      → handle_all lib b events ≡ ok r
      → r.1.content ≡ b.content ++ content_before_end events
  unfolding handle_all content_before_end handle_event Handled added is_end
  handle_all-content [] b r h =
      ap (λ (x : Bool × OpenAiChatCompletionBuffer). x.1.content) (sym (ok-injective h))
      ∙ sym (append-nil b.content)
  handle_all-content (e ∷ es) b r h =
      let ((ended, b'), e1, h1) = ok_of_bind (handle_event lib b e) _ h in
      let (kind, e2, h2) = ok_of_bind (classify_upstream_event lib e) _ e1 in
      let (end, more) = handle_kind-content b kind (ended, b') h2 in
      goes_on es b b' r e kind ended e2 end more h1 (handle_all-content es b' r)
