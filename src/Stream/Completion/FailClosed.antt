-- ===== src/Stream/Completion/FailClosed.antt =====
-- A codec that demands encrypted content: a buffered completion is answered only when an event
-- before the stream's end had an encrypted field.
use venice_e2ee_proxy.Base.{
  map_err-ok, ok-injective, ◌≡◌, refl, sym, ap, ◌∙◌, Bool, true, false, Option, none, Result, ok,
  err, map_err, List, [], ◌∷◌, ◌||◌, ◌⊎◌, inl, inr, is_some, ok_of_bind, arith, if◌then◌else◌,
}
use venice_e2ee_proxy.Text.{Text}
use venice_e2ee_proxy.Json.{Value}
use venice_e2ee_proxy.Stream.{
  StreamLib, StreamError, RawSseEvent, malformed_event, decrypt_field, decrypt,
}
use venice_e2ee_proxy.Stream.Classify.{
  UpstreamEventKind, done, usage, choice, classify_upstream_event, read_choice, read_index,
  read_usage,
}
use venice_e2ee_proxy.Stream.Chunk.{ChunkContext}
use venice_e2ee_proxy.Stream.Completion.{
  OpenAiChatCompletionBuffer, handle_event, handle_kind, handle_choice_chunk, handle_done,
  same_index, append_choice, record_metadata, close, new_buffer,
}
use venice_e2ee_proxy.Stream.Completion.Content.{is_end}
use venice_e2ee_proxy.Stream.Completion.Loop.{handle_all}

or_assoc : (a b c : Bool) → ((a || b) || c) ≡ (a || (b || c))
or_assoc true b c = refl
or_assoc false b c = refl

or_false : (a : Bool) → (a || false) ≡ a
or_false true = refl
or_false false = refl

-- Whether a choice has an encrypted field.
unfoldable pub choice_encrypted : Value → Bool
choice_encrypted value = elim (read_choice value) [
  | err e ↦ false
  | ok c ↦ is_some c.content || is_some c.reasoning_content
]

module _ (lib : StreamLib) where
  unfoldable pub encrypted_before_end : List RawSseEvent → Bool
  encrypted_before_end [] = false
  encrypted_before_end (e ∷ es) = elim (classify_upstream_event lib e) [
    | err why ↦ false
    | ok done ↦ false
    | ok (usage value) ↦ encrypted_before_end es
    | ok (choice value c) ↦ choice_encrypted c || encrypted_before_end es
  ]

  handle_choice_chunk-encrypted :
      (b b' : OpenAiChatCompletionBuffer) (value : Value)
      → handle_choice_chunk lib b value ≡ ok b'
      → b'.saw_encrypted_response_field ≡ (b.saw_encrypted_response_field || choice_encrypted value)
  unfolding handle_choice_chunk append_choice choice_encrypted
  handle_choice_chunk-encrypted b b' value h =
      let saw = b.saw_encrypted_response_field in
      let (index, e1, h1) = ok_of_bind (map_err malformed_event (read_index value)) _ h in
      let (same, e2, h2) =
        ok_of_bind (map_err malformed_event (same_index b.choice_index index)) _ h1 in
      let (c, e3, h3) = ok_of_bind (map_err malformed_event (read_choice value)) _ h2 in
      let (content, e4, h4) = ok_of_bind (decrypt_field lib c.content) _ h3 in
      let (reasoning, e5, h5) = ok_of_bind (decrypt_field lib c.reasoning_content) _ h4 in
      let read = map_err-ok malformed_event (read_choice value) e3 in
      ap (λ (x : OpenAiChatCompletionBuffer). x.saw_encrypted_response_field)
        (sym (ok-injective h5))
      ∙ or_assoc saw (is_some c.content) (is_some c.reasoning_content)
      ∙ ap (λ z. saw || z) (ground (arith, read))

  unfoldable added : UpstreamEventKind → Bool
  added done = false
  added (usage value) = false
  added (choice value c) = choice_encrypted c

  -- What handling an event of this kind leaves, when a missing field is an error.
  unfoldable Handled :
      OpenAiChatCompletionBuffer → UpstreamEventKind → Bool × OpenAiChatCompletionBuffer → Type 0
  Handled b kind (ended, b') =
      (ended ≡ is_end lib kind)
      × (b'.saw_encrypted_response_field ≡ (b.saw_encrypted_response_field || added kind))
      × ((ended ≡ false) ⊎ (b.saw_encrypted_response_field ≡ true))

  saw_or_fails :
      (saw : Bool) (why : StreamError lib) (checked : Option Text)
      → decrypt lib none ≡ err why
      → (if◌then◌else◌ {A = Result (StreamError lib) (Option Text)} saw
          (ok none)
          (decrypt lib none))
        ≡ ok checked
      → saw ≡ true
  saw_or_fails true why checked demand h = refl
  saw_or_fails false why checked demand h = cc

  handle_kind-encrypted :
      (why : StreamError lib) (b : OpenAiChatCompletionBuffer) (kind : UpstreamEventKind)
      (r : Bool × OpenAiChatCompletionBuffer)
      → decrypt lib none ≡ err why
      → handle_kind lib b kind ≡ ok r
      → Handled b kind r
  unfolding handle_kind is_end added Handled record_metadata handle_done close
  handle_kind-encrypted why b done (ended, b') demand h =
      let (closed, e, h') = ok_of_bind (handle_done lib b) _ h in
      let (checked, e', h'') =
        ok_of_bind
          (if◌then◌else◌ {A = Result (StreamError lib) (Option Text)} b.saw_encrypted_response_field
            (ok none) (decrypt lib none))
          _ e in
      let same = ok-injective h' in
      (
        sym (ap (λ (x : Bool × OpenAiChatCompletionBuffer). x.0) same),
        ap (λ (x : Bool × OpenAiChatCompletionBuffer). x.1.saw_encrypted_response_field) (sym same)
            ∙ ap (λ (x : OpenAiChatCompletionBuffer). x.saw_encrypted_response_field)
                (sym (ok-injective h''))
            ∙ sym (or_false b.saw_encrypted_response_field),
        inr (saw_or_fails b.saw_encrypted_response_field why checked demand e'),
      )
  handle_kind-encrypted why b (usage value) (ended, b') demand h =
      let (u, e, h') = ok_of_bind (map_err malformed_event (read_usage value)) _ h in
      let same = ok-injective h' in
      let end = sym (ap (λ (x : Bool × OpenAiChatCompletionBuffer). x.0) same) in
      (
        end,
        ap (λ (x : Bool × OpenAiChatCompletionBuffer). x.1.saw_encrypted_response_field) (sym same)
            ∙ sym (or_false b.saw_encrypted_response_field),
        inl end,
      )
  handle_kind-encrypted why b (choice value c) (ended, b') demand h =
      let (after, e, h') = ok_of_bind (handle_choice_chunk lib (record_metadata b value) c) _ h in
      let same = ok-injective h' in
      let end = sym (ap (λ (x : Bool × OpenAiChatCompletionBuffer). x.0) same) in
      (
        end,
        ap (λ (x : Bool × OpenAiChatCompletionBuffer). x.1.saw_encrypted_response_field) (sym same)
            ∙ handle_choice_chunk-encrypted (record_metadata b value) after c e,
        inl end,
      )

  goes_on :
      (es : List RawSseEvent) (b b' b'' : OpenAiChatCompletionBuffer) (e : RawSseEvent)
      (kind : UpstreamEventKind) (ended : Bool)
      → classify_upstream_event lib e ≡ ok kind
      → Handled b kind (ended, b')
      → elim ended [ true ↦ ok ((true, b')) | false ↦ handle_all lib b' es ] ≡ ok ((true, b''))
      → (handle_all lib b' es ≡ ok ((true, b''))
          → (b'.saw_encrypted_response_field || encrypted_before_end es) ≡ true)
      → (b.saw_encrypted_response_field || encrypted_before_end (e ∷ es)) ≡ true
  unfolding is_end added encrypted_before_end Handled
  goes_on es b b' b'' e done true k (end, saw, inr seen) h rest = ground (arith, seen)
  goes_on es b b' b'' e done true k (end, saw, inl on) h rest = cc
  goes_on es b b' b'' e (usage value) false k (end, saw, ended) h rest =
      ground (arith, rest h, saw, k)
  goes_on es b b' b'' e (choice value c) false k (end, saw, ended) h rest =
      ground (arith, rest h, saw, k)
  goes_on es b b' b'' e done false k (end, saw, ended) h rest = cc
  goes_on es b b' b'' e (usage value) true k (end, saw, ended) h rest = cc
  goes_on es b b' b'' e (choice value c) true k (end, saw, ended) h rest = cc

  handle_all-encrypted :
      (why : StreamError lib) (events : List RawSseEvent) (b b' : OpenAiChatCompletionBuffer)
      → decrypt lib none ≡ err why
      → handle_all lib b events ≡ ok ((true, b'))
      → (b.saw_encrypted_response_field || encrypted_before_end events) ≡ true
  unfolding handle_all handle_event
  handle_all-encrypted why [] b b' demand h = cc
  handle_all-encrypted why (e ∷ es) b b' demand h =
      let ((ended, after), e1, h1) = ok_of_bind (handle_event lib b e) _ h in
      let (kind, e2, h2) = ok_of_bind (classify_upstream_event lib e) _ e1 in
      let handled = handle_kind-encrypted why b kind (ended, after) demand h2 in
      goes_on es b after b' e kind ended e2 handled h1 (handle_all-encrypted why es after b' demand)

  -- Where the codec refuses a missing encrypted field, the events of a body that reach the stream's
  -- end without an error have an encrypted field before it.
  pub handle_all-new_buffer :
      (why : StreamError lib) (ctx : ChunkContext) (events : List RawSseEvent)
      (b : OpenAiChatCompletionBuffer)
      → decrypt lib none ≡ err why
      → handle_all lib (new_buffer ctx) events ≡ ok ((true, b))
      → encrypted_before_end events ≡ true
  unfolding new_buffer
  handle_all-new_buffer why ctx events b demand h =
      handle_all-encrypted why events (new_buffer ctx) b demand h
