-- ===== src/Stream/Plain/Whole.antt =====
-- Over a whole plain stream the role is sent at most once, and a finish reason is sent.
use venice_e2ee_proxy.Base.{
  ok-injective, ◌≤◌, ◌≡◌, refl, sym, ap, ◌∙◌, subst, Bool, true, false, List, [], ◌∷◌, ◌++◌, Option,
  Result, ok, ◌>>=◌, map_err, arith, if◌then◌else◌, ok_of_bind, is_some, is_none, ◌||◌, ◌&&◌,
}
use venice_e2ee_proxy.Text.{Text}
use venice_e2ee_proxy.Json.{Value, is_null}
use venice_e2ee_proxy.Stream.{
  StreamLib, StreamError, StreamOutput, RawSseEvent, malformed_event, decrypt_field,
}
use venice_e2ee_proxy.Stream.Chunk.{ChunkContext, usage_chunk}
use venice_e2ee_proxy.Stream.Classify.{
  UpstreamEventKind, done, usage, choice, classify_upstream_event, Choice, read_choice, read_usage,
  normalized_choice_index,
}
use venice_e2ee_proxy.Stream.Sends.{Sends, Sends-bind, Sends-if, Sends-ok}
use venice_e2ee_proxy.Stream.Roles.{has_role, finishes, bit, count}
use venice_e2ee_proxy.Stream.Plain.{
  OpenAiChatStreamTransformer, new_transformer, finish_only, decrypted_choice, handle_choice_chunk,
  handle_usage_chunk, handle_kind, handle_event,
}
use venice_e2ee_proxy.Stream.Plain.Once.{
  Sent, Noted, Noted-nothing, Noted-append, finish_outputs-count, text_outputs-Noted,
  usage_chunk-Noted, done-Noted,
}

at_most_one : (b : Bool) → bit b ≤ 1
at_most_one true = omega arith
at_most_one false = omega arith

module _ (lib : StreamLib) where
  finish_only-Noted :
      (t : OpenAiChatStreamTransformer) (value : Value) (c : Choice)
      → Sends (Noted t) (finish_only lib t value c)
  unfolding finish_only Sends Noted
  finish_only-Noted t value c =
      Sends-if (Noted t) (is_null c.finish_reason) _ _ (λ e. Noted-nothing t)
        (λ e.
          Sends-bind (Noted t) (map_err malformed_event (normalized_choice_index c.index)) _
            (λ index h.
              let (roles, finished) = finish_outputs-count t.ctx value index c.finish_reason in
              (omega (arith, roles), ground (arith, finished, e))))

  decrypted_choice-Noted :
      (t : OpenAiChatStreamTransformer) (value : Value) (c : Choice)
      (content reasoning : Option Text)
      → Sends (Noted t) (decrypted_choice lib t value c content reasoning)
  unfolding decrypted_choice Sends
  decrypted_choice-Noted t value c content reasoning =
      Sends-if (Noted t) (is_some content || is_some reasoning) _ _
        (λ e.
          Sends-bind (Noted t) (map_err malformed_event (normalized_choice_index c.index)) _
            (λ index h. text_outputs-Noted t value index content reasoning c.finish_reason))
        (λ e. Noted-nothing t)

  handle_choice_chunk-Noted :
      (t : OpenAiChatStreamTransformer) (value c : Value)
      → Sends (Noted t) (handle_choice_chunk lib t value c)
  unfolding handle_choice_chunk
  handle_choice_chunk-Noted t value v =
      Sends-bind (Noted t) (map_err malformed_event (read_choice v)) _ (λ c e1.
        Sends-bind (Noted t) (decrypt_field lib c.content) _ (λ content e2.
          Sends-bind (Noted t) (decrypt_field lib c.reasoning_content) _ (λ reasoning e3.
            Sends-if (Noted t) (is_none c.content && is_none c.reasoning_content) _ _
              (λ e. finish_only-Noted t value c)
              (λ e. decrypted_choice-Noted t value c content reasoning))))

  asked :
      (t : OpenAiChatStreamTransformer) (b : Bool) (value u : Value) (outputs : List StreamOutput)
      → ◌≡◌ {A = Result (StreamError lib) (List StreamOutput)}
          (if b then ok (StreamOutput.json (usage_chunk t.ctx value u) ∷ []) else ok [])
          (ok outputs)
      → Noted t (t, outputs)
  asked t true value u outputs h =
      subst (λ o. Noted t (t, o)) (ok-injective h) (usage_chunk-Noted t value u)
  asked t false value u outputs h = subst (λ o. Noted t (t, o)) (ok-injective h) (Noted-nothing t)

  usage_outputs-Noted :
      (t : OpenAiChatStreamTransformer) (value : Value) (outputs : List StreamOutput)
      → handle_usage_chunk lib t value ≡ ok outputs
      → Noted t (t, outputs)
  unfolding handle_usage_chunk
  usage_outputs-Noted t value outputs h =
      let (u, e, h') = ok_of_bind (map_err malformed_event (read_usage value)) _ h in
      asked t t.include_usage_requested value u outputs h'

  handle_kind-Noted :
      (t : OpenAiChatStreamTransformer) (kind : UpstreamEventKind)
      → Sends (Noted t) (handle_kind lib t kind)
  unfolding handle_kind Sends
  handle_kind-Noted t done = done-Noted t t.sent_final_finish refl
  handle_kind-Noted t (usage value) =
      Sends-bind (Noted t) (handle_usage_chunk lib t value) _
        (λ outputs e. usage_outputs-Noted t value outputs e)
  handle_kind-Noted t (choice value c) = handle_choice_chunk-Noted t value c

  handle_event-Noted :
      (t : OpenAiChatStreamTransformer) (event : RawSseEvent)
      → Sends (Noted t) (handle_event lib t event)
  unfolding handle_event
  handle_event-Noted t event =
      Sends-bind (Noted t) (classify_upstream_event lib event) _
        (λ kind e. handle_kind-Noted t kind)

  -- The events of a stream, one after another.
  unfoldable pub handle_events :
      OpenAiChatStreamTransformer → List RawSseEvent → Result (StreamError lib) Sent
  handle_events t [] = ok (t, [])
  handle_events t (e ∷ es) = handle_event lib t e >>= λ sent.
      handle_events sent.0 es >>= λ more. ok ((more.0, sent.1 ++ more.1))

  handle_events-Noted :
      (es : List RawSseEvent) (t : OpenAiChatStreamTransformer)
      → Sends (Noted t) (handle_events t es)
  unfolding handle_events Sends
  handle_events-Noted [] t = Noted-nothing t
  handle_events-Noted (e ∷ es) t = Sends-bind (Noted t) (handle_event lib t e) _ (λ sent h.
      Sends-bind (Noted t) (handle_events sent.0 es) _ (λ more k.
        Noted-append t sent.0 more.0 sent.1 more.1
          (Sends-ok (Noted t) _ sent (handle_event-Noted t e) h)
          (Sends-ok (Noted sent.0) _ more (handle_events-Noted es sent.0) k)))

  finished :
      (t t' : OpenAiChatStreamTransformer) (last : RawSseEvent) (end : List StreamOutput)
      → classify_upstream_event lib last ≡ ok done
      → handle_event lib t last ≡ ok (t', end)
      → t'.sent_final_finish ≡ true
  unfolding handle_event handle_kind
  finished t t' last end k h =
      let (kind, e, h') = ok_of_bind (classify_upstream_event lib last) _ h in
      let ended = subst (λ x. handle_kind lib t x ≡ ok (t', end)) (ok-injective (sym e ∙ k)) h' in
      sym (ap (λ (x : Sent). x.0.sent_final_finish) (ok-injective ended))

  -- A plain stream handled up to the event that ends it has sent a finish reason and at most one
  -- role, whatever its events were.
  pub handle_events_once :
      (ctx : ChunkContext) (include_usage : Bool) (es : List RawSseEvent) (last : RawSseEvent)
      (t t' : OpenAiChatStreamTransformer) (sent end : List StreamOutput)
      → handle_events (new_transformer ctx include_usage) es ≡ ok (t, sent)
      → classify_upstream_event lib last ≡ ok done
      → handle_event lib t last ≡ ok (t', end)
      → (1 ≤ count finishes (sent ++ end)) × (count has_role (sent ++ end) ≤ 1)
  unfolding new_transformer Noted
  handle_events_once ctx include_usage es last t t' sent end h k h' =
      let start = new_transformer ctx include_usage in
      let before = Sends-ok (Noted start) _ (t, sent) (handle_events-Noted es start) h in
      let after = Sends-ok (Noted t) _ (t', end) (handle_event-Noted t last) h' in
      let (roles, finishes_all) = Noted-append start t t' sent end before after in
      (
        omega (arith, finishes_all, ap bit (finished t t' last end k h')),
        omega (arith, roles, at_most_one t'.sent_role),
      )
