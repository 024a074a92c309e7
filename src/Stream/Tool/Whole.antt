-- ===== src/Stream/Tool/Whole.antt =====
-- Over a whole tool-emulated stream the role is sent at most once and one finish reason is sent.
use venice_e2ee_proxy.Base.{
  ℕ, ◌≤◌, ◌≡◌, refl, ap, Bool, true, false, List, [], ◌∷◌, ◌++◌, Option, none, some, Result, ok,
  err, ◌>>=◌, map_err, arith, if◌then◌else◌, ◌||◌,
}
use venice_e2ee_proxy.Text.{Text, text, text_eq}
use venice_e2ee_proxy.Json.{Value, null, string, is_null}
use venice_e2ee_proxy.Tools.{ToolEmulationContext}
use venice_e2ee_proxy.Stream.{
  StreamLib, StreamError, StreamOutput, RawSseEvent, malformed_event, decrypt_field,
}
use venice_e2ee_proxy.Stream.Chunk.{ChunkContext, usage_chunk}
use venice_e2ee_proxy.Stream.Classify.{
  UpstreamEventKind, done, usage, choice, classify_upstream_event, Choice, read_choice, read_index,
  read_usage,
}
use venice_e2ee_proxy.Stream.Tool.{Transformer, new_transformer, text_field_chunk}
use venice_e2ee_proxy.Stream.Tool.Handler.{
  push_reasoning, push_content, push_finish, then_push, handle_choice_chunk, handle_usage_chunk,
  finish_stream, handle_kind, handle_event,
}
use venice_e2ee_proxy.Stream.Tool.Outputs.{
  Once, Once-nothing, Once-append, delta_chunk-Once, usage_chunk-Once, done-Once,
}
use venice_e2ee_proxy.Stream.Roles.{has_role, finishes, count, bit}
use venice_e2ee_proxy.Stream.Tool.Once.{
  Sent, either, push_decrypted_content-Once, finish_buffered_content-Finished, Finished,
}
use venice_e2ee_proxy.Stream.Sends.{Sends, Sends-bind, Sends-if, Sends-ok}

-- What a transformer sends, counted from what it has sent before.
abbrev SentOnce : Transformer → Sent → Type 0
SentOnce t = Once t.sent_role t.sent_final_finish

at_most_one : (b : Bool) → bit b ≤ 1
at_most_one true = omega arith
at_most_one false = omega arith

module _ (lib : StreamLib) (tools : ToolEmulationContext lib.ToolError) where
  push_reasoning-Once :
      (t : Transformer) (value : Value) (index : ℕ) (content : Option Text)
      → SentOnce t (push_reasoning t value index content)
  unfolding push_reasoning text_field_chunk text_eq
  push_reasoning-Once t value index none = Once-nothing t
  push_reasoning-Once t value index (some content) =
      either (SentOnce t) (t.sent_final_finish || t.suppress_normal_output) _ _ (Once-nothing t)
        (delta_chunk-Once t value index (text "reasoning_content") (string content) refl)

  push_content-Once :
      (t : Transformer) (value : Value) (index : ℕ) (content : Option Text)
      → Sends (SentOnce t) (push_content lib tools t value index content)
  unfolding push_content Sends
  push_content-Once t value index none = Once-nothing t
  push_content-Once t value index (some content) =
      Sends-if (SentOnce t) t.sent_final_finish _ _ (λ e. Once-nothing t)
        (λ e. push_decrypted_content-Once lib tools t value index content)

  weaken :
      (t : Transformer) (r : Result (StreamError lib) Sent)
      → Sends (Finished lib tools t) r
      → Sends (SentOnce t) r
  unfolding Sends Finished
  weaken t (err e) h = tt
  weaken t (ok (t', outputs)) (once, last) = once

  push_finish-Once :
      (t : Transformer) (value : Value) (index : ℕ) (reason : Value)
      → Sends (SentOnce t) (push_finish lib tools t value index reason)
  unfolding push_finish Sends
  push_finish-Once t value index reason =
      Sends-if (SentOnce t) (is_null reason || t.sent_final_finish) _ _ (λ e. Once-nothing t)
        (λ e. weaken t _ (
          finish_buffered_content-Finished lib tools t value index reason (ground (arith, e))
            (ground (arith, e))))

  then_push-Once :
      (t : Transformer) (sent : Sent) (next : Transformer → Result (StreamError lib) Sent)
      → SentOnce t sent
      → Sends (SentOnce sent.0) (next sent.0)
      → Sends (SentOnce t) (then_push lib tools sent next)
  unfolding then_push Sends
  then_push-Once t (t', outputs) next h k = Sends-bind (SentOnce t) (next t') _ (λ more e.
      Once-append t.sent_role t.sent_final_finish t' more.0 outputs more.1 h
        (Sends-ok (SentOnce t') (next t') more k e))

  read_choice-Once :
      (t : Transformer) (value : Value) (index : ℕ) (read : Choice)
      (reasoning content : Option Text)
      → Sends (SentOnce t) (
          then_push lib tools
            (push_reasoning t value index reasoning)
            (λ t'. push_content lib tools t' value index content)
          >>= λ pushed.
              then_push lib tools pushed
                (λ t'. push_finish lib tools t' value index read.finish_reason))
  read_choice-Once t value index read reasoning content =
      let first = push_reasoning t value index reasoning in
      let both = then_push lib tools first (λ t'. push_content lib tools t' value index content) in
      Sends-bind (SentOnce t) both _ (λ pushed e.
        then_push-Once t pushed (λ t'. push_finish lib tools t' value index read.finish_reason)
          (Sends-ok (SentOnce t) both pushed
            (then_push-Once t first (λ t'. push_content lib tools t' value index content)
              (push_reasoning-Once t value index reasoning)
              (push_content-Once first.0 value index content))
            e)
          (push_finish-Once pushed.0 value index read.finish_reason))

  handle_choice_chunk-Once :
      (t : Transformer) (value c : Value)
      → Sends (SentOnce t) (handle_choice_chunk lib tools t value c)
  unfolding handle_choice_chunk
  handle_choice_chunk-Once t value c =
      let sent = SentOnce t in
      Sends-bind sent (map_err malformed_event (read_index c)) _ (λ index e1.
        Sends-bind sent (map_err malformed_event (read_choice c)) _ (λ read e2.
          Sends-bind sent (decrypt_field lib read.reasoning_content) _ (λ reasoning e3.
            Sends-bind sent (decrypt_field lib read.content) _
              (λ content e4. read_choice-Once t value index read reasoning content))))

  last_finish-Finished :
      (t : Transformer)
      → Sends (Finished lib tools t) (push_finish lib tools t null 0 (string (text "stop")))
  unfolding push_finish Sends Finished
  last_finish-Finished t =
      Sends-if (Finished lib tools t) t.sent_final_finish _ _ (λ e. (Once-nothing t, e))
        (λ e. finish_buffered_content-Finished lib tools t null 0 (string (text "stop")) e refl)

  finish_stream-Finished :
      (t : Transformer) → Sends (Finished lib tools t) (finish_stream lib tools t)
  unfolding finish_stream then_push Sends Finished
  finish_stream-Finished t =
      let flush = push_finish lib tools t null 0 (string (text "stop")) in
      Sends-bind (Finished lib tools t) flush _ (λ flushed e.
        let (once, last) =
          Sends-ok (Finished lib tools t) flush flushed (last_finish-Finished t) e in
        (
          Once-append t.sent_role t.sent_final_finish flushed.0 flushed.0 flushed.1
              (StreamOutput.done ∷ []) once (done-Once flushed.0),
          last,
        ))

  asked :
      (t : Transformer) (b : Bool) (value u : Value)
      → SentOnce t (t, if b then StreamOutput.json (usage_chunk t.ctx value u) ∷ [] else [])
  asked t true value u = usage_chunk-Once t value u
  asked t false value u = Once-nothing t

  ends :
      (t : Transformer) (last : RawSseEvent) (sent : Sent)
      → classify_upstream_event lib last ≡ ok done
      → handle_event lib tools t last ≡ ok sent
      → finish_stream lib tools t ≡ ok sent
  unfolding handle_event handle_kind
  ends t last sent k h = ground (arith, k, h)

  handle_usage_chunk-Once :
      (t : Transformer) (value : Value) → Sends (SentOnce t) (handle_usage_chunk lib tools t value)
  unfolding handle_usage_chunk Sends
  handle_usage_chunk-Once t value =
      Sends-bind (SentOnce t) (map_err malformed_event (read_usage value)) _
        (λ u e. asked t t.include_usage_requested value u)

  handle_kind-Once :
      (t : Transformer) (kind : UpstreamEventKind)
      → Sends (SentOnce t) (handle_kind lib tools t kind)
  unfolding handle_kind
  handle_kind-Once t done = weaken t _ (finish_stream-Finished t)
  handle_kind-Once t (usage value) = handle_usage_chunk-Once t value
  handle_kind-Once t (choice value c) = handle_choice_chunk-Once t value c

  handle_event-Once :
      (t : Transformer) (event : RawSseEvent) → Sends (SentOnce t) (handle_event lib tools t event)
  unfolding handle_event
  handle_event-Once t event =
      Sends-bind (SentOnce t) (classify_upstream_event lib event) _
        (λ kind e. handle_kind-Once t kind)

  -- The events of a stream, one after another.
  unfoldable pub handle_events : Transformer → List RawSseEvent → Result (StreamError lib) Sent
  handle_events t [] = ok (t, [])
  handle_events t (e ∷ es) =
      handle_event lib tools t e >>= λ sent. then_push lib tools sent (λ t'. handle_events t' es)

  handle_events-Once :
      (es : List RawSseEvent) (t : Transformer) → Sends (SentOnce t) (handle_events t es)
  unfolding handle_events Sends
  handle_events-Once [] t = Once-nothing t
  handle_events-Once (e ∷ es) t = Sends-bind (SentOnce t) (handle_event lib tools t e) _ (λ sent h.
      then_push-Once t sent (λ t'. handle_events t' es)
        (Sends-ok (SentOnce t) _ sent (handle_event-Once t e) h) (handle_events-Once es sent.0))

  -- A stream that is handled up to the event that ends it has sent one finish reason and at most one
  -- role, whatever its events were.
  pub handle_events-new_transformer :
      (ctx : ChunkContext) (include_usage suppress : Bool) (es : List RawSseEvent)
      (last : RawSseEvent) (t t' : Transformer) (sent end : List StreamOutput)
      → handle_events (new_transformer ctx include_usage suppress) es ≡ ok (t, sent)
      → classify_upstream_event lib last ≡ ok done
      → handle_event lib tools t last ≡ ok (t', end)
      → (count finishes (sent ++ end) ≡ 1) × (count has_role (sent ++ end) ≤ 1)
  unfolding new_transformer Once Finished
  handle_events-new_transformer ctx include_usage suppress es last t t' sent end h k h' =
      let start = new_transformer ctx include_usage suppress in
      let before = Sends-ok (SentOnce start) _ (t, sent) (handle_events-Once es start) h in
      let (after, finished) =
        Sends-ok (Finished lib tools t) _ (t', end) (finish_stream-Finished t)
          (ends t last (t', end) k h') in
      let (roles, finishes_all) = Once-append false false t t' sent end before after in
      (omega (arith, finishes_all, ap bit finished), omega (arith, roles, at_most_one t'.sent_role))
