-- ===== src/Stream/Completion/Steps.antt =====
-- The buffered completion on one event: one that ends the stream, or a choice with content.
use venice_e2ee_proxy.Base.{
  ◌≡◌, Bool, true, false, none, some, ok, List, [], ◌∷◌, ◌++◌, ◌⊎◌, inl, inr, arith,
}
use venice_e2ee_proxy.Text.{Text}
use venice_e2ee_proxy.Json.{Value}
use venice_e2ee_proxy.Stream.{StreamLib, RawSseEvent, decrypt, decrypt_field}
use venice_e2ee_proxy.Stream.Classify.{
  done, choice, classify_upstream_event, read_choice, read_index, Choice,
}
use venice_e2ee_proxy.Stream.Completion.{
  OpenAiChatCompletionBuffer, handle_event, handle_kind, handle_choice_chunk, handle_done,
  same_index, append_choice, record_metadata, close,
}
use venice_e2ee_proxy.Stream.Completion.Loop.{handle_all}
use venice_e2ee_proxy.Stream.Completion.Content.{choice_content, content_before_end}

-- What an event adds, on any stream.
module _ (lib : StreamLib) (event : RawSseEvent) (rest : List RawSseEvent) where
  pub at_end :
      classify_upstream_event lib event ≡ ok done → content_before_end lib (event ∷ rest) ≡ []
  unfolding content_before_end
  at_end kind = ground (arith, kind)

  pub choice_content_lem :
      (chunk : Value) (c : Choice) (hex plaintext : Text)
      → read_choice chunk ≡ ok c
      → c.content ≡ some hex
      → lib.decrypt_response_content (some hex) ≡ ok (some plaintext)
      → choice_content lib chunk ≡ plaintext
  unfolding choice_content decrypt_field decrypt
  choice_content_lem chunk c hex plaintext read content clear = ground (arith, read, content, clear)

  pub at_choice :
      (value chunk : Value)
      → classify_upstream_event lib event ≡ ok (choice value chunk)
      → content_before_end lib (event ∷ rest)
        ≡ choice_content lib chunk ++ content_before_end lib rest
  unfolding content_before_end
  at_choice value chunk kind = ground (arith, kind)

-- The buffer has no choice yet, or the first.
unfoldable pub FirstChoice : OpenAiChatCompletionBuffer → Type 0
FirstChoice b = (b.choice_index ≡ none) ⊎ (b.choice_index ≡ some 0)

same_index-first :
    (b : OpenAiChatCompletionBuffer) → FirstChoice b → same_index b.choice_index 0 ≡ ok (some 0)
unfolding same_index FirstChoice
same_index-first b (inl e) = rw (e)
same_index-first b (inr e) = rw (e)

module _ (lib : StreamLib) (event : RawSseEvent) (b : OpenAiChatCompletionBuffer) where
  pub taken :
      (value chunk : Value) (c : Choice) (hex plaintext : Text)
      → FirstChoice b
      → classify_upstream_event lib event ≡ ok (choice value chunk)
      → read_index chunk ≡ ok 0
      → read_choice chunk ≡ ok c
      → c.content ≡ some hex
      → c.reasoning_content ≡ none
      → lib.decrypt_response_content (some hex) ≡ ok (some plaintext)
      → handle_event lib b event
        ≡ ok ((false, append_choice (record_metadata b value) (some 0) c (some plaintext) none))
  unfolding handle_event handle_kind handle_choice_chunk decrypt_field decrypt record_metadata
  taken value chunk c hex plaintext first kind place read content plain clear =
      rw (kind, place, same_index-first b first, read, content, plain, clear)

  pub goes_on :
      (after : OpenAiChatCompletionBuffer) (rest : List RawSseEvent)
      {r : Bool × OpenAiChatCompletionBuffer}
      → handle_event lib b event ≡ ok ((false, after))
      → handle_all lib after rest ≡ ok r
      → handle_all lib b (event ∷ rest) ≡ ok r
  unfolding handle_all
  goes_on after rest e e' = rw (e) e'

  pub ended :
      b.saw_encrypted_response_field ≡ true
      → classify_upstream_event lib event ≡ ok done
      → handle_event lib b event ≡ ok ((true, close b))
  unfolding handle_event handle_kind handle_done
  ended saw kind = rw (kind, saw)
