-- ===== src/Stream/Completion/Loop.antt =====
-- src/http.rs: `buffer_openai_chat_completion`, over the chunks of the upstream body.
use venice_e2ee_proxy.Base.{Bool, true, false, Result, ok, err, ◌>>=◌, map_err, List, [], ◌∷◌}
use venice_e2ee_proxy.Text.{Text}
use venice_e2ee_proxy.Json.{Value}
use venice_e2ee_proxy.Stream.{
  StreamLib, StreamError, RawSseEvent, malformed_event, upstream_stream, invalid_utf8, no_done,
}
use venice_e2ee_proxy.Sse.{push, finish}
use venice_e2ee_proxy.Stream.Chunk.{ChunkContext}
use venice_e2ee_proxy.Stream.Completion.{
  OpenAiChatCompletionBuffer, new_buffer, handle_event, into_response,
}

-- What reading a chunk and decoding it as UTF-8 yields: the read's error, bytes that are no UTF-8 by
-- themselves, or their text.
pub data BodyChunk : Type 0 where
  read_failed : Text → BodyChunk
  not_utf8 : BodyChunk
  text_chunk : Text → BodyChunk

module _ (lib : StreamLib) where
  unfoldable pub chunk_text : BodyChunk → Result (StreamError lib) Text
  chunk_text (read_failed why) = err (upstream_stream why)
  chunk_text not_utf8 = err (malformed_event invalid_utf8)
  chunk_text (text_chunk s) = ok s

  -- The events of a chunk, up to the one that ends the stream.
  unfoldable pub handle_all :
      OpenAiChatCompletionBuffer
      → List RawSseEvent
      → Result (StreamError lib) (Bool × OpenAiChatCompletionBuffer)
  handle_all b [] = ok ((false, b))
  handle_all b (e ∷ es) =
      handle_event lib b e >>= λ r. elim r.0 [ true ↦ ok ((true, r.1)) | false ↦ handle_all r.1 es ]

  unfoldable pub read_body :
      Text
      → OpenAiChatCompletionBuffer
      → List BodyChunk
      → Result (StreamError lib) OpenAiChatCompletionBuffer
  read_body parser b [] =
      map_err malformed_event (finish parser) >>= λ checked. err (malformed_event no_done)
  read_body parser b (c ∷ cs) = chunk_text c >>= λ s.
      let (parser', pushed) = push parser s in
      map_err malformed_event pushed >>= λ events.
      handle_all b events >>= λ r. elim r.0 [ true ↦ ok r.1 | false ↦ read_body parser' r.1 cs ]

  unfoldable pub buffer_openai_chat_completion :
      ChunkContext → List BodyChunk → Result (StreamError lib) Value
  buffer_openai_chat_completion ctx chunks =
      read_body [] (new_buffer ctx) chunks >>= λ b. ok (into_response b)
