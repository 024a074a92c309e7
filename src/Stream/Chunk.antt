-- ===== src/Stream/Chunk.antt =====
-- src/http.rs: `ChunkContext`, the identity of the chunks that a transformer emits.
use venice_e2ee_proxy.Base.{ℕ, unwrap_or, List, [], ◌∷◌, ◌++◌}
use venice_e2ee_proxy.Text.{Text, text}
use venice_e2ee_proxy.Json.{
  Value, string, number, object, array, Number, pos_int, from_entries, from_items,
}
use venice_e2ee_proxy.Stream.Classify.{string_field, integer_field}

-- `ChunkContext`, less the codec and the key, which `StreamLib` stands for. The fallback id and
-- time are drawn when the context is made.
pub record ChunkContext : Type 0 where
  pub fallback_id : Text
  pub fallback_created : Number
  pub fallback_model : Text

-- The fields that every chunk has before its choices.
unfoldable pub chunk_head : ChunkContext → Value → List (Text × Value)
chunk_head ctx upstream =
    (text "id", string (unwrap_or (string_field upstream (text "id")) ctx.fallback_id))
    ∷ (
      text "object",
      string (unwrap_or (string_field upstream (text "object")) (text "chat.completion.chunk")),
    )
    ∷ (
      text "created",
      number (unwrap_or (integer_field upstream (text "created")) ctx.fallback_created),
    )
    ∷ (text "model", string (unwrap_or (string_field upstream (text "model")) ctx.fallback_model))
    ∷ []

unfoldable pub choice_value : ℕ → Value → Value → Value
choice_value index delta finish_reason = object (
    from_entries (
      (text "index", number (pos_int index))
      ∷ (text "delta", delta)
      ∷ (text "finish_reason", finish_reason)
      ∷ []))

unfoldable pub chunk_with_choice : ChunkContext → Value → ℕ → Value → Value → Value
chunk_with_choice ctx upstream index delta finish_reason = object (
    from_entries (
      chunk_head ctx upstream
      ++ (text "choices", array (from_items (choice_value index delta finish_reason ∷ []))) ∷ []))

unfoldable pub usage_chunk : ChunkContext → Value → Value → Value
usage_chunk ctx upstream usage = object (
    from_entries (
      chunk_head ctx upstream
      ++ (text "choices", array (from_items [])) ∷ (text "usage", usage) ∷ []))
