-- ===== src/Stream/Tool/Pushes.antt =====
-- The decrypted text of a whole response, pushed piece by piece.
use venice_e2ee_proxy.Base.{
  ℕ, ◌≤◌, ◌≡◌, refl, sym, ap, subst, ◌∙◌, inl, inr, Bool, false, List, [], ◌∷◌, ◌++◌, none, some,
  if◌then◌else◌, length, arith, Bool-cases, append-nil, append_assoc, Result, ok, ◌>>=◌,
}
use venice_e2ee_proxy.Text.{Text}
use venice_e2ee_proxy.Text.Search.{find}
use venice_e2ee_proxy.Text.Bytes.{byte_len, byte_len-append}
use venice_e2ee_proxy.Text.Marker.{Clear, shifted, find-Clear, find-starts}
use venice_e2ee_proxy.Json.{Value}
use venice_e2ee_proxy.Tools.{ToolEmulationContext}
use venice_e2ee_proxy.Stream.{StreamLib, StreamError, StreamOutput}
use venice_e2ee_proxy.Stream.Chunk.{ChunkContext}
use venice_e2ee_proxy.Stream.Tool.{Transformer, new_transformer, push_decrypted_content}
use venice_e2ee_proxy.Stream.Tool.Streamed.{
  marker, streamed_content, streamed_contents, held, Phase, IsStreaming, Step,
}
use venice_e2ee_proxy.Stream.Tool.Push.{push_decrypted_content-Step}

-- A piece of decrypted text, with the upstream chunk and the choice index it came in.
pub record Piece : Type 0 where
  pub upstream : Value
  pub index : ℕ
  pub content : Text

unfoldable pub contents : List Piece → Text
contents [] = []
contents (p ∷ ps) = p.content ++ contents ps

streamed_contents-append :
    (xs ys : List StreamOutput)
    → streamed_contents (xs ++ ys) ≡ streamed_contents xs ++ streamed_contents ys
unfolding streamed_contents
streamed_contents-append [] ys = refl
streamed_contents-append (x ∷ xs) ys =
    ap (λ z. streamed_content x ++ z) (streamed_contents-append xs ys)
    ∙ sym (append_assoc (streamed_content x) (streamed_contents xs) (streamed_contents ys))

module _ (lib : StreamLib) (tools : ToolEmulationContext lib.ToolError) where
  unfoldable pub pushes :
      Transformer → List Piece → Result (StreamError lib) (Transformer × List StreamOutput)
  pushes t [] = ok (t, [])
  pushes t (p ∷ ps) = do
    first ← push_decrypted_content lib tools t p.upstream p.index p.content
    rest ← pushes first.0 ps
    ok ((rest.0, first.1 ++ rest.1))

  -- A step, and then the steps for the rest.
  then_Step :
      (streamed : Text) (t : Transformer) (content more : Text)
      (first : Result (StreamError lib) (Transformer × List StreamOutput))
      (next : Transformer → Result (StreamError lib) (Transformer × List StreamOutput))
      → Step lib streamed t content first
      → byte_len (held t ++ (content ++ more)) ≤ tools.tool_call_max_bytes
      → ((now : Text) (t' : Transformer)
          → IsStreaming now t'
          → byte_len (held t' ++ more) ≤ tools.tool_call_max_bytes
          → Step lib now t' more (next t'))
      → Step lib streamed t
          (content ++ more)
          (first >>= λ r. next r.0 >>= λ r'. ok ((r'.0, r.1 ++ r'.1)))
  unfolding Step
  then_Step streamed t content more first next (t', outputs, e, whole, on) limit further =
      let now = streamed_contents outputs in
      let fits =
        subst (λ z. byte_len z ≤ tools.tool_call_max_bytes)
          (sym (append_assoc (held t) content more)) limit in
      let (t'', outputs', e', whole', on') = further (streamed ++ now) t' on (
        omega (
          arith,
          fits,
          byte_len-append (held t ++ content) more,
          ap byte_len whole,
          byte_len-append now (held t'),
          byte_len-append (held t') more,
        )) in
      let both = streamed_contents-append outputs outputs' in
      (
        t'',
        outputs ++ outputs',
        ground (arith, e, e'),
        ap (λ z. z ++ held t'') both
            ∙ append_assoc now (streamed_contents outputs') (held t'')
            ∙ ap (λ z. now ++ z) whole'
            ∙ sym (append_assoc now (held t') more)
            ∙ ap (λ z. z ++ more) whole
            ∙ append_assoc (held t) content more,
        subst (λ z. IsStreaming z t'')
            (append_assoc streamed now (streamed_contents outputs')
              ∙ ap (λ z. streamed ++ z) (sym both))
            on',
      )

  pushes-Step :
      (ps : List Piece) (streamed : Text) (t : Transformer)
      → IsStreaming streamed t
      → byte_len (held t ++ contents ps) ≤ tools.tool_call_max_bytes
      → Step lib streamed t (contents ps) (pushes t ps)
  unfolding pushes contents Step streamed_contents
  pushes-Step [] streamed t h limit = (
    t,
    [],
    refl,
    sym (append-nil (held t)),
    subst (λ z. IsStreaming z t) (sym (append-nil streamed)) h,
  )
  pushes-Step (p ∷ ps) streamed t h limit =
      let fits =
        subst (λ z. byte_len z ≤ tools.tool_call_max_bytes)
          (sym (append_assoc (held t) p.content (contents ps))) limit in
      then_Step streamed t p.content (contents ps)
        (push_decrypted_content lib tools t p.upstream p.index p.content) (λ t'. pushes t' ps)
        (push_decrypted_content-Step lib tools streamed t p.upstream p.index p.content h
          (omega (arith, fits, byte_len-append (held t ++ p.content) (contents ps))))
        limit (λ now t' on fits'. pushes-Step ps now t' on fits')

  marker_place :
      (streamed : Text) (t : Transformer)
      → IsStreaming streamed t
      → find marker (streamed ++ held t)
        ≡ (if t.buffering_tool_call then some (length streamed) else none)
  unfolding IsStreaming Phase held shifted
  marker_place streamed t (clear, enough, phase, loud) = elim (Bool-cases t.buffering_tool_call) [
    | inl e ↦
        let (empty, start, long) = subst (λ b. Phase b t.pending_text t.tool_buffer) e phase in
        let found =
          ap (λ z. find marker (z ++ t.tool_buffer)) empty
          ∙ find-starts marker t.tool_buffer start (omega (arith, long)) in
        ground (arith, find-Clear marker streamed (held t) clear, found, e)
    | inr e ↦
        let (empty, missing) = subst (λ b. Phase b t.pending_text t.tool_buffer) e phase in
        let kept = ap (λ z. t.pending_text ++ z) empty ∙ append-nil t.pending_text in
        let found = ap (find marker) kept ∙ missing in
        ground (arith, find-Clear marker streamed (held t) clear, found, e)
  ]

  -- However the decrypted text of a response is cut into pieces, while it is within the limit for
  -- tool calls and normal output is not suppressed: the pieces are all taken, what is streamed and what is held back are together
  -- the text, and once the text has a tool-call marker exactly what stands before it is streamed.
  pub pushes-new_transformer :
      (ctx : ChunkContext) (include_usage : Bool) (ps : List Piece)
      → byte_len (contents ps) ≤ tools.tool_call_max_bytes
      → (t : Transformer) × (outputs : List StreamOutput) × (pushes
            (new_transformer ctx include_usage false)
            ps
          ≡ ok (t, outputs))
        × (streamed_contents outputs ++ held t ≡ contents ps)
        × (find marker (contents ps)
            ≡ (if t.buffering_tool_call then some (length (streamed_contents outputs)) else none))
  unfolding new_transformer Step held IsStreaming Phase Clear find
  pushes-new_transformer ctx include_usage ps limit =
      let (t, outputs, e, whole, on) =
        pushes-Step ps [] (new_transformer ctx include_usage false)
          (tt, inl refl, (refl, refl), refl) limit in
      (
        t,
        outputs,
        e,
        whole,
        ap (find marker) (sym whole) ∙ marker_place (streamed_contents outputs) t on,
      )
