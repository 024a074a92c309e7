-- ===== src/Sse/Pump.antt =====
-- The parser fed with the chunks of an upstream body, one after another, as the loops in
-- src/http.rs feed it.
use venice_e2ee_proxy.Base.{
  ℕ, ◌+◌, ◌≤◌, ◌≡◌, sym, subst, ◌∙◌, ap, inl, inr, List, [], ◌∷◌, ◌++◌, Option, none, some, Result,
  ok, err, length, drop, suc, zero, arith, Option-cases, append-nil,
}
use venice_e2ee_proxy.Text.{Text}
use venice_e2ee_proxy.Stream.{RawSseEvent, Malformed}
use venice_e2ee_proxy.Sse.{sse_event_boundary, parse_events, one_round, prepend, push}
use venice_e2ee_proxy.Sse.Chunks.{stop, round, short, boundary_facts, Continues, push-append}

-- What two pushes yield in turn, the second of which is made only if the first succeeds.
unfoldable pub in_turn :
    Text × Result Malformed (List RawSseEvent)
    → Text × Result Malformed (List RawSseEvent)
    → Text × Result Malformed (List RawSseEvent)
in_turn (left, err e) (last, more) = (left, err e)
in_turn (left, ok events) (last, more) = (last, prepend events more)

unfoldable pub push_all : Text → List Text → Text × Result Malformed (List RawSseEvent)
push_all buffer [] = (buffer, ok [])
push_all buffer (chunk ∷ chunks) =
    let (left, events) = push buffer chunk in in_turn (left, events) (push_all left chunks)

unfoldable pub concat : List Text → Text
concat [] = []
concat (chunk ∷ chunks) = chunk ++ concat chunks

-- No whole event is left in the buffer, unless the loop has failed.
unfoldable IsDrained : Text × Result Malformed (List RawSseEvent) → Type 0
IsDrained (left, err e) = Unit
IsDrained (left, ok events) = sse_event_boundary left ≡ none

one_round-IsDrained :
    (parsed : Result Malformed (Option RawSseEvent)) (rest : Text)
    (r : Text × Result Malformed (List RawSseEvent))
    → IsDrained r
    → IsDrained (one_round parsed rest r)
unfolding one_round IsDrained
one_round-IsDrained (err e) rest r h = tt
one_round-IsDrained (ok none) rest r h = h
one_round-IsDrained (ok (some event)) rest (left, err e) h = tt
one_round-IsDrained (ok (some event)) rest (left, ok events) h = h

parse_events-IsDrained : (n : ℕ) (s : Text) → length s ≤ n → IsDrained (parse_events n s)
unfolding IsDrained
parse_events-IsDrained zero s h = subst IsDrained (sym (stop 0 s (short s h))) (short s h)
parse_events-IsDrained (suc n) s h = elim (Option-cases (sse_event_boundary s)) [
  | inl e ↦ subst IsDrained (sym (stop (suc n) s e)) e
  | inr ((start, len), e) ↦
      let (_, _, _, less) = boundary_facts s [] start len e in
      subst IsDrained (sym (round n s start len e)) (
        one_round-IsDrained _ _ _
          (parse_events-IsDrained n (drop (start + len) s) (omega (arith, h, less))))
]

-- A push that succeeds has taken every whole event out of the buffer.
pub push-drains :
    (buffer chunk left : Text) (events : List RawSseEvent)
    → push buffer chunk ≡ (left, ok events)
    → sse_event_boundary left ≡ none
unfolding push IsDrained
push-drains buffer chunk left events e =
    subst IsDrained e
      (parse_events-IsDrained (length (buffer ++ chunk)) (buffer ++ chunk) (omega arith))

in_turn-Continues :
    (more : Text) (first later whole : Text × Result Malformed (List RawSseEvent))
    → Continues more first whole
    → (sse_event_boundary first.0 ≡ none → later.1 ≡ (push first.0 more).1)
    → IsDrained first
    → (in_turn first later).1 ≡ whole.1
unfolding in_turn Continues IsDrained push
in_turn-Continues more (left, err e) later whole h further drained = sym h
in_turn-Continues more (left, ok events) later whole h further drained =
    ap (prepend events) (further drained) ∙ sym (ap (λ r. r.1) (h _ (omega arith)))

-- From a buffer with no whole event in it: however a text is cut into chunks, its events or the
-- first error are those of the whole text in one chunk.
pub push_all-concat :
    (chunks : List Text) (buffer : Text)
    → sse_event_boundary buffer ≡ none
    → (push_all buffer chunks).1 ≡ (push buffer (concat chunks)).1
unfolding push_all concat push
push_all-concat [] buffer e =
    ap (λ r. r.1) (sym (stop _ _ (ap sse_event_boundary (append-nil buffer) ∙ e)))
push_all-concat (chunk ∷ chunks) buffer e =
    in_turn-Continues (concat chunks) (push buffer chunk) (push_all (push buffer chunk).0 chunks)
      (push buffer (chunk ++ concat chunks)) (push-append buffer chunk (concat chunks))
      (push_all-concat chunks _)
      (parse_events-IsDrained (length (buffer ++ chunk)) (buffer ++ chunk) (omega arith))
