-- ===== src/Sse/Chunks.antt =====
-- However the upstream text is cut into chunks, the parser yields the same events or fails alike.
use venice_e2ee_proxy.Base.{
  ℕ, ◌+◌, ◌≤◌, ◌≡◌, refl, sym, subst, ◌∙◌, inl, inr, List, [], ◌∷◌, ◌++◌, Option, none, some,
  Result, ok, err, length, take, drop, suc, zero, arith, Option-cases, append_assoc, length-append,
  ap,
}
use venice_e2ee_proxy.Text.{Text}
use venice_e2ee_proxy.Stream.{RawSseEvent, Malformed}
use venice_e2ee_proxy.Sse.{
  sse_event_boundary, parse_sse_event, parse_events, one_round, prepend, push,
}
use venice_e2ee_proxy.Sse.Boundary.{sse_event_boundary-scan, scan-append, scan-length}

abbrev Round : Type 0
Round = Text × Result Malformed (List RawSseEvent)

take_early : (n : ℕ) (s t : Text) → n ≤ length s → take n (s ++ t) ≡ take n s
take_early zero s t h = refl
take_early (suc n) [] t h = ground arith
take_early (suc n) (c ∷ s) t h = ground (arith, take_early n s t)

drop_early : (n : ℕ) (s t : Text) → n ≤ length s → drop n (s ++ t) ≡ drop n s ++ t
drop_early zero s t h = refl
drop_early (suc n) [] t h = ground arith
drop_early (suc n) (c ∷ s) t h = ground (arith, drop_early n s t)

length-drop : (n : ℕ) (s : Text) → n ≤ length s → n + length (drop n s) ≡ length s
length-drop zero s h = omega arith
length-drop (suc n) [] h = ground arith
length-drop (suc n) (c ∷ s) h = ground (arith, length-drop n s)

-- What a boundary at `start` of length `len` says of the text and of any longer one.
pub boundary_facts :
    (s t : Text) (start len : ℕ)
    → sse_event_boundary s ≡ some (start, len)
    → (sse_event_boundary (s ++ t) ≡ some (start, len))
      × (take start (s ++ t) ≡ take start s)
      × (drop (start + len) (s ++ t) ≡ drop (start + len) s ++ t)
      × (length (drop (start + len) s) + 2 ≤ length s)
boundary_facts s t start len e =
    let found = sym (sse_event_boundary-scan s) ∙ e in
    let within = scan-length s start len found in
    (
      sse_event_boundary-scan (s ++ t) ∙ scan-append s t (start, len) found,
      take_early start s t (omega (arith, within.0)),
      drop_early (start + len) s t within.0,
      omega (arith, length-drop (start + len) s within.0, within.1),
    )

pub stop : (n : ℕ) (s : Text) → sse_event_boundary s ≡ none → parse_events n s ≡ (s, ok [])
unfolding parse_events
stop zero s e = refl
stop (suc n) s e = ground (arith, e)

pub round :
    (n : ℕ) (s : Text) (start len : ℕ)
    → sse_event_boundary s ≡ some (start, len)
    → parse_events (suc n) s
      ≡ one_round
          (parse_sse_event (take start s))
          (drop (start + len) s)
          (parse_events n (drop (start + len) s))
unfolding parse_events
round n s start len e = ground (arith, e)

pub short : (s : Text) → length s ≤ 0 → sse_event_boundary s ≡ none
short s h = elim (Option-cases (sse_event_boundary s)) [
  | inl e ↦ e
  | inr ((start, len), e) ↦
      let (_, _, _, less) = boundary_facts s [] start len e in ground (arith, h, less)
]

-- Fuel beyond the length of the buffer changes nothing.
pub parse_events_fuel :
    (n m : ℕ) (s : Text) → length s ≤ n → length s ≤ m → parse_events n s ≡ parse_events m s
parse_events_fuel zero m s h k = stop 0 s (short s h) ∙ sym (stop m s (short s h))
parse_events_fuel (suc n) zero s h k = stop (suc n) s (short s k) ∙ sym (stop 0 s (short s k))
parse_events_fuel (suc n) (suc m) s h k = elim (Option-cases (sse_event_boundary s)) [
  | inl e ↦ stop (suc n) s e ∙ sym (stop (suc m) s e)
  | inr ((start, len), e) ↦
      let (_, _, _, less) = boundary_facts s [] start len e in
      round n s start len e
      ∙ ap (one_round (parse_sse_event (take start s)) (drop (start + len) s))
          (parse_events_fuel n m _ (omega (arith, h, less)) (omega (arith, k, less)))
      ∙ sym (round m s start len e)
]

-- How the events of a text continue those of its beginning, given what the beginning leaves.
unfoldable pub Continues : Text → Round → Round → Type 0
Continues t (left, err e) whole = whole.1 ≡ err e
Continues t (left, ok events) whole =
    (n : ℕ)
    → length (left ++ t) ≤ n
    → whole ≡ (let (rest, more) = parse_events n (left ++ t) in (rest, prepend events more))

pub prepend_nil : (r : Result Malformed (List RawSseEvent)) → prepend [] r ≡ r
prepend_nil (err e) = refl
prepend_nil (ok more) = refl

prepend_cons :
    (event : RawSseEvent) (events : List RawSseEvent) (r : Result Malformed (List RawSseEvent))
    → prepend (event ∷ []) (prepend events r) ≡ prepend (event ∷ events) r
prepend_cons event events (err e) = refl
prepend_cons event events (ok more) = refl

-- The same after one more round.
round-Continues :
    (t : Text) (parsed : Result Malformed (Option RawSseEvent)) (rest : Text) (first whole : Round)
    → Continues t first whole
    → Continues t (one_round parsed rest first) (one_round parsed (rest ++ t) whole)
unfolding one_round Continues
round-Continues t (err e) rest first (l, w) h = refl
round-Continues t (ok none) rest (left, err e) whole h = h
round-Continues t (ok none) rest (left, ok events) whole h = h
round-Continues t (ok (some event)) rest (left, err e) (l, w) h = ground (arith, h)
round-Continues t (ok (some event)) rest (left, ok events) (l, w) h = λ n enough.
    let after = parse_events n (left ++ t) in
    ap (λ (r : Round). (r.0, prepend (event ∷ []) r.1)) (h n enough)
    ∙ ap (λ r. (after.0, r)) (prepend_cons event events after.1)

-- With no boundary in the beginning, it is all still to be read.
unread :
    (n m : ℕ) (s t : Text)
    → sse_event_boundary s ≡ none
    → length (s ++ t) ≤ m
    → Continues t (parse_events n s) (parse_events m (s ++ t))
unfolding Continues
unread n m s t e k =
    subst (λ w. Continues t w (parse_events m (s ++ t))) (sym (stop n s e))
      (λ n' enough.
        let after = parse_events n' (s ++ t) in
        parse_events_fuel m n' (s ++ t) k enough
        ∙ ap (λ r. (after.0, r)) (sym (prepend_nil after.1)))

longer :
    (m : ℕ) (s t : Text) (start len : ℕ)
    → sse_event_boundary (s ++ t) ≡ some (start, len)
    → take start (s ++ t) ≡ take start s
    → drop (start + len) (s ++ t) ≡ drop (start + len) s ++ t
    → parse_events (suc m) (s ++ t)
      ≡ one_round
          (parse_sse_event (take start s))
          (drop (start + len) s ++ t)
          (parse_events m (drop (start + len) s ++ t))
longer m s t start len found same_event same_rest =
    round m (s ++ t) start len found ∙ rw (same_event, same_rest)

parse_events-append :
    (n m : ℕ) (s t : Text)
    → length s ≤ n
    → length (s ++ t) ≤ m
    → Continues t (parse_events n s) (parse_events m (s ++ t))
parse_events-append zero m s t h k = unread 0 m s t (short s h) k
parse_events-append (suc n) zero s t h k =
    unread (suc n) 0 s t (short s (omega (arith, k, length-append s t))) k
parse_events-append (suc n) (suc m) s t h k = elim (Option-cases (sse_event_boundary s)) [
  | inl e ↦ unread (suc n) (suc m) s t e k
  | inr ((start, len), e) ↦
      let (found, same_event, same_rest, less) = boundary_facts s t start len e in
      let rest = drop (start + len) s in
      let event = parse_sse_event (take start s) in
      subst (λ w. Continues t w (parse_events (suc m) (s ++ t))) (sym (round n s start len e))
        (subst (Continues t (one_round event rest (parse_events n rest)))
          (sym (longer m s t start len found same_event same_rest))
          (round-Continues t event rest (parse_events n rest) (parse_events m (rest ++ t)) (
            parse_events-append n m rest t (omega (arith, h, less))
              (omega (arith, k, less, length-append s t, length-append rest t)))))
]

-- The events of a chunk that is cut in two are those of the first part and then those of the
-- second; where the first part fails, so does the whole, with the same error.
pub push-append :
    (buffer chunk more : Text) → Continues more (push buffer chunk) (push buffer (chunk ++ more))
unfolding push
push-append buffer chunk more =
    subst (λ whole. Continues more (push buffer chunk) (parse_events (length whole) whole))
      (append_assoc buffer chunk more)
      (parse_events-append _ _ (buffer ++ chunk) more (omega arith) (omega arith))
