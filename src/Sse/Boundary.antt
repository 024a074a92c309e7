-- ===== src/Sse/Boundary.antt =====
-- Where an event ends: the search for the delimiters is one scan of the buffer, and a boundary
-- that it finds stays where it is when more text arrives.
use venice_e2ee_proxy.Base.{
  ℕ, ◌+◌, ◌≤◌, ◌≡◌, refl, inl, inr, [], ◌∷◌, ◌++◌, Option, none, some, if◌then◌else◌, length, suc,
  arith, Option-cases, ◌==◌,
}
use venice_e2ee_proxy.Text.{Text}
use venice_e2ee_proxy.Text.Search.{find, starts_with, later}
use venice_e2ee_proxy.Sse.{candidates, earliest, sse_event_boundary, candidate}

-- The length of the delimiter that the text starts with.
unfoldable pub delimiter_here : Text → Option ℕ
delimiter_here (c ∷ d ∷ s) =
    if c == 10
    then if d == 10 then some 2 else none
    else if c == 13
    then if d == 13
      then some 2
      else if d == 10
      then (if starts_with (13 ∷ 10 ∷ []) s then some 4 else none)
      else none
    else none
delimiter_here _ = none

unfoldable pub one_later : Option (ℕ × ℕ) → Option (ℕ × ℕ)
one_later none = none
one_later (some (i, l)) = some (suc i, l)

-- The first position where a delimiter starts, and that delimiter's length.
unfoldable pub scan : Text → Option (ℕ × ℕ)
scan [] = none
scan (c ∷ s) =
    let rest = scan s in
    elim (delimiter_here (c ∷ s)) [ some l ↦ some (0, l) | none ↦ one_later rest ]

-- The earliest of the three delimiters.
unfoldable pick : Option ℕ → Option ℕ → Option ℕ → Option (ℕ × ℕ)
unfolding earliest
pick a b c = earliest (candidate a 4 (candidate b 2 (candidate c 2 [])))

pick-later : (a b c : Option ℕ) → pick (later a) (later b) (later c) ≡ one_later (pick a b c)
unfolding pick earliest one_later
pick-later none none none = refl
pick-later none none (some k) = refl
pick-later none (some j) none = refl
pick-later none (some j) (some k) = ground arith
pick-later (some i) none none = refl
pick-later (some i) none (some k) = ground arith
pick-later (some i) (some j) none = ground arith
pick-later (some i) (some j) (some k) = ground arith

pick_first : (b c : Option ℕ) → pick (some 0) (later b) (later c) ≡ some (0, 4)
unfolding pick earliest
pick_first none none = refl
pick_first none (some k) = ground arith
pick_first (some j) none = ground arith
pick_first (some j) (some k) = ground arith

pick_second : (a c : Option ℕ) → pick (later a) (some 0) (later c) ≡ some (0, 2)
unfolding pick earliest
pick_second none none = refl
pick_second none (some k) = ground arith
pick_second (some i) none = ground arith
pick_second (some i) (some k) = ground arith

pick_third : (a b : Option ℕ) → pick (later a) (later b) (some 0) ≡ some (0, 2)
unfolding pick earliest
pick_third none none = refl
pick_third none (some k) = ground arith
pick_third (some i) none = ground arith
pick_third (some i) (some k) = ground arith

abbrev pick_in : Text → Option (ℕ × ℕ)
pick_in s = pick (find (13 ∷ 10 ∷ 13 ∷ 10 ∷ []) s) (find (10 ∷ 10 ∷ []) s) (find (13 ∷ 13 ∷ []) s)

-- `find` at the text's first position, given what it finds further on.
unfoldable at_head : Text → Text → Option ℕ → Option ℕ
at_head p s further = if starts_with p s then some 0 else later further

-- A character in front: either a delimiter starts there or the boundary is one further.
pick_head :
    (c d : ℕ) (s : Text) (a b e : Option ℕ)
    → pick
        (at_head (13 ∷ 10 ∷ 13 ∷ 10 ∷ []) (c ∷ d ∷ s) a)
        (at_head (10 ∷ 10 ∷ []) (c ∷ d ∷ s) b)
        (at_head (13 ∷ 13 ∷ []) (c ∷ d ∷ s) e)
      ≡ elim (delimiter_here (c ∷ d ∷ s)) [ some l ↦ some (0, l) | none ↦ one_later (pick a b e) ]
unfolding at_head delimiter_here
pick_head c d s a b e =
    ground (arith, pick-later a b e, pick_first b e, pick_second a e, pick_third a b)

pick_step :
    (c : ℕ) (s : Text)
    → pick_in (c ∷ s)
      ≡ elim (delimiter_here (c ∷ s)) [ some l ↦ some (0, l) | none ↦ one_later (pick_in s) ]
unfolding find delimiter_here at_head pick earliest one_later
pick_step c [] = ground arith
pick_step c (d ∷ s) = pick_head c d s _ _ _

-- The earliest of the three delimiters that the code searches for one by one is the first that one
-- scan of the text meets, with its length.
pub sse_event_boundary-scan : (s : Text) → sse_event_boundary s ≡ scan s
unfolding sse_event_boundary scan candidates pick earliest find one_later
sse_event_boundary-scan [] = refl
sse_event_boundary-scan (c ∷ s) = ground (arith, pick_step c s, sse_event_boundary-scan s)

grow :
    (h : Option ℕ) (r r' : Option (ℕ × ℕ))
    → ((p : ℕ × ℕ) → r ≡ some p → r' ≡ some p)
    → (p : ℕ × ℕ) → elim h [ some l ↦ some (0, l) | none ↦ one_later r ] ≡ some p
    → elim h [ some l ↦ some (0, l) | none ↦ one_later r' ] ≡ some p
unfolding one_later
grow (some l) r r' f p e = e
grow none none r' f p e = cc
grow none (some q) r' f p e = rw (f q refl, e)

-- More text after it leaves a boundary in place.
pub scan-append : (s t : Text) (p : ℕ × ℕ) → scan s ≡ some p → scan (s ++ t) ≡ some p
unfolding scan delimiter_here one_later
scan-append [] t p e = cc
scan-append (c ∷ []) t p e = ground arith
scan-append (c ∷ d ∷ []) t p e = ground arith
scan-append (c ∷ d ∷ f ∷ []) t p e = ground arith
scan-append (c ∷ d ∷ f ∷ g ∷ s) t p e =
    grow (delimiter_here (c ∷ d ∷ f ∷ g ∷ s)) _ _ (scan-append (d ∷ f ∷ g ∷ s) t) p e

delimiter_here-length : (s : Text) (l : ℕ) → delimiter_here s ≡ some l → (l ≤ length s) × (2 ≤ l)
unfolding delimiter_here
delimiter_here-length [] l e = cc
delimiter_here-length (c ∷ []) l e = cc
delimiter_here-length (c ∷ d ∷ []) l e = ground arith
delimiter_here-length (c ∷ d ∷ f ∷ []) l e = ground arith
delimiter_here-length (c ∷ d ∷ f ∷ g ∷ s) l e = ground arith

-- A boundary lies within the text, and has two characters at least.
pub scan-length : (s : Text) (i l : ℕ) → scan s ≡ some (i, l) → (i + l ≤ length s) × (2 ≤ l)
unfolding scan one_later
scan-length [] i l e = cc
scan-length (c ∷ s) i l e = elim (Option-cases (delimiter_here (c ∷ s))) [
  | inr (k, h) ↦ ground (arith, delimiter_here-length (c ∷ s) k h, h)
  | inl h ↦ elim (Option-cases (scan s)) [
    | inl n ↦ ground (arith, e, h, n)
    | inr ((j, k), n) ↦ ground (arith, scan-length s j k n, e, h, n)
  ]
]
