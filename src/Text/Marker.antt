-- ===== src/Text/Marker.antt =====
-- The search for a marker in a text that arrives in pieces: when a beginning of the text may be let
-- go, and what is then found in the rest.
use venice_e2ee_proxy.Base.{
  ℕ, suc, zero, ◌+◌, ◌≤◌, ◌<◌, ◌≡◌, refl, sym, ap, subst, ◌⊎◌, inl, inr, true, false, [], ◌∷◌, ◌++◌,
  Option, none, some, length, take, drop, take-append-drop, arith, Option-cases, Bool-cases,
  append-nil, append_assoc,
}
use venice_e2ee_proxy.Text.{Text, len_utf8}
use venice_e2ee_proxy.Text.Search.{find, starts_with, later}
use venice_e2ee_proxy.Text.Bytes.{byte_len, byte_len-append, len_utf8_pos}

-- A position so much further on.
unfoldable pub shifted : ℕ → Option ℕ → Option ℕ
shifted n none = none
shifted n (some i) = some (n + i)

-- Every character is of one byte.
unfoldable pub IsAscii : Text → Type 0
IsAscii [] = Unit
IsAscii (c ∷ s) = (len_utf8 c ≡ 1) × IsAscii s

-- A marker that a longer text starts with: the text itself does, or is too short in bytes.
pub starts_with-append :
    (m s t : Text)
    → IsAscii m
    → starts_with m (s ++ t) ≡ true
    → (starts_with m s ≡ true) ⊎ (byte_len s < length m)
unfolding IsAscii byte_len
starts_with-append [] s t a h = inl refl
starts_with-append (c ∷ m) [] t a h = inr (omega arith)
starts_with-append (c ∷ m) (d ∷ s) t (a, rest) h = elim (Bool-cases (starts_with m (s ++ t))) [
  | inl e ↦ elim (starts_with-append m s t rest e) [
    | inl f ↦ ground (arith, h, e, f, a)
    | inr f ↦ ground (arith, h, e, f, a)
  ]
  | inr e ↦ ground (arith, h, e)
]

pub starts_with_more : (m s t : Text) → starts_with m s ≡ true → starts_with m (s ++ t) ≡ true
starts_with_more [] s t h = refl
starts_with_more (c ∷ m) [] t h = cc
starts_with_more (c ∷ m) (d ∷ s) t h = ground (arith, h, starts_with_more m s t)

pub starts_with-length : (m s : Text) → starts_with m s ≡ true → length m ≤ byte_len s
unfolding byte_len
starts_with-length [] s h = omega arith
starts_with-length (c ∷ m) [] h = cc
starts_with-length (c ∷ m) (d ∷ s) h = ground (arith, h, starts_with-length m s, len_utf8_pos d)

module _ (m : Text) where
  -- No place of `before` starts the marker, when `after` follows it.
  unfoldable pub Clear : Text → Text → Type 0
  Clear [] after = Unit
  Clear (c ∷ before) after = (starts_with m (c ∷ (before ++ after)) ≡ false) × Clear before after

  pub find-Clear :
      (before after : Text)
      → Clear before after
      → find m (before ++ after) ≡ shifted (length before) (find m after)
  unfolding Clear shifted find
  find-Clear [] after h = elim (Option-cases (find m after)) [
    | inl e ↦ ground (arith, e)
    | inr (i, e) ↦ ground (arith, e)
  ]
  find-Clear (c ∷ before) after (h, hs) = elim (Option-cases (find m after)) [
    | inl e ↦ ground (arith, find-Clear before after hs, e, h)
    | inr (i, e) ↦ ground (arith, find-Clear before after hs, e, h)
  ]

  later-none : (o : Option ℕ) → later o ≡ none → o ≡ none
  later-none none e = refl
  later-none (some i) e = cc

  -- Where the marker is not found, no place starts it.
  pub Clear-find-none : (s : Text) → find m s ≡ none → Clear s []
  unfolding Clear find
  Clear-find-none [] e = tt
  Clear-find-none (c ∷ s) e = elim (Bool-cases (starts_with m (c ∷ s))) [
    | inl h ↦ ground (arith, h, e)
    | inr h ↦ (
      subst (λ z. starts_with m (c ∷ z) ≡ false) (sym (append-nil s)) h,
      Clear-find-none s (later-none _ (ground (arith, h, e))),
    )
  ]

  further :
      (c : ℕ) (s : Text) (i : ℕ)
      → starts_with m (c ∷ s) ≡ false
      → Clear (take i s) (drop i s) × (starts_with m (drop i s) ≡ true) × (length (take i s) ≡ i)
      → Clear (c ∷ take i s) (drop i s)
        × (starts_with m (drop i s) ≡ true)
        × (suc (length (take i s)) ≡ suc i)
  unfolding Clear
  further c s i h (clear, start, len) = (
    (subst (λ z. starts_with m (c ∷ z) ≡ false) (sym (take-append-drop i s)) h, clear),
    start,
    ap suc len,
  )

  -- What stands before the marker starts it nowhere, and what is left starts with it.
  pub Clear-find-some :
      (s : Text) (i : ℕ)
      → find m s ≡ some i
      → Clear (take i s) (drop i s) × (starts_with m (drop i s) ≡ true) × (length (take i s) ≡ i)
  unfolding Clear find
  Clear-find-some [] i e = cc
  Clear-find-some (c ∷ s) zero e = elim (Bool-cases (starts_with m (c ∷ s))) [
    | inl h ↦ (tt, h, refl)
    | inr h ↦ elim (Option-cases (find m s)) [
      | inl n ↦ ground (arith, h, n, e)
      | inr (j, n) ↦ ground (arith, h, n, e)
    ]
  ]
  Clear-find-some (c ∷ s) (suc i) e = elim (Bool-cases (starts_with m (c ∷ s))) [
    | inl h ↦ elim (Option-cases (find m s)) [
      | inl n ↦ ground (arith, h, n, e)
      | inr (j, n) ↦ ground (arith, h, n, e)
    ]
    | inr h ↦ elim (Option-cases (find m s)) [
      | inl n ↦ ground (arith, h, n, e)
      | inr (j, n) ↦ further c s i h (Clear-find-some s i (ground (arith, h, n, e)))
    ]
  ]

  pub Clear-append : (a b s : Text) → Clear a (b ++ s) → Clear b s → Clear (a ++ b) s
  unfolding Clear
  Clear-append [] b s h k = k
  Clear-append (c ∷ a) b s (h, hs) k = (
    subst (λ z. starts_with m (c ∷ z) ≡ false) (sym (append_assoc a b s)) h,
    Clear-append a b s hs k,
  )

  pub Clear-split : (a b s : Text) → Clear (a ++ b) s → Clear a (b ++ s)
  unfolding Clear
  Clear-split [] b s h = tt
  Clear-split (c ∷ a) b s (h, hs) =
      (subst (λ z. starts_with m (c ∷ z) ≡ false) (append_assoc a b s) h, Clear-split a b s hs)

  -- Behind enough bytes, more text makes no marker out of what was let go.
  pub Clear-extend :
      (before after more : Text)
      → IsAscii m
      → length m ≤ suc (byte_len after)
      → Clear before after
      → Clear before (after ++ more)
  unfolding Clear byte_len
  Clear-extend [] after more a enough h = tt
  Clear-extend (c ∷ before) after more a enough (h, hs) = (
    elim (Bool-cases (starts_with m (c ∷ (before ++ (after ++ more))))) [
      | inr e ↦ e
      | inl e ↦
          elim (starts_with-append m (c ∷ (before ++ after)) more a
            (subst (λ z. starts_with m (c ∷ z) ≡ true) (sym (append_assoc before after more)) e)) [
              | inl f ↦ ground (arith, f, h)
              | inr f ↦ ground (arith, f, enough, byte_len-append before after, len_utf8_pos c)
            ]
    ],
    Clear-extend before after more a enough hs,
  )

-- A text that starts with the marker has it at its first place.
pub find-starts : (m s : Text) → starts_with m s ≡ true → 1 ≤ byte_len s → find m s ≡ some 0
unfolding find byte_len
find-starts m [] h k = ground (arith, k)
find-starts m (c ∷ s) h k = ground (arith, h)
