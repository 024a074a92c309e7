-- ===== src/Text/Blank.antt =====
-- What `str::trim` leaves: nothing of a blank text, and else a text with no space at either end.
use venice_e2ee_proxy.Base.{
  ◌≡◌, refl, sym, ap, subst, ◌∙◌, true, false, ◌⊎◌, inl, inr, [], ◌∷◌, ◌++◌, reverse, All,
  Bool-cases,
}
use mathlib.Core.List.{concat-ne-nil, reverse-append, reverse-reverse}
use venice_e2ee_proxy.Text.{Text, is_whitespace}
use venice_e2ee_proxy.Text.Trim.{trim, trim_start}

abbrev pub IsBlank : Text → Type 0
IsBlank s = All (λ c. is_whitespace c ≡ true) s

abbrev pub StartsTight : Text → Type 0
StartsTight [] = ⊥
StartsTight (c ∷ s) = is_whitespace c ≡ false

-- The text is not empty, and neither its first character nor its last is white space.
abbrev pub IsTight : Text → Type 0
IsTight s = StartsTight s × StartsTight (reverse s)

trim_start_cases : (s : Text) → (IsBlank s × (trim_start s ≡ [])) ⊎ StartsTight (trim_start s)
unfolding trim_start
trim_start_cases [] = inl (tt, refl)
trim_start_cases (c ∷ s) = elim (Bool-cases (is_whitespace c)) [
  | inl e ↦ rw e (elim (trim_start_cases s) [
    | inl (blank, none_left) ↦ inl ((refl, blank), none_left)
    | inr tight ↦ inr tight
  ])
  | inr e ↦ rw e (inr e)
]

trim_start-snoc :
    (s : Text) (c : _)
    → is_whitespace c ≡ false
    → (t : Text) × (trim_start (s ++ (c ∷ [])) ≡ t ++ (c ∷ []))
unfolding trim_start
trim_start-snoc [] c h = ([], rw h refl)
trim_start-snoc (d ∷ s) c h = elim (Bool-cases (is_whitespace d)) [
  | inl e ↦ rw e (trim_start-snoc s c h)
  | inr e ↦ rw e (d ∷ s, refl)
]

trimmed_end : (t : Text) → StartsTight t → IsTight (reverse (trim_start (reverse t)))
trimmed_end [] h = elim h [ ]
trimmed_end (c ∷ t) h =
    let (u, e) = trim_start-snoc (reverse t) c h in
    let left : trim_start (reverse (c ∷ t)) ≡ u ++ (c ∷ []) =
      ap trim_start (reverse-append (c ∷ []) t) ∙ e in
    (
      subst StartsTight (sym (ap reverse left ∙ reverse-append u (c ∷ []))) h,
      subst StartsTight (sym (reverse-reverse (trim_start (reverse (c ∷ t)))))
          (elim (trim_start_cases (reverse (c ∷ t))) [
            | inl (blank, none_left) ↦ absurd (concat-ne-nil c u (sym left ∙ none_left))
            | inr tight ↦ tight
          ]),
    )

trim_nil : reverse (trim_start (reverse [])) ≡ []
unfolding trim_start
trim_nil = refl

pub trim_cases : (s : Text) → (IsBlank s × (trim s ≡ [])) ⊎ IsTight (trim s)
unfolding trim
trim_cases s = elim (trim_start_cases s) [
  | inl (blank, e) ↦ inl (blank, ap (λ t. reverse (trim_start (reverse t))) e ∙ trim_nil)
  | inr tight ↦ inr (trimmed_end (trim_start s) tight)
]
