-- ===== src/Chat/Escape.antt =====
-- The escaping of attribute values in the history that the model is shown.
use venice_e2ee_proxy.Base.{ℕ, ◌≡◌, ◌≢◌, refl, sym, [], ◌∷◌, ◌++◌, All, All-append, arith}
use venice_e2ee_proxy.Text.{Text}
use venice_e2ee_proxy.Chat.Messages.{xml_escape_attr, escape_char}

-- No character that ends the attribute or the tag.
abbrev pub IsAttr : ℕ → Type 0
IsAttr c = (c ≢ b'"') × (c ≢ b'<') × (c ≢ b'>')

escape_char-IsAttr : (c : ℕ) → All IsAttr (escape_char c)
escape_char-IsAttr c = ground arith

-- The escaped value has no quote and no angle bracket.
pub xml_escape_attr-IsAttr : (s : Text) → All IsAttr (xml_escape_attr s)
unfolding xml_escape_attr
xml_escape_attr-IsAttr [] = tt
xml_escape_attr-IsAttr (c ∷ s) =
    All-append IsAttr (escape_char c) (xml_escape_attr s) (escape_char-IsAttr c)
      (xml_escape_attr-IsAttr s)

-- The first character of an escaped text, and the rest, are known from it.
first_escaped : (c d : ℕ) (s t : Text) → escape_char c ++ s ≡ escape_char d ++ t → (c ≡ d) × (s ≡ t)
first_escaped c d s t h = ground (arith, h)

some_escaped : (c : ℕ) (s : Text) → escape_char c ++ s ≢ []
some_escaped c s h = ground (arith, h)

-- Different values stay different.
pub xml_escape_attr-injective : (s t : Text) → xml_escape_attr s ≡ xml_escape_attr t → s ≡ t
unfolding xml_escape_attr
xml_escape_attr-injective [] [] h = refl
xml_escape_attr-injective [] (d ∷ t) h = absurd (some_escaped d (xml_escape_attr t) (sym h))
xml_escape_attr-injective (c ∷ s) [] h = absurd (some_escaped c (xml_escape_attr s) h)
xml_escape_attr-injective (c ∷ s) (d ∷ t) h =
    let (same, rest) = first_escaped c d (xml_escape_attr s) (xml_escape_attr t) h in
    λ i. same i ∷ xml_escape_attr-injective s t rest i
