-- ===== src/Text/Search.antt =====
-- `str::starts_with`, `find`, `split_once`, `strip_prefix`, `strip_suffix`, `lines` and `join`.
-- A position counts characters; the proxy only uses it to cut the text that was searched.
use venice_e2ee_proxy.Base.{
  ℕ, Bool, true, false, ◌&&◌, List, [], ◌∷◌, ◌++◌, Option, none, some, suc, if◌then◌else◌, ◌==◌,
  reverse,
}
use venice_e2ee_proxy.Text.{Text}

abbrev pub starts_with : Text → Text → Bool
starts_with [] s = true
starts_with (c ∷ d) [] = false
starts_with (c ∷ d) (e ∷ s) = e == c && starts_with d s

-- One position further.
abbrev pub later : Option ℕ → Option ℕ
later none = none
later (some i) = some (suc i)

-- The first position of a text that is not empty.
unfoldable pub find : Text → Text → Option ℕ
find d [] = none
find d (c ∷ s) = let rest = find d s in if starts_with d (c ∷ s) then some 0 else later rest

-- `split_once` at one character.
unfoldable pub split_once : ℕ → Text → Option (Text × Text)
split_once c [] = none
split_once c (d ∷ s) =
    let rest = split_once c s in
    if d == c
    then some ([], s)
    else elim rest [ none ↦ none | some (before, after) ↦ some (d ∷ before, after) ]

-- `strip_prefix` of one character, then `unwrap_or` the text.
unfoldable pub strip_first : ℕ → Text → Text
strip_first c [] = []
strip_first c (d ∷ s) = if d == c then s else d ∷ s

-- `strip_suffix` of one character, then `unwrap_or` the text.
unfoldable pub strip_last : ℕ → Text → Text
strip_last c s = reverse (strip_first c (reverse s))

-- The pieces between line feeds, the last one also when it is empty.
unfoldable pub split_lines : Text → List Text
split_lines [] = [] ∷ []
split_lines (c ∷ s) =
    let rest = split_lines s in
    if c == 10 then [] ∷ rest else elim rest [ [] ↦ (c ∷ []) ∷ [] | l ∷ ls ↦ (c ∷ l) ∷ ls ]

-- `lines`: a carriage return before a line feed goes with it, and nothing after the last line
-- feed is no line.
unfoldable pub end_lines : List Text → List Text
end_lines [] = []
end_lines ([] ∷ []) = []
end_lines ((c ∷ l) ∷ []) = (c ∷ l) ∷ []
end_lines (l ∷ (k ∷ ls)) = strip_last 13 l ∷ end_lines (k ∷ ls)

unfoldable pub lines : Text → List Text
lines s = end_lines (split_lines s)

-- `join` with a line feed.
unfoldable pub join_lines : List Text → Text
join_lines [] = []
join_lines (l ∷ []) = l
join_lines (l ∷ (k ∷ ls)) = l ++ 10 ∷ join_lines (k ∷ ls)
