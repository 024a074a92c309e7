-- ===== src/Dict/Laws.antt =====
-- The laws of maps.
use venice_e2ee_proxy.Base.{
  ◌+◌, ◌≡◌, refl, sym, subst, inl, inr, Bool, not, List, [], ◌∷◌, none, some, arith, if◌then◌else◌,
  length, and_then, Bool-cases,
}
use venice_e2ee_proxy.Text.{Text, text_eq, text_eq_iff}
use venice_e2ee_proxy.Dict.{get, insert, retain, remove, IsMap, Entries}

module _ {ℓ} {V : Type ℓ} where
  pub get-insert :
      (k j : Text) (v : V) (m : List (Text × V))
      → get j (insert k v m) ≡ (if text_eq k j then some v else get j m)
  unfolding get insert
  get-insert k j v [] = refl
  get-insert k j v ((i, w) ∷ m) =
      ground (arith, text_eq_iff k j, text_eq_iff i k, text_eq_iff i j, get-insert k j v m)

  pub get-remove :
      (k j : Text) (m : List (Text × V))
      → IsMap m
      → get j (remove k m) ≡ (if text_eq k j then none else get j m)
  unfolding get remove
  get-remove k j [] h = ground arith
  get-remove k j ((i, w) ∷ m) h =
      ground (arith, text_eq_iff k j, text_eq_iff i k, text_eq_iff i j, get-remove k j m h.1)

  pub get-retain-none :
      (p : Text → V → Bool) (j : Text) (m : List (Text × V))
      → get j m ≡ none
      → get j (retain p m) ≡ none
  unfolding get retain
  get-retain-none p j [] h = refl
  get-retain-none p j ((i, w) ∷ m) h = ground (arith, get-retain-none p j m)

  pub get-retain :
      (p : Text → V → Bool) (j : Text) (m : List (Text × V))
      → IsMap m
      → get j (retain p m) ≡ and_then (get j m) (λ v. if p j v then some v else none)
  unfolding get retain
  get-retain p j [] h = refl
  get-retain p j ((i, w) ∷ m) h =
      ground (arith, text_eq_iff i j, get-retain p j m h.1, get-retain-none p j m)

  pub insert-IsMap : (k : Text) (v : V) (m : List (Text × V)) → IsMap m → IsMap (insert k v m)
  unfolding insert
  insert-IsMap k v [] h = (unfold get in refl, tt)
  insert-IsMap k v ((i, w) ∷ m) h =
      ground (arith, text_eq_iff i k, text_eq_iff k i, get-insert k i v m, insert-IsMap k v m h.1)

  pub retain-IsMap : (p : Text → V → Bool) (m : List (Text × V)) → IsMap m → IsMap (retain p m)
  unfolding retain
  retain-IsMap p [] h = tt
  retain-IsMap p ((i, w) ∷ m) h = ground (arith, get-retain-none p i m h.0, retain-IsMap p m h.1)

  pub remove-IsMap : (k : Text) (m : List (Text × V)) → IsMap m → IsMap (remove k m)
  unfolding remove
  remove-IsMap k [] h = tt
  remove-IsMap k ((i, w) ∷ m) h = ground (arith, get-remove k i m h.1, remove-IsMap k m h.1)

  module _ {κ} (P : Text → V → Type κ) where
    pub get-Entries :
        (k : Text) (m : List (Text × V)) {v : V} → Entries P m → get k m ≡ some v → P k v
    unfolding get
    get-Entries k [] h e = cc
    get-Entries k ((i, w) ∷ m) {v = v} h e =
        ground (arith, h.0, get-Entries k m {v = v} h.1, text_eq_iff i k)

    pub insert-Entries :
        (k : Text) (v : V) (m : List (Text × V)) → P k v → Entries P m → Entries P (insert k v m)
    unfolding insert
    insert-Entries k v [] p h = (p, tt)
    insert-Entries k v ((i, w) ∷ m) p h = elim (Bool-cases (text_eq i k)) [
      | inl same ↦ rw same (subst (λ j. P j v) (sym ((text_eq_iff i k).0 same)) p, h.1)
      | inr other ↦ rw other (h.0, insert-Entries k v m p h.1)
    ]

    pub retain-Entries :
        (q : Text → V → Bool) (m : List (Text × V)) → Entries P m → Entries P (retain q m)
    unfolding retain
    retain-Entries q [] h = tt
    retain-Entries q ((i, w) ∷ m) h = ground (arith, retain-Entries q m h.1)

    pub remove-Entries : (k : Text) (m : List (Text × V)) → Entries P m → Entries P (remove k m)
    unfolding remove
    remove-Entries k [] h = tt
    remove-Entries k ((i, w) ∷ m) h = ground (arith, remove-Entries k m h.1)

  -- What is kept and what is dropped make up the whole.
  pub length-retain :
      (p : Text → V → Bool) (m : List (Text × V))
      → length (retain p m) + length (retain (λ k v. not (p k v)) m) ≡ length m
  unfolding retain
  length-retain p [] = omega arith
  length-retain p ((i, w) ∷ m) = ground (arith, length-retain p m)

pub Entries-map {ℓ κ μ} :
    {V : Type ℓ} {P : Text → V → Type κ} {Q : Text → V → Type μ}
    → ((k : Text) (v : V) → P k v → Q k v)
    → (m : List (Text × V)) → Entries P m
    → Entries Q m
Entries-map f [] h = tt
Entries-map f ((k, v) ∷ m) h = (f k v h.0, Entries-map f m h.1)
