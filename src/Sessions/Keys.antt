-- ===== src/Sessions/Keys.antt =====
-- Which requests share a session: the key is `model_id:agent_session_id` in one text.
use venice_e2ee_proxy.Base.{
  ℕ, ◌≡◌, refl, [], ◌∷◌, arith, sym, ap, subst, length, length-append, ◌∙◌, ◌++◌, append_assoc,
  false, some, none, ◌≢◌,
}
use venice_e2ee_proxy.Text.{Text, text, has_char}
use venice_e2ee_proxy.Dict.{get, Entries}
use venice_e2ee_proxy.Sessions.{
  SessionManager, SessionContext, session_key, expiration_reason, new_context,
}
use venice_e2ee_proxy.Sessions.Identifier.{ResolvedSessionIdentifier}
use venice_e2ee_proxy.Sessions.Invariant.{IsWellFormed, enter_cases, IsOwn, enter_live}
use venice_e2ee_proxy.Sessions.Manager.{enter, touch}
use venice_e2ee_proxy.Dict.Laws.{get-Entries}

-- A text without a colon.
abbrev pub IsPlain : Text → Type 0
IsPlain s = has_char b':' s ≡ false

-- Model ids without a colon keep their sessions apart.
pub session_key-injective :
    (m n : Text) {a b : Text}
    → IsPlain m
    → IsPlain n
    → session_key m a ≡ session_key n b
    → (m ≡ n) × (a ≡ b)
unfolding session_key has_char
session_key-injective [] [] p q e = (refl, cc)
session_key-injective [] (d ∷ n) p q e = absurd (ground arith)
session_key-injective (c ∷ m) [] p q e = absurd (ground arith)
session_key-injective (c ∷ m) (d ∷ n) {a} {b} p q e =
    ground (arith, session_key-injective m n {a = a} {b = b})

-- A colon in a model id makes two models share a key.
pub session_key_shared :
    (m x y : Text) → session_key (m ++ (text ":" ++ x)) y ≡ session_key m (x ++ (text ":" ++ y))
unfolding session_key
session_key_shared m x y = simp append_assoc

module _ (m : SessionManager) (now : ℕ) where
  -- The session that a request gets is one of its own model and identifier, as long as no model
  -- id holds a colon.
  pub enter_own_model :
      (model_id : Text) (r : ResolvedSessionIdentifier)
      → IsWellFormed m
      → Entries (λ _ s. IsPlain s.model_id) m.sessions
      → IsPlain model_id
      → ((enter m model_id r now).1.session.model_id ≡ model_id)
        × ((enter m model_id r now).1.session.agent_session_id ≡ r.agent_session_id)
  enter_own_model model_id r w plain p =
      let key = session_key model_id r.agent_session_id in
      enter_cases
        (λ out.
          (out.1.session.model_id ≡ model_id)
          × (out.1.session.agent_session_id ≡ r.agent_session_id))
        m model_id r now w.distinct
        (λ s e f.
          unfold touch in
          session_key-injective s.model_id model_id
            (get-Entries (λ _ s. IsPlain s.model_id) key m.sessions plain e) p
            (get-Entries (IsOwn m.config) key m.sessions w.own e).named)
        (λ e. unfold new_context in (refl, refl)) (λ reason. unfold new_context in (refl, refl))

  -- While a session for model `a:x` and identifier `y` is live, a request for model `a` with
  -- identifier `x:y` gets that session, attested key included, though its model is another.
  pub enter_other_model :
      (a x y : Text) (r : ResolvedSessionIdentifier) (s : SessionContext)
      → IsWellFormed m
      → r.agent_session_id ≡ x ++ (text ":" ++ y)
      → get (session_key (a ++ (text ":" ++ x)) y) m.sessions ≡ some s
      → s.model_id ≡ a ++ (text ":" ++ x)
      → expiration_reason m.config s now ≡ none
      → ((enter m a r now).1
          ≡ record { session = touch s now; created = false; replaced_expired = none })
        × ((enter m a r now).1.session.attested_model_public_key ≡ s.attested_model_public_key)
        × ((enter m a r now).1.session.model_id ≢ a)
  unfolding touch
  enter_other_model a x y r s w i e model f =
      let shared = session_key_shared a x y ∙ ap (session_key a) (sym i) in
      let out = enter_live m a r now s (subst (λ k. get k m.sessions ≡ some s) shared e) f in
      (
        ap (λ o. o.1) out,
        ap (λ o. o.1.session.attested_model_public_key) out,
        λ same. ground (
          arith,
          ap (λ o. length o.1.session.model_id) out,
          ap length same,
          ap length model,
          length-append a (text ":" ++ x),
        ),
      )
