-- ===== src/Sessions/Resolved.antt =====
-- Which identifier a request is resolved to, told from the texts of its header and its body.
use venice_e2ee_proxy.Base.{
  [], ◌∷◌, ◌≡◌, refl, sym, ap, subst, ◌∙◌, ◌⊎◌, inl, inr, Option, none, some, ok, and_then,
  if◌then◌else◌, arith,
}
use venice_e2ee_proxy.Text.{Text, text, is_empty}
use venice_e2ee_proxy.Text.Trim.{trim}
use venice_e2ee_proxy.Text.Blank.{IsBlank, IsTight, StartsTight, trim_cases}
use venice_e2ee_proxy.Json
use venice_e2ee_proxy.Json.{as_str}
use venice_e2ee_proxy.Sessions.{SessionFallbackScope, SessionManager, SessionScope}
use venice_e2ee_proxy.Sessions.Identifier.{
  HeaderLib, ResolvedSessionIdentifier, SessionRequest, explicit_identifier, fallback_identifier,
  header_identifier, metadata_identifier, non_empty_string, resolve_identifier,
}

-- There is no text, or only white space.
abbrev pub NoName : Option Text → Type 0
NoName none = Unit
NoName (some s) = IsBlank s

-- A text that trims to this name, which has no space at its ends.
abbrev pub Names : Option Text → Text → Type 0
Names none name = ⊥
Names (some s) name = (name ≡ trim s) × IsTight name

some_of_tight : (t : Text) → StartsTight t → (if is_empty t then none else some t) ≡ some t
some_of_tight [] h = elim h [ ]
some_of_tight (c ∷ t) h = refl

non_empty_string_cases :
    (s : Text)
    → (IsBlank s × (non_empty_string s ≡ none))
      ⊎ (IsTight (trim s) × (non_empty_string s ≡ some (trim s)))
unfolding non_empty_string
non_empty_string_cases s = elim (trim_cases s) [
  | inl (blank, e) ↦ inl (blank, ground (arith, e))
  | inr tight ↦ inr (tight, some_of_tight (trim s) tight.0)
]

-- `non_empty_string` of a text that may not be there.
named :
    (o : Option Text)
    → (NoName o × (and_then o non_empty_string ≡ none))
      ⊎ ((name : Text) × Names o name × (and_then o non_empty_string ≡ some name))
named none = inl (tt, refl)
named (some s) = elim (non_empty_string_cases s) [
  | inl (blank, e) ↦ inl (blank, e)
  | inr (tight, e) ↦ inr (trim s, (refl, tight), e)
]

module _ (http : HeaderLib) where
  -- The text of the configured header.
  abbrev pub header_text : SessionManager → SessionRequest http → Option Text
  header_text m request =
      and_then (http.from_bytes m.config.incoming_session_id)
        (λ name. and_then (http.get_header request.headers name) http.to_str)

  -- The text at metadata.session_id of the body.
  abbrev pub body_text : SessionRequest http → Option Text
  body_text request =
      and_then
        (and_then (and_then request.body (Json.get (text "metadata")))
          (Json.get (text "session_id")))
        as_str

  -- What the header's text and the body's say: the header goes first.
  abbrev pub Said : Option Text → Option Text → Option Text → Type 0
  Said header body none = NoName header × NoName body
  Said header body (some name) = Names header name ⊎ (NoName header × Names body name)

  from_header :
      (m : SessionManager) (request : SessionRequest http) {o : Option Text}
      → header_identifier http request.headers m.config.incoming_session_id ≡ ok o
      → o ≡ and_then (header_text m request) non_empty_string
  unfolding header_identifier
  from_header m request h = ground arith

  from_body :
      (request : SessionRequest http)
      → metadata_identifier request.body (text "session_id")
        ≡ and_then (body_text request) non_empty_string
  unfolding metadata_identifier
  from_body request = refl

  -- `Option::or`.
  abbrev first : Option Text → Option Text → Option Text
  first none other = other
  first (some name) other = some name

  body-Said :
      (header body : Option Text)
      → NoName header
      → Said header body (and_then body non_empty_string)
  body-Said header body blank = elim (named body) [
    | inl (none_said, e) ↦ subst (Said header body) (sym e) (blank, none_said)
    | inr (name, names, e) ↦ subst (Said header body) (sym e) (inr (blank, names))
  ]

  first-Said :
      (header body : Option Text)
      → Said header body (first (and_then header non_empty_string) (and_then body non_empty_string))
  first-Said header body =
      let rest = and_then body non_empty_string in
      elim (named header) [
        | inr (name, names, e) ↦ subst (λ o. Said header body (first o rest)) (sym e) (inl names)
        | inl (blank, e) ↦
            subst (λ o. Said header body (first o rest)) (sym e) (body-Said header body blank)
      ]

  explicit_identifier-first :
      (m : SessionManager) (request : SessionRequest http) {o : Option Text}
      → explicit_identifier http m request ≡ ok o
      → (found : Option Text) × (header_identifier http request.headers m.config.incoming_session_id
          ≡ ok found)
        × (first found (metadata_identifier request.body (text "session_id")) ≡ o)
  unfolding explicit_identifier
  explicit_identifier-first m request h = ground arith

  explicit_identifier-Said :
      (m : SessionManager) (request : SessionRequest http) {o : Option Text}
      → explicit_identifier http m request ≡ ok o
      → Said (header_text m request) (body_text request) o
  explicit_identifier-Said m request {o} h =
      let (found, e, picked) = explicit_identifier-first m request h in
      subst (Said (header_text m request) (body_text request))
        (sym (
            ap (λ f. first f (and_then (body_text request) non_empty_string))
              (from_header m request e))
          ∙ (ap (first found) (sym (from_body request)) ∙ picked))
        (first-Said (header_text m request) (body_text request))

  -- Where the identifier of a request comes from: a name that the request says, or the fallback of
  -- the configuration.
  abbrev pub Source :
      SessionManager → SessionRequest http → Text → ResolvedSessionIdentifier → Type 0
  Source m request uuid r =
      let said = Said (header_text m request) (body_text request) in
      (said (some r.agent_session_id) × (r.scope ≡ SessionScope.agent))
      ⊎ (said none
          × (m.config.fallback_scope ≡ SessionFallbackScope.agent)
          × (r ≡ record {
            agent_session_id = m.agent_fallback_session_id;
            scope = SessionScope.agent;
          }))
      ⊎ (said none
          × (m.config.fallback_scope ≡ SessionFallbackScope.request)
          × (r ≡ record { agent_session_id = uuid; scope = SessionScope.request }))

  by_explicit :
      (m : SessionManager) (request : SessionRequest http) (uuid : Text)
      {r : ResolvedSessionIdentifier}
      → resolve_identifier http m request uuid ≡ ok r
      → ((explicit_identifier http m request ≡ ok (some r.agent_session_id))
          × (r.scope ≡ SessionScope.agent))
        ⊎ ((explicit_identifier http m request ≡ ok none)
            × (fallback_identifier m.config.fallback_scope m.agent_fallback_session_id uuid ≡ ok r))
  unfolding resolve_identifier
  by_explicit m request uuid {r} e = ground arith

  by_fallback :
      (scope : SessionFallbackScope) (shared uuid : Text) {r : ResolvedSessionIdentifier}
      → fallback_identifier scope shared uuid ≡ ok r
      → ((scope ≡ SessionFallbackScope.agent)
          × (r ≡ record { agent_session_id = shared; scope = SessionScope.agent }))
        ⊎ ((scope ≡ SessionFallbackScope.request)
            × (r ≡ record { agent_session_id = uuid; scope = SessionScope.request }))
  unfolding fallback_identifier
  by_fallback scope shared uuid e = ground arith

  -- A request that is not refused gets as its session identifier the trimmed text of the header, or,
  -- where that is absent or white space, of metadata.session_id in the body, with the agent's scope
  -- and no space at either end; or, where both are absent or white space, the identifier of the
  -- configured fallback with its scope.
  pub resolve_identifier_cases :
      (m : SessionManager) (request : SessionRequest http) (uuid : Text)
      {r : ResolvedSessionIdentifier}
      → resolve_identifier http m request uuid ≡ ok r
      → Source m request uuid r
  resolve_identifier_cases m request uuid {r} e = elim (by_explicit m request uuid e) [
    | inl (f, scope) ↦ inl (explicit_identifier-Said m request f, scope)
    | inr (f, g) ↦ elim (by_fallback m.config.fallback_scope m.agent_fallback_session_id uuid g) [
      | inl named_agent ↦
          inr (inl (explicit_identifier-Said m request f, named_agent.0, named_agent.1))
      | inr named_request ↦
          inr (inr (explicit_identifier-Said m request f, named_request.0, named_request.1))
    ]
  ]
