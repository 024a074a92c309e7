-- ===== src/Sessions/Provenance.antt =====
-- Where a cached model key comes from.
use venice_e2ee_proxy.Base.{ℕ, ◌≡◌, [], ◌∷◌, some, List}
use venice_e2ee_proxy.Sessions.Invariant.{
  Call, get_or_create, set_attested, cleanup, step, run, enter_cases, get_or_create_cases,
  set_attested_cases,
}
use venice_e2ee_proxy.Dict.{get, Entries, IsMap}
use venice_e2ee_proxy.Sessions.Identifier.{HeaderLib, ResolvedSessionIdentifier}
use venice_e2ee_proxy.Sessions.Manager.{cleanup_expired_at, enter, touch, attested}
use venice_e2ee_proxy.Text.{Text}
use venice_e2ee_proxy.Sessions.{
  new_manager, SessionManager, AttestedModelState, SessionContext, SessionConfig, session_key,
  new_context,
}
use venice_e2ee_proxy.Dict.Laws.{
  get-Entries, Entries-map, insert-IsMap, insert-Entries, remove-IsMap, remove-Entries,
  retain-IsMap, retain-Entries,
}

module _ (http : HeaderLib) where
  -- Among these calls, newest first, one stored this model key under this session key.
  pub data Wrote (key pk : Text) : List (Call http) → Type 0 where
    here :
        {cs : List (Call http)} (state : AttestedModelState) (now : ℕ)
        → state.model_public_key ≡ pk
        → Wrote key pk (set_attested key state now ∷ cs)
    there : {c : Call http} {cs : List (Call http)} → Wrote key pk cs → Wrote key pk (c ∷ cs)

  -- The calls that are past after `cs`, newest first, where `ps` were past before.
  abbrev pub past : List (Call http) → List (Call http) → List (Call http)
  past ps [] = ps
  past ps (c ∷ cs) = past (c ∷ ps) cs

  abbrev pub IsTraced : List (Call http) → Text → SessionContext → Type 0
  IsTraced ps key s = (pk : Text) → s.attested_model_public_key ≡ some pk → Wrote key pk ps

  abbrev Traced : List (Call http) → SessionManager → Type 0
  Traced ps m = IsMap m.sessions × Entries (IsTraced ps) m.sessions

  later :
      (ps : List (Call http)) (c : Call http) (m : List (Text × SessionContext))
      → Entries (IsTraced ps) m
      → Entries (IsTraced (c ∷ ps)) m
  later ps c m = Entries-map (λ k s h pk e. there (h pk e)) m

  enter-Traced :
      (ps : List (Call http)) (m : SessionManager) (model_id : Text) (r : ResolvedSessionIdentifier)
      (now : ℕ)
      → Traced ps m
      → Traced ps (enter m model_id r now).0
  enter-Traced ps m model_id r now w =
      let key = session_key model_id r.agent_session_id in
      let fresh = new_context model_id r.agent_session_id r.scope now m.config in
      let traced = IsTraced ps in
      let untouched : IsTraced ps key fresh = λ pk e. unfold new_context in cc in
      enter_cases (λ o. Traced ps o.0) m model_id r now w.0
        (λ s e f. (
          insert-IsMap key (touch s now) m.sessions w.0,
          insert-Entries traced key (touch s now) m.sessions
              (unfold touch in get-Entries traced key m.sessions w.1 e) w.1,
        ))
        (λ e. (
          insert-IsMap key fresh m.sessions w.0,
          insert-Entries traced key fresh m.sessions untouched w.1,
        ))
        (λ reason. (
          insert-IsMap key fresh _ (remove-IsMap key m.sessions w.0),
          insert-Entries traced key fresh _ untouched (remove-Entries traced key m.sessions w.1),
        ))

  step-Traced :
      (ps : List (Call http)) (m : SessionManager) (c : Call http)
      → Traced ps m
      → Traced (c ∷ ps) (step http m c)
  unfolding step cleanup_expired_at
  step-Traced ps m (get_or_create request now uuid) w =
      let (d, t) =
        get_or_create_cases http (Traced ps) m request now uuid w
          (λ r. enter-Traced ps m request.model_id r now w) in
      (d, later ps (get_or_create request now uuid) _ t)
  step-Traced ps m (set_attested key state now) w =
      let c = set_attested key state now in
      set_attested_cases (λ o. Traced (c ∷ ps) o.0) m key state now
        (λ _. (w.0, later ps c m.sessions w.1))
        (λ s e f. (
          insert-IsMap key (attested s state) m.sessions w.0,
          insert-Entries (IsTraced (c ∷ ps)) key (attested s state) m.sessions
              (λ pk p. here state now (unfold attested in cc)) (later ps c m.sessions w.1),
        ))
        (λ s reason e f. (
          remove-IsMap key m.sessions w.0,
          remove-Entries (IsTraced (c ∷ ps)) key m.sessions (later ps c m.sessions w.1),
        ))
  step-Traced ps m (cleanup now) w = (
    retain-IsMap _ m.sessions w.0,
    retain-Entries (IsTraced (cleanup now ∷ ps)) _ m.sessions
        (later ps (cleanup now) m.sessions w.1),
  )

  run-Traced :
      (ps : List (Call http)) (m : SessionManager) (cs : List (Call http))
      → Traced ps m
      → Traced (past ps cs) (run http m cs)
  unfolding run
  run-Traced ps m [] w = w
  run-Traced ps m (c ∷ cs) w = run-Traced (c ∷ ps) (step http m c) cs (step-Traced ps m c w)

  -- After any calls in any order, a session's cached model key is one that a call of
  -- `set_attested_model_state_at` stored under the key of that session.
  pub run-IsTraced :
      (config : SessionConfig) (uuid : Text) (cs : List (Call http)) (key : Text)
      {s : SessionContext}
      → get key (run http (new_manager config uuid) cs).sessions ≡ some s
      → IsTraced (past [] cs) key s
  unfolding new_manager
  run-IsTraced config uuid cs key e =
      get-Entries (IsTraced (past [] cs)) key _ (run-Traced [] _ cs (tt, tt)).1 e
