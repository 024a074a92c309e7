-- ===== src/Sessions/Invariant.antt =====
-- What holds of every stored session, after any calls in any order.
use venice_e2ee_proxy.Base.{
  ℕ, ◌+◌, ◌≡◌, ◌≤◌, ◌<◌, subst, List, [], ◌∷◌, none, some, Result, ok, err, arith, refl, ◌⊎◌,
  Option-cases, Bool-cases, Result-cases, inl, inr, false, true,
}
use venice_e2ee_proxy.Text.{Text, text_eq_refl, is_empty}
use venice_e2ee_proxy.Text.Trim.{trim}
use venice_e2ee_proxy.Dict.{get, insert, remove, IsMap, Entries}
use venice_e2ee_proxy.Dict.Laws.{
  get-remove, get-Entries, insert-Entries, remove-Entries, retain-Entries, insert-IsMap,
  remove-IsMap, retain-IsMap,
}
use venice_e2ee_proxy.Sessions.{
  SessionExpirationReason, SessionScope, SessionContext, SessionResolution, AttestedModelState,
  SessionConfig, SessionManager, session_key, new_manager, expiration_reason, new_context,
  SessionError, session_not_found, session_expired,
}
use venice_e2ee_proxy.Sessions.Identifier.{
  HeaderLib, SessionRequest, ResolvedSessionIdentifier, resolve_identifier,
}
use venice_e2ee_proxy.Sessions.Manager.{
  touch, enter, get_or_create_at, attested, set_attested_model_state_at, cleanup_expired_at,
}

-- No part of an attestation is there, or a whole one is: the key, the provider, the debug flag, the
-- NVIDIA status and the time of one attested state.
unfoldable pub IsWhole : SessionContext → Type 0
IsWhole s =
    ((s.attested_model_public_key ≡ none)
      × (s.attestation_tee_provider ≡ none)
      × (s.attestation_tdx_debug ≡ none)
      × (s.attestation_nvidia_verified ≡ none)
      × (s.verified_at ≡ none))
    ⊎ ((state : AttestedModelState) × (s.attested_model_public_key ≡ some state.model_public_key)
        × (s.attestation_tee_provider ≡ state.tee_provider)
        × (s.attestation_tdx_debug ≡ state.tdx_debug)
        × (s.attestation_nvidia_verified ≡ some state.nvidia_verified)
        × (s.verified_at ≡ some state.verified_at))

-- A stored session lies under its own key, within its request budget, and its attestation is
-- there as a whole or not at all.
pub record IsOwn (config : SessionConfig) (key : Text) (s : SessionContext) : Type 0 where
  pub filed : s.session_key ≡ key
  pub named : session_key s.model_id s.agent_session_id ≡ key
  pub used : 1 ≤ s.request_count
  pub budget : s.request_count ≤ config.max_requests
  pub term : s.expires_at ≡ s.created_at + config.max_ttl
  pub whole : IsWhole s

pub record IsWellFormed (m : SessionManager) : Type 0 where
  pub positive : 0 < m.config.max_requests
  pub distinct : IsMap m.sessions
  pub own : Entries (IsOwn m.config) m.sessions

-- A live session is used again.
pub enter_live :
    (m : SessionManager) (model_id : Text) (r : ResolvedSessionIdentifier) (now : ℕ)
    (s : SessionContext)
    → get (session_key model_id r.agent_session_id) m.sessions ≡ some s
    → expiration_reason m.config s now ≡ none
    → enter m model_id r now ≡ (
      record m {
        sessions = insert (session_key model_id r.agent_session_id) (touch s now) m.sessions;
      },
      record { session = touch s now; created = false; replaced_expired = none },
    )
unfolding enter
enter_live m model_id r now s e f = ground arith

-- The three ways of `enter`.
pub enter_cases {ℓ} :
    (P : SessionManager × SessionResolution → Type ℓ) (m : SessionManager) (model_id : Text)
    (r : ResolvedSessionIdentifier) (now : ℕ)
    → IsMap m.sessions
    → let key = session_key model_id r.agent_session_id in
      let fresh = new_context model_id r.agent_session_id r.scope now m.config in
      ((s : SessionContext)
        → get key m.sessions ≡ some s
        → expiration_reason m.config s now ≡ none
        → P (
          record m { sessions = insert key (touch s now) m.sessions },
          record { session = touch s now; created = false; replaced_expired = none },
        ))
      → (get key m.sessions ≡ none
          → P (
            record m { sessions = insert key fresh m.sessions },
            record { session = fresh; created = true; replaced_expired = none },
          ))
      → ((reason : SessionExpirationReason)
          → P (
            record m { sessions = insert key fresh (remove key m.sessions) },
            record { session = fresh; created = true; replaced_expired = some reason },
          ))
      → P (enter m model_id r now)
unfolding enter
enter_cases P m model_id r now h reused absent replaced =
    let key = session_key model_id r.agent_session_id in
    elim (Option-cases (get key m.sessions)) [
      | inl e ↦ subst P (ground arith) (absent e)
      | inr (s, e) ↦ elim (Option-cases (expiration_reason m.config s now)) [
        | inl f ↦ subst P (ground arith) (reused s e f)
        | inr (reason, f) ↦
            subst P (ground (arith, get-remove key key m.sessions h, text_eq_refl key))
              (replaced reason)
      ]
    ]

new_context-IsOwn :
    (config : SessionConfig) (model_id id : Text) (scope : SessionScope) (now : ℕ)
    → 0 < config.max_requests
    → IsOwn config (session_key model_id id) (new_context model_id id scope now config)
unfolding new_context IsWhole
new_context-IsOwn config model_id id scope now h = record {
  filed = refl;
  named = refl;
  used = omega arith;
  budget = omega arith;
  term = refl;
  whole = inl (refl, refl, refl, refl, refl);
}

touch-IsOwn :
    (config : SessionConfig) (key : Text) (s : SessionContext) (now : ℕ)
    → IsOwn config key s
    → expiration_reason config s now ≡ none
    → IsOwn config key (touch s now)
unfolding touch expiration_reason IsWhole
touch-IsOwn config key s now h e = record {
  filed = h.filed;
  named = h.named;
  used = omega arith;
  budget = ground arith;
  term = h.term;
  whole = h.whole;
}

attested-IsOwn :
    (config : SessionConfig) (key : Text) (s : SessionContext) (state : AttestedModelState)
    → IsOwn config key s
    → IsOwn config key (attested s state)
unfolding attested IsWhole
attested-IsOwn config key s state h = record {
  filed = h.filed;
  named = h.named;
  used = h.used;
  budget = h.budget;
  term = h.term;
  whole = inr (state, refl, refl, refl, refl, refl);
}

pub enter-IsWellFormed :
    (m : SessionManager) (model_id : Text) (r : ResolvedSessionIdentifier) (now : ℕ)
    → IsWellFormed m
    → IsWellFormed (enter m model_id r now).0
enter-IsWellFormed m model_id r now w =
    let key = session_key model_id r.agent_session_id in
    let fresh = new_context model_id r.agent_session_id r.scope now m.config in
    let own = IsOwn m.config in
    let fresh-own = new_context-IsOwn m.config model_id r.agent_session_id r.scope now w.positive in
    enter_cases (λ out. IsWellFormed out.0) m model_id r now w.distinct
      (λ s e f. record {
        positive = w.positive;
        distinct = insert-IsMap key (touch s now) m.sessions w.distinct;
        own =
            insert-Entries own key (touch s now) m.sessions
              (touch-IsOwn m.config key s now (get-Entries own key m.sessions w.own e) f) w.own;
      })
      (λ e. record {
        positive = w.positive;
        distinct = insert-IsMap key fresh m.sessions w.distinct;
        own = insert-Entries own key fresh m.sessions fresh-own w.own;
      })
      (λ reason. record {
        positive = w.positive;
        distinct = insert-IsMap key fresh _ (remove-IsMap key m.sessions w.distinct);
        own = insert-Entries own key fresh _ fresh-own (remove-Entries own key m.sessions w.own);
      })

-- The three ways of `set_attested_model_state_at`.
pub set_attested_cases {ℓ} :
    (P : SessionManager × Result SessionError SessionContext → Type ℓ) (m : SessionManager)
    (key : Text) (state : AttestedModelState) (now : ℕ)
    → (get key m.sessions ≡ none → P (m, err (session_not_found key)))
    → ((s : SessionContext)
        → get key m.sessions ≡ some s
        → expiration_reason m.config s now ≡ none
        → P (
          record m { sessions = insert key (attested s state) m.sessions },
          ok (attested s state),
        ))
    → ((s : SessionContext) (reason : SessionExpirationReason)
        → get key m.sessions ≡ some s
        → expiration_reason m.config s now ≡ some reason
        → P (record m { sessions = remove key m.sessions }, err (session_expired reason)))
    → P (set_attested_model_state_at m key state now)
unfolding set_attested_model_state_at
set_attested_cases P m key state now absent kept dropped =
    elim (Option-cases (get key m.sessions)) [
      | inl e ↦ subst P (ground arith) (absent e)
      | inr (s, e) ↦ elim (Option-cases (expiration_reason m.config s now)) [
        | inl f ↦ subst P (ground arith) (kept s e f)
        | inr (reason, f) ↦ subst P (ground arith) (dropped s reason e f)
      ]
    ]

pub set_attested_model_state_at-IsWellFormed :
    (m : SessionManager) (key : Text) (state : AttestedModelState) (now : ℕ)
    → IsWellFormed m
    → IsWellFormed (set_attested_model_state_at m key state now).0
set_attested_model_state_at-IsWellFormed m key state now w =
    let own = IsOwn m.config in
    set_attested_cases (λ out. IsWellFormed out.0) m key state now (λ _. w)
      (λ s e f. record {
        positive = w.positive;
        distinct = insert-IsMap key (attested s state) m.sessions w.distinct;
        own =
            insert-Entries own key (attested s state) m.sessions
              (attested-IsOwn m.config key s state (get-Entries own key m.sessions w.own e)) w.own;
      })
      (λ s reason e f. record {
        positive = w.positive;
        distinct = remove-IsMap key m.sessions w.distinct;
        own = remove-Entries own key m.sessions w.own;
      })

pub cleanup_expired_at-IsWellFormed :
    (m : SessionManager) (now : ℕ) → IsWellFormed m → IsWellFormed (cleanup_expired_at m now).0
unfolding cleanup_expired_at
cleanup_expired_at-IsWellFormed m now w = record {
  positive = w.positive;
  distinct = retain-IsMap _ m.sessions w.distinct;
  own = retain-Entries (IsOwn m.config) _ m.sessions w.own;
}

module _ (http : HeaderLib) where
  -- A call of one of the manager's methods, with its clock and its fresh identifier.
  pub data Call : Type 0 where
    get_or_create : SessionRequest http → ℕ → Text → Call
    set_attested : Text → AttestedModelState → ℕ → Call
    cleanup : ℕ → Call

  unfoldable pub step : SessionManager → Call → SessionManager
  step m (get_or_create request now uuid) = (get_or_create_at http m request now uuid).0
  step m (set_attested key state now) = (set_attested_model_state_at m key state now).0
  step m (cleanup now) = (cleanup_expired_at m now).0

  -- The lock makes any interleaving of the callers a list of calls.
  unfoldable pub run : SessionManager → List Call → SessionManager
  run m [] = m
  run m (c ∷ cs) = run (step m c) cs

  -- A request enters the map under the lock, or leaves the manager as it was.
  pub get_or_create_cases {ℓ} :
      (P : SessionManager → Type ℓ) (m : SessionManager) (request : SessionRequest http) (now : ℕ)
      (uuid : Text)
      → P m
      → ((r : ResolvedSessionIdentifier) → P (enter m request.model_id r now).0)
      → P (get_or_create_at http m request now uuid).0
  unfolding get_or_create_at
  get_or_create_cases P m request now uuid refused entered =
      elim (Bool-cases (is_empty (trim request.model_id))) [
        | inl e ↦ rw e refused
        | inr e ↦ rw e (elim (Result-cases (resolve_identifier http m request uuid)) [
          | inl (r, f) ↦ rw f (entered r)
          | inr (x, f) ↦ rw f refused
        ])
      ]

  pub get_or_create_at-IsWellFormed :
      (m : SessionManager) (request : SessionRequest http) (now : ℕ) (uuid : Text)
      → IsWellFormed m
      → IsWellFormed (get_or_create_at http m request now uuid).0
  get_or_create_at-IsWellFormed m request now uuid w =
      get_or_create_cases IsWellFormed m request now uuid w
        (λ r. enter-IsWellFormed m request.model_id r now w)

  step-IsWellFormed : (m : SessionManager) (c : Call) → IsWellFormed m → IsWellFormed (step m c)
  unfolding step
  step-IsWellFormed m (get_or_create request now uuid) w =
      get_or_create_at-IsWellFormed m request now uuid w
  step-IsWellFormed m (set_attested key state now) w =
      set_attested_model_state_at-IsWellFormed m key state now w
  step-IsWellFormed m (cleanup now) w = cleanup_expired_at-IsWellFormed m now w

  run-IsWellFormed :
      (m : SessionManager) (cs : List Call) → IsWellFormed m → IsWellFormed (run m cs)
  unfolding run
  run-IsWellFormed m [] w = w
  run-IsWellFormed m (c ∷ cs) w = run-IsWellFormed (step m c) cs (step-IsWellFormed m c w)

  -- From an empty manager with a positive budget, after any calls in any order, every stored
  -- session lies under its own key, within its request budget, and has none of the five parts of an
  -- attestation, or those of one attested state; and the keys are distinct.
  pub run-new_manager-IsWellFormed :
      (config : SessionConfig) (uuid : Text) (cs : List Call)
      → 0 < config.max_requests
      → IsWellFormed (run (new_manager config uuid) cs)
  unfolding new_manager
  run-new_manager-IsWellFormed config uuid cs h =
      run-IsWellFormed _ cs (record { positive = h; distinct = tt; own = tt })
