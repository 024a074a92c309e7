-- ===== src/Sessions/Spec.antt =====
-- What the session manager promises, with no map in sight: a store is a function from keys, and
-- a session that has expired is as good as absent.
use venice_e2ee_proxy.Base.{
  ℕ, ◌+◌, ◌-◌, ◌++◌, ◌&&◌, ltb, refl, ◌∙◌, ok_or, ◌≡◌, not, Option, none, some, and_then, is_none,
  if◌then◌else◌, arith, Option-cases, inl, inr, length,
}
use mathlib.Core.Option
use venice_e2ee_proxy.Text.{Text, text, text_eq, text_eq_iff, text_eq_refl}
use venice_e2ee_proxy.Dict.{get, remove, retain, IsMap}
use venice_e2ee_proxy.Dict.Laws.{get-insert, get-remove, get-retain, length-retain}
use venice_e2ee_proxy.Sessions.{
  SessionExpirationReason, SessionScope, SessionContext, AttestedModelState, SessionError,
  session_not_found, session_expired, SessionConfig, SessionManager, session_key, expiration_reason,
  new_context,
}
use venice_e2ee_proxy.Sessions.Identifier.{ResolvedSessionIdentifier}
use venice_e2ee_proxy.Sessions.Manager.{
  touch, enter, attested, set_attested_model_state_at, cleanup_expired_at,
}

abbrev pub Store : Type 0
Store = Text → Option SessionContext

abbrev pub view : SessionManager → Store
view m key = get key m.sessions

-- The session under a key, if its requests are not used up, its term is not over and it has not
-- been idle for too long.
unfoldable pub live : SessionConfig → ℕ → Option SessionContext → Option SessionContext
live config now found = and_then found (λ s.
    if ltb s.request_count config.max_requests
      && ltb now s.expires_at
      && ltb (now - s.last_used_at) config.idle_ttl
    then some s
    else none)

-- Why the session under a key, if there is one, has expired.
unfoldable pub expired : SessionConfig → ℕ → Option SessionContext → Option SessionExpirationReason
expired config now found = and_then found (λ s. expiration_reason config s now)

unfoldable pub update : Store → Text → Option SessionContext → Store
update store key value j = if text_eq key j then value else store j

-- A session on its first request at a time, with no attestation.
abbrev pub first_use : Text → Text → SessionScope → ℕ → SessionConfig → SessionContext
first_use model_id id scope now config = record {
  session_key = model_id ++ (text ":" ++ id);
  model_id = model_id;
  agent_session_id = id;
  scope = scope;
  created_at = now;
  last_used_at = now;
  expires_at = now + config.max_ttl;
  request_count = 1;
  attested_model_public_key = none;
  attestation_tee_provider = none;
  attestation_tdx_debug = none;
  attestation_nvidia_verified = none;
  verified_at = none;
}

-- A session with one request more, the last at a time, and all else as it was.
abbrev pub one_more : SessionContext → ℕ → SessionContext
one_more s now = record {
  session_key = s.session_key;
  model_id = s.model_id;
  agent_session_id = s.agent_session_id;
  scope = s.scope;
  created_at = s.created_at;
  last_used_at = now;
  expires_at = s.expires_at;
  request_count = s.request_count + 1;
  attested_model_public_key = s.attested_model_public_key;
  attestation_tee_provider = s.attestation_tee_provider;
  attestation_tdx_debug = s.attestation_tdx_debug;
  attestation_nvidia_verified = s.attestation_nvidia_verified;
  verified_at = s.verified_at;
}

-- A session with the five parts of the attested state in place of its own, and all else as it was.
abbrev pub bound_to : AttestedModelState → SessionContext → SessionContext
bound_to state s = record {
  session_key = s.session_key;
  model_id = s.model_id;
  agent_session_id = s.agent_session_id;
  scope = s.scope;
  created_at = s.created_at;
  last_used_at = s.last_used_at;
  expires_at = s.expires_at;
  request_count = s.request_count;
  attested_model_public_key = some state.model_public_key;
  attestation_tee_provider = state.tee_provider;
  attestation_tdx_debug = state.tdx_debug;
  attestation_nvidia_verified = some state.nvidia_verified;
  verified_at = some state.verified_at;
}

-- The session that a request gets: the live one used once more, or a fresh one.
unfoldable pub granted : Option SessionContext → SessionContext → ℕ → SessionContext
granted none fresh now = fresh
granted (some s) fresh now = one_more s now

-- With distinct keys: a request gets the live session of its key, with one request more on its
-- count, the time of its last use and all else as it was, or a fresh one on its first request with
-- no attestation; and the code says which, and why an expired one was replaced. The store changes at
-- that key only, to that session.
pub enter-Spec :
    (m : SessionManager) (model_id : Text) (resolved : ResolvedSessionIdentifier) (now : ℕ)
    → IsMap m.sessions
    → let key = session_key model_id resolved.agent_session_id in
      let fresh = first_use model_id resolved.agent_session_id resolved.scope now m.config in
      let found = live m.config now (view m key) in
      ((enter m model_id resolved now).1.session ≡ granted found fresh now)
      × ((enter m model_id resolved now).1.created ≡ is_none found)
      × ((enter m model_id resolved now).1.replaced_expired ≡ expired m.config now (view m key))
      × ((j : Text)
          → view (enter m model_id resolved now).0 j
            ≡ update (view m) key (some (granted found fresh now)) j)
unfolding enter live expired granted update touch new_context session_key expiration_reason
enter-Spec m model_id resolved now h =
    let key = session_key model_id resolved.agent_session_id in
    let fresh = first_use model_id resolved.agent_session_id resolved.scope now m.config in
    (
      ground (arith, get-remove key key m.sessions h, text_eq_refl key),
      ground (arith, get-remove key key m.sessions h, text_eq_refl key),
      ground (arith, get-remove key key m.sessions h, text_eq_refl key),
      λ j. elim (Option-cases (get key m.sessions)) [
        | inl e ↦ ground (arith, get-insert key j fresh m.sessions)
        | inr (s, e) ↦ ground (
          arith,
          get-insert key j (one_more s now) m.sessions,
          get-insert key j fresh (remove key m.sessions),
          get-remove key key m.sessions h,
          get-remove key j m.sessions h,
          text_eq_refl key,
        )
      ],
    )

-- What is reported where no session is live.
abbrev pub refusal : Text → Option SessionExpirationReason → SessionError
refusal key none = session_not_found key
refusal key (some reason) = session_expired reason

-- With distinct keys: the live session of the key gets the five parts of the attested state and
-- keeps all else, is returned, and nothing else changes; an expired session is dropped and its
-- reason reported; with no session the store stays and the key is reported.
pub set_attested_model_state_at-Spec :
    (m : SessionManager) (key : Text) (state : AttestedModelState) (now : ℕ)
    → IsMap m.sessions
    → let found = Option.map (bound_to state) (live m.config now (view m key)) in
      ((set_attested_model_state_at m key state now).1
        ≡ ok_or found (refusal key (expired m.config now (view m key))))
      × ((j : Text)
          → view (set_attested_model_state_at m key state now).0 j ≡ update (view m) key found j)
unfolding set_attested_model_state_at live expired update attested expiration_reason
set_attested_model_state_at-Spec m key state now h = (
  ground arith,
  λ j. elim (Option-cases (get key m.sessions)) [
    | inl e ↦ ground (arith, text_eq_iff key j)
    | inr (s, e) ↦
        ground
          (arith, get-insert key j (bound_to state s) m.sessions, get-remove key j m.sessions h)
  ],
)

-- The live session is the one that the code finds no reason to drop.
live-is_none :
    (config : SessionConfig) (now : ℕ) (found : Option SessionContext)
    → and_then found (λ s. if is_none (expiration_reason config s now) then some s else none)
      ≡ live config now found
unfolding live expiration_reason
live-is_none config now none = refl
live-is_none config now (some s) = ground arith

-- With distinct keys: cleaning up leaves exactly the live sessions, and counts the others.
pub cleanup_expired_at-Spec :
    (m : SessionManager) (now : ℕ)
    → IsMap m.sessions
    → ((j : Text) → view (cleanup_expired_at m now).0 j ≡ live m.config now (view m j))
      × ((cleanup_expired_at m now).1
          ≡ length (retain (λ _ s. not (is_none (expiration_reason m.config s now))) m.sessions))
unfolding cleanup_expired_at
cleanup_expired_at-Spec m now h =
    let keep = λ (_ : Text) (s : SessionContext). is_none (expiration_reason m.config s now) in
    (
      λ j. get-retain keep j m.sessions h ∙ live-is_none m.config now (get j m.sessions),
      omega (arith, length-retain keep m.sessions),
    )
