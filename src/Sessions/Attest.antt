-- ===== src/Sessions/Attest.antt =====
-- What becomes of the model key that a request has verified for its session.
use venice_e2ee_proxy.Base.{
  ℕ, ◌≡◌, refl, arith, none, some, ok, err, true, ◌≤◌, ◌<◌, ◌+◌, List, ◌∙◌,
}
use venice_e2ee_proxy.Sessions.{
  SessionManager, SessionContext, session_key, expiration_reason, new_context, AttestedModelState,
  SessionExpirationReason, session_expired, Text, elapsed_since,
}
use venice_e2ee_proxy.Sessions.Invariant.{IsWellFormed, enter_cases, IsOwn}
use venice_e2ee_proxy.Dict.{get, remove, IsMap, insert}
use venice_e2ee_proxy.Sessions.Manager.{set_attested_model_state_at, enter, attested}
use venice_e2ee_proxy.Sessions.Identifier.{ResolvedSessionIdentifier}
use venice_e2ee_proxy.Dict.Laws.{get-Entries, remove-IsMap, get-insert, get-remove, insert-IsMap}
use venice_e2ee_proxy.Text.{text_eq_refl}

-- A session that has used up its budget takes no attestation and is dropped.
used_up :
    (m : SessionManager) (key : Text) (s : SessionContext) (state : AttestedModelState) (now : ℕ)
    → get key m.sessions ≡ some s
    → m.config.max_requests ≤ s.request_count
    → set_attested_model_state_at m key state now ≡ (
      record m { sessions = remove key m.sessions },
      err (session_expired SessionExpirationReason.max_requests),
    )
unfolding set_attested_model_state_at expiration_reason
used_up m key s state now e h = ground arith

module _ (m : SessionManager) (sessions : List (Text × SessionContext)) (key : Text)
    (s : SessionContext) (state : AttestedModelState) (later : ℕ) (distinct : IsMap sessions) where
  abbrev holding : SessionManager
  holding = record m { sessions = insert key s sessions }

  found : get key holding.sessions ≡ some s
  found = get-insert key key s sessions ∙ rw (text_eq_refl key)

  attest_used_up :
      m.config.max_requests ≤ s.request_count
      → let out = set_attested_model_state_at holding key state later in
        (out.1 ≡ err (session_expired SessionExpirationReason.max_requests))
        × (get key out.0.sessions ≡ none)
  attest_used_up h =
      rw (used_up holding key s state later found h)
        (refl, get-remove key key _ (insert-IsMap key s sessions distinct) ∙ rw (text_eq_refl key))

  attest_live :
      expiration_reason m.config s later ≡ none
      → let out = set_attested_model_state_at holding key state later in
        (out.1 ≡ ok (attested s state)) × (get key out.0.sessions ≡ some (attested s state))
  unfolding set_attested_model_state_at
  attest_live h = ground (
    arith,
    found,
    text_eq_refl key,
    get-insert key key (attested s state) (insert key s sessions),
  )

-- With a budget of one request, which the configuration accepts, a request's own use of its
-- session exhausts it: the attestation that the request then verifies is refused, whatever the
-- clock says, and the session is gone.
pub enter_then_attest_fails :
    (m : SessionManager) (model_id : Text) (r : ResolvedSessionIdentifier) (now later : ℕ)
    (state : AttestedModelState)
    → IsWellFormed m
    → m.config.max_requests ≡ 1
    → let (m', res) = enter m model_id r now in
      let out = set_attested_model_state_at m' res.session.session_key state later in
      (out.1 ≡ err (session_expired SessionExpirationReason.max_requests))
      × (get res.session.session_key out.0.sessions ≡ none)
enter_then_attest_fails m model_id r now later state w one =
    let key = session_key model_id r.agent_session_id in
    let fresh = new_context model_id r.agent_session_id r.scope now m.config in
    enter_cases
      (λ o.
        let out = set_attested_model_state_at o.0 o.1.session.session_key state later in
        (out.1 ≡ err (session_expired SessionExpirationReason.max_requests))
        × (get o.1.session.session_key out.0.sessions ≡ none))
      m model_id r now w.distinct
      (λ s e f.
        let own = get-Entries (IsOwn m.config) key m.sessions w.own e in
        absurd (unfold expiration_reason in ground (arith, own.used)))
      (λ e.
        unfold new_context in
        attest_used_up m m.sessions key fresh state later w.distinct (omega arith))
      (λ reason.
        unfold new_context in
        attest_used_up m _ key fresh state later (remove-IsMap key m.sessions w.distinct)
          (omega arith))

-- With a larger budget a fresh session takes the attestation, if it comes within the session's
-- idle time and term, and keeps it for the requests that follow.
pub enter_then_attest :
    (m : SessionManager) (model_id : Text) (r : ResolvedSessionIdentifier) (now later : ℕ)
    (state : AttestedModelState)
    → IsWellFormed m
    → 2 ≤ m.config.max_requests
    → now ≤ later
    → later < now + m.config.max_ttl
    → later < now + m.config.idle_ttl
    → (enter m model_id r now).1.created ≡ true
    → let (m', res) = enter m model_id r now in
      let out = set_attested_model_state_at m' res.session.session_key state later in
      (out.1 ≡ ok (attested res.session state))
      × (get res.session.session_key out.0.sessions ≡ some (attested res.session state))
enter_then_attest m model_id r now later state w two after term idle =
    let key = session_key model_id r.agent_session_id in
    let fresh = new_context model_id r.agent_session_id r.scope now m.config in
    let lasts : expiration_reason m.config fresh later ≡ none =
      unfold expiration_reason new_context elapsed_since in ground arith in
    enter_cases
      (λ o.
        o.1.created ≡ true
        → let out = set_attested_model_state_at o.0 o.1.session.session_key state later in
          (out.1 ≡ ok (attested o.1.session state))
          × (get o.1.session.session_key out.0.sessions ≡ some (attested o.1.session state)))
      m model_id r now w.distinct (λ s e f made. cc)
      (λ e made.
        unfold new_context in attest_live m m.sessions key fresh state later w.distinct lasts)
      (λ reason made.
        unfold new_context in
        attest_live m _ key fresh state later (remove-IsMap key m.sessions w.distinct) lasts)
