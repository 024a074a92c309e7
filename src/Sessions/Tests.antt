-- ===== src/Sessions/Tests.antt =====
-- Runs of the session manager, and its theorems at concrete inputs.
use venice_e2ee_proxy.Base.{
  ◌≡◌, refl, [], ◌∷◌, arith, none, some, ok, err, false, List, ◌≢◌, if◌then◌else◌, is_none, inr,
  ok_or,
}
use mathlib.Core.Option
use venice_e2ee_proxy.Text.{Text, text, has_char, is_empty, text_eq}
use venice_e2ee_proxy.Json.{object, field, end, string}
use venice_e2ee_proxy.Dict
use venice_e2ee_proxy.Sessions.{
  SessionManager, SessionContext, SessionConfig, SessionFallbackScope, SessionScope,
  SessionExpirationReason, session_expired, AttestedModelState, new_manager, session_key,
  expiration_reason, new_context,
}
use venice_e2ee_proxy.Sessions.Invariant.{
  Call, get_or_create, set_attested, IsWellFormed, IsWhole, run, step, run-new_manager-IsWellFormed,
}
use venice_e2ee_proxy.Sessions.Identifier.{
  HeaderLib, SessionRequest, ResolvedSessionIdentifier, explicit_identifier, resolve_identifier,
  header_identifier, metadata_identifier, fallback_identifier, non_empty_string,
}
use venice_e2ee_proxy.Sessions.Resolved.{Source, resolve_identifier_cases}
use venice_e2ee_proxy.Sessions.Manager.{
  get_or_create_at, set_attested_model_state_at, enter, cleanup_expired_at, attested, touch,
}
use venice_e2ee_proxy.Sessions.Provenance.{IsTraced, past, run-IsTraced}
use venice_e2ee_proxy.Text.Trim.{trim}
use venice_e2ee_proxy.Sessions.Spec.{
  bound_to, refusal, expired, cleanup_expired_at-Spec, live, view, set_attested_model_state_at-Spec,
  enter-Spec,
}
use venice_e2ee_proxy.Sessions.Keys.{enter_own_model, enter_other_model}
use venice_e2ee_proxy.Sessions.Attest.{enter_then_attest_fails, enter_then_attest}

-- Headers as a list of names with values.
abbrev pub headers : HeaderLib
headers = record {
  HeaderName = Text;
  HeaderValue = Text;
  HeaderMap = List (Text × Text);
  from_bytes = λ name. if is_empty name then none else some name;
  get_header = λ m name. Dict.get name m;
  to_str = λ value. some value;
}

abbrev config : SessionConfig
config = record {
  idle_ttl = 600;
  max_ttl = 1800;
  max_requests = 3;
  fallback_scope = SessionFallbackScope.request;
  incoming_session_id = text "x-id";
}

abbrev by_header : SessionRequest headers
by_header = record { model_id = text "glm"; headers = (text "x-id", text " s1 ") ∷ []; body = none }

abbrev by_metadata : SessionRequest headers
by_metadata = record {
  model_id = text "glm";
  headers = [];
  body = some (
      object (
        field (text "metadata") (object (field (text "session_id") (string (text "s1")) end)) end));
}

abbrev pub attestation : AttestedModelState
attestation = record {
  model_public_key = text "04ab";
  tee_provider = none;
  tdx_debug = some false;
  nvidia_verified = text "not-present";
  verified_at = 5;
}

abbrev pub key : Text
key = text "glm:s1"

abbrev calls : List (Call headers)
calls =
    get_or_create by_header 0 (text "u1")
    ∷ set_attested key attestation 5
    ∷ get_or_create by_metadata 10 (text "u2")
    ∷ []

abbrev start : SessionManager
start = record { config = config; sessions = []; agent_fallback_session_id = text "shared" }

abbrev pub first : SessionContext
first = record {
  session_key = key;
  model_id = text "glm";
  agent_session_id = text "s1";
  scope = SessionScope.agent;
  created_at = 0;
  last_used_at = 10;
  expires_at = 1800;
  request_count = 2;
  attested_model_public_key = some (text "04ab");
  attestation_tee_provider = none;
  attestation_tdx_debug = some false;
  attestation_nvidia_verified = some (text "not-present");
  verified_at = some 5;
}

abbrev pub used : SessionManager
used = record start { sessions = (key, first) ∷ [] }

-- The manager with every callee open, for runs.
after_calls : SessionManager
unfolding run step get_or_create_at set_attested_model_state_at trim resolve_identifier
    explicit_identifier header_identifier metadata_identifier fallback_identifier enter session_key
    expiration_reason touch new_context attested Dict.get Dict.insert Dict.remove text_eq
after_calls = run headers start calls

-- The second request finds the first one's session, and its model key.
run-calls : after_calls.sessions ≡ (key, first) ∷ []
unfolding after_calls
run-calls = refl

used-IsWellFormed : IsWellFormed used
unfolding Dict.get session_key IsWhole
used-IsWellFormed = record {
  positive = omega arith;
  distinct = (refl, tt);
  own = (
    record {
      filed = refl;
      named = refl;
      used = omega arith;
      budget = omega arith;
      term = omega arith;
      whole = inr (attestation, refl, refl, refl, refl, refl);
    },
    tt,
  );
}

run-new_manager-IsWellFormed_example :
    IsWellFormed (run headers (new_manager config (text "shared")) calls)
run-new_manager-IsWellFormed_example =
    run-new_manager-IsWellFormed headers config (text "shared") calls (omega arith)

abbrev named : ResolvedSessionIdentifier
named = record { agent_session_id = text "s1"; scope = SessionScope.agent }

enter-Spec_example :
    (enter used (text "glm") named 20).1.created
    ≡ is_none (live config 20 (view used (session_key (text "glm") (text "s1"))))
enter-Spec_example = (enter-Spec used (text "glm") named 20 used-IsWellFormed.distinct).1

set_attested_model_state_at-Spec_example :
    (set_attested_model_state_at used key attestation 20).1
    ≡ ok_or
        (Option.map (bound_to attestation) (live config 20 (view used key)))
        (refusal key (expired config 20 (view used key)))
set_attested_model_state_at-Spec_example =
    (set_attested_model_state_at-Spec used key attestation 20 used-IsWellFormed.distinct).0

cleanup_expired_at-Spec_example : (cleanup_expired_at used 700).1 ≡ 1
unfolding Dict.retain expiration_reason
cleanup_expired_at-Spec_example = (cleanup_expired_at-Spec used 700 used-IsWellFormed.distinct).1

enter_own_model_example : (enter used (text "glm") named 20).1.session.model_id ≡ text "glm"
unfolding has_char
enter_own_model_example =
    (enter_own_model used 20 (text "glm") named used-IsWellFormed (refl, tt) refl).0

-- A session of the model `a:b`, reached by a request for the model `a`.
abbrev two_models : SessionManager
two_models = record used {
  sessions =
      (
        text "a:b:c",
        record first {
          session_key = text "a:b:c";
          model_id = text "a:b";
          agent_session_id = text "c";
        },
      )
      ∷ [];
}

two_models-IsWellFormed : IsWellFormed two_models
unfolding Dict.get session_key IsWhole
two_models-IsWellFormed = record {
  positive = omega arith;
  distinct = (refl, tt);
  own = (
    record {
      filed = refl;
      named = refl;
      used = omega arith;
      budget = omega arith;
      term = omega arith;
      whole = inr (attestation, refl, refl, refl, refl, refl);
    },
    tt,
  );
}

enter_other_model_example :
    (enter two_models
      (text "a")
      (record { agent_session_id = text "b:c"; scope = SessionScope.agent })
      20).1.session.model_id
    ≢ text "a"
unfolding Dict.get session_key expiration_reason text_eq
enter_other_model_example =
    (enter_other_model two_models 20 (text "a") (text "b") (text "c")
      (record { agent_session_id = text "b:c"; scope = SessionScope.agent }) _
      two_models-IsWellFormed refl refl refl refl).2

abbrev single : SessionManager
single = record start { config = record config { max_requests = 1 } }

start-IsWellFormed : IsWellFormed start
start-IsWellFormed = record { positive = omega arith; distinct = tt; own = tt }

single-IsWellFormed : IsWellFormed single
single-IsWellFormed = record { positive = omega arith; distinct = tt; own = tt }

enter_then_attest_fails_example :
    let (m, res) = enter single (text "glm") named 0 in
    (set_attested_model_state_at m res.session.session_key attestation 5).1
    ≡ err (session_expired SessionExpirationReason.max_requests)
enter_then_attest_fails_example =
    (enter_then_attest_fails single (text "glm") named 0 5 attestation single-IsWellFormed refl).0

enter_then_attest_example :
    let (m, res) = enter start (text "glm") named 0 in
    (set_attested_model_state_at m res.session.session_key attestation 5).1
    ≡ ok (attested res.session attestation)
unfolding enter Dict.get
enter_then_attest_example =
    (enter_then_attest start (text "glm") named 0 5 attestation start-IsWellFormed (omega arith)
      (omega arith) (omega arith) (omega arith) refl).0

run-IsTraced_example : IsTraced headers (past headers [] calls) key first
unfolding after_calls new_manager
run-IsTraced_example = run-IsTraced headers config (text "shared") calls key refl

resolve_identifier_cases_example : Source headers start by_header (text "u1") named
unfolding resolve_identifier explicit_identifier header_identifier non_empty_string trim Dict.get
    text_eq
resolve_identifier_cases_example = resolve_identifier_cases headers start by_header (text "u1") refl
