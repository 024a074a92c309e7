-- ===== src/Http/Tests.antt =====
-- A request with a cached key, and the theorems of the handler there.
use venice_e2ee_proxy.Base.{
  ◌≡◌, refl, ◌⊎◌, true, none, some, err, ok, ◌∷◌, [], List, arith, inr, ℕ, Bool, false, ◌++◌,
}
use venice_e2ee_proxy.Text.{Text, text, text_eq, is_whitespace, has_char}
use venice_e2ee_proxy.Text.Trim.{trim, trim_start}
use venice_e2ee_proxy.Text.Utf8.{as_bytes, encode_utf8}
use venice_e2ee_proxy.Dict
use venice_e2ee_proxy.E2ee.{new_codec, from_config}
use venice_e2ee_proxy.E2ee.Keys.{ProxyInstanceKey, from_private_key, public_key_hex}
use venice_e2ee_proxy.E2ee.Sample.{crates, crates_laws, nonce, nonce-IsByte, tag}
use venice_e2ee_proxy.Attestation.{default_policy}
use venice_e2ee_proxy.Attestation.Tests.{digests}
use venice_e2ee_proxy.Chat.Parse.{parse}
use venice_e2ee_proxy.Chat.Tests.{serde, request, body, accepted, sendable}
use venice_e2ee_proxy.Sessions.{SessionContext, SessionManager, expiration_reason, session_key}
use venice_e2ee_proxy.Sessions.Invariant.{IsWellFormed, IsWhole}
use venice_e2ee_proxy.Sessions.Identifier.{
  explicit_identifier, header_identifier, non_empty_string, resolve_identifier,
}
use venice_e2ee_proxy.Sessions.Manager.{enter, get_or_create_at, touch}
use venice_e2ee_proxy.Sessions.Tests.{attestation, first, headers, key, used}
use venice_e2ee_proxy.Tools.Emulation.{from_request, without_tools}
use venice_e2ee_proxy.Tools.Tests.{config, lib}
use venice_e2ee_proxy.Http.{ProxyError, error_type, status}
use venice_e2ee_proxy.Http.Errors.{status-error_type}
use venice_e2ee_proxy.Http.Metadata.{ProxyConfig, for_verified_chat}
use venice_e2ee_proxy.Http.Requests.{
  AcceptedRequest, Outside, accept, attest_resolved, create_chat_completion,
  ensure_attested_session, open_session, store_unless, with_request, VeniceCall, plain_call,
}
use venice_e2ee_proxy.Http.Attested.{Cached, Fetched}
use venice_e2ee_proxy.Http.Sent.{SentTo, create_chat_completion-Sent}

abbrev proxy : ProxyConfig
proxy = record {
  e2ee = record { hkdf_info = text "info"; require_encrypted_response_content = true };
  attestation = default_policy;
  tools = config;
}

abbrev world : Outside crates digests lib (Unit {0}) (Unit {0})
world = record {
  uuid = text "u1";
  nonce = text "";
  fetch_attestation_evidence = λ model nonce. err tt;
  from_value = λ v. err tt;
  entered_at = 20;
  verified_at = 21;
  stored_at = 22;
  others = λ m. m;
}

abbrev by_header : List (Text × Text)
by_header = (text "x-id", text "s1") ∷ []

abbrev model_key : Text
model_key = public_key_hex crates true

abbrev bound : SessionContext
bound = record first { attested_model_public_key = some model_key }

abbrev manager : SessionManager
manager = record used { sessions = (key, bound) ∷ [] }

manager-IsWellFormed : IsWellFormed manager
unfolding Dict.get session_key IsWhole
manager-IsWellFormed = record {
  positive = omega arith;
  distinct = (refl, tt);
  own = (
    record {
      filed = refl;
      named = refl;
      used = omega arith;
      budget = omega arith;
      term = omega arith;
      whole =
          inr (record attestation { model_public_key = model_key }, refl, refl, refl, refl, refl);
    },
    tt,
  );
}

abbrev instance_key : ProxyInstanceKey crates
instance_key = from_private_key crates false

abbrev fresh : ℕ → Bool × List ℕ
fresh place = (true, nonce)

abbrev taken : AcceptedRequest crates digests lib (Unit {0}) (Unit {0})
taken = record {
  request = request;
  proxy_instance_key = instance_key;
  session = touch bound 20;
  model_public_key = model_key;
  codec = record { hkdf_info = as_bytes (text "info"); require_encrypted_response_content = true };
  tool_context = none;
  metadata = for_verified_chat proxy (touch bound 20);
}

took :
    (with_request crates digests lib
      (Unit {0})
      (Unit {0})
      headers
      proxy
      world
      manager
      body
      by_header
      (ok request)
      (some instance_key)).1
    ≡ ok taken
unfolding with_request open_session get_or_create_at trim trim_start is_whitespace
    resolve_identifier explicit_identifier header_identifier non_empty_string Dict.get text_eq enter
    session_key expiration_reason touch attest_resolved ensure_attested_session store_unless accept
    from_config new_codec as_bytes encode_utf8 from_request without_tools default_policy
    for_verified_chat
took = refl

created :
    (create_chat_completion crates digests lib
      (Unit {0})
      (Unit {0})
      headers
      serde
      proxy
      (some instance_key)
      world
      manager
      body
      by_header).1
    ≡ ok taken
unfolding create_chat_completion
created = rw accepted took

create_chat_completion-Sent_example :
    (call : VeniceCall crates digests lib (Unit {0}) (Unit {0})) × (plain_call crates digests lib
        (Unit {0})
        (Unit {0})
        fresh
        taken
      ≡ ok call)
    × (parse serde body ≡ ok request)
    × (call.client_public_key_hex ≡ public_key_hex crates false)
    × SentTo crates crates_laws digests lib (Unit {0}) (Unit {0}) fresh true taken call.prepared
    × (call.model_public_key_hex ≡ model_key)
    × (Cached crates digests lib
          (Unit {0})
          (Unit {0})
          proxy
          world
          manager
          (text "glm")
          call.model_public_key_hex
        ⊎ Fetched crates digests lib
            (Unit {0})
            (Unit {0})
            proxy
            world
            (text "glm")
            call.model_public_key_hex)
unfolding has_char from_private_key
create_chat_completion-Sent_example =
    create_chat_completion-Sent crates crates_laws digests lib (Unit {0}) (Unit {0}) fresh proxy
      world headers serde instance_key manager body by_header taken true manager-IsWellFormed
      (refl, tt) refl created refl (λ place. (refl, nonce-IsByte))
      (λ shared info n message _ _. (tag ++ message, refl)) sendable

-- A route that is not there.
abbrev missing : ProxyError (Unit {0}) (Unit {0}) (Unit {0}) (Unit {0}) (Unit {0})
missing = ProxyError.not_found (text "/v1/x")

status-error_type_example : error_type missing ≡ text "invalid_request_error"
unfolding status
status-error_type_example = status-error_type missing (omega arith)
