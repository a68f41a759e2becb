-- ===== src/Proxy/Protocol/Trips.antt =====
-- protocol.ts: what one side sends the other side reads.
use Prim.Native.String.{String}
use extra.Prelude.{◌≡◌, refl, Option, none, some}
use extra.Proxy.Protocol.{
  ProxyErrorCode, ProxyOutcome, ProxyPhase, unauthenticated, authentication_unavailable,
  bad_request, not_found, token_context_unavailable, token_rejected, request_id_conflict,
  invalid_request_budget_exhausted, payload_too_large, overloaded, queue_timeout, draining,
  unsupported_seyfert, internal_error, not_dispatched, completed, unknown, transport, routing,
  authentication, admission, decoding, deduplication, dispatching, drain, startup, internal,
  code_text, outcome_text, phase_text, all_codes, all_outcomes, all_phases, read_name,
  ProxyErrorEnvelope, ProxyResponseEnvelope, success, discord_error, proxy_error, put_optional,
  object_of, get, read_kind, read_proxy_error, read_success, read_discord_error,
  parse_response_envelope,
}

read_name-code_text : (c : ProxyErrorCode) → read_name code_text all_codes (code_text c) ≡ some c
unfolding read_name code_text
read_name-code_text unauthenticated = refl
read_name-code_text authentication_unavailable = refl
read_name-code_text bad_request = refl
read_name-code_text not_found = refl
read_name-code_text token_context_unavailable = refl
read_name-code_text token_rejected = refl
read_name-code_text request_id_conflict = refl
read_name-code_text invalid_request_budget_exhausted = refl
read_name-code_text payload_too_large = refl
read_name-code_text overloaded = refl
read_name-code_text queue_timeout = refl
read_name-code_text draining = refl
read_name-code_text unsupported_seyfert = refl
read_name-code_text internal_error = refl

read_name-outcome_text :
    (o : ProxyOutcome) → read_name outcome_text all_outcomes (outcome_text o) ≡ some o
unfolding read_name outcome_text
read_name-outcome_text not_dispatched = refl
read_name-outcome_text completed = refl
read_name-outcome_text unknown = refl

read_name-phase_text : (p : ProxyPhase) → read_name phase_text all_phases (phase_text p) ≡ some p
unfolding read_name phase_text
read_name-phase_text transport = refl
read_name-phase_text routing = refl
read_name-phase_text authentication = refl
read_name-phase_text admission = refl
read_name-phase_text decoding = refl
read_name-phase_text deduplication = refl
read_name-phase_text dispatching = refl
read_name-phase_text drain = refl
read_name-phase_text startup = refl
read_name-phase_text internal = refl

read_proxy_error-object_of :
    (e : ProxyErrorEnvelope)
    → parse_response_envelope (object_of (proxy_error e)) ≡ some (proxy_error e)
unfolding parse_response_envelope read_kind read_proxy_error object_of get put_optional
read_proxy_error-object_of e =
    go e.instance_id (read_name-code_text e.code) (read_name-outcome_text e.outcome)
      (read_name-phase_text e.phase)
  where
    go :
        (i : Option String)
        → read_name code_text all_codes (code_text e.code) ≡ some e.code
        → read_name outcome_text all_outcomes (outcome_text e.outcome) ≡ some e.outcome
        → read_name phase_text all_phases (phase_text e.phase) ≡ some e.phase
        → parse_response_envelope (object_of (proxy_error (record e { instance_id = i })))
          ≡ some (proxy_error (record e { instance_id = i }))
    go none c o p = rw (c, o, p) refl
    go (some i) c o p = rw (c, o, p) refl

-- Every envelope, of any kind and with or without its optional fields, is read back from the object
-- that is sent for it, with nothing changed.
pub parse_response_envelope-object_of :
    (e : ProxyResponseEnvelope) → parse_response_envelope (object_of e) ≡ some e
unfolding parse_response_envelope read_kind read_success read_discord_error object_of get
    put_optional
parse_response_envelope-object_of (success status none) = refl
parse_response_envelope-object_of (success status (some body)) = refl
parse_response_envelope-object_of (discord_error status none code none) = refl
parse_response_envelope-object_of (discord_error status none code (some metadata)) = refl
parse_response_envelope-object_of (discord_error status (some body) code none) = refl
parse_response_envelope-object_of (discord_error status (some body) code (some metadata)) = refl
parse_response_envelope-object_of (proxy_error e) = read_proxy_error-object_of e
