-- ===== src/Proxy/Protocol.antt =====
-- packages/proxy/src/protocol.ts: the envelopes of responses. A value is what JSON.parse answers; its
-- numbers are not looked into, and a field that is not there is `none`.
pub mod Trips
pub mod Wire
pub mod Requests
mod Tests
use Prim.Native.String.{String}
use text.Mathlib.Text.{◌==◌ as str_eq}
use extra.Prelude.{ℕ, Bool, true, false, Option, none, some, List, [], ◌∷◌, if◌then◌else◌}

mutual
  pub data Value : Type 0 where
    null : Value
    boolean : Bool → Value
    number : ℕ → Value
    string : String → Value
    array : Items → Value
    object : Fields → Value

  pub data Items : Type 0 where
    nothing : Items
    item : Value → Items → Items

  pub data Fields : Type 0 where
    end : Fields
    field : String → Value → Fields → Fields

unfoldable pub get : String → Fields → Option Value
get k end = none
get k (field j v fs) = if str_eq j k then some v else get k fs

pub data ProxyErrorCode : Type 0 where
  unauthenticated authentication_unavailable bad_request not_found : ProxyErrorCode
  token_context_unavailable token_rejected request_id_conflict : ProxyErrorCode
  invalid_request_budget_exhausted payload_too_large overloaded queue_timeout : ProxyErrorCode
  draining unsupported_seyfert internal_error : ProxyErrorCode

pub data ProxyOutcome : Type 0 where
  not_dispatched completed unknown : ProxyOutcome

pub data ProxyPhase : Type 0 where
  transport routing authentication admission decoding deduplication dispatching drain startup
        internal :
      ProxyPhase

unfoldable pub code_text : ProxyErrorCode → String
code_text unauthenticated = "PROXY_UNAUTHENTICATED"
code_text authentication_unavailable = "PROXY_AUTHENTICATION_UNAVAILABLE"
code_text bad_request = "PROXY_BAD_REQUEST"
code_text not_found = "PROXY_NOT_FOUND"
code_text token_context_unavailable = "PROXY_TOKEN_CONTEXT_UNAVAILABLE"
code_text token_rejected = "PROXY_TOKEN_REJECTED"
code_text request_id_conflict = "PROXY_REQUEST_ID_CONFLICT"
code_text invalid_request_budget_exhausted = "PROXY_INVALID_REQUEST_BUDGET_EXHAUSTED"
code_text payload_too_large = "PROXY_PAYLOAD_TOO_LARGE"
code_text overloaded = "PROXY_OVERLOADED"
code_text queue_timeout = "PROXY_QUEUE_TIMEOUT"
code_text draining = "PROXY_DRAINING"
code_text unsupported_seyfert = "PROXY_UNSUPPORTED_SEYFERT"
code_text internal_error = "PROXY_INTERNAL"

unfoldable pub outcome_text : ProxyOutcome → String
outcome_text not_dispatched = "not_dispatched"
outcome_text completed = "completed"
outcome_text unknown = "unknown"

unfoldable pub phase_text : ProxyPhase → String
phase_text transport = "transport"
phase_text routing = "routing"
phase_text authentication = "authentication"
phase_text admission = "admission"
phase_text decoding = "decoding"
phase_text deduplication = "deduplication"
phase_text dispatching = "dispatch"
phase_text drain = "drain"
phase_text startup = "startup"
phase_text internal = "internal"

abbrev pub all_codes : List ProxyErrorCode
all_codes =
    unauthenticated ∷ authentication_unavailable ∷ bad_request ∷ not_found
    ∷ token_context_unavailable ∷ token_rejected ∷ request_id_conflict
    ∷ invalid_request_budget_exhausted ∷ payload_too_large ∷ overloaded ∷ queue_timeout ∷ draining
    ∷ unsupported_seyfert ∷ internal_error ∷ []

abbrev pub all_outcomes : List ProxyOutcome
all_outcomes = not_dispatched ∷ completed ∷ unknown ∷ []

abbrev pub all_phases : List ProxyPhase
all_phases =
    transport ∷ routing ∷ authentication ∷ admission ∷ decoding ∷ deduplication ∷ dispatching
    ∷ drain ∷ startup ∷ internal ∷ []

-- `codes.has`, and the like: the member of a set with this text.
unfoldable pub read_name : {A : Type 0} → (A → String) → List A → String → Option A
read_name name_text [] s = none
read_name name_text (a ∷ as_) s =
    if str_eq (name_text a) s then some a else read_name name_text as_ s

pub record ProxyErrorEnvelope : Type 0 where
  pub code : ProxyErrorCode
  pub outcome : ProxyOutcome
  pub message : String
  pub request_id : String
  pub phase : ProxyPhase
  pub instance_id : Option String

pub data ProxyResponseEnvelope : Type 0 where
  success : (status : ℕ) → (body : Option Value) → ProxyResponseEnvelope
  discord_error :
      (status : ℕ)
      → (body : Option Value) → (code : String) → (metadata : Option Fields) → ProxyResponseEnvelope
  proxy_error : ProxyErrorEnvelope → ProxyResponseEnvelope

-- `...(v === undefined ? {} : { k: v })`, at the end of a literal.
unfoldable pub put_optional : String → Option Value → Fields → Fields
put_optional k none fs = fs
put_optional k (some v) fs = field k v fs

abbrev pub as_string : Option String → Option Value
as_string none = none
as_string (some s) = some (string s)

abbrev pub as_object : Option Fields → Option Value
as_object none = none
as_object (some fs) = some (object fs)

-- The literals that the server answers with: of `proxyError`, and in src/server.ts of
-- `discordEnvelope` and of the answer to a success. A field that is undefined is not sent.
unfoldable pub object_of : ProxyResponseEnvelope → Value
unfolding put_optional code_text outcome_text phase_text
object_of (success status body) = object (
    field "kind" (string "success") (field "status" (number status) (put_optional "body" body end)))
object_of (discord_error status body code metadata) = object (
    field "kind" (string "discord_error") (
      field "status" (number status) (
        put_optional "body" body (
          field "error"
            (object (field "code" (string code) (put_optional "metadata" (as_object metadata) end)))
            end))))
object_of (proxy_error e) = object (
    field "kind" (string "proxy_error") (
      field "code" (string (code_text e.code)) (
        field "outcome" (string (outcome_text e.outcome)) (
          field "message" (string e.message) (
            field "requestId" (string e.request_id) (
              field "phase" (string (phase_text e.phase))
                (put_optional "instanceId" (as_string e.instance_id) end)))))))

infixl 5 ◌>>=◌
abbrev pub ◌>>=◌ : {A B : Type 0} → Option A → (A → Option B) → Option B
none >>= f = none
some a >>= f = f a

abbrev pub to_string : Option Value → Option String
to_string (some (string s)) = some s
to_string v = none

abbrev pub to_number : Option Value → Option ℕ
to_number (some (number n)) = some n
to_number v = none

abbrev pub to_record : Option Value → Option Fields
to_record (some (object fs)) = some fs
to_record v = none

abbrev pub to_optional_string : Option Value → Option (Option String)
to_optional_string none = some none
to_optional_string (some (string s)) = some (some s)
to_optional_string v = none

abbrev pub to_optional_record : Option Value → Option (Option Fields)
to_optional_record none = some none
to_optional_record (some (object fs)) = some (some fs)
to_optional_record v = none

-- `isProxyErrorEnvelope` behind its test of `kind`, with the envelope.
unfoldable pub read_proxy_error : Fields → Option ProxyErrorEnvelope
unfolding get read_name code_text outcome_text phase_text
read_proxy_error fs = do
  code ← to_string (get "code" fs) >>= read_name code_text all_codes
  outcome ← to_string (get "outcome" fs) >>= read_name outcome_text all_outcomes
  message ← to_string (get "message" fs)
  request_id ← to_string (get "requestId" fs)
  phase ← to_string (get "phase" fs) >>= read_name phase_text all_phases
  instance_id ← to_optional_string (get "instanceId" fs)
  some (record {
    code = code;
    outcome = outcome;
    message = message;
    request_id = request_id;
    phase = phase;
    instance_id = instance_id;
  })

unfoldable pub read_success : Fields → Option ProxyResponseEnvelope
unfolding get
read_success fs = do status ← to_number (get "status" fs); some (success status (get "body" fs))

unfoldable pub read_discord_error : Fields → Option ProxyResponseEnvelope
unfolding get
read_discord_error fs = do
  status ← to_number (get "status" fs)
  error ← to_record (get "error" fs)
  code ← to_string (get "code" error)
  metadata ← to_optional_record (get "metadata" error)
  some (discord_error status (get "body" fs) code metadata)

unfoldable pub read_kind : String → Fields → Option ProxyResponseEnvelope
unfolding read_proxy_error read_success read_discord_error
read_kind kind fs =
    if str_eq kind "proxy_error"
    then read_proxy_error fs >>= (λ e. some (proxy_error e))
    else if str_eq kind "success"
    then read_success fs
    else if str_eq kind "discord_error"
    then read_discord_error fs
    else none

unfoldable pub parse_response_envelope : Value → Option ProxyResponseEnvelope
unfolding read_kind get
parse_response_envelope v = do
  fs ← to_record (some v)
  kind ← to_string (get "kind" fs)
  read_kind kind fs
