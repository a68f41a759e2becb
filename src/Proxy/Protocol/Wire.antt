-- ===== src/Proxy/Protocol/Wire.antt =====
-- packages/proxy/src/protocol.ts: the requests that a client sends.
use Prim.Native.Char.{code}
use Prim.Native.String.{String}
use extra.Prelude.{
  ℕ, Bool, true, false, ◌&&◌, ◌||◌, Option, none, some, List, [], ◌∷◌, ltb, leb, ◌==◌,
  if◌then◌else◌, length,
}
use extra.Proxy.Protocol.{
  Value, null, boolean, string, array, object, Items, nothing, item, Fields, end, field, get,
  read_name, put_optional, as_string, as_object, to_string, to_optional_string, to_optional_record,
  ◌>>=◌,
}

pub data HttpMethod : Type 0 where
  get_method delete_method put_method post_method patch_method : HttpMethod

unfoldable pub method_text : HttpMethod → String
method_text get_method = "GET"
method_text delete_method = "DELETE"
method_text put_method = "PUT"
method_text post_method = "POST"
method_text patch_method = "PATCH"

abbrev pub all_methods : List HttpMethod
all_methods = get_method ∷ delete_method ∷ put_method ∷ post_method ∷ patch_method ∷ []

pub data WireBody : Type 0 where
  record_body : Fields → WireBody
  array_body : Items → WireBody

pub record WireApiRequest : Type 0 where
  pub method : HttpMethod
  pub url : String
  pub request_id : String
  pub query : Option Fields
  pub body : Option WireBody
  pub auth : Option Bool
  pub reason : Option String
  pub append_to_form_data : Option Bool
  pub token : Option String
  pub file_keys : Option (List (Option String))

abbrev pub codes : String → List ℕ
codes String.[] = []
codes (String.◌∷◌ c s) = code c ∷ codes s

-- `/[A-Za-z0-9._:-]/`.
abbrev is_id_char : ℕ → Bool
is_id_char c =
    (leb b'A' c && leb c b'Z')
    || (leb b'a' c && leb c b'z')
    || (leb b'0' c && leb c b'9')
    || c == b'.'
    || c == b'_'
    || c == b':'
    || c == b'-'

abbrev are_id_chars : List ℕ → Bool
are_id_chars [] = true
are_id_chars (c ∷ cs) = is_id_char c && are_id_chars cs

-- `isRequestId` for a text.
unfoldable pub is_request_id : String → Bool
is_request_id s = ltb 0 (length (codes s)) && leb (length (codes s)) 128 && are_id_chars (codes s)

abbrev starts_with_slash : List ℕ → Bool
starts_with_slash [] = false
starts_with_slash (c ∷ cs) = c == b'/'

unfoldable pub is_path : String → Bool
is_path s = starts_with_slash (codes s)

abbrev is_token_text : List ℕ → Bool
is_token_text [] = false
is_token_text (c ∷ cs) = true

unfoldable pub is_token : Option String → Bool
is_token none = true
is_token (some s) = is_token_text (codes s)

-- `value.fileKeys.some(key => key !== null && typeof key !== 'string')`, with the keys.
unfoldable pub read_keys : Items → Option (List (Option String))
read_keys nothing = some []
read_keys (item null vs) = read_keys vs >>= (λ ks. some (none ∷ ks))
read_keys (item (string s) vs) = read_keys vs >>= (λ ks. some (some s ∷ ks))
read_keys (item v vs) = none

abbrev pub to_optional_body : Option Value → Option (Option WireBody)
to_optional_body none = some none
to_optional_body (some (object fs)) = some (some (record_body fs))
to_optional_body (some (array vs)) = some (some (array_body vs))
to_optional_body v = none

abbrev pub to_optional_boolean : Option Value → Option (Option Bool)
to_optional_boolean none = some none
to_optional_boolean (some (boolean b)) = some (some b)
to_optional_boolean v = none

abbrev pub to_optional_keys : Option Value → Option (Option (List (Option String)))
to_optional_keys none = some none
to_optional_keys (some (array vs)) = read_keys vs >>= (λ ks. some (some ks))
to_optional_keys v = none

-- A text that passes a test.
abbrev pub checked {ℓ} : {A : Type ℓ} → (A → Bool) → A → Option A
checked test a = if test a then some a else none

unfoldable pub read_request : Fields → Option WireApiRequest
unfolding get read_name method_text is_path is_request_id is_token
read_request fs = do
  method ← to_string (get "method" fs) >>= read_name method_text all_methods
  url ← to_string (get "url" fs) >>= checked is_path
  request_id ← to_string (get "requestId" fs) >>= checked is_request_id
  query ← to_optional_record (get "query" fs)
  body ← to_optional_body (get "body" fs)
  auth ← to_optional_boolean (get "auth" fs)
  reason ← to_optional_string (get "reason" fs)
  append ← to_optional_boolean (get "appendToFormData" fs)
  token ← to_optional_string (get "token" fs) >>= checked is_token
  file_keys ← to_optional_keys (get "fileKeys" fs)
  some (record {
    method = method;
    url = url;
    request_id = request_id;
    query = query;
    body = body;
    auth = auth;
    reason = reason;
    append_to_form_data = append;
    token = token;
    file_keys = file_keys;
  })

unfoldable pub parse_wire_request : Value → Option WireApiRequest
unfolding read_request
parse_wire_request (object fs) = read_request fs
parse_wire_request v = none

abbrev pub as_body : Option WireBody → Option Value
as_body none = none
as_body (some (record_body fs)) = some (object fs)
as_body (some (array_body vs)) = some (array vs)

abbrev pub as_boolean : Option Bool → Option Value
as_boolean none = none
as_boolean (some b) = some (boolean b)

abbrev pub key_items : List (Option String) → Items
key_items [] = nothing
key_items (none ∷ ks) = item null (key_items ks)
key_items (some s ∷ ks) = item (string s) (key_items ks)

abbrev pub as_keys : Option (List (Option String)) → Option Value
as_keys none = none
as_keys (some ks) = some (array (key_items ks))

-- The literal of `parseWireRequest`.
unfoldable pub request_object : WireApiRequest → Value
unfolding put_optional method_text
request_object r = object (
    field "method" (string (method_text r.method)) (
      field "url" (string r.url) (
        field "requestId" (string r.request_id) (
          put_optional "query" (as_object r.query) (
            put_optional "body" (as_body r.body) (
              put_optional "auth" (as_boolean r.auth) (
                put_optional "reason" (as_string r.reason) (
                  put_optional "appendToFormData" (as_boolean r.append_to_form_data) (
                    put_optional "token" (as_string r.token)
                      (put_optional "fileKeys" (as_keys r.file_keys) end))))))))))
