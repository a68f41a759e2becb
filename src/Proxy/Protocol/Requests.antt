-- ===== src/Proxy/Protocol/Requests.antt =====
-- protocol.ts: which requests are read, and that they are read back.
use Prim.Native.String.{String}
use extra.Prelude.{
  ◌≡◌, refl, subst, Bool, true, false, ◌&&◌, Option, none, some, List, [], ◌∷◌, if◌then◌else◌,
  Bool-cases, inl, inr, arith,
}
use text.Mathlib.Text.{◌==◌ as str_eq}
use extra.Proxy.Protocol.{
  Value, null, boolean, string, array, object, number, Fields, end, get, read_name, put_optional,
  as_string, as_object, to_optional_string, to_optional_record, ◌>>=◌, to_string,
}
use extra.Proxy.Protocol.Wire.{
  HttpMethod, get_method, delete_method, put_method, post_method, patch_method, method_text,
  all_methods, WireBody, record_body, array_body, WireApiRequest, is_request_id, is_path, is_token,
  read_keys, to_optional_body, to_optional_boolean, to_optional_keys, checked, read_request,
  parse_wire_request, as_body, as_boolean, as_keys, key_items, request_object,
}

abbrev or_else : Option Value → Option Value → Option Value
or_else none d = d
or_else (some v) d = some v

get-put_optional :
    (k j : String) (o : Option Value) (fs : Fields)
    → get k (put_optional j o fs) ≡ (if str_eq j k then or_else o (get k fs) else get k fs)
unfolding get put_optional
get-put_optional k j none fs = go (str_eq j k)
  where
    go : (b : Bool) → get k fs ≡ (if b then get k fs else get k fs)
    go true = refl
    go false = refl
get-put_optional k j (some v) fs = refl

read_name-method_text :
    (m : HttpMethod) → read_name method_text all_methods (method_text m) ≡ some m
unfolding read_name method_text
read_name-method_text get_method = refl
read_name-method_text delete_method = refl
read_name-method_text put_method = refl
read_name-method_text post_method = refl
read_name-method_text patch_method = refl

or_else-none : (o : Option Value) → or_else o none ≡ o
or_else-none none = refl
or_else-none (some v) = refl

optional_record-as_object : (o : Option Fields) → to_optional_record (as_object o) ≡ some o
optional_record-as_object none = refl
optional_record-as_object (some fs) = refl

optional_string-as_string : (o : Option String) → to_optional_string (as_string o) ≡ some o
optional_string-as_string none = refl
optional_string-as_string (some s) = refl

optional_boolean-as_boolean : (o : Option Bool) → to_optional_boolean (as_boolean o) ≡ some o
optional_boolean-as_boolean none = refl
optional_boolean-as_boolean (some b) = refl

optional_body-as_body : (o : Option WireBody) → to_optional_body (as_body o) ≡ some o
optional_body-as_body none = refl
optional_body-as_body (some (record_body fs)) = refl
optional_body-as_body (some (array_body vs)) = refl

read_keys-key_items : (ks : List (Option String)) → read_keys (key_items ks) ≡ some ks
unfolding read_keys
read_keys-key_items [] = refl
read_keys-key_items (none ∷ ks) = rw (read_keys-key_items ks) refl
read_keys-key_items (some s ∷ ks) = rw (read_keys-key_items ks) refl

optional_keys-as_keys : (o : Option (List (Option String))) → to_optional_keys (as_keys o) ≡ some o
optional_keys-as_keys none = refl
optional_keys-as_keys (some ks) = rw (read_keys-key_items ks) refl

-- What the types of the source do not say: the path begins with a slash, the id has 1 to 128 of the
-- characters that are allowed, and a token is not empty.
pub record IsValidRequest (r : WireApiRequest) : Type 0 where
  pub path : is_path r.url ≡ true
  pub id : is_request_id r.request_id ≡ true
  pub token : is_token r.token ≡ true

checked-true : {A : Type 0} (test : A → Bool) (a : A) → test a ≡ true → checked test a ≡ some a
checked-true test a e = rw e refl

checked-some : {A : Type 0} (test : A → Bool) (a b : A) → checked test a ≡ some b → test b ≡ true
checked-some test a b e = ground (arith, e)

module _ (r : WireApiRequest) where
  abbrev tail : Fields
  tail = put_optional "query" (as_object r.query) (
      put_optional "body" (as_body r.body) (
        put_optional "auth" (as_boolean r.auth) (
          put_optional "reason" (as_string r.reason) (
            put_optional "appendToFormData" (as_boolean r.append_to_form_data) (
              put_optional "token" (as_string r.token)
                (put_optional "fileKeys" (as_keys r.file_keys) end))))))

  tail-query : get "query" tail ≡ as_object r.query
  unfolding get
  tail-query = simp (get-put_optional, or_else-none)

  tail-body : get "body" tail ≡ as_body r.body
  unfolding get
  tail-body = simp (get-put_optional, or_else-none)

  tail-auth : get "auth" tail ≡ as_boolean r.auth
  unfolding get
  tail-auth = simp (get-put_optional, or_else-none)

  tail-reason : get "reason" tail ≡ as_string r.reason
  unfolding get
  tail-reason = simp (get-put_optional, or_else-none)

  tail-append : get "appendToFormData" tail ≡ as_boolean r.append_to_form_data
  unfolding get
  tail-append = simp (get-put_optional, or_else-none)

  tail-token : get "token" tail ≡ as_string r.token
  unfolding get
  tail-token = simp (get-put_optional, or_else-none)

  tail-file_keys : get "fileKeys" tail ≡ as_keys r.file_keys
  unfolding get
  tail-file_keys = simp (get-put_optional, or_else-none)

  -- A request that satisfies what the types do not say is read back from the object that is sent for
  -- it, with nothing changed, whichever of its optional fields it has.
  pub parse_wire_request-request_object :
      IsValidRequest r → parse_wire_request (request_object r) ≡ some r
  unfolding parse_wire_request read_request request_object get
  parse_wire_request-request_object v =
      rw
        (
          tail-query,
          tail-body,
          tail-auth,
          tail-reason,
          tail-append,
          tail-token,
          tail-file_keys,
          read_name-method_text r.method,
          v.path,
          v.id,
          optional_record-as_object r.query,
          optional_body-as_body r.body,
          optional_boolean-as_boolean r.auth,
          optional_string-as_string r.reason,
          optional_boolean-as_boolean r.append_to_form_data,
          optional_string-as_string r.token,
          v.token,
          optional_keys-as_keys r.file_keys,
        )
        refl

abbrev is_valid : Option WireApiRequest → Bool
is_valid none = true
is_valid (some r) = is_path r.url && is_request_id r.request_id && is_token r.token

abbrev passes : {A : Type 0} → (A → Bool) → Option A → Bool
passes test none = true
passes test (some a) = test a

checked-passes :
    {A : Type 0} (test : A → Bool) (m : Option A) → passes test (m >>= checked test) ≡ true
checked-passes test none = refl
checked-passes test (some a) = elim (Bool-cases (test a)) [ inl e ↦ rw e e | inr e ↦ rw e refl ]

-- The answer of `read_request`, for what the fields are read as.
abbrev answer :
    Option HttpMethod
    → Option String
    → Option String
    → Option (Option Fields)
    → Option (Option WireBody)
    → Option (Option Bool)
    → Option (Option String)
    → Option (Option Bool)
    → Option (Option String)
    → Option (Option (List (Option String)))
    → Option WireApiRequest
answer m u i q b a e p t k = do
  method ← m
  url ← u
  request_id ← i
  query ← q
  body ← b
  auth ← a
  reason ← e
  append ← p
  token ← t
  file_keys ← k
  some (record {
    method = method;
    url = url;
    request_id = request_id;
    query = query;
    body = body;
    auth = auth;
    reason = reason;
    append_to_form_data = append;
    token = token;
    file_keys = file_keys;
  })

answer-is_valid :
    (m : Option HttpMethod) (u i : Option String) (q : Option (Option Fields))
    (b : Option (Option WireBody)) (a : Option (Option Bool)) (e : Option (Option String))
    (p : Option (Option Bool)) (t : Option (Option String))
    (k : Option (Option (List (Option String))))
    → passes is_path u ≡ true
    → passes is_request_id i ≡ true
    → passes is_token t ≡ true
    → is_valid (answer m u i q b a e p t k) ≡ true
answer-is_valid none u i q b a e p t k pu pi pt = refl
answer-is_valid (some m) none i q b a e p t k pu pi pt = refl
answer-is_valid (some m) (some u) none q b a e p t k pu pi pt = refl
answer-is_valid (some m) (some u) (some i) none b a e p t k pu pi pt = refl
answer-is_valid (some m) (some u) (some i) (some q) none a e p t k pu pi pt = refl
answer-is_valid (some m) (some u) (some i) (some q) (some b) none e p t k pu pi pt = refl
answer-is_valid (some m) (some u) (some i) (some q) (some b) (some a) none p t k pu pi pt = refl
answer-is_valid (some m) (some u) (some i) (some q) (some b) (some a) (some e) none t k pu pi pt =
    refl
answer-is_valid (some m) (some u) (some i) (some q) (some b) (some a) (some e) (some p) none k pu pi
      pt =
    refl
answer-is_valid (some m) (some u) (some i) (some q) (some b) (some a) (some e) (some p) (some t)
      none pu pi pt =
    refl
answer-is_valid (some m) (some u) (some i) (some q) (some b) (some a) (some e) (some p) (some t)
      (some k) pu pi pt =
    ground (arith, pu, pi, pt)

read_request-is_valid : (fs : Fields) → is_valid (read_request fs) ≡ true
unfolding read_request
read_request-is_valid fs =
    answer-is_valid (to_string (get "method" fs) >>= read_name method_text all_methods)
      (to_string (get "url" fs) >>= checked is_path)
      (to_string (get "requestId" fs) >>= checked is_request_id)
      (to_optional_record (get "query" fs)) (to_optional_body (get "body" fs))
      (to_optional_boolean (get "auth" fs)) (to_optional_string (get "reason" fs))
      (to_optional_boolean (get "appendToFormData" fs))
      (to_optional_string (get "token" fs) >>= checked is_token)
      (to_optional_keys (get "fileKeys" fs)) (checked-passes is_path (to_string (get "url" fs)))
      (checked-passes is_request_id (to_string (get "requestId" fs)))
      (checked-passes is_token (to_optional_string (get "token" fs)))

held :
    (o : Option WireApiRequest) (r : WireApiRequest)
    → o ≡ some r
    → is_valid o ≡ true
    → IsValidRequest r
held o r e h =
    let v = subst (λ x. is_valid x ≡ true) e h in
    record { path = ground (arith, v); id = ground (arith, v); token = ground (arith, v) }

-- Every request that is read satisfies what the types of its fields do not say: the path begins with
-- a slash, the id has 1 to 128 of the characters that are allowed, and a token is not empty.
pub parse_wire_request-IsValidRequest :
    (v : Value) (r : WireApiRequest) → parse_wire_request v ≡ some r → IsValidRequest r
unfolding parse_wire_request
parse_wire_request-IsValidRequest (object fs) r e =
    held (read_request fs) r e (read_request-is_valid fs)
parse_wire_request-IsValidRequest null r e = cc
parse_wire_request-IsValidRequest (boolean b) r e = cc
parse_wire_request-IsValidRequest (number n) r e = cc
parse_wire_request-IsValidRequest (string s) r e = cc
parse_wire_request-IsValidRequest (array vs) r e = cc
