-- ===== src/Proxy/Protocol/Tests.antt =====
-- protocol.ts at concrete inputs.
use extra.Prelude.{◌≡◌, refl, true, none, some, [], ◌∷◌}
use extra.Proxy.Protocol.{
  success, object_of, parse_response_envelope, string, object, end, field, get, read_name,
}
use extra.Proxy.Protocol.Wire.{
  WireApiRequest, get_method, method_text, is_request_id, is_path, is_token, read_request,
  parse_wire_request, request_object,
}
use extra.Proxy.Protocol.Trips.{parse_response_envelope-object_of}
use extra.Proxy.Protocol.Requests.{
  IsValidRequest, parse_wire_request-request_object, parse_wire_request-IsValidRequest,
}

-- A request with some of the optional fields.
abbrev get_gateway : WireApiRequest
get_gateway = record {
  method = get_method;
  url = "/gateway/bot";
  request_id = "a-1";
  query = none;
  body = none;
  auth = some true;
  reason = none;
  append_to_form_data = none;
  token = some "secret";
  file_keys = some (none ∷ some "file" ∷ []);
}

get_gateway-IsValid : IsValidRequest get_gateway
unfolding is_path is_request_id is_token
get_gateway-IsValid = record { path = refl; id = refl; token = refl }

parse_wire_request-request_object_example :
    parse_wire_request (request_object get_gateway) ≡ some get_gateway
parse_wire_request-request_object_example =
    parse_wire_request-request_object get_gateway get_gateway-IsValid

parse_wire_request-IsValidRequest_example : IsValidRequest get_gateway
parse_wire_request-IsValidRequest_example =
    parse_wire_request-IsValidRequest (request_object get_gateway) get_gateway
      (parse_wire_request-request_object get_gateway get_gateway-IsValid)

-- An empty token is refused.
refused_token :
    parse_wire_request (
      object (
        field "method" (string "GET") (
          field "url"
            (string "/")
            (field "requestId" (string "a") (field "token" (string "") end)))))
    ≡ none
unfolding parse_wire_request read_request get read_name method_text is_path is_request_id is_token
refused_token = refl

parse_response_envelope-object_of_example :
    parse_response_envelope (object_of (success 200 (some (string "ok"))))
    ≡ some (success 200 (some (string "ok")))
parse_response_envelope-object_of_example =
    parse_response_envelope-object_of (success 200 (some (string "ok")))
