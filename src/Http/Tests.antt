-- ===== src/Http/Tests.antt =====
-- Short messages and a small dispatcher, and the theorems at concrete inputs.
use server_demo.Common.{◌+◌, ◌≡◌, refl, true, false, some, [], ◌∷◌, ◌++◌, if◌then◌else◌}
use server_demo.Http.Bytes.{codes, c_str, same_bytes, fold, same_key, digits, decimal}
use server_demo.Http.Methods.{http_method_to_string, row_of, http_status_to_string}
use server_demo.Http.Headers.{find, set_header}
use server_demo.Http.Names.{same_name}
use server_demo.Http.HeaderLaws.{find-set_header}
use server_demo.Http.Message.{
  HttpRequest, HttpResponse, body_text, status_line, request_headers, dump_request,
  response_headers, dump_response, connection,
}
use server_demo.Http.Fields.{
  print_fields, named, connection_field, response_fields, respelled, dump_response-fields,
}

-- A request with one header beside the connection.
abbrev small_request : HttpRequest
small_request = record {
  method = 1;
  version = 17;
  close = true;
  path = codes "/";
  query = codes "a=1";
  fragment = [];
  body = codes "hello";
  headers = (codes "Connection", codes "x") ∷ (codes "Host", codes "h") ∷ [];
  params = [];
  cookies = [];
}

printed_request :
    dump_request small_request
    ≡ codes "GET /?a=1 HTTP/1.1\r\nconnection: close\r\nHost:h\r\ncontent-length: 5\r\n\r\nhello"
unfolding dump_request request_headers same_key same_bytes fold c_str http_method_to_string decimal
    digits
printed_request = refl

-- A response that names its connection twice.
abbrev small_response : HttpResponse
small_response = record {
  status = 404;
  version = 17;
  close = false;
  body = [];
  reason = [];
  headers = (codes "Connection", codes "close") ∷ [];
}

printed_response :
    dump_response small_response
    ≡ codes "HTTP/1.1 404 Not Found\r\nConnection: close\r\nconnection: keep-alive\r\n\r\n"
unfolding dump_response response_headers same_bytes http_status_to_string row_of decimal digits
printed_response = refl

find-set_header_example :
    find (codes "HOST") (set_header (codes "host") (codes "b") small_request.headers) ≡ (
      if same_name (codes "HOST") (codes "host")
      then some (codes "b")
      else find (codes "HOST") small_request.headers)
find-set_header_example =
    find-set_header (codes "host") (codes "HOST") (codes "b") small_request.headers

dump_response-fields_example :
    (dump_response small_response
      ≡ status_line small_response
        ++ (print_fields (response_fields small_response.headers ++ (connection_field false ∷ []))
            ++ body_text []))
    × (named connection (response_fields small_response.headers ++ (connection_field false ∷ []))
        ≡ 1 + respelled small_response.headers)
dump_response-fields_example = dump_response-fields small_response
