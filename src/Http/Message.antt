-- ===== src/Http/Message.antt =====
-- `HttpRequest` and `HttpResponse` of sylar/http/http.h, and how sylar/http/http.cc prints them.
use server_demo.Common.{ℕ, ◌/◌, ◌%◌, Bool, true, false, List, [], ◌∷◌, ◌++◌, length, if◌then◌else◌}
use server_demo.Http.Bytes.{codes, same_bytes, same_key, decimal}
use server_demo.Http.Methods.{http_method_to_string, http_status_to_string}
use server_demo.Http.Headers.{MapType}

-- `method` is `m_method`, and so on.
pub record HttpRequest : Type 0 where
  pub method : ℕ
  pub version : ℕ
  pub close : Bool
  pub path : List ℕ
  pub query : List ℕ
  pub fragment : List ℕ
  pub body : List ℕ
  pub headers : MapType
  pub params : MapType
  pub cookies : MapType

-- The constructor: a GET of "/".
unfoldable pub new_request : ℕ → Bool → HttpRequest
new_request version close = record {
  method = 1;
  version = version;
  close = close;
  path = codes "/";
  query = [];
  fragment = [];
  body = [];
  headers = [];
  params = [];
  cookies = [];
}

pub record HttpResponse : Type 0 where
  pub status : ℕ
  pub version : ℕ
  pub close : Bool
  pub body : List ℕ
  pub reason : List ℕ
  pub headers : MapType

-- The constructor: 200, OK.
unfoldable pub new_response : ℕ → Bool → HttpResponse
new_response version close = record {
  status = 200;
  version = version;
  close = close;
  body = [];
  reason = [];
  headers = [];
}

abbrev pub empty : List ℕ → Bool
empty [] = true
empty (c ∷ s) = false

abbrev pub crlf : List ℕ
crlf = 13 ∷ 10 ∷ []

abbrev pub connection : List ℕ
connection = codes "connection"

-- The version, a uint8_t of two digits of four bits.
abbrev pub version_text : ℕ → List ℕ
version_text version = decimal (version / 16) ++ (codes "." ++ decimal (version % 16))

abbrev pub close_text : Bool → List ℕ
close_text close = if close then codes "close" else codes "keep-alive"

abbrev pub body_text : List ℕ → List ℕ
body_text body =
    if empty body
    then crlf
    else codes "content-length: " ++ (decimal (length body) ++ (crlf ++ (crlf ++ body)))

-- The first line of HttpRequest::dump.
abbrev pub request_line : HttpRequest → List ℕ
request_line r =
    http_method_to_string r.method
    ++ (codes " "
        ++ (r.path
            ++ ((if empty r.query then [] else codes "?")
                ++ (r.query
                    ++ ((if empty r.fragment then [] else codes "#")
                        ++ (r.fragment ++ (codes " HTTP/" ++ (version_text r.version ++ crlf))))))))

-- Its loop over the headers, which skips the connection in every spelling.
unfoldable pub request_headers : MapType → List ℕ
request_headers [] = []
request_headers ((k, v) ∷ m) =
    if same_key k connection
    then request_headers m
    else k ++ (codes ":" ++ (v ++ (crlf ++ request_headers m)))

unfoldable pub dump_request : HttpRequest → List ℕ
dump_request r =
    request_line r
    ++ (codes "connection: "
        ++ (close_text r.close ++ (crlf ++ (request_headers r.headers ++ body_text r.body))))

-- The first line of HttpResponse::dump.
abbrev pub status_line : HttpResponse → List ℕ
status_line r =
    codes "HTTP/"
    ++ (version_text r.version
        ++ (codes " "
            ++ (decimal r.status
                ++ (codes " "
                    ++ ((if empty r.reason then http_status_to_string r.status else r.reason)
                        ++ crlf)))))

-- Its loop over the headers, which skips the connection in this very spelling.
unfoldable pub response_headers : MapType → List ℕ
response_headers [] = []
response_headers ((k, v) ∷ m) =
    if same_bytes k connection
    then response_headers m
    else k ++ (codes ": " ++ (v ++ (crlf ++ response_headers m)))

unfoldable pub dump_response : HttpResponse → List ℕ
dump_response r =
    status_line r
    ++ (response_headers r.headers
        ++ (codes "connection: " ++ (close_text r.close ++ (crlf ++ body_text r.body))))
