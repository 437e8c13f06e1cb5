-- ===== src/Http/Fields.antt =====
-- Which header fields a printed message has.
use server_demo.Common.{
  ℕ, ◌+◌, ◌≡◌, refl, Bool, true, not, ◌&&◌, List, [], ◌∷◌, ◌++◌, append_assoc, arith, if◌then◌else◌,
  Bool-cases, inl, inr,
}
use server_demo.Http.Bytes.{codes, same_bytes, same_key, same_bytes_refl}
use server_demo.Http.Headers.{MapType}
use server_demo.Http.Message.{
  HttpRequest, HttpResponse, crlf, connection, close_text, body_text, request_line, request_headers,
  dump_request, status_line, response_headers, dump_response,
}

-- Fields as a message carries them: a name, and what stands behind the colon.
abbrev pub print_fields : List (List ℕ × List ℕ) → List ℕ
print_fields [] = []
print_fields ((name, text) ∷ fields) =
    name ++ (codes ":" ++ (text ++ (crlf ++ print_fields fields)))

-- How many fields have this name, in any spelling.
abbrev pub named : List ℕ → List (List ℕ × List ℕ) → ℕ
named key [] = 0
named key ((name, text) ∷ fields) = (if same_key name key then 1 else 0) + named key fields

print_fields-append :
    (xs ys : List (List ℕ × List ℕ)) → print_fields (xs ++ ys) ≡ print_fields xs ++ print_fields ys
print_fields-append [] ys = refl
print_fields-append ((name, text) ∷ xs) ys = simp (print_fields-append xs ys, append_assoc)

named-append :
    (key : List ℕ) (xs ys : List (List ℕ × List ℕ))
    → named key (xs ++ ys) ≡ named key xs + named key ys
named-append key [] ys = omega arith
named-append key ((name, text) ∷ xs) ys = omega (arith, named-append key xs ys)

-- The connection field of a message.
abbrev pub connection_field : Bool → List ℕ × List ℕ
connection_field close = (connection, codes " " ++ close_text close)

-- The headers that a request prints.
abbrev pub request_fields : MapType → List (List ℕ × List ℕ)
request_fields [] = []
request_fields ((k, v) ∷ m) =
    if same_key k connection then request_fields m else (k, v) ∷ request_fields m

request_headers-fields : (m : MapType) → request_headers m ≡ print_fields (request_fields m)
unfolding request_headers
request_headers-fields [] = refl
request_headers-fields ((k, v) ∷ m) = elim (Bool-cases (same_key k connection)) [
  | inl skipped ↦ rw (skipped, request_headers-fields m) refl
  | inr kept ↦ rw (kept, request_headers-fields m) refl
]

named-request_fields : (m : MapType) → named connection (request_fields m) ≡ 0
named-request_fields [] = refl
named-request_fields ((k, v) ∷ m) = elim (Bool-cases (same_key k connection)) [
  | inl skipped ↦ rw skipped (named-request_fields m)
  | inr kept ↦ rw (kept, kept, named-request_fields m) (omega arith)
]

connection_self : same_key connection connection ≡ true
unfolding same_key
connection_self = same_bytes_refl _

-- A printed request is its request line, its header fields and its body, and exactly one of the
-- fields is named connection, in any case, whatever headers the request has.
pub dump_request-fields :
    (r : HttpRequest)
    → (dump_request r
        ≡ request_line r
          ++ (print_fields (connection_field r.close ∷ request_fields r.headers)
              ++ body_text r.body))
      × (named connection (connection_field r.close ∷ request_fields r.headers) ≡ 1)
unfolding dump_request
dump_request-fields r = (
  simp (request_headers-fields r.headers, append_assoc),
  rw (connection_self, named-request_fields r.headers) (omega arith),
)

-- The headers that a response prints, and those among them that a client takes for the connection.
abbrev pub response_fields : MapType → List (List ℕ × List ℕ)
response_fields [] = []
response_fields ((k, v) ∷ m) =
    if same_bytes k connection then response_fields m else (k, codes " " ++ v) ∷ response_fields m

abbrev pub respelled : MapType → ℕ
respelled [] = 0
respelled ((k, v) ∷ m) =
    (if same_key k connection && not (same_bytes k connection) then 1 else 0) + respelled m

response_headers-fields : (m : MapType) → response_headers m ≡ print_fields (response_fields m)
unfolding response_headers
response_headers-fields [] = refl
response_headers-fields ((k, v) ∷ m) = elim (Bool-cases (same_bytes k connection)) [
  | inl skipped ↦ rw (skipped, response_headers-fields m) refl
  | inr kept ↦ rw (kept, response_headers-fields m) refl
]

named-response_fields : (m : MapType) → named connection (response_fields m) ≡ respelled m
named-response_fields [] = refl
named-response_fields ((k, v) ∷ m) = elim (Bool-cases (same_bytes k connection)) [
  | inl skipped ↦ rw (skipped, named-response_fields m) (ground arith)
  | inr kept ↦ rw (kept, named-response_fields m) (ground arith)
]

-- A printed response is its status line, its header fields and its body, and beside one
-- connection field of its own it has one more for each header whose name differs from
-- `connection` in case only.
pub dump_response-fields :
    (r : HttpResponse)
    → (dump_response r
        ≡ status_line r
          ++ (print_fields (response_fields r.headers ++ (connection_field r.close ∷ []))
              ++ body_text r.body))
      × (named connection (response_fields r.headers ++ (connection_field r.close ∷ []))
          ≡ 1 + respelled r.headers)
unfolding dump_response
dump_response-fields r = (
  simp (response_headers-fields r.headers, print_fields-append, append_assoc),
  rw
      (
        named-append connection (response_fields r.headers) (connection_field r.close ∷ []),
        connection_self,
        named-response_fields r.headers,
      )
      (omega arith),
)
