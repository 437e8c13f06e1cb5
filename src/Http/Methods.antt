-- ===== src/Http/Methods.antt =====
-- The enumerations of sylar/http/http.h and their texts, sylar/http/http.cc. Both are numbers, as the
-- code converts them: `HttpMethod` is an index, `HttpStatus` the code.

use server_demo.Common.{
  ℕ, Option, none, some, List, [], ◌∷◌, map, get_elem?, if◌then◌else◌, ◌==◌, Bool,
}
use server_demo.Http.Bytes.{codes, c_str, same_bytes, starts_with}

-- HTTP_METHOD_MAP: the numbers and the texts of its rows.
abbrev pub method_map : List (ℕ × List ℕ)
method_map =
    (0, codes "DELETE")
    ∷ (1, codes "GET")
    ∷ (2, codes "HEAD")
    ∷ (3, codes "POST")
    ∷ (4, codes "PUT")
    ∷ (5, codes "CONNECT")
    ∷ (6, codes "OPTIONS")
    ∷ (7, codes "TRACE")
    ∷ (8, codes "COPY")
    ∷ (9, codes "LOCK")
    ∷ (10, codes "MKCOL")
    ∷ (11, codes "MOVE")
    ∷ (12, codes "PROPFIND")
    ∷ (13, codes "PROPPATCH")
    ∷ (14, codes "SEARCH")
    ∷ (15, codes "UNLOCK")
    ∷ (16, codes "BIND")
    ∷ (17, codes "REBIND")
    ∷ (18, codes "UNBIND")
    ∷ (19, codes "ACL")
    ∷ (20, codes "REPORT")
    ∷ (21, codes "MKACTIVITY")
    ∷ (22, codes "CHECKOUT")
    ∷ (23, codes "MERGE")
    ∷ (24, codes "M-SEARCH")
    ∷ (25, codes "NOTIFY")
    ∷ (26, codes "SUBSCRIBE")
    ∷ (27, codes "UNSUBSCRIBE")
    ∷ (28, codes "PATCH")
    ∷ (29, codes "PURGE")
    ∷ (30, codes "MKCALENDAR")
    ∷ (31, codes "LINK")
    ∷ (32, codes "UNLINK")
    ∷ (33, codes "SOURCE")
    ∷ []

-- INVALID_METHOD follows the last row.
abbrev pub invalid_method : ℕ
invalid_method = 34

-- HTTP_STATUS_MAP: the codes and the texts of its rows.
abbrev pub status_map : List (ℕ × List ℕ)
status_map =
    (100, codes "Continue")
    ∷ (101, codes "Switching Protocols")
    ∷ (102, codes "Processing")
    ∷ (200, codes "OK")
    ∷ (201, codes "Created")
    ∷ (202, codes "Accepted")
    ∷ (203, codes "Non-Authoritative Information")
    ∷ (204, codes "No Content")
    ∷ (205, codes "Reset Content")
    ∷ (206, codes "Partial Content")
    ∷ (207, codes "Multi-Status")
    ∷ (208, codes "Already Reported")
    ∷ (226, codes "IM Used")
    ∷ (300, codes "Multiple Choices")
    ∷ (301, codes "Moved Permanently")
    ∷ (302, codes "Found")
    ∷ (303, codes "See Other")
    ∷ (304, codes "Not Modified")
    ∷ (305, codes "Use Proxy")
    ∷ (307, codes "Temporary Redirect")
    ∷ (308, codes "Permanent Redirect")
    ∷ (400, codes "Bad Request")
    ∷ (401, codes "Unauthorized")
    ∷ (402, codes "Payment Required")
    ∷ (403, codes "Forbidden")
    ∷ (404, codes "Not Found")
    ∷ (405, codes "Method Not Allowed")
    ∷ (406, codes "Not Acceptable")
    ∷ (407, codes "Proxy Authentication Required")
    ∷ (408, codes "Request Timeout")
    ∷ (409, codes "Conflict")
    ∷ (410, codes "Gone")
    ∷ (411, codes "Length Required")
    ∷ (412, codes "Precondition Failed")
    ∷ (413, codes "Payload Too Large")
    ∷ (414, codes "URI Too Long")
    ∷ (415, codes "Unsupported Media Type")
    ∷ (416, codes "Range Not Satisfiable")
    ∷ (417, codes "Expectation Failed")
    ∷ (421, codes "Misdirected Request")
    ∷ (422, codes "Unprocessable Entity")
    ∷ (423, codes "Locked")
    ∷ (424, codes "Failed Dependency")
    ∷ (426, codes "Upgrade Required")
    ∷ (428, codes "Precondition Required")
    ∷ (429, codes "Too Many Requests")
    ∷ (431, codes "Request Header Fields Too Large")
    ∷ (451, codes "Unavailable For Legal Reasons")
    ∷ (500, codes "Internal Server Error")
    ∷ (501, codes "Not Implemented")
    ∷ (502, codes "Bad Gateway")
    ∷ (503, codes "Service Unavailable")
    ∷ (504, codes "Gateway Timeout")
    ∷ (505, codes "HTTP Version Not Supported")
    ∷ (506, codes "Variant Also Negotiates")
    ∷ (507, codes "Insufficient Storage")
    ∷ (508, codes "Loop Detected")
    ∷ (510, codes "Not Extended")
    ∷ (511, codes "Network Authentication Required")
    ∷ []

-- The chain of `if`s that the macro makes of the rows, for a test on their texts.
unfoldable pub first_row : (List ℕ → Bool) → List (ℕ × List ℕ) → ℕ
first_row test [] = invalid_method
first_row test ((num, text) ∷ rows) = if test text then num else first_row test rows

unfoldable pub string_to_http_method : List ℕ → ℕ
string_to_http_method m = first_row (λ text. same_bytes text (c_str m)) method_map

-- strncmp with the length of the row's text.
unfoldable pub chars_to_http_method : List ℕ → ℕ
chars_to_http_method m = first_row (λ text. starts_with text m) method_map

abbrev pub unknown : List ℕ
unknown = codes "<unknown>"

-- The text of a number out of the range of the array, or the row's.
abbrev pub text_or_unknown : Option (List ℕ) → List ℕ
text_or_unknown none = unknown
text_or_unknown (some text) = text

unfoldable pub http_method_to_string : ℕ → List ℕ
http_method_to_string m =
    text_or_unknown (get_elem? (map (λ (row : ℕ × List ℕ). row.1) method_map) m)

unfoldable pub row_of : ℕ → List (ℕ × List ℕ) → Option (List ℕ)
row_of s [] = none
row_of s ((code, msg) ∷ rows) = if code == s then some msg else row_of s rows

unfoldable pub http_status_to_string : ℕ → List ℕ
http_status_to_string s = text_or_unknown (row_of s status_map)
