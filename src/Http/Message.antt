-- ===== src/Http/Message.antt =====
-- Header lines and lengths: parse_http_request and parse_content_length of
-- src/native/dli_common_cpp/src/http.cpp, which its http_client.cpp repeats for responses.
use distributed_layer_infere.Common.{
  ℕ, ◌-◌, ◌*◌, ◌^◌, ◌%◌, Bool, true, false, not, ◌&&◌, ◌||◌, if◌then◌else◌, ltb, leb, ◌==◌, Option,
  none, some, List, [], ◌∷◌, Result, ok, err, Bytes, codes, is_empty, eqb, value_from, ℤ,
}
use distributed_layer_infere.Http.{Headers, HttpRequest}
use distributed_layer_infere.Http.Text.{lower_copy, trim_copy, lines, without_cr, next_word, cut_at}

-- The exceptions of http.cpp and of http_client.cpp, whose messages differ. `receive_failed` has the
-- text of errno, the exceptions on a URL what their messages name.
pub data HttpError : Type 0 where
  missing_start_line malformed_start_line invalid_content_length headers_exceed : HttpError
  closed_early : HttpError
  receive_failed : Bytes → HttpError
  unsupported_url invalid_url_port empty_url_host : Bytes → HttpError
  url_port_out_of_range : ℤ → HttpError

-- `headers[key] = value`
unfoldable pub assign : Bytes → Bytes → Headers → Headers
assign key value [] = (key, value) ∷ []
assign key value ((k, v) ∷ headers) =
    let rest = assign key value headers in if eqb k key then (k, value) ∷ headers else (k, v) ∷ rest

-- `headers.find(key)`
unfoldable pub header : Bytes → Headers → Option Bytes
header key [] = none
header key ((k, v) ∷ headers) = if eqb k key then some v else header key headers

abbrev pub assigned : Headers → Option (Bytes × Bytes) → Headers
assigned headers none = headers
assigned headers (some (key, value)) = assign (lower_copy (trim_copy key)) (trim_copy value) headers

-- The loop over the lines, up to an empty one; a line without a colon is passed over.
unfoldable pub header_lines : List Bytes → Headers → Headers
header_lines [] headers = headers
header_lines (l ∷ ls) headers =
    let line = without_cr l in
    let rest = header_lines ls (assigned headers (cut_at b':' line)) in
    if is_empty line then headers else rest

abbrev pub request_if : Bool → Bytes → Bytes → List Bytes → Bytes → Result HttpError HttpRequest
request_if true method path ls body = err malformed_start_line
request_if false method path ls body =
    ok (record { method = method; path = path; headers = header_lines ls []; body = body })

abbrev pub request_of : Bytes → List Bytes → Bytes → Result HttpError HttpRequest
request_of line ls body =
    let (method, after_method) = next_word line in
    let (path, after_path) = next_word after_method in
    let (version, after_version) = next_word after_path in
    request_if (is_empty method || is_empty path || is_empty version) method path ls body

abbrev pub request_from : List Bytes → Bytes → Result HttpError HttpRequest
request_from [] body = err missing_start_line
request_from (l ∷ ls) body = request_of (without_cr l) ls body

unfoldable pub parse_http_request : Bytes → Bytes → Result HttpError HttpRequest
parse_http_request header_bytes body = request_from (lines header_bytes) body

abbrev pub max_header_bytes : ℕ
max_header_bytes = 64 * 1024

abbrev pub max_body_bytes : ℕ
max_body_bytes = 512 * 1024 * 1024

abbrev pub all_digits : Bytes → Bool
all_digits [] = true
all_digits (c ∷ cs) = (leb 48 c && leb c 57) && all_digits cs

-- `std::stoull` on the whole text: an optional sign and digits; a negative value wraps, and a value
-- beyond 64 bits throws.
abbrev pub wrapped : Bool → Bytes → Option ℕ
wrapped negative [] = none
wrapped negative (d ∷ ds) =
    let value = value_from 0 (d ∷ ds) in
    if not (all_digits (d ∷ ds)) || leb (2 ^ 64) value
    then none
    else if negative
    then some ((2 ^ 64 - value) % 2 ^ 64)
    else some value

unfoldable pub whole_stoull : Bytes → Option ℕ
whole_stoull [] = none
whole_stoull (c ∷ cs) =
    if c == b'-'
    then wrapped true cs
    else if c == b'+'
    then wrapped false cs
    else wrapped false (c ∷ cs)

abbrev pub bounded : Option ℕ → Result HttpError ℕ
bounded none = err invalid_content_length
bounded (some value) = if ltb max_body_bytes value then err invalid_content_length else ok value

-- Every failure in the try block is caught and thrown again with the one message.
abbrev length_of : Option Bytes → Result HttpError ℕ
length_of none = ok 0
length_of (some text) = bounded (whole_stoull text)

unfoldable pub parse_content_length : Headers → Result HttpError ℕ
parse_content_length headers = length_of (header (codes "content-length") headers)

abbrev wants : Option Bytes → Bool
wants none = true
wants (some value) = not (eqb (lower_copy (trim_copy value)) (codes "close"))

unfoldable pub request_wants_keep_alive : HttpRequest → Bool
request_wants_keep_alive request = wants (header (codes "connection") request.headers)
