-- ===== src/Http/Client.antt =====
-- The client's side: src/native/dli_common_cpp/src/http_client.cpp and its header. Its lower_copy,
-- trim_copy, find_header_end, parse_content_length and its reading loop are those of http.cpp, but
-- for the messages of the exceptions.
pub mod Urls
pub mod Fields
pub mod Sent
pub mod Whole
pub mod Answered
use distributed_layer_infere.Common.{
  ℕ, ◌+◌, Bool, true, false, not, ◌||◌, if◌then◌else◌, ltb, Option, none, some, List, [], ◌∷◌, ◌++◌,
  Result, ok, err, ◌>>=◌, ◌>>◌, throw_if, length, take, drop, Bytes, codes, is_empty, starts_with,
  decimal, to_string, ℤ, pos, negsuc, ltb_ℤ, scan_number, fits_int, int_max, stoi_prefix,
}
use distributed_layer_infere.Http.{Headers, connection_value}
use distributed_layer_infere.Http.Text.{
  crlf, ended_lines, trim_copy, lines, without_cr, next_word, cut_at, cut_at_last,
}
use distributed_layer_infere.Http.Message.{
  HttpError, closed_early, receive_failed, missing_start_line, malformed_start_line,
  unsupported_url, invalid_url_port, empty_url_host, url_port_out_of_range, header_lines,
}
use distributed_layer_infere.Http.Read.{Ending, closed, failed, Kind, read_chunks}

pub record ParsedUrl : Type 0 where
  pub host : Bytes
  pub port : ℤ
  pub path : Bytes

pub record HttpClientResponse : Type 0 where
  pub status_code : ℤ
  pub reason : Bytes
  pub headers : Headers
  pub body : Bytes

-- `rest.find('/')`: the host with its port, and the path.
abbrev pub host_and_path : Bytes → Option (Bytes × Bytes) → Bytes × Bytes
host_and_path rest none = (rest, codes "/")
host_and_path rest (some (host_port, path)) = (host_port, b'/' ∷ path)

abbrev pub port_of : Bytes → Option ℤ → Result HttpError ℤ
port_of text none = err (invalid_url_port text)
port_of text (some port) = ok port

abbrev pub host_and_port : Bytes → Option (Bytes × Bytes) → Result HttpError (Bytes × ℤ)
host_and_port host_port none = ok (host_port, pos 80)
host_and_port host_port (some (host, text)) =
    port_of text (stoi_prefix text) >>= λ port. ok (host, port)

abbrev pub checked_url : Bytes → Bytes → Bytes × ℤ → Result HttpError ParsedUrl
checked_url url path (host, port) =
    throw_if (is_empty host) (empty_url_host url)
    >> throw_if (ltb_ℤ port (pos 1) || ltb_ℤ (pos 65535) port) (url_port_out_of_range port)
    >> ok (record { host = host; port = port; path = path })

abbrev pub url_of : Bytes → Bytes × Bytes → Result HttpError ParsedUrl
url_of url (host_port, path) =
    host_and_port host_port (cut_at_last b':' host_port) >>= checked_url url path

abbrev pub url_prefix : Bytes
url_prefix = codes "http://"

unfoldable pub parse_http_url : Bytes → Result HttpError ParsedUrl
parse_http_url url =
    let rest = drop 7 url in
    if not (starts_with url url_prefix)
    then err (unsupported_url url)
    else url_of url (host_and_path rest (cut_at b'/' rest))

-- `status_stream >> response.status_code` into an int, and `std::getline` of the rest, which a failed
-- read leaves empty. A number out of range becomes the nearest int, and that read has failed.
abbrev nearest_int : ℤ → ℤ
nearest_int (pos n) = pos int_max
nearest_int (negsuc n) = negsuc int_max

abbrev pub status_of : Option (ℤ × Bytes) → ℤ × Bytes
status_of none = (pos 0, [])
status_of (some (z, rest)) = if fits_int z then (z, rest) else (nearest_int z, [])

abbrev pub response_if : Bool → ℤ × Bytes → List Bytes → Bytes → Result HttpError HttpClientResponse
response_if true status ls body = err malformed_start_line
response_if false (status_code, reason) ls body = ok (record {
  status_code = status_code;
  reason = trim_copy reason;
  headers = header_lines ls [];
  body = body;
})

abbrev pub response_of_line : Bytes → List Bytes → Bytes → Result HttpError HttpClientResponse
response_of_line line ls body =
    let (version, after_version) = next_word line in
    let status = status_of (scan_number after_version) in
    response_if (is_empty version || ltb_ℤ status.0 (pos 1)) status ls body

abbrev pub response_from : List Bytes → Bytes → Result HttpError HttpClientResponse
response_from [] body = err missing_start_line
response_from (l ∷ ls) body = response_of_line (without_cr l) ls body

unfoldable pub parse_http_response : Bytes → Bytes → Result HttpError HttpClientResponse
parse_http_response header_bytes body = response_from (lines header_bytes) body

-- A connection that is closed behind the header gives the response with the body there is, even if
-- it is shorter than its Content-Length.
abbrev response_at_end : Ending → Bytes → Option (ℕ × ℕ) → Result HttpError HttpClientResponse
response_at_end (failed text) buffer found = err (receive_failed text)
response_at_end closed buffer none = err closed_early
response_at_end closed buffer (some (e, n)) =
    parse_http_response (take e buffer) (drop (e + 4) buffer)

abbrev pub response_kind : Kind HttpClientResponse
response_kind = record {
  parse = parse_http_response;
  headers_of = λ r. r.headers;
  at_end = response_at_end;
}

unfoldable pub read_http_response : Ending → List Bytes → Result HttpError HttpClientResponse
unfolding read_chunks
read_http_response ending chunks = read_chunks response_kind ending chunks [] none

-- The bytes that http_post_binary and post_binary_once send, for their `Connection` header.
abbrev pub request_lines : Bool → ParsedUrl → Bytes → List Bytes
request_lines keep_alive url body =
    (codes "POST " ++ url.path ++ codes " HTTP/1.1")
    ∷ (codes "Host: " ++ url.host ++ (b':' ∷ to_string url.port))
    ∷ codes "Content-Type: application/octet-stream"
    ∷ (codes "Content-Length: " ++ decimal (length body))
    ∷ (codes "Connection: " ++ connection_value keep_alive)
    ∷ []

unfoldable pub request_bytes : Bool → ParsedUrl → Bytes → Bytes
request_bytes keep_alive url body =
    ended_lines (request_lines keep_alive url body) ++ (crlf ++ body)
