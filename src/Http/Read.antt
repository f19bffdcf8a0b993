-- ===== src/Http/Read.antt =====
-- Reading a message from a connection: find_header_end and read_http_request of
-- src/native/dli_common_cpp/src/http.cpp.
pub mod HeaderEnd
pub mod Chunks
use distributed_layer_infere.Common.{
  ℕ, zero, suc, ◌+◌, ◌-◌, Bool, true, false, not, if◌then◌else◌, ltb, leb, Option, none, some, List,
  [], ◌∷◌, ◌++◌, Result, ok, err, ◌>>=◌, length, take, drop, Bytes, starts_with,
}
use distributed_layer_infere.Http.{HttpRequest, Headers}
use distributed_layer_infere.Http.Message.{
  HttpError, closed_early, receive_failed, headers_exceed, max_header_bytes, parse_http_request,
  parse_content_length,
}

abbrev pub blank_line : Bytes
blank_line = 13 ∷ 10 ∷ 13 ∷ 10 ∷ []

abbrev pub one_further : Option ℕ → Option ℕ
one_further none = none
one_further (some i) = some (suc i)

-- The first position of CR LF CR LF; `npos` is none.
unfoldable pub find_header_end : Bytes → Option ℕ
find_header_end [] = none
find_header_end (c ∷ cs) =
    if starts_with (c ∷ cs) blank_line then some 0 else one_further (find_header_end cs)

-- How a connection ends when it gives no more bytes: closed by the peer, or a recv that fails.
pub data Ending : Type 0 where
  closed : Ending
  failed : Bytes → Ending

-- What a kind of message needs: its parser, the headers of what it parsed, and what becomes of the
-- bytes and of the header that was found in them when the connection ends. The sources of the
-- request and of the response are the same code but for these.
pub record Kind (M : Type 0) : Type 0 where
  pub parse : Bytes → Bytes → Result HttpError M
  pub headers_of : M → Headers
  pub at_end : Ending → Bytes → Option (ℕ × ℕ) → Result HttpError M

abbrev request_at_end : Ending → Bytes → Option (ℕ × ℕ) → Result HttpError HttpRequest
request_at_end closed buffer found = err closed_early
request_at_end (failed text) buffer found = err (receive_failed text)

abbrev pub request_kind : Kind HttpRequest
request_kind = record {
  parse = parse_http_request;
  headers_of = λ r. r.headers;
  at_end = request_at_end;
}

module _ {M : Type 0} (kind : Kind M) (ending : Ending) where
  -- The message whose header ends at `e` and whose body has `n` bytes, out of the buffer.
  abbrev pub cut_message : Bytes → ℕ → ℕ → Result HttpError M
  cut_message buffer e n = kind.parse (take e buffer) (take n (drop (e + 4) buffer))

  -- The length that the header asks for, when it has just been found.
  abbrev pub expected_size : Bytes → ℕ → Result HttpError ℕ
  expected_size buffer e = kind.parse (take e buffer) (drop (e + 4) buffer) >>= λ m.
      parse_content_length (kind.headers_of m)

  abbrev pub has_body : Bytes → ℕ → ℕ → Bool
  has_body buffer e n = leb n (length buffer - (e + 4))

  -- The loop, by what recv returns: a chunk each time, and then the ending. An interrupted
  -- recv is tried again and leaves no trace. `found` has `header_end` and
  -- `expected_body_size`; `next` is the rest of the loop, from the buffer and these.
  abbrev pub after_length :
      (Bytes → Option (ℕ × ℕ) → Result HttpError M) → Bytes → ℕ → ℕ → Result HttpError M
  after_length next buffer e n =
      if has_body buffer e n then cut_message buffer e n else next buffer (some (e, n))

  abbrev pub after_header :
      (Bytes → Option (ℕ × ℕ) → Result HttpError M) → Bytes → Option ℕ → Result HttpError M
  after_header next buffer none =
      if ltb max_header_bytes (length buffer) then err headers_exceed else next buffer none
  after_header next buffer (some e) = expected_size buffer e >>= λ n. after_length next buffer e n

  abbrev pub after_chunk :
      (Bytes → Option (ℕ × ℕ) → Result HttpError M) → Bytes → Option (ℕ × ℕ) → Result HttpError M
  after_chunk next buffer none = after_header next buffer (find_header_end buffer)
  after_chunk next buffer (some (e, n)) = after_length next buffer e n

  unfoldable pub read_chunks : List Bytes → Bytes → Option (ℕ × ℕ) → Result HttpError M
  read_chunks [] buffer found = kind.at_end ending buffer found
  read_chunks (c ∷ cs) buffer found = after_chunk (read_chunks cs) (buffer ++ c) found

unfoldable pub read_http_request : Ending → List Bytes → Result HttpError HttpRequest
unfolding read_chunks
read_http_request ending chunks = read_chunks request_kind ending chunks [] none
