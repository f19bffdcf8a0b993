-- ===== src/Http/Client/Sent.antt =====
-- What the client sends, the server reads.
use distributed_layer_infere.Common.{
  ℕ, ◌≤◌, ◌<◌, ◌≡◌, refl, sym, ap, ◌∙◌, Bool, false, List, [], ◌∷◌, ◌++◌, Result, ok, ◌>>=◌, length,
  Bytes, All, codes, concat, is_space, decimal, to_string, ℤ, eqb,
}
use mathlib.Core.Path.{subst}
use distributed_layer_infere.Http.{Headers, HttpRequest, connection_value}
use distributed_layer_infere.Http.Text.{ended_lines}
use distributed_layer_infere.Http.Text.Cuts.{HasNoSpace, All-append}
use distributed_layer_infere.Http.Message.{
  HttpError, header, header_lines, request_of, request_from, parse_http_request,
  parse_content_length, max_header_bytes, max_body_bytes,
}
use distributed_layer_infere.Http.Read.{Ending, request_kind, read_http_request, find_header_end}
use distributed_layer_infere.Http.Read.Chunks.{HeaderFits, read_whole, read_http_request-concat}
use distributed_layer_infere.Http.Written.{
  IsLine, joined, written, ended_lines-written, lines-joined, with_cr, header_lines-with_cr,
  without_cr-append, read_whole-written, written-HeaderFits,
}
use distributed_layer_infere.Http.Written.Lengths.{bounded-decimal, decimal-HasNoSpace}
use distributed_layer_infere.Http.Written.Fields.{
  has_no→HasNo, no_space_no_line_end, IsField, field_lines, field_lines-IsLine,
  header_lines-field_lines,
}
use distributed_layer_infere.Http.Client.{ParsedUrl, request_lines, request_bytes}
use distributed_layer_infere.Http.Client.Fields.{
  to_string-HasNoSpace, host_text, sent_headers, request_line, written_fields,
  written_fields-IsField, fields_read_sent,
}

module _ (keep_alive : Bool) (host : Bytes) (port : ℤ) (c : ℕ) (path body : Bytes) where
  abbrev url : ParsedUrl
  url = record { host = host; port = port; path = c ∷ path }

  abbrev content : Bytes
  content = decimal (length body)

  abbrev first_line : Bytes
  first_line = codes "POST " ++ (c ∷ path) ++ codes " HTTP/1.1"

  abbrev header_fields : Headers
  header_fields = written_fields keep_alive (host_text url) content

  abbrev host_line : Bytes
  host_line = codes "Host: " ++ host_text url

  abbrev later_fields : Headers
  later_fields =
      (codes "Content-Type", codes "application/octet-stream")
      ∷ (codes "Content-Length", content)
      ∷ (codes "Connection", connection_value keep_alive)
      ∷ []

  abbrev later_lines : List Bytes
  later_lines = field_lines later_fields

  abbrev with_headers : Headers → Result HttpError HttpRequest
  with_headers headers =
      ok (record { method = codes "POST"; path = c ∷ path; headers = headers; body = body })

  -- The request as the server has it.
  abbrev pub sent_request : HttpRequest
  sent_request = record {
    method = codes "POST";
    path = c ∷ path;
    headers = sent_headers keep_alive url body;
    body = body;
  }

  module _ (free_host : HasNoSpace host) (free_path : HasNoSpace (c ∷ path)) where
    first_line-IsLine : IsLine first_line
    first_line-IsLine =
        let free = no_space_no_line_end (c ∷ path) free_path in
        (
          refl,
          All-append _ (codes "POST " ++ (c ∷ path)) (codes " HTTP/1.1")
              (All-append _ (codes "POST ") (c ∷ path) (has_no→HasNo 13 (codes "POST ") refl)
                free.0)
              (has_no→HasNo 13 (codes " HTTP/1.1") refl),
          All-append _ (codes "POST " ++ (c ∷ path)) (codes " HTTP/1.1")
              (All-append _ (codes "POST ") (c ∷ path) (has_no→HasNo 10 (codes "POST ") refl)
                free.1)
              (has_no→HasNo 10 (codes " HTTP/1.1") refl),
        )

    free_host_text : HasNoSpace (host_text url)
    free_host_text =
        All-append (λ x. is_space x ≡ false) host (b':' ∷ to_string port) free_host
          (refl, to_string-HasNoSpace port)

    fields-IsField : All IsField header_fields
    fields-IsField =
        written_fields-IsField keep_alive (host_text url) content free_host_text
          (decimal-HasNoSpace (length body))

    header_lines_sent :
        header_lines (with_cr host_line later_lines) [] ≡ sent_headers keep_alive url body
    header_lines_sent =
        header_lines-with_cr host_line later_lines [] fields-IsField.0.1
          (field_lines-IsLine later_fields fields-IsField.1)
        ∙ header_lines-field_lines header_fields [] fields-IsField
        ∙ fields_read_sent keep_alive (host_text url) content free_host_text
            (decimal-HasNoSpace (length body))

    parse_sent :
        parse_http_request (joined first_line (field_lines header_fields)) body ≡ ok sent_request
    unfolding parse_http_request
    parse_sent =
        ap (λ t. request_from t body)
          (lines-joined first_line (field_lines header_fields) first_line-IsLine
            (field_lines-IsLine header_fields fields-IsField))
        ∙ ap (λ t. request_of t (with_cr host_line later_lines) body) (without_cr-append first_line)
        ∙ request_line c path (with_cr host_line later_lines) body free_path
        ∙ ap with_headers header_lines_sent

    length_sent :
        length body ≤ max_body_bytes
        → (parse_http_request (joined first_line (field_lines header_fields)) body >>= λ m.
            parse_content_length m.headers)
          ≡ ok (length body)
    unfolding parse_content_length header eqb
    length_sent small =
        ap (λ r. r >>= λ m. parse_content_length m.headers) parse_sent
        ∙ bounded-decimal (length body) small

    -- A request that the client writes is read by the server as it was meant, however the
    -- connection cuts it into chunks: the method POST, the path, the four headers and the whole
    -- body. The host and the path have no white space and the path is not empty, the header is
    -- shorter than max_header_bytes and the body not longer than max_body_bytes.
    pub read_http_request-request_bytes :
        (ending : Ending) (chunks : List Bytes)
        → concat chunks ≡ request_bytes keep_alive url body
        → length (ended_lines (request_lines keep_alive url body)) < max_header_bytes
        → length body ≤ max_body_bytes
        → read_http_request ending chunks ≡ ok sent_request
    unfolding request_bytes
    read_http_request-request_bytes ending chunks joins short small =
        let l = first_line in
        let ls = field_lines header_fields in
        let line = first_line-IsLine in
        let lines = field_lines-IsLine header_fields fields-IsField in
        let bytes : concat chunks ≡ written l ls body = joins ∙ ended_lines-written l ls body in
        read_http_request-concat ending chunks (
          subst (λ t. HeaderFits t (find_header_end t)) (sym bytes)
            (written-HeaderFits l ls body line lines short))
        ∙ ap (read_whole request_kind ending) bytes
        ∙ read_whole-written request_kind ending l ls body line lines (length_sent small)
        ∙ parse_sent
