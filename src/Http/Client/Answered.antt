-- ===== src/Http/Client/Answered.antt =====
-- What the server answers, the client reads.
use distributed_layer_infere.Common.{
  ◌≤◌, ◌<◌, ◌≡◌, refl, sym, ap, ◌∙◌, arith, true, false, Option, some, List, [], ◌∷◌, ◌++◌, Result,
  ok, ◌>>=◌, length, Bytes, All, codes, concat, skip_spaces, decimal, ℤ, pos, eqb, scan_number,
  scan_number-decimal, int_max, fits_int, ltb_ℤ,
}
use mathlib.Core.Path.{subst}
use distributed_layer_infere.Http.{
  Headers, HttpResponse, connection_value, response_lines, response_bytes,
}
use distributed_layer_infere.Http.Text.{
  ended_lines, trim_back, trim_copy, lower_copy, next_word, word_of,
}
use distributed_layer_infere.Http.Text.Cuts.{HasNo, All-append, trim_copy_space}
use distributed_layer_infere.Http.Message.{
  HttpError, assign, header, header_lines, parse_content_length, max_header_bytes, max_body_bytes,
}
use distributed_layer_infere.Http.Read.{Ending, find_header_end}
use distributed_layer_infere.Http.Read.Chunks.{HeaderFits, read_whole}
use distributed_layer_infere.Http.Written.{
  IsLine, joined, written, ended_lines-written, lines-joined, with_cr, header_lines-with_cr,
  without_cr-append, read_whole-written, written-HeaderFits,
}
use distributed_layer_infere.Http.Written.Lengths.{bounded-decimal, decimal-HasNoSpace}
use distributed_layer_infere.Http.Written.Fields.{
  append-IsLine, no_space_no_line_end, IsField, field_lines, field_lines-IsLine, fields_read,
  header_lines-field_lines,
}
use distributed_layer_infere.Http.Client.{
  HttpClientResponse, response_kind, response_if, response_from, response_of_line, status_of,
  parse_http_response, read_http_response,
}
use distributed_layer_infere.Http.Client.Fields.{connection_value-IsLine, trim_connection}
use distributed_layer_infere.Http.Client.Whole.{read_http_response-concat}

-- A text that is one line and has no white space at its ends.
abbrev pub IsPlain : Bytes → Type 0
IsPlain text = (trim_copy text ≡ text) × HasNo 13 text × HasNo 10 text

trim_behind_space : (w : Bytes) → IsPlain w → trim_copy (32 ∷ w) ≡ w
unfolding trim_copy skip_spaces
trim_behind_space w h = h.0

module _ (response : HttpResponse) where
  abbrev status_line : Bytes
  status_line = codes "HTTP/1.1 " ++ (decimal response.status_code ++ (b' ' ∷ response.reason))

  abbrev content : Bytes
  content = decimal (length response.body)

  abbrev later_fields : Headers
  later_fields =
      (codes "Content-Length", content)
      ∷ (codes "Connection", connection_value response.keep_alive)
      ∷ []

  abbrev header_fields : Headers
  header_fields = (codes "Content-Type", response.content_type) ∷ later_fields

  abbrev type_line : Bytes
  type_line = codes "Content-Type: " ++ response.content_type

  -- The headers as the client has them.
  abbrev pub answered_headers : Headers
  answered_headers =
      (codes "content-type", response.content_type)
      ∷ (codes "content-length", content)
      ∷ (codes "connection", connection_value response.keep_alive)
      ∷ []

  abbrev with_headers : Headers → Result HttpError HttpClientResponse
  with_headers headers = ok (record {
    status_code = pos response.status_code;
    reason = response.reason;
    headers = headers;
    body = response.body;
  })

  abbrev pub answered_response : HttpClientResponse
  answered_response = record {
    status_code = pos response.status_code;
    reason = response.reason;
    headers = answered_headers;
    body = response.body;
  }

  abbrev with_reason : List Bytes → Bytes → Result HttpError HttpClientResponse
  with_reason ls reason = ok (record {
    status_code = pos response.status_code;
    reason = reason;
    headers = header_lines ls [];
    body = response.body;
  })

  abbrev status_result : List Bytes → Option (ℤ × Bytes) → Result HttpError HttpClientResponse
  status_result ls scanned =
      let status = status_of scanned in response_if (ltb_ℤ status.0 (pos 1)) status ls response.body

  module _ (positive : 1 ≤ response.status_code) (bounded : response.status_code ≤ int_max)
      (plain_reason : IsPlain response.reason) (plain_type : IsPlain response.content_type) where
    status_line-IsLine : IsLine status_line
    status_line-IsLine =
        let free =
          no_space_no_line_end (decimal response.status_code)
            (decimal-HasNoSpace response.status_code) in
        let reason : HasNo 13 response.reason × HasNo 10 response.reason =
          (plain_reason.1, plain_reason.2) in
        append-IsLine (codes "HTTP/1.1 ") (decimal response.status_code ++ (b' ' ∷ response.reason))
          refl refl refl
          (
            All-append _ (decimal response.status_code) (b' ' ∷ response.reason) free.0
                (omega arith, reason.0),
            All-append _ (decimal response.status_code) (b' ' ∷ response.reason) free.1
                (omega arith, reason.1),
          )

    fields-IsField : All IsField header_fields
    fields-IsField = (
      (
        refl,
        append-IsLine (codes "Content-Type: ") response.content_type refl refl refl
            (plain_type.1, plain_type.2),
      ),
      (
        (
          refl,
          append-IsLine (codes "Content-Length: ") content refl refl refl
              (no_space_no_line_end content (decimal-HasNoSpace (length response.body))),
        ),
        ((refl, connection_value-IsLine response.keep_alive), tt),
      ),
    )

    status_read :
        (ls : List Bytes)
        → response_of_line status_line ls response.body ≡ with_headers (header_lines ls [])
    unfolding next_word skip_spaces word_of scan_number
    status_read ls =
        let n = response.status_code in
        let fits : fits_int (pos n) ≡ true = ground arith in
        let scanned : status_of (some (pos n, 32 ∷ response.reason))
            ≡ (pos n, 32 ∷ response.reason) =
          rw fits refl in
        let positive_int : ltb_ℤ (pos n) (pos 1) ≡ false = ground arith in
        ap (status_result ls) (scan_number-decimal n (32 ∷ response.reason) refl)
        ∙ ap (λ s. response_if (ltb_ℤ s.0 (pos 1)) s ls response.body) scanned
        ∙ ap (λ b. response_if b (pos n, 32 ∷ response.reason) ls response.body) positive_int
        ∙ ap (with_reason ls) (trim_behind_space response.reason plain_reason)

    fields_read_answered : fields_read header_fields [] ≡ answered_headers
    unfolding lower_copy trim_copy skip_spaces trim_back assign eqb
    fields_read_answered =
        rw
          (
            trim_behind_space response.content_type plain_type,
            trim_copy_space content (decimal-HasNoSpace (length response.body)),
            trim_connection response.keep_alive,
          )
          refl

    header_lines_answered :
        header_lines (with_cr type_line (field_lines later_fields)) [] ≡ answered_headers
    header_lines_answered =
        header_lines-with_cr type_line (field_lines later_fields) [] fields-IsField.0.1
          (field_lines-IsLine later_fields fields-IsField.1)
        ∙ header_lines-field_lines header_fields [] fields-IsField
        ∙ fields_read_answered

    parse_answered :
        parse_http_response (joined status_line (field_lines header_fields)) response.body
        ≡ ok answered_response
    unfolding parse_http_response
    parse_answered =
        ap (λ t. response_from t response.body)
          (lines-joined status_line (field_lines header_fields) status_line-IsLine
            (field_lines-IsLine header_fields fields-IsField))
        ∙ ap (λ t. response_of_line t (with_cr type_line (field_lines later_fields)) response.body)
            (without_cr-append status_line)
        ∙ status_read (with_cr type_line (field_lines later_fields))
        ∙ ap with_headers header_lines_answered

    length_answered :
        length response.body ≤ max_body_bytes
        → (parse_http_response (joined status_line (field_lines header_fields)) response.body
            >>= λ m. parse_content_length m.headers)
          ≡ ok (length response.body)
    unfolding parse_content_length header eqb
    length_answered small =
        ap (λ r. r >>= λ m. parse_content_length m.headers) parse_answered
        ∙ bounded-decimal (length response.body) small

    -- A response that the server writes is read by the client as it was meant, however the
    -- connection cuts it into chunks: the status, the reason, the three headers and the whole body,
    -- whether the connection stays open behind it or not. The status is a positive int, the reason
    -- and the content type are single lines without white space at their ends, the header is
    -- shorter than max_header_bytes and the body not longer than max_body_bytes.
    pub read_http_response-response_bytes :
        (ending : Ending) (chunks : List Bytes)
        → concat chunks ≡ response_bytes response
        → length (ended_lines (response_lines response)) < max_header_bytes
        → length response.body ≤ max_body_bytes
        → read_http_response ending chunks ≡ ok answered_response
    unfolding response_bytes
    read_http_response-response_bytes ending chunks joins short small =
        let l = status_line in
        let ls = field_lines header_fields in
        let line = status_line-IsLine in
        let lines = field_lines-IsLine header_fields fields-IsField in
        let bytes : concat chunks ≡ written l ls response.body =
          joins ∙ ended_lines-written l ls response.body in
        read_http_response-concat ending chunks (
          subst (λ t. HeaderFits t (find_header_end t)) (sym bytes)
            (written-HeaderFits l ls response.body line lines short))
        ∙ ap (read_whole response_kind ending) bytes
        ∙ read_whole-written response_kind ending l ls response.body line lines
            (length_answered small)
        ∙ parse_answered
