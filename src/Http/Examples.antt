-- ===== src/Http/Examples.antt =====
-- Messages and URLs on which the readers are run.
use distributed_layer_infere.Common.{
  ◌≡◌, refl, arith, true, List, [], ◌∷◌, ◌++◌, ok, Bytes, codes, concat, pos, starts_with, decimal,
  digits, to_string, skip_spaces,
}
use mathlib.Core.List.{append-nil}
use distributed_layer_infere.Http.{HttpResponse, make_json_response, response_bytes}
use distributed_layer_infere.Http.Text.{trim_copy, trim_back}
use distributed_layer_infere.Http.Read.{closed, find_header_end, read_http_request, request_kind}
use distributed_layer_infere.Http.Read.Chunks.{read_whole, read_http_request-concat}
use distributed_layer_infere.Http.Written.Fields.{has_no→HasNo}
use distributed_layer_infere.Http.Client.{
  ParsedUrl, parse_http_url, request_bytes, read_http_response, response_kind,
}
use distributed_layer_infere.Http.Client.Urls.{url_text, parse_http_url-url_text}
use distributed_layer_infere.Http.Client.Whole.{read_http_response-concat}
use distributed_layer_infere.Http.Client.Sent.{sent_request, read_http_request-request_bytes}
use distributed_layer_infere.Http.Client.Answered.{
  IsPlain, answered_response, read_http_response-response_bytes,
}

-- A request in three pieces, cut inside the end of its header and inside its body.
abbrev pieces : List Bytes
pieces =
    (codes "POST /forward HTTP/1.1" ++ (13 ∷ 10 ∷ []))
    ∷ (codes "Content-Length: 3" ++ (13 ∷ 10 ∷ 13 ∷ []))
    ∷ (10 ∷ 7 ∷ [])
    ∷ (8 ∷ 9 ∷ 10 ∷ [])
    ∷ []

read_http_request-concat_example :
    read_http_request closed pieces ≡ read_whole request_kind closed (concat pieces)
unfolding find_header_end starts_with
read_http_request-concat_example = read_http_request-concat closed pieces (omega arith)

read_http_response-concat_example :
    read_http_response closed pieces ≡ read_whole response_kind closed (concat pieces)
unfolding find_header_end starts_with
read_http_response-concat_example = read_http_response-concat closed pieces (omega arith)

parse_http_url-url_text_example :
    parse_http_url (url_text (codes "stage-1") 9001 (codes "forward"))
    ≡ ok (record { host = codes "stage-1"; port = pos 9001; path = codes "/forward" })
parse_http_url-url_text_example =
    parse_http_url-url_text 115 (codes "tage-1") 9001 (codes "forward")
      (has_no→HasNo 47 (codes "stage-1") refl) (omega arith) (omega arith)

abbrev stage_url : ParsedUrl
stage_url = record { host = codes "s1"; port = pos 80; path = codes "/f" }

abbrev frame_bytes : Bytes
frame_bytes = 68 ∷ 76 ∷ 73 ∷ 50 ∷ []

read_http_request-request_bytes_example :
    read_http_request closed (request_bytes true stage_url frame_bytes ∷ [])
    ≡ ok (sent_request true (codes "s1") (pos 80) 47 (codes "f") frame_bytes)
unfolding decimal digits to_string
read_http_request-request_bytes_example =
    read_http_request-request_bytes true (codes "s1") (pos 80) 47 (codes "f") frame_bytes
      (refl, (refl, tt)) (refl, (refl, tt)) closed (request_bytes true stage_url frame_bytes ∷ [])
      (append-nil (request_bytes true stage_url frame_bytes)) (omega arith) (omega arith)

abbrev answer : HttpResponse
answer = make_json_response 200 (codes "OK") (codes "{}")

reason-IsPlain : IsPlain (codes "OK")
unfolding trim_copy trim_back skip_spaces
reason-IsPlain = (refl, has_no→HasNo 13 (codes "OK") refl, has_no→HasNo 10 (codes "OK") refl)

json-IsPlain : IsPlain (codes "application/json")
unfolding trim_copy trim_back skip_spaces
json-IsPlain = (
  refl,
  has_no→HasNo 13 (codes "application/json") refl,
  has_no→HasNo 10 (codes "application/json") refl,
)

read_http_response-response_bytes_example :
    read_http_response closed (response_bytes answer ∷ []) ≡ ok (answered_response answer)
unfolding decimal digits
read_http_response-response_bytes_example =
    read_http_response-response_bytes answer (omega arith) (omega arith) reason-IsPlain json-IsPlain
      closed (response_bytes answer ∷ []) (append-nil (response_bytes answer)) (omega arith)
      (omega arith)
