-- ===== src/Http.antt =====
-- Responses and their bodies: src/native/dli_common_cpp/include/dli/common/http.hpp and the makers
-- of src/native/dli_common_cpp/src/http.cpp.
pub mod Text
pub mod Message
pub mod Read
pub mod Written
pub mod Client
mod Examples
use distributed_layer_infere.Common.{
  ℕ, Bool, true, false, List, [], ◌∷◌, ◌++◌, Bytes, codes, decimal, length,
}
use distributed_layer_infere.Http.Text.{crlf, ended_lines}
use distributed_layer_infere.Json.{json_escape}

-- A std::map<std::string, std::string>; a key stands once.
abbrev pub Headers : Type 0
Headers = List (Bytes × Bytes)

pub record HttpRequest : Type 0 where
  pub method : Bytes
  pub path : Bytes
  pub headers : Headers
  pub body : Bytes

pub record HttpResponse : Type 0 where
  pub status_code : ℕ
  pub reason : Bytes
  pub content_type : Bytes
  pub body : Bytes
  pub keep_alive : Bool

-- A response before it is known whether the connection stays open.
abbrev response_of : ℕ → Bytes → Bytes → Bytes → HttpResponse
response_of status_code reason content_type body = record {
  status_code = status_code;
  reason = reason;
  content_type = content_type;
  body = body;
  keep_alive = false;
}

abbrev pub make_json_response : ℕ → Bytes → Bytes → HttpResponse
make_json_response status_code reason json =
    response_of status_code reason (codes "application/json") json

abbrev pub make_binary_response : ℕ → Bytes → Bytes → HttpResponse
make_binary_response status_code reason body =
    response_of status_code reason (codes "application/octet-stream") body

unfoldable pub http_error_json : Bytes → Bytes
unfolding json_escape
http_error_json error = codes "{\"ok\":false,\"error\":\"" ++ (json_escape error ++ codes "\"}")

-- The bytes of send_http_response, which it sends in two parts.
abbrev pub connection_value : Bool → Bytes
connection_value true = codes "keep-alive"
connection_value false = codes "close"

abbrev pub response_lines : HttpResponse → List Bytes
response_lines response =
    (codes "HTTP/1.1 " ++ (decimal response.status_code ++ (b' ' ∷ response.reason)))
    ∷ (codes "Content-Type: " ++ response.content_type)
    ∷ (codes "Content-Length: " ++ decimal (length response.body))
    ∷ (codes "Connection: " ++ connection_value response.keep_alive)
    ∷ []

unfoldable pub response_bytes : HttpResponse → Bytes
response_bytes response = ended_lines (response_lines response) ++ (crlf ++ response.body)

abbrev pub make_text_response : ℕ → Bytes → Bytes → HttpResponse
make_text_response status_code reason text =
    response_of status_code reason (codes "text/plain; charset=utf-8") text
