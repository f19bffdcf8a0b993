-- ===== src/Gateway/StageClient.antt =====
-- One call of a stage: forward_frame of src/native/dli_gateway_cpp/src/stage_client.cpp. Times are left
-- out.
use distributed_layer_infere.Common.{
  ℕ, ◌+◌, Bool, not, ◌&&◌, if◌then◌else◌, [], length, Result, ok, err, Bytes, ℤ, pos, ltb_ℤ,
}
use distributed_layer_infere.Http.Client.{HttpClientResponse}
use distributed_layer_infere.Protocol.{DliFrame, ProtocolError, encode_frame, decode_frame}
use distributed_layer_infere.Metadata.{MetadataError}

-- The exceptions on the way, with what their messages name; `transport` is what the HTTP client
-- throws, `tokenizer` what the tokenizer throws.
pub data LoopError : Type 0 where
  graph_empty index_out_of_range no_terminal_partition : LoopError
  empty_next_stage_url : Bytes → LoopError
  chained_call_failed : ℤ → Bytes → LoopError
  partition_failed : Bytes → ℤ → Bytes → LoopError
  empty_metadata invalid_next_token_id : LoopError
  protocol : ProtocolError → LoopError
  metadata : MetadataError → LoopError
  transport tokenizer : Bytes → LoopError

pub record StageClientResult : Type 0 where
  pub http_status : ℤ
  pub http_reason : Bytes
  pub response_frame : DliFrame
  pub request_body_bytes : ℕ
  pub response_body_bytes : ℕ
  pub transport_payload_bytes : ℕ
  pub error_body : Bytes

-- `status >= 200 && status < 300`
abbrev pub is_success : ℤ → Bool
is_success status = not (ltb_ℤ status (pos 200)) && ltb_ℤ status (pos 300)

abbrev pub no_frame : DliFrame
no_frame = record { metadata_json = []; tensor_bytes = [] }

abbrev result_of : Bytes → HttpClientResponse → DliFrame → Bytes → StageClientResult
result_of body response frame error_body = record {
  http_status = response.status_code;
  http_reason = response.reason;
  response_frame = frame;
  request_body_bytes = length body;
  response_body_bytes = length response.body;
  transport_payload_bytes = length body + length response.body;
  error_body = error_body;
}

abbrev pub decoded :
    Bytes → HttpClientResponse → Result ProtocolError DliFrame → Result LoopError StageClientResult
decoded body response (err e) = err (protocol e)
decoded body response (ok frame) = ok (result_of body response frame [])

abbrev pub received : Bytes → Result Bytes HttpClientResponse → Result LoopError StageClientResult
received body (err text) = err (transport text)
received body (ok response) =
    if is_success response.status_code
    then decoded body response (decode_frame response.body)
    else ok (result_of body response no_frame response.body)

-- PersistentHttpClient::post_binary with the client of a URL: a POST, which changes the world outside and answers or throws with a text.
abbrev pub Post : Type 0 → Type 0
Post W = Bytes → Bytes → W → W × Result Bytes HttpClientResponse

abbrev pub sent :
    {W : Type 0}
    → Post W
    → Bytes
    → Result ProtocolError Bytes
    → W
    → W × Result LoopError StageClientResult
sent post url (err e) w = (w, err (protocol e))
sent post url (ok body) w = let (w', answer) = post url body w in (w', received body answer)

unfoldable pub forward_frame :
    {W : Type 0} → Post W → Bytes → DliFrame → W → W × Result LoopError StageClientResult
forward_frame post url frame w = sent post url (encode_frame frame) w
