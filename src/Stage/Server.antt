-- ===== src/Stage/Server.antt =====
-- The handler of a stage's server: make_runtime_request, handle_forward_binary and the routes of
-- src/native/dli_stage_cpp/src/server.cpp, over any runtime and any transport.
pub mod Texts
pub mod Answers
pub mod Brokered
mod Examples
use distributed_layer_infere.Common.{
  ℕ, suc, ◌+◌, ◌^◌, ◌%◌, Bool, true, false, not, ◌&&◌, ◌||◌, if◌then◌else◌, Option, none, some,
  List, [], ◌∷◌, ◌++◌, Result, ok, err, ◌>>=◌, length, Bytes, codes, eqb, is_empty, to_string, ℤ,
  pos, stoi_prefix,
}
use distributed_layer_infere.Protocol.{DliFrame, ProtocolError, encode_frame, decode_frame}
use distributed_layer_infere.Tensor.{TensorBuffer}
use distributed_layer_infere.Metadata.{
  MetadataError, invalid_integer, invalid_number, invalid_shape,
}
use distributed_layer_infere.Metadata.Request.{Double}
use distributed_layer_infere.Metadata.Parsed.{ParsedRequestMetadata, parse_request_metadata}
use distributed_layer_infere.Metrics.{StageMetrics}
use distributed_layer_infere.Metrics.Texts.{merge_chain_metrics}
use distributed_layer_infere.Http.{
  HttpRequest, HttpResponse, make_json_response, make_binary_response, http_error_json,
}
use distributed_layer_infere.Http.Client.{HttpClientResponse}
use distributed_layer_infere.Gateway.Routing.{Post, is_success}
use distributed_layer_infere.Stage.Config.{StageConfig}
use distributed_layer_infere.Stage.Broker.{Thrown, exception, unknown}
use distributed_layer_infere.Stage.Server.Texts.{
  StageRequest, StageResponse, runtime_response_metadata_json, health_json, config_json,
  not_found_json,
}

-- The environment variable, as it is set.
abbrev pub env_bool : Option Bytes → Bool → Bool
env_bool none default_value = default_value
env_bool (some value) default_value =
    eqb value (codes "1")
    || eqb value (codes "true")
    || eqb value (codes "TRUE")
    || eqb value (codes "yes")
    || eqb value (codes "on")

abbrev int_or : ℤ → Option ℤ → ℤ
int_or default_value none = default_value
int_or default_value (some z) = z

abbrev pub env_int : Option Bytes → ℤ → ℤ
env_int none default_value = default_value
env_int (some raw) default_value = int_or default_value (stoi_prefix raw)

-- The texts of the exceptions.
abbrev pub protocol_what : ProtocolError → Bytes
protocol_what ProtocolError.metadata_exceeds =
    codes "DLI2 metadata JSON exceeds maximum allowed size"
protocol_what ProtocolError.tensor_exceeds =
    codes "DLI2 tensor payload exceeds maximum allowed size"
protocol_what ProtocolError.frame_too_large = codes "DLI2 frame is too large for this platform"
protocol_what ProtocolError.null_data = codes "DLI2 decode received null data pointer"
protocol_what ProtocolError.too_small = codes "DLI2 frame is smaller than fixed header"
protocol_what ProtocolError.invalid_magic = codes "DLI2 frame has invalid magic"
protocol_what ProtocolError.unsupported_version = codes "DLI2 frame has unsupported version"
protocol_what ProtocolError.metadata_length_exceeds =
    codes "DLI2 metadata length exceeds maximum allowed size"
protocol_what ProtocolError.tensor_length_exceeds =
    codes "DLI2 tensor length exceeds maximum allowed size"
protocol_what ProtocolError.size_mismatch =
    codes "DLI2 frame size does not match metadata/tensor lengths"

abbrev pub metadata_what : MetadataError → Bytes
metadata_what (invalid_integer key) = codes "invalid integer metadata field: " ++ key
metadata_what (invalid_number key) = codes "invalid floating-point metadata field: " ++ key
metadata_what invalid_shape = codes "invalid tensor shape dimension"

abbrev pub protocol_thrown : {A : Type 0} → Result ProtocolError A → Result Thrown A
protocol_thrown (ok a) = ok a
protocol_thrown (err e) = err (exception (protocol_what e))

abbrev pub metadata_thrown : {A : Type 0} → Result MetadataError A → Result Thrown A
metadata_thrown (ok a) = ok a
metadata_thrown (err e) = err (exception (metadata_what e))

abbrev pub transport_thrown : {A : Type 0} → Result Bytes A → Result Thrown A
transport_thrown (ok a) = ok a
transport_thrown (err text) = err (exception text)

-- The catch block, for a std::exception; anything else goes on.
abbrev pub caught : Result Thrown HttpResponse → Result Thrown HttpResponse
caught (ok response) = ok response
caught (err (exception what)) =
    ok (make_json_response 400 (codes "Bad Request") (http_error_json what))
caught (err unknown) = err unknown

-- PersistentHttpClient::post_binary of src/native/dli_common_cpp/src/http_client.cpp: after any failure
-- the connection is closed and the request is sent once more. `once` is post_binary_once with the
-- client of the URL, and `close` its close_connection.
abbrev pub sent_again :
    {W : Type 0}
    → Post W
    → (Bytes → W → W)
    → Bytes
    → Bytes
    → W × Result Bytes HttpClientResponse
    → W × Result Bytes HttpClientResponse
sent_again once close url body (w, ok answer) = (w, ok answer)
sent_again once close url body (w, err text) = once url body (close url w)

unfoldable pub post_binary : {W : Type 0} → Post W → (Bytes → W → W) → Post W
post_binary once close url body w = sent_again once close url body (once url body w)

-- A runtime changes its state and answers or throws. The clock gives the time of a call.
pub record Stage (S W D : Type 0) : Type 0 where
  pub config : StageConfig
  pub forward : StageRequest D → S → S × Result Thrown (StageResponse D)
  pub post_binary_once : Post W
  pub close_connection : Bytes → W → W
  pub elapsed_ms : W → W → D
  pub chaining : Option Bytes

module _ {S W D : Type 0} (double : Double D) (stage : Stage S W D) where
  abbrev filled_request : DliFrame → ParsedRequestMetadata D → StageRequest D
  filled_request input parsed = record {
    stage_id = stage.config.stage_id;
    input_metadata_json = input.metadata_json;
    input_bytes = input.tensor_bytes;
    metadata = parsed;
  }

  unfoldable pub make_runtime_request : DliFrame → Result MetadataError (StageRequest D)
  make_runtime_request input = parse_request_metadata double input.metadata_json >>= λ parsed.
      ok (filled_request input parsed)

  abbrev pub accepted : DliFrame → Result Thrown HttpResponse
  accepted frame = protocol_thrown (encode_frame frame) >>= λ body.
      ok (make_binary_response 200 (codes "OK") body)

  -- The frame of the next stage with the metrics of the chain.
  abbrev pub merged : StageMetrics D → D → ℕ → ℕ → DliFrame → DliFrame
  merged metrics wall request_bytes response_bytes downstream = record {
    metadata_json =
        merge_chain_metrics double downstream.metadata_json metrics wall request_bytes
          response_bytes;
    tensor_bytes = downstream.tensor_bytes;
  }

  abbrev pub next_failed : HttpClientResponse → HttpResponse
  next_failed answer = make_json_response 502 (codes "Bad Gateway") (
      http_error_json (codes "next native stage failed with HTTP " ++ to_string answer.status_code))

  abbrev pub after_next :
      StageResponse D → D → Bytes → HttpClientResponse → Result Thrown HttpResponse
  after_next response wall body answer =
      let downstream = protocol_thrown (decode_frame answer.body) >>= λ frame.
      accepted (merged response.metrics wall (length body) (length answer.body) frame) in
      if not (is_success answer.status_code) then ok (next_failed answer) else downstream

  abbrev pub chained : StageResponse D → W → Result Thrown Bytes → W × Result Thrown HttpResponse
  chained response w (err e) = (w, err e)
  chained response w (ok body) =
      let (after, answer) =
        post_binary stage.post_binary_once stage.close_connection stage.config.next_stage_url body
          w in
      (after, transport_thrown answer >>= after_next response (stage.elapsed_ms w after) body)

  abbrev pub output_of : StageRequest D → StageResponse D → DliFrame
  output_of request response = record {
    metadata_json = runtime_response_metadata_json double response stage.config request;
    tensor_bytes = response.output_tensor.bytes;
  }

  abbrev pub after_forward :
      StageRequest D
      → W
      → S × Result Thrown (StageResponse D)
      → (S × W) × Result Thrown HttpResponse
  after_forward request w (s, err e) = ((s, w), err e)
  after_forward request w (s, ok response) =
      let output = output_of request response in
      let (after, outcome) = chained response w (protocol_thrown (encode_frame output)) in
      if (request.metadata.native_stage_chaining_enabled || env_bool stage.chaining false)
        && not response.is_final_stage
        && not (is_empty stage.config.next_stage_url)
      then ((s, after), outcome)
      else ((s, w), accepted output)

  abbrev pub after_request :
      S × W → Result Thrown (StageRequest D) → (S × W) × Result Thrown HttpResponse
  after_request (s, w) (err e) = ((s, w), err e)
  after_request (s, w) (ok request) = after_forward request w (stage.forward request s)

  abbrev pub try_forward : HttpRequest → S × W → (S × W) × Result Thrown HttpResponse
  try_forward request state = after_request state (
      protocol_thrown (decode_frame request.body) >>= λ frame.
      metadata_thrown (make_runtime_request frame))

  unfoldable pub handle_forward_binary : HttpRequest → S × W → (S × W) × Result Thrown HttpResponse
  handle_forward_binary request state =
      let (after, outcome) = try_forward request state in (after, caught outcome)

-- An answer, or the request for the broker's queue.
pub data Routed : Type 0 where
  answer : HttpResponse → Routed
  forward_binary : Routed

unfoldable pub handle_request : StageConfig → HttpRequest → Routed
handle_request config request =
    if eqb request.method (codes "GET") && eqb request.path (codes "/health")
    then answer (make_json_response 200 (codes "OK") (health_json config))
    else if eqb request.method (codes "GET") && eqb request.path (codes "/config")
    then answer (make_json_response 200 (codes "OK") (config_json config))
    else if eqb request.method (codes "POST") && eqb request.path (codes "/forward-binary")
    then forward_binary
    else answer (make_json_response 404 (codes "Not Found") (not_found_json request))
