-- ===== src/Stage/Server/Texts.antt =====
-- The JSON texts of a stage's server: src/native/dli_stage_cpp/src/server.cpp.
use distributed_layer_infere.Common.{
  Bool, true, false, if◌then◌else◌, Option, none, some, [], ◌∷◌, ◌++◌, length, Bytes, codes,
  is_empty, decimal, to_string, ℤ,
}
use distributed_layer_infere.Json.{json_escape}
use distributed_layer_infere.Tensor.{TensorBuffer, TensorMetadata}
use distributed_layer_infere.Metadata.Request.{Double}
use distributed_layer_infere.Metadata.Parsed.{ParsedRequestMetadata}
use distributed_layer_infere.Metrics.{StageMetrics}
use distributed_layer_infere.Http.{HttpRequest}
use distributed_layer_infere.Gateway.Generation.{shape_json}
use distributed_layer_infere.Stage.Config.{StageConfig}

-- RuntimeRequest of dli_stage/runtime.hpp as make_runtime_request fills it: what it copies from the
-- parsed metadata is in `metadata`.
pub record StageRequest (D : Type 0) : Type 0 where
  pub stage_id : ℤ
  pub input_metadata_json : Bytes
  pub input_bytes : Bytes
  pub metadata : ParsedRequestMetadata D

-- RuntimeResponse of dli_stage/runtime.hpp.
pub record StageResponse (D : Type 0) : Type 0 where
  pub is_final_stage : Bool
  pub next_token_id : ℤ
  pub output_metadata_json : Bytes
  pub output_tensor : TensorBuffer
  pub metrics : StageMetrics D
  pub backend_metadata_json : Bytes

abbrev quoted : Bytes → Bytes
quoted text = b'"' ∷ json_escape text ++ codes "\""

abbrev truth : Bool → Bytes
truth true = codes "true"
truth false = codes "false"

unfoldable pub health_json : StageConfig → Bytes
health_json config =
    codes "{\"ok\":true,\"service\":"
    ++ quoted config.service_name
    ++ codes ",\"runtime\":\"cpp-native-stub\",\"status\":\"stub\",\"stage_id\":"
    ++ to_string config.stage_id
    ++ codes ",\"protocol\":\"DLI2\"}"

unfoldable pub config_json : StageConfig → Bytes
config_json config =
    codes "{\"ok\":true,\"service\":"
    ++ quoted config.service_name
    ++ codes ",\"runtime\":\"cpp-native-stub\",\"status\":\"stub\",\"stage_id\":"
    ++ to_string config.stage_id
    ++ codes ",\"port\":"
    ++ to_string config.port
    ++ codes ",\"config_path\":"
    ++ quoted config.config_path
    ++ codes ",\"physical_node\":"
    ++ quoted config.physical_node
    ++ codes ",\"partition_file\":"
    ++ quoted config.partition_file
    ++ codes ",\"native_partition_file\":"
    ++ quoted config.native_partition_file
    ++ codes ",\"backend\":"
    ++ quoted config.backend
    ++ codes ",\"next_stage_url\":"
    ++ quoted config.next_stage_url
    ++ codes ",\"components\":{\"embedding\":"
    ++ truth config.components.embedding
    ++ codes ",\"layers\":"
    ++ shape_json config.components.layers
    ++ codes ",\"norm\":"
    ++ truth config.components.norm
    ++ codes ",\"lm_head\":"
    ++ truth config.components.lm_head
    ++ codes "},\"routes\":[\"GET /health\",\"GET /config\",\"POST /forward-binary\"]}"

unfoldable pub not_found_json : HttpRequest → Bytes
not_found_json request =
    codes "{\"ok\":false,\"error\":\"route not found\",\"method\":"
    ++ quoted request.method
    ++ codes ",\"path\":"
    ++ quoted request.path
    ++ codes "}"

module _ {D : Type 0} (double : Double D) where
  unfoldable pub metrics_json : StageMetrics D → Bytes
  metrics_json m =
      codes "{\"backend\":"
      ++ quoted m.backend
      ++ codes ",\"status\":"
      ++ quoted m.status
      ++ codes ",\"compute_time_ms\":"
      ++ double.streamed m.compute_time_ms
      ++ codes ",\"true_comm_ms\":"
      ++ double.streamed m.true_comm_ms
      ++ codes ",\"rpc_wall_time_ms\":"
      ++ double.streamed m.rpc_wall_time_ms
      ++ codes ",\"input_tensor_bytes\":"
      ++ decimal m.input_tensor_bytes
      ++ codes ",\"output_tensor_bytes\":"
      ++ decimal m.output_tensor_bytes
      ++ codes ",\"stage_input_token_count\":"
      ++ to_string m.stage_input_token_count
      ++ codes ",\"stage_output_token_count\":"
      ++ to_string m.stage_output_token_count
      ++ codes ",\"kv_cache_step_valid\":"
      ++ truth m.kv_cache_step_valid
      ++ codes ",\"kv_cache_seq_before\":"
      ++ to_string m.kv_cache_seq_before
      ++ codes ",\"kv_cache_seq_after\":"
      ++ to_string m.kv_cache_seq_after
      ++ codes ",\"kv_cache_bytes\":"
      ++ decimal m.kv_cache_bytes
      ++ codes ",\"kv_cache_valid\":"
      ++ truth m.kv_cache_valid
      ++ codes ",\"model_load_ms\":"
      ++ double.streamed m.model_load_ms
      ++ codes ",\"memory_rss_mb\":"
      ++ decimal m.memory_rss_mb
      ++ codes ",\"memory_cgroup_current_mb\":"
      ++ decimal m.memory_cgroup_current_mb
      ++ codes ",\"memory_cgroup_limit_mb\":"
      ++ decimal m.memory_cgroup_limit_mb
      ++ codes ",\"memory_cgroup_percent\":"
      ++ double.streamed m.memory_cgroup_percent
      ++ codes ",\"model_file_size_mb\":"
      ++ decimal m.model_file_size_mb
      ++ codes ",\"session_count\":"
      ++ decimal m.session_count
      ++ codes ",\"session_kv_cache_bytes\":"
      ++ decimal m.session_kv_cache_bytes
      ++ codes ",\"process_cpu_percent\":"
      ++ double.streamed m.process_cpu_percent
      ++ codes ",\"system_cpu_percent\":"
      ++ double.streamed m.system_cpu_percent
      ++ codes ",\"process_threads\":"
      ++ decimal m.process_threads
      ++ codes ",\"process_context_switches\":{\"voluntary\":"
      ++ decimal m.ctx_switches_voluntary
      ++ codes ",\"involuntary\":"
      ++ decimal m.ctx_switches_involuntary
      ++ codes "},\"process_io_delta\":{\"read_bytes\":"
      ++ decimal m.io_read_bytes_delta
      ++ codes ",\"write_bytes\":"
      ++ decimal m.io_write_bytes_delta
      ++ codes ",\"read_count\":"
      ++ decimal m.io_read_count_delta
      ++ codes ",\"write_count\":"
      ++ decimal m.io_write_count_delta
      ++ codes "},\"matmul_ms\":"
      ++ double.streamed m.matmul_ms
      ++ codes ",\"attention_ms\":"
      ++ double.streamed m.attention_ms
      ++ codes ",\"ggml_threads\":"
      ++ to_string m.ggml_threads
      ++ codes "}"

  -- A sampling field, if the request has it.
  abbrev if_given : {A : Type 0} → Bytes → (A → Bytes) → Option A → Bytes
  if_given key text none = []
  if_given key text (some a) = b'"' ∷ key ++ codes "\":" ++ text a ++ codes ","

  abbrev tensor_metadata : StageRequest D → StageResponse D → TensorMetadata
  tensor_metadata request response =
      if is_empty response.output_tensor.metadata.shape
      then request.metadata.tensor
      else response.output_tensor.metadata

  abbrev or_braces : Bytes → Bytes
  or_braces text = if is_empty text then codes "{}" else text

  unfoldable pub runtime_response_metadata_json :
      StageResponse D → StageConfig → StageRequest D → Bytes
  runtime_response_metadata_json response config request =
      let tensor = tensor_metadata request response in
      codes "{\"ok\":true,\"service\":"
      ++ quoted config.service_name
      ++ codes ",\"runtime\":\"cpp-native-stub\",\"backend\":"
      ++ quoted response.metrics.backend
      ++ codes ",\"status\":"
      ++ quoted response.metrics.status
      ++ codes ",\"stage_id\":"
      ++ to_string config.stage_id
      ++ codes ",\"request_id\":"
      ++ quoted request.metadata.request_id
      ++ codes ",\"token_index\":"
      ++ to_string request.metadata.token_index
      ++ codes ",\"generation_mode\":"
      ++ quoted request.metadata.generation_mode
      ++ codes ",\"input_metadata_bytes\":"
      ++ decimal (length request.input_metadata_json)
      ++ codes ",\"input_tensor_bytes\":"
      ++ decimal (length request.input_bytes)
      ++ codes ",\"output_tensor_bytes\":"
      ++ decimal (length response.output_tensor.bytes)
      ++ codes ",\"is_final_stage\":"
      ++ truth response.is_final_stage
      ++ codes ",\"next_token_id\":"
      ++ to_string response.next_token_id
      ++ codes ",\"tensor\":{\"dtype\":"
      ++ quoted tensor.dtype
      ++ codes ",\"shape\":"
      ++ shape_json tensor.shape
      ++ codes ",\"byte_order\":"
      ++ quoted tensor.byte_order
      ++ codes "},\"feature_flags\":{\"kv_cache_enabled\":"
      ++ truth request.metadata.kv_cache_enabled
      ++ codes ",\"native_stage_chaining_enabled\":"
      ++ truth request.metadata.native_stage_chaining_enabled
      ++ codes ",\"transport_mode\":"
      ++ quoted request.metadata.transport_mode
      ++ codes ",\"activation_precision\":"
      ++ quoted request.metadata.activation_precision
      ++ codes ",\"persistent_sessions_enabled\":"
      ++ truth request.metadata.persistent_sessions_enabled
      ++ codes ",\"metadata_level\":"
      ++ quoted request.metadata.metadata_level
      ++ codes "},"
      ++ if_given (codes "temperature") double.streamed request.metadata.temperature
      ++ if_given (codes "top_k") to_string request.metadata.top_k
      ++ if_given (codes "top_p") double.streamed request.metadata.top_p
      ++ if_given (codes "seed") to_string request.metadata.seed
      ++ codes "\"metrics\":"
      ++ metrics_json response.metrics
      ++ codes ",\"backend_metadata\":"
      ++ or_braces response.backend_metadata_json
      ++ codes "}"
