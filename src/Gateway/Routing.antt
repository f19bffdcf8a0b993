-- ===== src/Gateway/Routing.antt =====
-- How the gateway sends one frame along the partition graph: is_terminal_partition,
-- stage_url_for_partition, make_step_trace and forward_through_partition_graph of
-- src/native/dli_gateway_cpp/src/generation_loop.cpp. Times and the metrics that are read out of the
-- stages' metadata are left out.
pub mod Urls
pub mod Routed
pub mod Valid
mod Examples
use distributed_layer_infere.Common.{
  ℕ, zero, suc, ◌+◌, Bool, true, false, not, ◌&&◌, ◌||◌, if◌then◌else◌, Option, none, some, List,
  [], ◌∷◌, ◌++◌, get_elem?, length, Result, ok, err, Bytes, is_empty, ℤ, pos, ltb_ℤ,
}
use distributed_layer_infere.Http.Client.{HttpClientResponse}
use distributed_layer_infere.Protocol.{DliFrame, ProtocolError, encode_frame, decode_frame}
use distributed_layer_infere.Metadata.{MetadataError}
use distributed_layer_infere.Gateway.Config.{PartitionNodeConfig}
pub use distributed_layer_infere.Gateway.StageClient.{
  LoopError, StageClientResult, Post, is_success, no_frame, decoded, received, sent, graph_empty,
  index_out_of_range, no_terminal_partition, empty_next_stage_url, chained_call_failed,
  partition_failed, empty_metadata, invalid_next_token_id, protocol, metadata, transport, tokenizer,
}
unfoldable pub use distributed_layer_infere.Gateway.StageClient.{forward_frame}

pub record GenerationStepTrace : Type 0 where
  pub token_index : ℤ
  pub generation_mode : Bytes
  pub partition_id : Bytes
  pub stage_id : ℤ
  pub stage_url : Bytes
  pub stage_http_status : ℤ
  pub stage_http_reason : Bytes
  pub stage_metadata_json : Bytes
  pub stage_tensor_bytes : ℕ
  pub request_body_bytes : ℕ
  pub response_body_bytes : ℕ
  pub transport_payload_bytes : ℕ
  pub error_body : Bytes

abbrev pub is_terminal_partition : PartitionNodeConfig → Bool
is_terminal_partition p = is_empty p.next_stage_url || p.components.lm_head

abbrev previous_next :
    Option PartitionNodeConfig → Option PartitionNodeConfig → Result LoopError Bytes
previous_next previous none = err index_out_of_range
previous_next none (some p) = err index_out_of_range
previous_next (some previous) (some p) =
    if is_empty previous.next_stage_url
    then err (empty_next_stage_url p.partition_id)
    else ok previous.next_stage_url

unfoldable pub stage_url_for_partition :
    Bytes → List PartitionNodeConfig → ℕ → Result LoopError Bytes
stage_url_for_partition first_stage_url ps zero = ok first_stage_url
stage_url_for_partition first_stage_url ps (suc i) =
    previous_next (get_elem? ps i) (get_elem? ps (suc i))

abbrev pub make_step_trace :
    ℤ → Bytes → PartitionNodeConfig → Bytes → StageClientResult → GenerationStepTrace
make_step_trace token_index mode p url r = record {
  token_index = token_index;
  generation_mode = mode;
  partition_id = p.partition_id;
  stage_id = p.stage_id;
  stage_url = url;
  stage_http_status = r.http_status;
  stage_http_reason = r.http_reason;
  stage_metadata_json = r.response_frame.metadata_json;
  stage_tensor_bytes = length r.response_frame.tensor_bytes;
  request_body_bytes = r.request_body_bytes;
  response_body_bytes = r.response_body_bytes;
  transport_payload_bytes = r.transport_payload_bytes;
  error_body = r.error_body;
}

-- The world, `result.steps`, and what the pass returns or throws.
pub record Pass (W : Type 0) : Type 0 where
  pub world : W
  pub steps : List GenerationStepTrace
  pub outcome : Result LoopError StageClientResult

abbrev pub pass_of :
    {W : Type 0} → W → List GenerationStepTrace → Result LoopError StageClientResult → Pass W
pass_of w steps outcome = record { world = w; steps = steps; outcome = outcome }

-- One round of the loop behind the call, with the rest of the loop.
abbrev pub after_call :
    {W : Type 0}
    → ℤ
    → Bytes
    → PartitionNodeConfig
    → Bytes
    → (DliFrame → W → List GenerationStepTrace → Pass W)
    → List GenerationStepTrace
    → W × Result LoopError StageClientResult
    → Pass W
after_call token_index mode p url next steps (w, err e) = pass_of w steps (err e)
after_call token_index mode p url next steps (w, ok r) =
    let steps' = steps ++ (make_step_trace token_index mode p url r ∷ []) in
    if not (is_success r.http_status)
    then pass_of w steps' (err (partition_failed p.partition_id r.http_status r.error_body))
    else if is_terminal_partition p
    then pass_of w steps' (ok r)
    else next r.response_frame w steps'

abbrev pub after_url :
    {W : Type 0}
    → Post W
    → ℤ
    → Bytes
    → PartitionNodeConfig
    → (DliFrame → W → List GenerationStepTrace → Pass W)
    → DliFrame
    → W
    → List GenerationStepTrace
    → Result LoopError Bytes
    → Pass W
after_url post token_index mode p next frame w steps (err e) = pass_of w steps (err e)
after_url post token_index mode p next frame w steps (ok url) =
    after_call token_index mode p url next steps (forward_frame post url frame w)

-- `for (i = 0; i < partitions.size(); ++i)`: `rest` is what stands from `i` on.
unfoldable pub route_from :
    {W : Type 0}
    → Post W
    → Bytes
    → List PartitionNodeConfig
    → ℤ
    → Bytes
    → ℕ
    → List PartitionNodeConfig
    → DliFrame
    → W
    → List GenerationStepTrace
    → Pass W
route_from post first_url ps token_index mode i [] frame w steps =
    pass_of w steps (err no_terminal_partition)
route_from post first_url ps token_index mode i (p ∷ rest) frame w steps =
    after_url post token_index mode p (route_from post first_url ps token_index mode (suc i) rest)
      frame w steps (stage_url_for_partition first_url ps i)

-- The native stage chain: one call, to the first stage.
abbrev pub after_chained :
    {W : Type 0}
    → ℤ
    → Bytes
    → PartitionNodeConfig
    → Bytes
    → List GenerationStepTrace
    → W × Result LoopError StageClientResult
    → Pass W
after_chained token_index mode p url steps (w, err e) = pass_of w steps (err e)
after_chained token_index mode p url steps (w, ok r) =
    let steps' = steps ++ (make_step_trace token_index mode p url r ∷ []) in
    if not (is_success r.http_status)
    then pass_of w steps' (err (chained_call_failed r.http_status r.error_body))
    else pass_of w steps' (ok r)

unfoldable pub forward_through_partition_graph :
    {W : Type 0}
    → Post W
    → Bool
    → Bytes
    → List PartitionNodeConfig
    → DliFrame
    → ℤ
    → Bytes
    → W
    → List GenerationStepTrace
    → Pass W
forward_through_partition_graph post chaining first_url [] frame token_index mode w steps =
    pass_of w steps (err graph_empty)
forward_through_partition_graph post chaining first_url (p ∷ ps) frame token_index mode w steps =
    let chained =
      after_chained token_index mode p first_url steps (forward_frame post first_url frame w) in
    let routed = route_from post first_url (p ∷ ps) token_index mode 0 (p ∷ ps) frame w steps in
    if chaining then chained else routed
