-- ===== src/Stage/StubRuntime.antt =====
-- The runtime that sends its input back: src/native/dli_stage_cpp/src/runtimes/stub_runtime.cpp.
use distributed_layer_infere.Common.{
  true, false, if◌then◌else◌, [], length, codes, eqb, pos, negsuc, ◌+ℤ◌,
}
use distributed_layer_infere.Tensor.{infer_sequence_length_from_shape}
use distributed_layer_infere.Metadata.Request.{Double}
use distributed_layer_infere.Metrics.{StageMetrics}
use distributed_layer_infere.Stage.Server.Texts.{StageRequest, StageResponse}

module _ {D : Type 0} (double : Double D) where
  -- The fields that the runtime does not set keep their initial values.
  abbrev pub stub_metrics : D → StageRequest D → StageMetrics D
  stub_metrics compute_time_ms request = record {
    backend = codes "stub";
    status = codes "stub_echo";
    compute_time_ms = compute_time_ms;
    true_comm_ms = double.nought;
    rpc_wall_time_ms = double.nought;
    input_tensor_bytes = length request.input_bytes;
    output_tensor_bytes = length request.input_bytes;
    stage_input_token_count = infer_sequence_length_from_shape request.metadata.tensor.shape;
    stage_output_token_count = infer_sequence_length_from_shape request.metadata.tensor.shape;
    kv_cache_step_valid = true;
    kv_cache_seq_before = pos 0;
    kv_cache_seq_after = pos 0;
    kv_cache_bytes = 0;
    kv_cache_valid = true;
    model_load_ms = double.nought;
    memory_rss_mb = 0;
    memory_cgroup_current_mb = 0;
    memory_cgroup_limit_mb = 0;
    memory_cgroup_percent = double.nought;
    model_file_size_mb = 0;
    session_count = 0;
    session_kv_cache_bytes = 0;
    process_cpu_percent = double.nought;
    system_cpu_percent = double.nought;
    process_threads = 0;
    ctx_switches_voluntary = 0;
    ctx_switches_involuntary = 0;
    io_read_bytes_delta = 0;
    io_write_bytes_delta = 0;
    io_read_count_delta = 0;
    io_write_count_delta = 0;
    matmul_ms = double.nought;
    attention_ms = double.nought;
    ggml_threads = pos 0;
  }

  -- With the time that it took.
  unfoldable pub stub_forward : D → StageRequest D → StageResponse D
  stub_forward compute_time_ms request = record {
    is_final_stage = false;
    next_token_id =
        if eqb request.metadata.generation_mode (codes "decode")
        then pos 1000 +ℤ request.metadata.token_index
        else negsuc 0;
    output_metadata_json = request.input_metadata_json;
    output_tensor = record { metadata = request.metadata.tensor; bytes = request.input_bytes };
    metrics = stub_metrics compute_time_ms request;
    backend_metadata_json = [];
  }
