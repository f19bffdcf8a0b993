-- ===== src/Metrics.antt =====
-- The metrics of a stage and of a chain of stages:
-- src/native/dli_common_cpp/include/dli/common/metrics.hpp and src/native/dli_common_cpp/src/metrics.cpp.
-- Counters are std::uint64_t and wrap.
pub mod Texts
use distributed_layer_infere.Common.{
  ℕ, zero, suc, ◌+◌, ◌-◌, ◌^◌, ◌%◌, max, Bool, true, false, not, ◌||◌, ◌&&◌, if◌then◌else◌, ltb,
  ◌==◌, Option, none, some, List, [], ◌∷◌, ◌++◌, length, drop, Bytes, codes, decimal, is_empty, ℤ,
}
use distributed_layer_infere.Http.Text.{cut_at_last}
use distributed_layer_infere.Gateway.Generation.{contains}
use distributed_layer_infere.Metadata.{first_match, behind_key, after_key}
use distributed_layer_infere.Metadata.Request.{Double, double_at}

pub record StageMetrics (D : Type 0) : Type 0 where
  pub backend : Bytes
  pub status : Bytes
  pub compute_time_ms : D
  pub true_comm_ms : D
  pub rpc_wall_time_ms : D
  pub input_tensor_bytes : ℕ
  pub output_tensor_bytes : ℕ
  pub stage_input_token_count : ℤ
  pub stage_output_token_count : ℤ
  pub kv_cache_step_valid : Bool
  pub kv_cache_seq_before : ℤ
  pub kv_cache_seq_after : ℤ
  pub kv_cache_bytes : ℕ
  pub kv_cache_valid : Bool
  pub model_load_ms : D
  pub memory_rss_mb : ℕ
  pub memory_cgroup_current_mb : ℕ
  pub memory_cgroup_limit_mb : ℕ
  pub memory_cgroup_percent : D
  pub model_file_size_mb : ℕ
  pub session_count : ℕ
  pub session_kv_cache_bytes : ℕ
  pub process_cpu_percent : D
  pub system_cpu_percent : D
  pub process_threads : ℕ
  pub ctx_switches_voluntary : ℕ
  pub ctx_switches_involuntary : ℕ
  pub io_read_bytes_delta : ℕ
  pub io_write_bytes_delta : ℕ
  pub io_read_count_delta : ℕ
  pub io_write_count_delta : ℕ
  pub matmul_ms : D
  pub attention_ms : D
  pub ggml_threads : ℤ

pub record ChainMetrics (D : Type 0) : Type 0 where
  pub compute_ms : D
  pub rpc_wall_ms : D
  pub true_comm_ms : D
  pub transport_payload_bytes : ℕ
  pub stage_count : ℕ

-- Addition of std::uint64_t.
abbrev pub plus_u64 : ℕ → ℕ → ℕ
plus_u64 a b = (a + b) % 2 ^ 64

module _ {D : Type 0} (double : Double D) where
  -- `std::max(0.0, d)`
  abbrev pub positive_part : D → D
  positive_part d = if double.less double.nought d then d else double.nought

  abbrev stod_or_none : Option Bytes → Option D
  stod_or_none none = none
  stod_or_none (some text) = double.stod text

  unfoldable pub extract_number_field : Bytes → Bytes → Option D
  extract_number_field json key =
      stod_or_none (first_match (λ s. behind_key double_at (after_key key s)) json)

  abbrev as_u64 : Option D → Option ℕ
  as_u64 none = none
  as_u64 (some d) = if double.less d double.nought then none else some (double.to_uint64 d)

  unfoldable pub extract_u64_field : Bytes → Bytes → Option ℕ
  extract_u64_field json key = as_u64 (extract_number_field json key)

  unfoldable pub local_chain_metrics_from_stage : StageMetrics D → ChainMetrics D
  local_chain_metrics_from_stage metrics =
      let wall =
        if double.less double.nought metrics.rpc_wall_time_ms
        then metrics.rpc_wall_time_ms
        else metrics.compute_time_ms in
      record {
        compute_ms = metrics.compute_time_ms;
        rpc_wall_ms = wall;
        true_comm_ms = positive_part (double.minus wall metrics.compute_time_ms);
        transport_payload_bytes = plus_u64 metrics.input_tensor_bytes metrics.output_tensor_bytes;
        stage_count = 1;
      }

  unfoldable pub merge_chain_metrics_values :
      StageMetrics D → ChainMetrics D → D → ℕ → ℕ → ChainMetrics D
  merge_chain_metrics_values local_metrics downstream downstream_rpc_wall_ms request_bytes
        response_bytes =
      let own = local_chain_metrics_from_stage local_metrics in
      let compute = double.plus own.compute_ms downstream.compute_ms in
      let wall = double.plus own.compute_ms (positive_part downstream_rpc_wall_ms) in
      record {
        compute_ms = compute;
        rpc_wall_ms = wall;
        true_comm_ms = positive_part (double.minus wall compute);
        transport_payload_bytes =
            plus_u64 (plus_u64 downstream.transport_payload_bytes request_bytes) response_bytes;
        stage_count = plus_u64 (max 1 downstream.stage_count) 1;
      }

unfoldable pub metadata_has_chain_metrics : Bytes → Bool
metadata_has_chain_metrics json =
    contains json (codes "\"chain_metrics\"")
    || contains json (codes "\"chain_compute_time_ms\"")
    || contains json (codes "\"ccm\"")
