-- ===== src/Stage.antt =====
-- The stage service: its runtime's records, of
-- src/native/dli_stage_cpp/include/dli_stage/runtime.hpp and runtimes/llama_partial_runtime.hpp.
pub mod Shard
pub mod Sessions
pub mod Cache
pub mod Forward
pub mod Broker
pub mod Config
pub mod Server
pub mod StubRuntime
pub mod Executor
mod Examples
use distributed_layer_infere.Common.{Bool, List, Bytes, ℤ, ℕ}
use distributed_layer_infere.Tensor.{TensorBuffer, TensorError}

-- The fields of a request that the runtime's control flow reads. The sampling parameters, doubles
-- among them, and the flags that are only copied to the answer are left out.
pub record RuntimeRequest : Type 0 where
  pub request_id : Bytes
  pub token_index : ℤ
  pub generation_mode : Bytes
  pub input_metadata_json : Bytes
  pub input_tensor : TensorBuffer
  pub kv_cache_enabled : Bool
  pub activation_precision : Bytes

pub record LlamaPartialRuntimeConfig : Type 0 where
  pub model_path : Bytes
  pub stage_id : ℤ
  pub expected_layers : List ℤ
  pub expected_owns_embedding : Bool
  pub expected_owns_norm : Bool
  pub expected_owns_lm_head : Bool
  pub expected_next_stage_url : Bytes

pub record LlamaShardMetadata : Type 0 where
  pub shard_loaded : Bool
  pub format : Bytes
  pub format_version : ℤ
  pub partition_id : Bytes
  pub stage_id : ℤ
  pub layers : List ℤ
  pub owns_embedding : Bool
  pub owns_norm : Bool
  pub owns_lm_head : Bool
  pub next_partition_id : Bytes
  pub next_stage_url : Bytes
  pub hidden_size : ℤ
  pub source_model : Bytes

pub record PartitionKvCacheState : Type 0 where
  pub seq_len : ℤ
  pub valid : Bool

pub record PartitionKvCacheStep : Type 0 where
  pub seq_before : ℤ
  pub seq_after : ℤ
  pub bytes : ℕ
  pub valid : Bool

-- The executor is a type of its own: its tensors and layers are ggml's.
pub record LlamaRequestSession (X : Type 0) : Type 0 where
  pub kv_cache : PartitionKvCacheState
  pub executor : X

-- The exceptions of llama_partial_runtime.cpp, those of the tensor checks, and what the executor
-- throws.
pub data RuntimeError : Type 0 where
  unloaded_shard stage_id_mismatch layers_mismatch embedding_mismatch norm_mismatch : RuntimeError
  lm_head_mismatch next_stage_url_mismatch : RuntimeError
  expects_token_ids expects_hidden_states no_loaded_shard : RuntimeError
  bad_tensor : TensorError → RuntimeError
  execution_failed : RuntimeError
