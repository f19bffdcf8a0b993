-- ===== src/Gateway/Config.antt =====
-- The records of src/native/dli_gateway_cpp/include/dli/gateway/config.hpp, and the parts of
-- src/native/dli_gateway_cpp/src/config.cpp that work on them.
pub mod Reader
pub mod Sections
pub mod Kept
pub mod Loaded
mod Examples
use distributed_layer_infere.Common.{
  Option, ℕ, Bool, not, List, ltb_ℤ, if◌then◌else◌, Bytes, is_empty, ℤ, pos,
}

pub record PartitionComponents : Type 0 where
  pub embedding : Bool
  pub layers : List ℤ
  pub norm : Bool
  pub lm_head : Bool

pub record PartitionNodeConfig : Type 0 where
  pub stage_id : ℤ
  pub partition_id : Bytes
  pub service_name : Bytes
  pub physical_node : Bytes
  pub partition_file : Bytes
  pub native_partition_file : Bytes
  pub backend : Bytes
  pub next_stage_url : Bytes
  pub components : PartitionComponents

-- The messages of `make_invalid_validation`, with what they name.
pub data GraphError : Type 0 where
  graph_empty empty_partition_id : GraphError
  empty_service_name terminal_without_lm_head negative_layer : Bytes → GraphError
  layer_outside : Bytes → ℕ → GraphError
  embedding_owners lm_head_owners terminals : ℕ → GraphError
  duplicate_layers missing_layers : List ℕ → GraphError

-- An absent error is the empty message.
pub record PartitionGraphValidation : Type 0 where
  pub valid : Bool
  pub error : Option GraphError
  pub assigned_layer_count : ℕ
  pub embedding_owner_count : ℕ
  pub lm_head_owner_count : ℕ
  pub terminal_partition_id : Bytes

pub record GatewayConfig : Type 0 where
  pub config_path : Bytes
  pub service_name : Bytes
  pub model_name : Bytes
  pub model_path : Bytes
  pub first_stage_url : Bytes
  pub port : ℤ
  pub num_layers : ℤ
  pub partitions : List PartitionNodeConfig
  pub partition_validation : PartitionGraphValidation

-- `if (!override.empty()) field = override;`
abbrev pub overridden : Bytes → Bytes → Bytes
overridden file override = if not (is_empty override) then override else file

pub merge_gateway_config : GatewayConfig → GatewayConfig → GatewayConfig
merge_gateway_config file override = record file {
  config_path = overridden file.config_path override.config_path;
  service_name = overridden file.service_name override.service_name;
  model_name = overridden file.model_name override.model_name;
  model_path = overridden file.model_path override.model_path;
  first_stage_url = overridden file.first_stage_url override.first_stage_url;
  port = if ltb_ℤ (pos 0) override.port then override.port else file.port;
}
