-- ===== src/Stage/Config.antt =====
-- The configuration of a stage: src/native/dli_stage_cpp/include/dli_stage/config.hpp and
-- merge_stage_config of src/native/dli_stage_cpp/src/config.cpp.
pub mod Reader
pub mod Kept
pub mod Own
pub mod Agreed
mod Examples
use distributed_layer_infere.Common.{Bool, not, List, Bytes, is_empty, ℤ, pos, ltb_ℤ, if◌then◌else◌}

pub record StageComponents : Type 0 where
  pub embedding : Bool
  pub layers : List ℤ
  pub norm : Bool
  pub lm_head : Bool

pub record StageConfig : Type 0 where
  pub stage_id : ℤ
  pub port : ℤ
  pub config_path : Bytes
  pub service_name : Bytes
  pub physical_node : Bytes
  pub partition_file : Bytes
  pub native_partition_file : Bytes
  pub backend : Bytes
  pub next_stage_url : Bytes
  pub components : StageComponents

abbrev given : Bytes → Bytes → Bytes
given file override = if not (is_empty override) then override else file

abbrev given_int : ℤ → ℤ → ℤ
given_int file override = if ltb_ℤ (pos 0) override then override else file

unfoldable pub merge_stage_config : StageConfig → StageConfig → StageConfig
merge_stage_config file override = record file {
  config_path = given file.config_path override.config_path;
  stage_id = given_int file.stage_id override.stage_id;
  port = given_int file.port override.port;
  service_name = given file.service_name override.service_name;
  physical_node = given file.physical_node override.physical_node;
  partition_file = given file.partition_file override.partition_file;
  native_partition_file = given file.native_partition_file override.native_partition_file;
  backend = given file.backend override.backend;
  next_stage_url = given file.next_stage_url override.next_stage_url;
}
