-- ===== src/Gateway/Config/Examples.antt =====
-- A stage map with two partitions.
use distributed_layer_infere.Common.{
  ◌≡◌, refl, true, false, none, some, err, [], ◌∷◌, ◌++◌, ok, Bytes, codes, pos, starts_with, eqb,
  skip_spaces, leading_digits, scan_number, stoi_prefix, to_string, decimal,
}
use distributed_layer_infere.Http.Text.{lines, cut_at}
use distributed_layer_infere.Yaml.{
  trim_left, trim_right, indent_width, unquoted, value_after_colon, parse_bool_value,
  parse_stage_id_from_list_item,
}
use distributed_layer_infere.Yaml.{invalid_partition_graph}
use distributed_layer_infere.Gateway.Config.{PartitionNodeConfig, GatewayConfig, lm_head_owners}
use distributed_layer_infere.Gateway.Config.Loaded.{
  IsGatewayConfig, load_gateway_config_from_file-IsGatewayConfig,
}
use distributed_layer_infere.Gateway.Graph.{
  validate_partition_graph, scan_partitions, scan_partition, push_layers, check_scan, sort,
  duplicates_of, missing_from, make_invalid_validation,
}
use distributed_layer_infere.Gateway.Config.Reader.{finish_partition_if_valid, default_partition_id}
use distributed_layer_infere.Gateway.Config.Sections.{
  section_line, read_gateway_line, read_gateway_lines, load_gateway_config_from_file,
}

abbrev stages_text : Bytes
stages_text =
    codes "inference_stages:\n- stage_id: 1\n  service_name: s1\n  next_stage_url: u\n"
    ++ codes "  components:\n    embedding: true\n    layers:\n    - 0\n"
    ++ codes
        "- stage_id: 2\n  service_name: s2\n  components:\n    lm_head: yes\n    layers:\n    - 1\n"

abbrev gateway_text : Bytes
gateway_text = codes "inference_gateway:\n  port: 8080\n"

abbrev partition_one : PartitionNodeConfig
partition_one = record {
  stage_id = pos 1;
  partition_id = codes "partition-1";
  service_name = codes "s1";
  physical_node = [];
  partition_file = [];
  native_partition_file = [];
  backend = [];
  next_stage_url = codes "u";
  components = record { embedding = true; layers = pos 0 ∷ []; norm = false; lm_head = false };
}

abbrev partition_two : PartitionNodeConfig
partition_two = record partition_one {
  stage_id = pos 2;
  partition_id = codes "partition-2";
  service_name = codes "s2";
  next_stage_url = [];
  components = record { embedding = false; layers = pos 1 ∷ []; norm = false; lm_head = true };
}

abbrev loaded : GatewayConfig
loaded = record {
  config_path = codes "map.yaml";
  service_name = codes "dli-gateway-cpp";
  model_name = [];
  model_path = [];
  first_stage_url = [];
  port = pos 8080;
  num_layers = pos 2;
  partitions = partition_one ∷ partition_two ∷ [];
  partition_validation = record {
    valid = true;
    error = none;
    assigned_layer_count = 2;
    embedding_owner_count = 1;
    lm_head_owner_count = 1;
    terminal_partition_id = codes "partition-2";
  };
}

gateway_first_loaded :
    load_gateway_config_from_file
      (codes "map.yaml")
      (some (codes "num_layers: 2\n" ++ (gateway_text ++ stages_text)))
    ≡ ok loaded
unfolding load_gateway_config_from_file read_gateway_lines read_gateway_line section_line
    finish_partition_if_valid default_partition_id lines cut_at trim_left trim_right indent_width
    unquoted value_after_colon parse_bool_value parse_stage_id_from_list_item starts_with eqb
    skip_spaces leading_digits scan_number stoi_prefix to_string decimal validate_partition_graph
    scan_partitions scan_partition push_layers check_scan sort duplicates_of missing_from
gateway_first_loaded = refl

-- The same map with the gateway's section behind the stages: the last partition is dropped.
gateway_last_refused :
    load_gateway_config_from_file
      (codes "map.yaml")
      (some (codes "num_layers: 2\n" ++ (stages_text ++ gateway_text)))
    ≡ err (invalid_partition_graph (some (lm_head_owners 0)))
unfolding load_gateway_config_from_file read_gateway_lines read_gateway_line section_line
    finish_partition_if_valid default_partition_id lines cut_at trim_left trim_right indent_width
    unquoted value_after_colon parse_bool_value parse_stage_id_from_list_item starts_with eqb
    skip_spaces leading_digits scan_number stoi_prefix to_string decimal validate_partition_graph
    scan_partitions scan_partition push_layers check_scan sort duplicates_of missing_from
    make_invalid_validation
gateway_last_refused = refl

load_gateway_config_from_file-IsGatewayConfig_example : IsGatewayConfig (codes "map.yaml") loaded
load_gateway_config_from_file-IsGatewayConfig_example =
    load_gateway_config_from_file-IsGatewayConfig (codes "map.yaml")
      (some (codes "num_layers: 2\n" ++ (gateway_text ++ stages_text))) loaded gateway_first_loaded
