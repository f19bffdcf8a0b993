-- ===== src/Gateway/Config/Sections.antt =====
-- The sections of the stage map and the whole of load_gateway_config_from_file of
-- src/native/dli_gateway_cpp/src/config.cpp.
use distributed_layer_infere.Common.{
  ℕ, true, false, not, ◌&&◌, ◌||◌, if◌then◌else◌, ◌==◌, Option, none, some, List, [], ◌∷◌, Result,
  ok, err, ◌>>=◌, Bytes, codes, is_empty, starts_with, ℤ, pos, negsuc, ltb_ℤ, stoi_prefix,
}
use distributed_layer_infere.Http.Text.{lines}
use distributed_layer_infere.Yaml.{
  ConfigError, not_opened, invalid_gateway_port, invalid_partition_graph, trim_copy, indent_width,
  value_after_colon, is_stage_list_item, stoi,
}
use distributed_layer_infere.Gateway.Config.{PartitionGraphValidation, GatewayConfig}
use distributed_layer_infere.Gateway.Config.Reader.{
  GatewayReader, no_partition, finish_partition_if_valid, stages_line,
}
use distributed_layer_infere.Gateway.Graph.{validate_partition_graph}

abbrev pub with_config : GatewayReader → GatewayConfig → GatewayReader
with_config r c = record r { config = c }

-- `try { config.port = std::stoi(port_value); } catch ...`
abbrev pub port_line : Bytes → GatewayReader → Option ℤ → Result ConfigError GatewayReader
port_line value r none = err (invalid_gateway_port value)
port_line value r (some port) = ok (with_config r (record r.config { port = port }))

abbrev pub gateway_line : ℕ → Bytes → GatewayReader → Result ConfigError GatewayReader
gateway_line indent trimmed r =
    let value = value_after_colon trimmed in
    let other = stages_line indent trimmed r in
    if not r.inside_gateway
    then other
    else if starts_with trimmed (codes "service_name:")
    then ok (with_config r (record r.config { service_name = value }))
    else if starts_with trimmed (codes "first_stage_url:")
    then ok (with_config r (record r.config { first_stage_url = value }))
    else if starts_with trimmed (codes "port:")
    then port_line value r (stoi_prefix value)
    else other

-- A partition that is open when the gateway's section begins is dropped, not finished.
abbrev pub gateway_section : ℕ → GatewayReader → GatewayReader
gateway_section indent r = record r {
  inside_gateway = true;
  inside_inference_stages = false;
  inside_current_partition = false;
  inside_components = false;
  inside_layers = false;
  gateway_indent = pos indent;
}

abbrev pub stages_section : GatewayReader → GatewayReader
stages_section r = record r {
  inside_gateway = false;
  inside_inference_stages = true;
  inside_components = false;
  inside_layers = false;
}

abbrev pub stages_left : GatewayReader → GatewayReader
stages_left r = record r {
  inside_inference_stages = false;
  inside_components = false;
  inside_layers = false;
}

abbrev pub layers_line : Bytes → GatewayReader → Result ConfigError GatewayReader
layers_line trimmed r = stoi (value_after_colon trimmed) >>= λ n.
    ok (with_config r (record r.config { num_layers = n }))

-- A line that opens or closes no section.
abbrev pub nested_line : ℕ → Bytes → GatewayReader → Result ConfigError GatewayReader
nested_line indent trimmed r =
    let closed =
      r.inside_gateway
      && not (ltb_ℤ r.gateway_indent (pos indent))
      && not (starts_with trimmed (codes "inference_gateway:")) in
    gateway_line indent trimmed (if closed then record r { inside_gateway = false } else r)

unfoldable pub section_line : ℕ → Bytes → GatewayReader → Result ConfigError GatewayReader
section_line indent trimmed r =
    let value = value_after_colon trimmed in
    let top = indent == 0 in
    let layers = layers_line trimmed r in
    let opened = finish_partition_if_valid r >>= λ r'. ok (stages_section r') in
    let left = finish_partition_if_valid r >>= λ r'. ok (stages_left r') in
    let nested = nested_line indent trimmed r in
    if top && starts_with trimmed (codes "model_name:")
    then ok (with_config r (record r.config { model_name = value }))
    else if top && starts_with trimmed (codes "model_path:")
    then ok (with_config r (record r.config { model_path = value }))
    else if top && starts_with trimmed (codes "num_layers:")
    then layers
    else if top && starts_with trimmed (codes "inference_gateway:")
    then ok (gateway_section indent r)
    else if top && starts_with trimmed (codes "inference_stages:")
    then opened
    else if r.inside_inference_stages
        && top
        && not (is_stage_list_item trimmed)
        && not (starts_with trimmed (codes "inference_stages:"))
    then left
    else nested

unfoldable pub read_gateway_line : Bytes → GatewayReader → Result ConfigError GatewayReader
read_gateway_line line r =
    let trimmed = trim_copy line in
    let inner = section_line (indent_width line) trimmed r in
    if is_empty trimmed || starts_with trimmed (codes "#") then ok r else inner

unfoldable pub read_gateway_lines : List Bytes → GatewayReader → Result ConfigError GatewayReader
read_gateway_lines [] r = ok r
read_gateway_lines (l ∷ ls) r = read_gateway_line l r >>= read_gateway_lines ls

abbrev unvalidated : PartitionGraphValidation
unvalidated = record {
  valid = false;
  error = none;
  assigned_layer_count = 0;
  embedding_owner_count = 0;
  lm_head_owner_count = 0;
  terminal_partition_id = [];
}

abbrev pub initial_gateway : Bytes → GatewayReader
initial_gateway path = record {
  config = record {
    config_path = path;
    service_name = codes "dli-gateway-cpp";
    model_name = [];
    model_path = [];
    first_stage_url = [];
    port = pos 8000;
    num_layers = pos 0;
    partitions = [];
    partition_validation = unvalidated;
  };
  inside_gateway = false;
  inside_inference_stages = false;
  inside_current_partition = false;
  inside_components = false;
  inside_layers = false;
  gateway_indent = negsuc 0;
  current_partition = no_partition;
}

-- `config.partition_validation = validate_partition_graph(...)`, and its test.
abbrev pub validated : GatewayReader → Result ConfigError GatewayConfig
validated r =
    let found = validate_partition_graph r.config.partitions r.config.num_layers in
    if not found.valid
    then err (invalid_partition_graph found.error)
    else ok (record r.config { partition_validation = found })

-- The content of the file, if it can be opened.
unfoldable pub load_gateway_config_from_file :
    Bytes → Option Bytes → Result ConfigError GatewayConfig
load_gateway_config_from_file path none = err (not_opened path)
load_gateway_config_from_file path (some content) =
    read_gateway_lines (lines content) (initial_gateway path)
    >>= finish_partition_if_valid
    >>= validated
