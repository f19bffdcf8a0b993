-- ===== src/Gateway/Config/Reader.antt =====
-- The line reader of the gateway: finish_partition_if_valid and load_gateway_config_from_file of
-- src/native/dli_gateway_cpp/src/config.cpp, on the lines of the file.
use distributed_layer_infere.Common.{
  ℕ, Bool, true, false, not, ◌&&◌, if◌then◌else◌, leb, [], ◌∷◌, ◌++◌, Result, ok, err, ◌>>=◌, drop,
  Bytes, codes, is_empty, starts_with, to_string, ℤ, pos, ltb_ℤ,
}
use distributed_layer_infere.Yaml.{
  ConfigError, invalid_stage_id, missing_service_name, trim_copy, value_after_colon,
  parse_bool_value, is_stage_list_item, stoi, parse_stage_id_from_list_item,
}
use distributed_layer_infere.Gateway.Config.{
  PartitionComponents, PartitionNodeConfig, GatewayConfig,
}

-- The variables of the loop.
pub record GatewayReader : Type 0 where
  pub config : GatewayConfig
  pub inside_gateway : Bool
  pub inside_inference_stages : Bool
  pub inside_current_partition : Bool
  pub inside_components : Bool
  pub inside_layers : Bool
  pub gateway_indent : ℤ
  pub current_partition : PartitionNodeConfig

abbrev pub no_partition : PartitionNodeConfig
no_partition = record {
  stage_id = pos 0;
  partition_id = [];
  service_name = [];
  physical_node = [];
  partition_file = [];
  native_partition_file = [];
  backend = [];
  next_stage_url = [];
  components = record { embedding = false; layers = []; norm = false; lm_head = false };
}

unfoldable pub default_partition_id : ℤ → Bytes
default_partition_id stage_id = codes "partition-" ++ to_string stage_id

-- The partition as it is pushed, with its default name.
abbrev pub named_partition : PartitionNodeConfig → PartitionNodeConfig
named_partition p = record p {
  partition_id =
      if is_empty p.partition_id then default_partition_id p.stage_id else p.partition_id;
}

abbrev pub pushed : GatewayReader → PartitionNodeConfig → GatewayReader
pushed r p = record r {
  config = record r.config { partitions = r.config.partitions ++ (p ∷ []) };
  current_partition = no_partition;
  inside_current_partition = false;
}

abbrev pub finish_named : GatewayReader → PartitionNodeConfig → Result ConfigError GatewayReader
finish_named r p =
    if is_empty p.service_name then err (missing_service_name p.partition_id) else ok (pushed r p)

unfoldable pub finish_partition_if_valid : GatewayReader → Result ConfigError GatewayReader
finish_partition_if_valid r =
    if not r.inside_current_partition
    then ok r
    else if not (ltb_ℤ (pos 0) r.current_partition.stage_id)
    then err invalid_stage_id
    else finish_named r (named_partition r.current_partition)

abbrev pub with_current : GatewayReader → PartitionNodeConfig → GatewayReader
with_current r p = record r { current_partition = p }

-- A line of a partition outside its components.
abbrev pub partition_field : Bytes → GatewayReader → GatewayReader
partition_field trimmed r =
    let value = value_after_colon trimmed in
    let p = r.current_partition in
    if starts_with trimmed (codes "partition_id:")
    then with_current r (record p { partition_id = value })
    else if starts_with trimmed (codes "service_name:")
    then with_current r (record p { service_name = value })
    else if starts_with trimmed (codes "physical_node:")
    then with_current r (record p { physical_node = value })
    else if starts_with trimmed (codes "partition_file:")
    then with_current r (record p { partition_file = value })
    else if starts_with trimmed (codes "native_partition_file:")
    then with_current r (record p { native_partition_file = value })
    else if starts_with trimmed (codes "backend:")
    then with_current r (record p { backend = value })
    else if starts_with trimmed (codes "next_stage_url:")
    then with_current r (record p { next_stage_url = value })
    else r

abbrev pub with_components : GatewayReader → PartitionComponents → GatewayReader
with_components r c = with_current r (record r.current_partition { components = c })

abbrev pub with_layer : GatewayReader → ℤ → GatewayReader
with_layer r layer =
    let c = r.current_partition.components in
    with_components r (record c { layers = c.layers ++ (layer ∷ []) })

abbrev pub listed_layer : Bytes → GatewayReader → Result ConfigError GatewayReader
listed_layer trimmed r =
    let item = trim_copy (drop 1 trimmed) in
    let added = stoi item >>= λ layer. ok (with_layer r layer) in
    if is_empty item then ok r else added

abbrev pub partition_component : Bytes → GatewayReader → Result ConfigError GatewayReader
partition_component trimmed r =
    let value = parse_bool_value (value_after_colon trimmed) in
    let item = listed_layer trimmed r in
    let c = r.current_partition.components in
    if starts_with trimmed (codes "embedding:")
    then ok (with_components r (record c { embedding = value }))
    else if starts_with trimmed (codes "norm:")
    then ok (with_components r (record c { norm = value }))
    else if starts_with trimmed (codes "lm_head:")
    then ok (with_components r (record c { lm_head = value }))
    else if starts_with trimmed (codes "layers:")
    then ok (record r { inside_layers = true })
    else if r.inside_layers && starts_with trimmed (codes "-")
    then item
    else ok r

abbrev pub outside_components : GatewayReader → GatewayReader
outside_components r = record r { inside_components = false; inside_layers = false }

abbrev pub inner_line : Bytes → GatewayReader → Result ConfigError GatewayReader
inner_line trimmed r =
    let component = partition_component trimmed r in
    if not r.inside_components then ok (partition_field trimmed r) else component

abbrev pub partition_line : ℕ → Bytes → GatewayReader → Result ConfigError GatewayReader
partition_line indent trimmed r =
    let left = r.inside_components && leb indent 2 in
    let inner = inner_line trimmed (if left then outside_components r else r) in
    if starts_with trimmed (codes "components:")
    then ok (record r { inside_components = true; inside_layers = false })
    else inner

abbrev pub new_partition : GatewayReader → ℤ → GatewayReader
new_partition r stage_id = record r {
  current_partition = record no_partition {
    stage_id = stage_id;
    partition_id = default_partition_id stage_id;
  };
  inside_current_partition = true;
  inside_components = false;
  inside_layers = false;
}

abbrev pub begun : Bytes → GatewayReader → Result ConfigError GatewayReader
begun trimmed r = parse_stage_id_from_list_item trimmed >>= λ id. ok (new_partition r id)

-- A line behind the tests for the sections.
abbrev pub stages_line : ℕ → Bytes → GatewayReader → Result ConfigError GatewayReader
stages_line indent trimmed r =
    let item = finish_partition_if_valid r >>= begun trimmed in
    let inner = partition_line indent trimmed r in
    if not r.inside_inference_stages
    then ok r
    else if is_stage_list_item trimmed
    then item
    else if not r.inside_current_partition
    then ok r
    else inner
