-- ===== src/Stage/Config/Reader.antt =====
-- The line reader of the stage map: load_stage_config_from_file of
-- src/native/dli_stage_cpp/src/config.cpp, on the lines of the file.
use distributed_layer_infere.Common.{
  ℕ, Bool, true, false, not, ◌&&◌, ◌||◌, if◌then◌else◌, leb, ◌==◌, Option, none, some, List, [],
  ◌∷◌, ◌++◌, Result, ok, err, ◌>>=◌, drop, Bytes, codes, is_empty, starts_with, ℤ, pos, eqb_ℤ,
}
use distributed_layer_infere.Http.Text.{lines}
use distributed_layer_infere.Yaml.{
  ConfigError, not_opened, stage_not_found, trim_copy, indent_width, value_after_colon,
  parse_bool_value, is_stage_list_item, stoi, parse_stage_id_from_list_item,
}
use distributed_layer_infere.Stage.Config.{StageComponents, StageConfig}

-- The variables of the loop.
pub record Reader : Type 0 where
  pub config : StageConfig
  pub inside_inference_stages : Bool
  pub inside_target_stage : Bool
  pub inside_components : Bool
  pub inside_layers : Bool

-- `continue` with these variables, or `break`.
pub data Control : Type 0 where
  go_on : Reader → Control
  leave : Reader → Control

abbrev pub stage_field : Bytes → Reader → Reader
stage_field trimmed r =
    let value = value_after_colon trimmed in
    let c = r.config in
    if starts_with trimmed (codes "service_name:")
    then record r { config = record c { service_name = value } }
    else if starts_with trimmed (codes "physical_node:")
    then record r { config = record c { physical_node = value } }
    else if starts_with trimmed (codes "partition_file:")
    then record r { config = record c { partition_file = value } }
    else if starts_with trimmed (codes "native_partition_file:")
    then record r { config = record c { native_partition_file = value } }
    else if starts_with trimmed (codes "backend:")
    then record r { config = record c { backend = value } }
    else if starts_with trimmed (codes "next_stage_url:")
    then record r { config = record c { next_stage_url = value } }
    else r

abbrev pub with_components : Reader → StageComponents → Reader
with_components r components = record r { config = record r.config { components = components } }

abbrev pub with_layer : Reader → ℤ → Reader
with_layer r layer =
    with_components r
      (record r.config.components { layers = r.config.components.layers ++ (layer ∷ []) })

abbrev pub layer_item : Bytes → Reader → Result ConfigError Reader
layer_item trimmed r =
    let item = trim_copy (drop 1 trimmed) in
    let added = stoi item >>= λ layer. ok (with_layer r layer) in
    if is_empty item then ok r else added

abbrev pub component_field : Bytes → Reader → Result ConfigError Reader
component_field trimmed r =
    let value = parse_bool_value (value_after_colon trimmed) in
    let item = layer_item trimmed r in
    if starts_with trimmed (codes "embedding:")
    then ok (with_components r (record r.config.components { embedding = value }))
    else if starts_with trimmed (codes "norm:")
    then ok (with_components r (record r.config.components { norm = value }))
    else if starts_with trimmed (codes "lm_head:")
    then ok (with_components r (record r.config.components { lm_head = value }))
    else if starts_with trimmed (codes "layers:")
    then ok (record r { inside_layers = true })
    else if r.inside_layers && starts_with trimmed (codes "-")
    then item
    else ok r

abbrev pub left_components : Reader → Reader
left_components r = record r { inside_components = false; inside_layers = false }

-- A line of the wanted stage that is no list item.
abbrev pub field_line : Bytes → Reader → Result ConfigError Reader
field_line trimmed r =
    let component = component_field trimmed r in
    if not r.inside_components then ok (stage_field trimmed r) else component

abbrev pub target_line : ℕ → Bytes → Reader → Result ConfigError Reader
target_line indent trimmed r =
    let field =
      field_line trimmed (if r.inside_components && leb indent 2 then left_components r else r) in
    if starts_with trimmed (codes "components:")
    then ok (record r { inside_components = true; inside_layers = false })
    else field

abbrev pub stage_started : ℤ → Reader → ℤ → Reader
stage_started wanted r current =
    let target = eqb_ℤ current wanted in
    let found = record r.config {
      stage_id = current;
      components = record r.config.components { layers = [] };
    } in
    record {
      config = if target then found else r.config;
      inside_inference_stages = r.inside_inference_stages;
      inside_target_stage = target;
      inside_components = false;
      inside_layers = false;
    }

abbrev pub started : ℤ → Reader → Result ConfigError ℤ → Result ConfigError Control
started wanted r id = id >>= λ current. ok (go_on (stage_started wanted r current))

abbrev pub stage_line : ℤ → ℕ → Bytes → Reader → Result ConfigError Control
stage_line wanted indent trimmed r =
    let item = started wanted r (parse_stage_id_from_list_item trimmed) in
    let inner = target_line indent trimmed r >>= λ r'. ok (go_on r') in
    if indent == 0
      && not (is_stage_list_item trimmed)
      && not (starts_with trimmed (codes "inference_stages:"))
    then ok (leave r)
    else if is_stage_list_item trimmed
    then item
    else if not r.inside_target_stage
    then ok (go_on r)
    else inner

unfoldable pub read_line : ℤ → Bytes → Reader → Result ConfigError Control
read_line wanted line r =
    let trimmed = trim_copy line in
    let indent = indent_width line in
    let opened = indent == 0 && starts_with trimmed (codes "inference_stages:") in
    let inner = stage_line wanted indent trimmed r in
    if is_empty trimmed || starts_with trimmed (codes "#")
    then ok (go_on r)
    else if not r.inside_inference_stages
    then ok (go_on (if opened then record r { inside_inference_stages = true } else r))
    else inner

abbrev pub after_line : (Reader → Result ConfigError Reader) → Control → Result ConfigError Reader
after_line next (leave r) = ok r
after_line next (go_on r) = next r

unfoldable pub read_lines : ℤ → List Bytes → Reader → Result ConfigError Reader
read_lines wanted [] r = ok r
read_lines wanted (l ∷ ls) r = read_line wanted l r >>= after_line (read_lines wanted ls)

abbrev pub initial : Bytes → ℤ → Reader
initial path wanted = record {
  config = record {
    stage_id = wanted;
    port = pos 8000;
    config_path = path;
    service_name = [];
    physical_node = [];
    partition_file = [];
    native_partition_file = [];
    backend = [];
    next_stage_url = [];
    components = record { embedding = false; layers = []; norm = false; lm_head = false };
  };
  inside_inference_stages = false;
  inside_target_stage = false;
  inside_components = false;
  inside_layers = false;
}

abbrev pub found : Bytes → ℤ → Reader → Result ConfigError StageConfig
found path wanted r =
    if is_empty r.config.service_name then err (stage_not_found wanted path) else ok r.config

-- The content of the file, if it can be opened.
unfoldable pub load_stage_config_from_file :
    Bytes → ℤ → Option Bytes → Result ConfigError StageConfig
load_stage_config_from_file path wanted none = err (not_opened path)
load_stage_config_from_file path wanted (some content) =
    read_lines wanted (lines content) (initial path wanted) >>= found path wanted
