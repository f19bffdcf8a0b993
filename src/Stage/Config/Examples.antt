-- ===== src/Stage/Config/Examples.antt =====
-- A stage map of two stages, of which the second one is loaded.
use distributed_layer_infere.Common.{
  ◌≡◌, refl, true, false, ◌>>=◌, some, [], ◌∷◌, ◌++◌, ok, Bytes, codes, pos, starts_with, eqb,
  skip_spaces, leading_digits, scan_number, stoi_prefix,
}
use distributed_layer_infere.Http.Text.{lines, cut_at}
use distributed_layer_infere.Stage.Config.{StageConfig}
use distributed_layer_infere.Yaml.{
  trim_left, trim_right, indent_width, unquoted, value_after_colon, parse_bool_value,
  parse_stage_id_from_list_item,
}
use distributed_layer_infere.Stage.Config.Reader.{
  read_line, read_lines, initial, found, load_stage_config_from_file,
}
use distributed_layer_infere.Stage.Config.Own.{own_lines}
use distributed_layer_infere.Stage.Config.Agreed.{load_stage_config_from_file-own_lines}

abbrev stage_map : Bytes
stage_map =
    codes "inference_stages:\n- stage_id: 1\n  service_name: s1\n"
    ++ codes
        "- stage_id: 2\n  service_name: \"s2\"\n  components:\n    layers:\n    - 4\n    norm: true\n"

abbrev second : StageConfig
second = record {
  stage_id = pos 2;
  port = pos 8000;
  config_path = codes "map.yaml";
  service_name = codes "s2";
  physical_node = [];
  partition_file = [];
  native_partition_file = [];
  backend = [];
  next_stage_url = [];
  components = record { embedding = false; layers = pos 4 ∷ []; norm = true; lm_head = false };
}

second_loaded : load_stage_config_from_file (codes "map.yaml") (pos 2) (some stage_map) ≡ ok second
unfolding load_stage_config_from_file read_lines read_line lines cut_at trim_left trim_right
    indent_width unquoted value_after_colon parse_bool_value parse_stage_id_from_list_item
    starts_with eqb skip_spaces leading_digits scan_number stoi_prefix
second_loaded = refl

-- The lines of the second stage.
second_lines :
    own_lines (pos 2) false false (lines stage_map)
    ≡ codes "inference_stages:"
      ∷ codes "- stage_id: 2"
      ∷ codes "  service_name: \"s2\""
      ∷ codes "  components:"
      ∷ codes "    layers:"
      ∷ codes "    - 4"
      ∷ codes "    norm: true"
      ∷ []
unfolding own_lines lines cut_at trim_left trim_right indent_width unquoted value_after_colon
    parse_stage_id_from_list_item starts_with eqb skip_spaces leading_digits scan_number stoi_prefix
second_lines = refl

load_stage_config_from_file-own_lines_example :
    load_stage_config_from_file (codes "map.yaml") (pos 2) (some stage_map) ≡ (
      read_lines
        (pos 2)
        (own_lines (pos 2) false false (lines stage_map))
        (initial (codes "map.yaml") (pos 2))
      >>= found (codes "map.yaml") (pos 2))
load_stage_config_from_file-own_lines_example =
    load_stage_config_from_file-own_lines (codes "map.yaml") (pos 2) stage_map
