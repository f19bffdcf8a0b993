-- ===== src/Gateway/Graph/Examples.antt =====
-- Stage maps on which the theorems about the partition graph are applied.
use distributed_layer_infere.Common.{◌≡◌, ◌↔◌, refl, true, false, some, [], ◌∷◌, List, codes, pos}
use distributed_layer_infere.Gateway.Config.{PartitionNodeConfig, missing_layers}
use distributed_layer_infere.Gateway.Graph.{
  validate_partition_graph, scan_partitions, scan_partition, push_layers, check_scan, sort,
  duplicates_of, missing_from, make_invalid_validation,
}
use distributed_layer_infere.Gateway.Graph.Correct.{IsSplit, validate_partition_graph_iff}

abbrev pub first : PartitionNodeConfig
first = record {
  stage_id = pos 1;
  partition_id = codes "partition-1";
  service_name = codes "stage-1";
  physical_node = [];
  partition_file = [];
  native_partition_file = [];
  backend = [];
  next_stage_url = codes "http://stage-2:8000/forward-binary";
  components = record {
    embedding = true;
    layers = pos 0 ∷ pos 2 ∷ [];
    norm = false;
    lm_head = false;
  };
}

abbrev pub last : PartitionNodeConfig
last = record {
  stage_id = pos 2;
  partition_id = codes "partition-2";
  service_name = codes "stage-2";
  physical_node = [];
  partition_file = [];
  native_partition_file = [];
  backend = [];
  next_stage_url = [];
  components = record { embedding = false; layers = pos 1 ∷ []; norm = true; lm_head = true };
}

abbrev pub stages : List PartitionNodeConfig
stages = first ∷ last ∷ []

pub stages_valid : (validate_partition_graph stages (pos 3)).valid ≡ true
unfolding validate_partition_graph scan_partitions scan_partition push_layers check_scan sort
    duplicates_of missing_from
stages_valid = refl

-- The order of the map is not checked: the terminal stage may stand first.
misordered_valid : (validate_partition_graph (last ∷ first ∷ []) (pos 3)).valid ≡ true
unfolding validate_partition_graph scan_partitions scan_partition push_layers check_scan sort
    duplicates_of missing_from
misordered_valid = refl

stages_miss_a_layer :
    (validate_partition_graph stages (pos 4)).error ≡ some (missing_layers (3 ∷ []))
unfolding validate_partition_graph scan_partitions scan_partition push_layers check_scan sort
    duplicates_of missing_from make_invalid_validation
stages_miss_a_layer = refl

validate_partition_graph_iff_example :
    ((validate_partition_graph stages (pos 3)).valid ≡ true) ↔ IsSplit stages (pos 3)
validate_partition_graph_iff_example = validate_partition_graph_iff stages (pos 3)
