-- ===== src/Partition/Examples.antt =====
-- The ownership theorems on a map of two stages and three layers.
use distributed_layer_infere.Common.{◌≡◌, true, false, ◌++◌, arith, map, codes, pos}
use distributed_layer_infere.Gateway.Graph.{validate_partition_graph}
use distributed_layer_infere.Gateway.Graph.Correct.{IsSplit, validate_partition_graph_iff}
use distributed_layer_infere.Gateway.Graph.Examples.{stages, stages_valid}
use distributed_layer_infere.Gateway.Graph.Totals.{total}
use distributed_layer_infere.Partition.{layer_prefix, token_embd, output_norm, output}
use distributed_layer_infere.Partition.Ownership.{
  owns_tensor, set_norm, layer_tensor_has_one_owner, named_tensor_has_one_owner,
  norm_tensor_without_owner,
}

stages-IsSplit : IsSplit stages (pos 3)
stages-IsSplit = (validate_partition_graph_iff stages (pos 3)).0 stages_valid

layer_tensor_has_one_owner_example :
    total (owns_tensor (layer_prefix (pos 2) ++ codes "attn_q.weight")) stages ≡ 1
layer_tensor_has_one_owner_example =
    layer_tensor_has_one_owner stages 3 2 (codes "attn_q.weight") stages-IsSplit (omega arith)

named_tensor_has_one_owner_example :
    (total (owns_tensor token_embd) stages ≡ 1) × (total (owns_tensor output) stages ≡ 1)
named_tensor_has_one_owner_example = named_tensor_has_one_owner stages (pos 3) stages-IsSplit

norm_tensor_without_owner_example :
    ((validate_partition_graph (map (set_norm (λ _. false)) stages) (pos 3)).valid ≡ true)
    × (total (owns_tensor output_norm) (map (set_norm (λ _. false)) stages) ≡ 0)
norm_tensor_without_owner_example = norm_tensor_without_owner stages (pos 3) stages_valid
