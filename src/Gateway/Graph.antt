-- ===== src/Gateway/Graph.antt =====
-- `validate_partition_graph` of src/native/dli_gateway_cpp/src/config.cpp.
pub mod Sorted
pub mod Totals
pub mod Correct
pub mod Examples
use distributed_layer_infere.Common.{
  ℕ, zero, suc, ◌+◌, Bool, true, false, not, ◌&&◌, ◌||◌, Option, none, some, List, [], ◌∷◌, ◌++◌,
  Result, ok, err, ◌>>=◌, ◌>>◌, throw_if, ltb, leb, ◌==◌, if◌then◌else◌, length, Bytes, is_empty, ℤ,
  pos, negsuc, pos_part,
}
use distributed_layer_infere.Gateway.Config.{
  PartitionNodeConfig, PartitionGraphValidation, GraphError,
}

-- The locals of the function: what the loop over the partitions accumulates. A layer is pushed
-- after it was found not negative, so the pushed ones are natural numbers.
pub record Scan : Type 0 where
  pub assigned_layers : List ℕ
  pub embedding_owner_count : ℕ
  pub lm_head_owner_count : ℕ
  pub terminal_count : ℕ
  pub terminal_partition_id : Bytes

abbrev pub start : Scan
start = record {
  assigned_layers = [];
  embedding_owner_count = 0;
  lm_head_owner_count = 0;
  terminal_count = 0;
  terminal_partition_id = [];
}

-- The inner loop: the layers of one partition are checked and pushed.
unfoldable pub push_layers : Bytes → ℤ → List ℤ → List ℕ → Result GraphError (List ℕ)
push_layers id num_layers [] assigned = ok assigned
push_layers id num_layers (negsuc l ∷ layers) assigned = err (GraphError.negative_layer id)
push_layers id num_layers (pos l ∷ layers) assigned =
    let rest = push_layers id num_layers layers (assigned ++ (l ∷ [])) in
    if ltb 0 (pos_part num_layers) && leb (pos_part num_layers) l
    then err (GraphError.layer_outside id l)
    else rest

-- One round of the outer loop.
unfoldable pub scan_partition : ℤ → PartitionNodeConfig → Scan → Result GraphError Scan
scan_partition num_layers p s = do
  throw_if (is_empty p.partition_id) GraphError.empty_partition_id
  throw_if (is_empty p.service_name) (GraphError.empty_service_name p.partition_id)
  throw_if (is_empty p.next_stage_url && not p.components.lm_head)
      (GraphError.terminal_without_lm_head p.partition_id)
  assigned ← push_layers p.partition_id num_layers p.components.layers s.assigned_layers
  ok (record {
    assigned_layers = assigned;
    embedding_owner_count =
        if p.components.embedding then s.embedding_owner_count + 1 else s.embedding_owner_count;
    lm_head_owner_count =
        if p.components.lm_head then s.lm_head_owner_count + 1 else s.lm_head_owner_count;
    terminal_count = if is_empty p.next_stage_url then s.terminal_count + 1 else s.terminal_count;
    terminal_partition_id =
        if is_empty p.next_stage_url then p.partition_id else s.terminal_partition_id;
  })

unfoldable pub scan_partitions : ℤ → List PartitionNodeConfig → Scan → Result GraphError Scan
scan_partitions num_layers [] s = ok s
scan_partitions num_layers (p ∷ ps) s =
    scan_partition num_layers p s >>= λ s'. scan_partitions num_layers ps s'

-- `std::sort`: the ascending arrangement, here by insertion.
unfoldable pub insert : ℕ → List ℕ → List ℕ
insert x [] = x ∷ []
insert x (y ∷ ys) = if leb x y then x ∷ y ∷ ys else y ∷ insert x ys

unfoldable pub sort : List ℕ → List ℕ
unfolding insert
sort [] = []
sort (x ∷ xs) = insert x (sort xs)

-- `duplicates.empty() || duplicates.back() != value`
abbrev pub back_differs : List ℕ → ℕ → Bool
back_differs [] value = true
back_differs (d ∷ []) value = not (d == value)
back_differs (d ∷ e ∷ ds) value = back_differs (e ∷ ds) value

-- The loop from the second element on; `previous` is `assigned_layers[i - 1]`.
unfoldable pub duplicates_from : ℕ → List ℕ → List ℕ → List ℕ
duplicates_from previous [] duplicates = duplicates
duplicates_from previous (x ∷ xs) duplicates =
    duplicates_from x xs
      (if x == previous && back_differs duplicates x then duplicates ++ (x ∷ []) else duplicates)

unfoldable pub duplicates_of : List ℕ → List ℕ
unfolding duplicates_from
duplicates_of [] = []
duplicates_of (x ∷ xs) = duplicates_from x xs []

-- `for (layer = 0; layer < num_layers; ++layer)` by the rounds left; the list is what stands from
-- `cursor` on.
unfoldable pub missing_from : ℕ → ℕ → List ℕ → List ℕ
missing_from zero layer rest = []
missing_from (suc rounds) layer [] = layer ∷ missing_from rounds (layer + 1) []
missing_from (suc rounds) layer (x ∷ xs) =
    let found = missing_from rounds (layer + 1) xs in
    let absent = layer ∷ missing_from rounds (layer + 1) (x ∷ xs) in
    if x == layer then found else absent

-- The checks behind the loop.
unfoldable pub check_scan : ℤ → Scan → Result GraphError PartitionGraphValidation
check_scan num_layers s = do
  throw_if (not (s.embedding_owner_count == 1))
      (GraphError.embedding_owners s.embedding_owner_count)
  throw_if (not (s.lm_head_owner_count == 1)) (GraphError.lm_head_owners s.lm_head_owner_count)
  throw_if (not (s.terminal_count == 1)) (GraphError.terminals s.terminal_count)
  let sorted = sort s.assigned_layers
  let duplicates = duplicates_of sorted
  throw_if (not (is_empty duplicates)) (GraphError.duplicate_layers duplicates)
  let missing = missing_from (pos_part num_layers) 0 sorted
  throw_if (not (is_empty missing)) (GraphError.missing_layers missing)
  ok (record {
    valid = true;
    error = none;
    assigned_layer_count = length sorted;
    embedding_owner_count = s.embedding_owner_count;
    lm_head_owner_count = s.lm_head_owner_count;
    terminal_partition_id = s.terminal_partition_id;
  })

unfoldable pub make_invalid_validation : GraphError → PartitionGraphValidation
make_invalid_validation e = record {
  valid = false;
  error = some e;
  assigned_layer_count = 0;
  embedding_owner_count = 0;
  lm_head_owner_count = 0;
  terminal_partition_id = [];
}

abbrev returned : Result GraphError PartitionGraphValidation → PartitionGraphValidation
returned (ok v) = v
returned (err e) = make_invalid_validation e

-- `if (num_layers > 0)` is left out round the missing layers: for other values there are no rounds.
unfoldable pub validate_partition_graph : List PartitionNodeConfig → ℤ → PartitionGraphValidation
validate_partition_graph partitions num_layers = returned (do
  throw_if (is_empty partitions) GraphError.graph_empty
  s ← scan_partitions num_layers partitions start
  check_scan num_layers s)
