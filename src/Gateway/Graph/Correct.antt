-- ===== src/Gateway/Graph/Correct.antt =====
-- `validate_partition_graph` accepts exactly the stage maps that split the model.
use distributed_layer_infere.Common.{
  ℕ, ◌<◌, ◌≤◌, ◌≡◌, ◌↔◌, ◌∙◌, ap, inl, inr, true, none, List, [], ◌∷◌, arith, ok, Result-cases, All,
  is_empty, ℤ, pos_part, length,
}
use distributed_layer_infere.Gateway.Config.{PartitionNodeConfig, PartitionGraphValidation}
use distributed_layer_infere.Gateway.Graph.{
  Scan, start, sort, duplicates_of, missing_from, scan_partitions, check_scan,
  make_invalid_validation, validate_partition_graph,
}
use distributed_layer_infere.Gateway.Graph.Sorted.{
  count, count-sort, sort-IsSorted, count-IsStrict, duplicates_of_iff, missing_from_iff,
}
use distributed_layer_infere.Gateway.Graph.Totals.{
  IsWellFormed, IsTotal, total, owns_embedding, owns_lm_head, has_no_next, layer_ids,
  scan_partitions-IsTotal, IsTotal-scan_partitions,
}

-- The partitions split a model of `n` layers: each is well formed, one alone owns the embedding,
-- one alone the lm_head, one alone has no next stage, no layer is assigned twice, and, if `n` is
-- positive, each layer below `n` is assigned.
pub record IsSplit (ps : List PartitionNodeConfig) (n : ℤ) : Type 0 where
  pub well_formed : All (IsWellFormed n) ps
  pub one_embedding : total owns_embedding ps ≡ 1
  pub one_lm_head : total owns_lm_head ps ≡ 1
  pub one_terminal : total has_no_next ps ≡ 1
  pub once : (i : ℕ) → count i (layer_ids ps) ≤ 1
  pub covered : (i : ℕ) → i < pos_part n → 0 < count i (layer_ids ps)

-- What `check_scan` has tested.
record IsChecked (n : ℤ) (s : Scan) : Type 0 where
  embedding : s.embedding_owner_count ≡ 1
  lm_head : s.lm_head_owner_count ≡ 1
  terminal : s.terminal_count ≡ 1
  duplicates : is_empty (duplicates_of (sort s.assigned_layers)) ≡ true
  missing : is_empty (missing_from (pos_part n) 0 (sort s.assigned_layers)) ≡ true

check_scan-IsChecked :
    (n : ℤ) (s : Scan) (v : PartitionGraphValidation) → check_scan n s ≡ ok v → IsChecked n s
unfolding check_scan
check_scan-IsChecked n s v h = ground arith

IsChecked-check_scan :
    (n : ℤ) (s : Scan)
    → IsChecked n s
    → (v : PartitionGraphValidation) × (check_scan n s ≡ ok v) × (v.valid ≡ true)
unfolding check_scan
IsChecked-check_scan n s c = (
  record {
    valid = true;
    error = none;
    assigned_layer_count = length (sort s.assigned_layers);
    embedding_owner_count = s.embedding_owner_count;
    lm_head_owner_count = s.lm_head_owner_count;
    terminal_partition_id = s.terminal_partition_id;
  },
  ground (arith, c),
  ground arith,
)

module _ (n : ℤ) (ps : List PartitionNodeConfig) (s : Scan) (t : IsTotal ps start s) where
  count_sorted : (i : ℕ) → count i (sort s.assigned_layers) ≡ count i (layer_ids ps)
  count_sorted i = count-sort i s.assigned_layers ∙ ap (count i) t.layers

  IsSplit-IsChecked : All (IsWellFormed n) ps → IsChecked n s → IsSplit ps n
  IsSplit-IsChecked w c =
      let sorted = sort-IsSorted s.assigned_layers in
      let once = (duplicates_of_iff (sort s.assigned_layers) sorted).0 c.duplicates in
      let strict = count-IsStrict (sort s.assigned_layers) sorted once in
      record {
        well_formed = w;
        one_embedding = omega (arith, t.embedding, c.embedding);
        one_lm_head = omega (arith, t.lm_head, c.lm_head);
        one_terminal = omega (arith, t.terminal, c.terminal);
        once = λ i. omega (arith, once i, count_sorted i);
        covered = λ i below. omega (
          arith,
          (missing_from_iff (pos_part n) (sort s.assigned_layers) strict).0 c.missing i below,
          count_sorted i,
        );
      }

  IsChecked-IsSplit : IsSplit ps n → IsChecked n s
  IsChecked-IsSplit p =
      let sorted = sort-IsSorted s.assigned_layers in
      let once = λ (i : ℕ).
        let bound : count i (sort s.assigned_layers) ≤ 1 =
          omega (arith, p.once i, count_sorted i) in
        bound in
      let strict = count-IsStrict (sort s.assigned_layers) sorted once in
      record {
        embedding = omega (arith, t.embedding, p.one_embedding);
        lm_head = omega (arith, t.lm_head, p.one_lm_head);
        terminal = omega (arith, t.terminal, p.one_terminal);
        duplicates = (duplicates_of_iff (sort s.assigned_layers) sorted).1 once;
        missing =
            (missing_from_iff (pos_part n) (sort s.assigned_layers) strict).1
              (λ i below. omega (arith, p.covered i below, count_sorted i));
      }

IsSplit-validate :
    (ps : List PartitionNodeConfig) (n : ℤ)
    → (validate_partition_graph ps n).valid ≡ true
    → IsSplit ps n
unfolding validate_partition_graph make_invalid_validation
IsSplit-validate [] n h = cc
IsSplit-validate (p ∷ ps) n h = elim (Result-cases (scan_partitions n (p ∷ ps) start)) [
  | inr (e, thrown) ↦ ground (arith, thrown)
  | inl (s, scanned) ↦
      let (w, t) = scan_partitions-IsTotal n (p ∷ ps) start s scanned in
      elim (Result-cases (check_scan n s)) [
        | inr (e, thrown) ↦ ground (arith, scanned, thrown)
        | inl (v, checked) ↦ IsSplit-IsChecked n (p ∷ ps) s t w (check_scan-IsChecked n s v checked)
      ]
]

validate-IsSplit :
    (ps : List PartitionNodeConfig) (n : ℤ)
    → IsSplit ps n
    → (validate_partition_graph ps n).valid ≡ true
unfolding validate_partition_graph
validate-IsSplit [] n p = absurd (omega (arith, p.one_embedding))
validate-IsSplit (q ∷ ps) n p =
    let (s, scanned, t) = IsTotal-scan_partitions n (q ∷ ps) start p.well_formed in
    let (v, checked, valid) = IsChecked-check_scan n s (IsChecked-IsSplit n (q ∷ ps) s t p) in
    ground (arith, scanned, checked, valid)

-- `validate_partition_graph` answers `valid` for `n` layers exactly when the partitions split a
-- model of `n` layers: each is well formed, one alone owns the embedding, one alone the lm_head,
-- one alone has no next stage, no layer is assigned twice and none below `n` is missing.
pub validate_partition_graph_iff :
    (ps : List PartitionNodeConfig) (n : ℤ)
    → ((validate_partition_graph ps n).valid ≡ true) ↔ IsSplit ps n
validate_partition_graph_iff ps n = (IsSplit-validate ps n, validate-IsSplit ps n)
