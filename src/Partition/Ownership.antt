-- ===== src/Partition/Ownership.antt =====
-- A stage map that passes the gateway's checks gives every tensor one owner.
use distributed_layer_infere.Common.{
  ℕ, ◌<◌, ◌≤◌, ◌≡◌, refl, sym, ap, ◌∙◌, inl, inr, Bool, true, false, not, Bool-cases, List, [], ◌∷◌,
  ◌++◌, map, Result-cases, arith, ◌==◌, All, Bytes, codes, eqb, starts_with, starts_with-append,
  starts_with→eq, ℤ, pos, negsuc, pos_part, decimal, IsDigit, decimal-IsDigit, decimal_injective,
}
use mathlib.Core.List.{append_assoc}
use distributed_layer_infere.Gateway.Config.{PartitionNodeConfig}
use distributed_layer_infere.Gateway.Graph.{
  Scan, start, scan_partition, scan_partitions, validate_partition_graph,
}
use distributed_layer_infere.Gateway.Graph.Sorted.{count, count-append}
use distributed_layer_infere.Gateway.Graph.Totals.{IsWellFormed, InRange, total, layer_ids}
use distributed_layer_infere.Gateway.Graph.Correct.{IsSplit}
use distributed_layer_infere.Partition.{
  any, layer_prefix, token_embd, output_norm, output, to_common_components,
  build_llama_tensor_name_plan, tensor_matches_plan,
}

-- The test that the tools make of a tensor name and a partition of the stage map.
abbrev pub owns_tensor : Bytes → PartitionNodeConfig → Bool
owns_tensor name p =
    tensor_matches_plan name
      (build_llama_tensor_name_plan p.partition_id (to_common_components p.components))

-- Digits up to a dot are read in one way only.
digits_before_dot :
    (a b r s : Bytes) → All IsDigit a → All IsDigit b → a ++ (b'.' ∷ r) ≡ b ++ (b'.' ∷ s) → a ≡ b
digits_before_dot [] [] r s ha hb e = refl
digits_before_dot [] (y ∷ b) r s ha hb e = ground arith
digits_before_dot (x ∷ a) [] r s ha hb e = ground arith
digits_before_dot (x ∷ a) (y ∷ b) r s ha hb e = ground (arith, digits_before_dot a b r s)

prefixed :
    (i : ℕ) (rest : Bytes)
    → layer_prefix (pos i) ++ rest ≡ codes "blk." ++ (decimal i ++ (b'.' ∷ rest))
unfolding layer_prefix
prefixed i rest = ap (λ t. codes "blk." ++ t) (append_assoc (decimal i) (codes ".") rest)

behind_blk : (a b : Bytes) → codes "blk." ++ a ≡ codes "blk." ++ b → a ≡ b
behind_blk a b e = cc

-- The dot behind the number keeps layer 1 apart from layer 10.
same_layer :
    (i j : ℕ) (rest : Bytes)
    → starts_with (layer_prefix (pos i) ++ rest) (layer_prefix (pos j)) ≡ true
    → i ≡ j
same_layer i j rest h =
    let (s, e) = starts_with→eq (layer_prefix (pos i) ++ rest) (layer_prefix (pos j)) h in
    decimal_injective i j (
      digits_before_dot (decimal i) (decimal j) rest s (decimal-IsDigit i) (decimal-IsDigit j)
        (behind_blk _ _ (sym (prefixed i rest) ∙ e ∙ prefixed j s)))

layer_test :
    (i j : ℕ) (rest : Bytes)
    → starts_with (layer_prefix (pos i) ++ rest) (layer_prefix (pos j)) ≡ (j == i)
layer_test i j rest = elim (Bool-cases (j == i)) [
  | inl same ↦
      let e : j ≡ i = ground arith in
      ap (λ (k : ℕ). starts_with (layer_prefix (pos i) ++ rest) (layer_prefix (pos k))) e
      ∙ starts_with-append (layer_prefix (pos i)) rest
      ∙ sym same
  | inr other ↦
      elim (Bool-cases (starts_with (layer_prefix (pos i) ++ rest) (layer_prefix (pos j)))) [
        | inl hit ↦ absurd (ground (arith, same_layer i j rest hit))
        | inr miss ↦ miss ∙ sym other
      ]
]

-- The tensors of layer `i` are those of a partition that lists `i`.
any_layer :
    (i : ℕ) (rest : Bytes) (n : ℤ) (ls : List ℤ)
    → All (InRange n) ls
    → any (starts_with (layer_prefix (pos i) ++ rest)) (map layer_prefix ls)
      ≡ not (count i (map pos_part ls) == 0)
unfolding any
any_layer i rest n [] h = refl
any_layer i rest n (negsuc l ∷ ls) h = absurd (omega arith)
any_layer i rest n (pos l ∷ ls) h = ground (arith, layer_test i l rest, any_layer i rest n ls)

not_named :
    (i : ℕ) (rest : Bytes)
    → (eqb (layer_prefix (pos i) ++ rest) token_embd ≡ false)
      × (eqb (layer_prefix (pos i) ++ rest) output_norm ≡ false)
      × (eqb (layer_prefix (pos i) ++ rest) output ≡ false)
unfolding layer_prefix eqb
not_named i rest = (refl, refl, refl)

owns_layer :
    (i : ℕ) (rest : Bytes) (n : ℤ) (p : PartitionNodeConfig)
    → IsWellFormed n p
    → owns_tensor (layer_prefix (pos i) ++ rest) p
      ≡ not (count i (map pos_part p.components.layers) == 0)
unfolding tensor_matches_plan build_llama_tensor_name_plan any
owns_layer i rest n p w =
    ground (arith, not_named i rest, any_layer i rest n p.components.layers w.layers)

-- Each partition that lists a layer adds to its count.
total-le-count :
    (i : ℕ) (rest : Bytes) (n : ℤ) (ps : List PartitionNodeConfig)
    → All (IsWellFormed n) ps
    → (total (owns_tensor (layer_prefix (pos i) ++ rest)) ps ≤ count i (layer_ids ps))
      × (0 < count i (layer_ids ps) → 0 < total (owns_tensor (layer_prefix (pos i) ++ rest)) ps)
total-le-count i rest n [] w = omega arith
total-le-count i rest n (p ∷ ps) w = ground (
  arith,
  total-le-count i rest n ps w.1,
  owns_layer i rest n p w.0,
  count-append (map pos_part p.components.layers) (layer_ids ps) i,
)

-- When the partitions split a model of `n` layers, every tensor name that starts with
-- "blk.<i>.", for a layer `i` below `n`, matches the plan of exactly one partition.
pub layer_tensor_has_one_owner :
    (ps : List PartitionNodeConfig) (n i : ℕ) (rest : Bytes)
    → IsSplit ps (pos n)
    → i < n
    → total (owns_tensor (layer_prefix (pos i) ++ rest)) ps ≡ 1
layer_tensor_has_one_owner ps n i rest s h =
    let (few, some_owner) = total-le-count i rest (pos n) ps s.well_formed in
    omega (arith, few, some_owner (s.covered i h), s.once i)

-- The three tensors that are owned by name, and the components that own them.
pub data Named : Type 0 where
  embedding_tensor norm_tensor head_tensor : Named

abbrev pub tensor_of : Named → Bytes
tensor_of embedding_tensor = token_embd
tensor_of norm_tensor = output_norm
tensor_of head_tensor = output

abbrev pub owns : Named → PartitionNodeConfig → Bool
owns embedding_tensor p = p.components.embedding
owns norm_tensor p = p.components.norm
owns head_tensor p = p.components.lm_head

no_layer : (t : Named) (ls : List ℤ) → any (starts_with (tensor_of t)) (map layer_prefix ls) ≡ false
unfolding any layer_prefix starts_with
no_layer embedding_tensor [] = refl
no_layer norm_tensor [] = refl
no_layer head_tensor [] = refl
no_layer embedding_tensor (l ∷ ls) = no_layer embedding_tensor ls
no_layer norm_tensor (l ∷ ls) = no_layer norm_tensor ls
no_layer head_tensor (l ∷ ls) = no_layer head_tensor ls

named_owner : (t : Named) (p : PartitionNodeConfig) → owns_tensor (tensor_of t) p ≡ owns t p
unfolding tensor_matches_plan build_llama_tensor_name_plan any eqb
named_owner embedding_tensor p = ground (arith, no_layer embedding_tensor p.components.layers)
named_owner norm_tensor p = ground (arith, no_layer norm_tensor p.components.layers)
named_owner head_tensor p = ground (arith, no_layer head_tensor p.components.layers)

-- The partitions that take `token_embd.weight`, `output_norm.weight` or `output.weight` are those
-- whose `embedding`, `norm` or `lm_head` flag is set.
pub owners_of_named :
    (t : Named) (ps : List PartitionNodeConfig)
    → total (owns_tensor (tensor_of t)) ps ≡ total (owns t) ps
owners_of_named t [] = refl
owners_of_named t (p ∷ ps) = ground (arith, owners_of_named t ps, named_owner t p)

-- When the partitions split a model, token_embd.weight matches the plan of exactly one partition,
-- and so does output.weight.
pub named_tensor_has_one_owner :
    (ps : List PartitionNodeConfig) (n : ℤ)
    → IsSplit ps n
    → (total (owns_tensor token_embd) ps ≡ 1) × (total (owns_tensor output) ps ≡ 1)
named_tensor_has_one_owner ps n s = (
  owners_of_named embedding_tensor ps ∙ s.one_embedding,
  owners_of_named head_tensor ps ∙ s.one_lm_head,
)

-- The checks of the gateway do not look at the `norm` flags: whatever they are set to, a split
-- stays one.
abbrev pub set_norm : (PartitionNodeConfig → Bool) → PartitionNodeConfig → PartitionNodeConfig
set_norm f p = record p { components = record p.components { norm = f p } }

module _ (n : ℤ) (f : PartitionNodeConfig → Bool) where
  scan_set_norm :
      (ps : List PartitionNodeConfig) (s : Scan)
      → scan_partitions n (map (set_norm f) ps) s ≡ scan_partitions n ps s
  unfolding scan_partitions scan_partition
  scan_set_norm [] s = refl
  scan_set_norm (p ∷ ps) s = elim (Result-cases (scan_partition n p s)) [
    | inl (s', e) ↦ ground (arith, e, scan_set_norm ps s')
    | inr (x, e) ↦ ground (arith, e)
  ]

  -- `validate_partition_graph` gives the same answer whatever the `norm` flags are.
  pub validate_ignores_norm :
      (ps : List PartitionNodeConfig)
      → validate_partition_graph (map (set_norm f) ps) n ≡ validate_partition_graph ps n
  unfolding validate_partition_graph
  validate_ignores_norm [] = refl
  validate_ignores_norm (p ∷ ps) = rw (scan_set_norm (p ∷ ps) start)

no_norm_owner :
    (ps : List PartitionNodeConfig) → total (owns norm_tensor) (map (set_norm (λ _. false)) ps) ≡ 0
no_norm_owner [] = refl
no_norm_owner (p ∷ ps) = no_norm_owner ps

-- Take the norm from every partition of a valid stage map: the map stays valid, and
-- `output_norm.weight` belongs to no partition.
pub norm_tensor_without_owner :
    (ps : List PartitionNodeConfig) (n : ℤ)
    → (validate_partition_graph ps n).valid ≡ true
    → ((validate_partition_graph (map (set_norm (λ _. false)) ps) n).valid ≡ true)
      × (total (owns_tensor output_norm) (map (set_norm (λ _. false)) ps) ≡ 0)
norm_tensor_without_owner ps n h = (
  ap (λ v. v.valid) (validate_ignores_norm n (λ _. false) ps) ∙ h,
  owners_of_named norm_tensor (map (set_norm (λ _. false)) ps) ∙ no_norm_owner ps,
)
