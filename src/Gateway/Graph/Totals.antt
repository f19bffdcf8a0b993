-- ===== src/Gateway/Graph/Totals.antt =====
-- What the loop over the partitions has checked and counted when it ends.
use distributed_layer_infere.Common.{
  ℕ, suc, ◌+◌, ◌<◌, ◌≡◌, ◌⊎◌, refl, ap, ◌∙◌, inl, inr, Bool, true, false, List, [], ◌∷◌, ◌++◌, map,
  arith, ok, Result-cases, ok_parts, Bytes, All, is_empty, ℤ, pos, negsuc, pos_part, neg_part,
  if◌then◌else◌,
}
use mathlib.Core.List.{append_assoc, append-nil}
use distributed_layer_infere.Gateway.Config.{PartitionNodeConfig}
use distributed_layer_infere.Gateway.Graph.{Scan, push_layers, scan_partition, scan_partitions}

-- A layer id that a graph of `n` layers may hold; with no `n` given, any natural number.
abbrev pub InRange : ℤ → ℤ → Type 0
InRange n l = (neg_part l ≡ 0) × ((pos_part n ≡ 0) ⊎ (pos_part l < pos_part n))

-- What the loop asks of each partition.
pub record IsWellFormed (n : ℤ) (p : PartitionNodeConfig) : Type 0 where
  pub named : is_empty p.partition_id ≡ false
  pub served : is_empty p.service_name ≡ false
  pub terminal : (is_empty p.next_stage_url ≡ false) ⊎ (p.components.lm_head ≡ true)
  pub layers : All (InRange n) p.components.layers

-- The number of partitions that pass a test.
abbrev pub total : (PartitionNodeConfig → Bool) → List PartitionNodeConfig → ℕ
total test [] = 0
total test (p ∷ ps) = if test p then suc (total test ps) else total test ps

abbrev pub owns_embedding : PartitionNodeConfig → Bool
owns_embedding p = p.components.embedding

abbrev pub owns_lm_head : PartitionNodeConfig → Bool
owns_lm_head p = p.components.lm_head

abbrev pub has_no_next : PartitionNodeConfig → Bool
has_no_next p = is_empty p.next_stage_url

-- All layer ids, partition by partition.
abbrev pub layer_ids : List PartitionNodeConfig → List ℕ
layer_ids [] = []
layer_ids (p ∷ ps) = map pos_part p.components.layers ++ layer_ids ps

module _ (id : Bytes) (n : ℤ) where
  push_layers-InRange :
      (ls : List ℤ) (acc out : List ℕ)
      → push_layers id n ls acc ≡ ok out
      → All (InRange n) ls × (out ≡ acc ++ map pos_part ls)
  unfolding push_layers
  push_layers-InRange [] acc out h = (tt, ground (arith, append-nil acc))
  push_layers-InRange (negsuc l ∷ ls) acc out h = cc
  push_layers-InRange (pos l ∷ ls) acc out h = ground (
    arith,
    push_layers-InRange ls (acc ++ (l ∷ [])) out,
    append_assoc acc (l ∷ []) (map pos_part ls),
  )

  InRange-push_layers :
      (ls : List ℤ) (acc : List ℕ)
      → All (InRange n) ls
      → push_layers id n ls acc ≡ ok (acc ++ map pos_part ls)
  unfolding push_layers
  InRange-push_layers [] acc h = ground (arith, append-nil acc)
  InRange-push_layers (negsuc l ∷ ls) acc h = absurd (omega arith)
  InRange-push_layers (pos l ∷ ls) acc h =
      ground (
        arith,
        InRange-push_layers ls (acc ++ (l ∷ [])),
        append_assoc acc (l ∷ []) (map pos_part ls),
      )

-- The counters after one partition more.
pub record IsNext (p : PartitionNodeConfig) (s s' : Scan) : Type 0 where
  pub layers : s'.assigned_layers ≡ s.assigned_layers ++ map pos_part p.components.layers
  pub embedding : s'.embedding_owner_count ≡ s.embedding_owner_count + total owns_embedding (p ∷ [])
  pub lm_head : s'.lm_head_owner_count ≡ s.lm_head_owner_count + total owns_lm_head (p ∷ [])
  pub terminal : s'.terminal_count ≡ s.terminal_count + total has_no_next (p ∷ [])

scan_partition-IsNext :
    (n : ℤ) (p : PartitionNodeConfig) (s s' : Scan)
    → scan_partition n p s ≡ ok s'
    → IsWellFormed n p × IsNext p s s'
unfolding scan_partition
scan_partition-IsNext n p s s' h =
    let layers = p.components.layers in
    elim (Result-cases (push_layers p.partition_id n layers s.assigned_layers)) [
      | inl (out, e) ↦
          ground (arith, e, push_layers-InRange p.partition_id n layers s.assigned_layers out)
      | inr (e, thrown) ↦ ground (arith, thrown)
    ]

IsNext-scan_partition :
    (n : ℤ) (p : PartitionNodeConfig) (s : Scan)
    → IsWellFormed n p
    → (s' : Scan) × (scan_partition n p s ≡ ok s') × IsNext p s s'
unfolding scan_partition
IsNext-scan_partition n p s w = (
  record {
    assigned_layers = s.assigned_layers ++ map pos_part p.components.layers;
    embedding_owner_count =
        if p.components.embedding then s.embedding_owner_count + 1 else s.embedding_owner_count;
    lm_head_owner_count =
        if p.components.lm_head then s.lm_head_owner_count + 1 else s.lm_head_owner_count;
    terminal_count = if is_empty p.next_stage_url then s.terminal_count + 1 else s.terminal_count;
    terminal_partition_id =
        if is_empty p.next_stage_url then p.partition_id else s.terminal_partition_id;
  },
  ground (
    arith,
    w,
    InRange-push_layers p.partition_id n p.components.layers s.assigned_layers w.layers,
  ),
  ground arith,
)

-- The counters after all partitions.
pub record IsTotal (ps : List PartitionNodeConfig) (s s' : Scan) : Type 0 where
  pub layers : s'.assigned_layers ≡ s.assigned_layers ++ layer_ids ps
  pub embedding : s'.embedding_owner_count ≡ s.embedding_owner_count + total owns_embedding ps
  pub lm_head : s'.lm_head_owner_count ≡ s.lm_head_owner_count + total owns_lm_head ps
  pub terminal : s'.terminal_count ≡ s.terminal_count + total has_no_next ps

IsTotal-cons :
    (p : PartitionNodeConfig) (ps : List PartitionNodeConfig) (s s' s'' : Scan)
    → IsNext p s s'
    → IsTotal ps s' s''
    → IsTotal (p ∷ ps) s s''
IsTotal-cons p ps s s' s'' n t = record {
  layers =
      t.layers
      ∙ ap (λ xs. xs ++ layer_ids ps) n.layers
      ∙ append_assoc s.assigned_layers (map pos_part p.components.layers) (layer_ids ps);
  embedding = ground (arith, n.embedding, t.embedding);
  lm_head = ground (arith, n.lm_head, t.lm_head);
  terminal = ground (arith, n.terminal, t.terminal);
}

pub scan_partitions-IsTotal :
    (n : ℤ) (ps : List PartitionNodeConfig) (s s' : Scan)
    → scan_partitions n ps s ≡ ok s'
    → All (IsWellFormed n) ps × IsTotal ps s s'
unfolding scan_partitions
scan_partitions-IsTotal n [] s s' h = (
  tt,
  record {
    layers = ground (arith, append-nil s.assigned_layers);
    embedding = ground arith;
    lm_head = ground arith;
    terminal = ground arith;
  },
)
scan_partitions-IsTotal n (p ∷ ps) s s' h =
    let (t, first, rest) = ok_parts (scan_partition n p s) (scan_partitions n ps) h in
    let (w, next) = scan_partition-IsNext n p s t first in
    let (ws, total) = scan_partitions-IsTotal n ps t s' rest in
    ((w, ws), IsTotal-cons p ps s t s' next total)

pub IsTotal-scan_partitions :
    (n : ℤ) (ps : List PartitionNodeConfig) (s : Scan)
    → All (IsWellFormed n) ps
    → (s' : Scan) × (scan_partitions n ps s ≡ ok s') × IsTotal ps s s'
unfolding scan_partitions
IsTotal-scan_partitions n [] s w = (
  s,
  refl,
  record {
    layers = ground (arith, append-nil s.assigned_layers);
    embedding = omega arith;
    lm_head = omega arith;
    terminal = omega arith;
  },
)
IsTotal-scan_partitions n (p ∷ ps) s w =
    let (t, first, next) = IsNext-scan_partition n p s w.0 in
    let (u, rest, total) = IsTotal-scan_partitions n ps t w.1 in
    (u, ground (arith, first, rest), IsTotal-cons p ps s t u next total)
