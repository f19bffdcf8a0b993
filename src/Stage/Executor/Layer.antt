-- ===== src/Stage/Executor/Layer.antt =====
-- The key-value cache of a layer, attention and run_layer of
-- src/native/dli_stage_cpp/src/runtimes/llama_cpu_executor.cpp, without the profile and without the
-- transposed values, which only the ggml attention reads.
use distributed_layer_infere.Common.{
  ℕ, zero, suc, ◌+◌, ◌*◌, not, ◌||◌, if◌then◌else◌, ltb, ◌==◌, List, [], ◌∷◌, ◌++◌, map, length,
  get_or, take, drop, Result, ok, err, ◌>>=◌, Bytes, codes, to_string, ℤ, eqb_ℤ,
}
use distributed_layer_infere.Stage.Executor.{
  Floats, LlamaExecutorHyperparams, Shard, upto, tensor_vector_to_float, matvec, rms_norm,
  apply_rope,
}
use distributed_layer_infere.Stage.Executor.Attention.{kv_dim, q_dim, compute_attention_scalar}

-- `seq_len` positions of `kv_dim` numbers each.
pub record LayerKvCache (F : Type 0) : Type 0 where
  pub seq_len : ℕ
  pub k : List F
  pub v : List F

-- `layer_cache_`: a layer that was not used yet has an empty cache.
abbrev pub Caches : Type 0 → Type 0
Caches F = ℤ → LayerKvCache F

-- `cache.resize(n, 0.0f)`
unfoldable pub resized {ℓ} : {A : Type ℓ} → A → ℕ → List A → List A
resized d zero xs = []
resized d (suc n) [] = d ∷ resized d n []
resized d (suc n) (x ∷ xs) = x ∷ resized d n xs

-- `std::copy` to an offset.
unfoldable pub overwritten {ℓ} : {A : Type ℓ} → ℕ → List A → List A → List A
overwritten offset row xs = take offset xs ++ (row ++ drop (offset + length row) xs)

module _ {F D : Type 0} (floats : Floats F D) (hp : LlamaExecutorHyperparams F) where
  abbrev pub grown : ℕ → LayerKvCache F → LayerKvCache F
  grown required_seq cache =
      if ltb cache.seq_len required_seq
      then record {
        seq_len = required_seq;
        k = resized floats.nought (required_seq * kv_dim floats hp) cache.k;
        v = resized floats.nought (required_seq * kv_dim floats hp) cache.v;
      }
      else cache

  unfoldable pub stored : List F → List F → ℕ → LayerKvCache F → LayerKvCache F
  stored k v position cache =
      let larger = grown (suc position) cache in
      record larger {
        k = overwritten (position * kv_dim floats hp) k larger.k;
        v = overwritten (position * kv_dim floats hp) v larger.v;
      }

  abbrev pub with_cache : Caches F → ℤ → LayerKvCache F → Caches F
  with_cache caches layer_id cache = λ j. if eqb_ℤ j layer_id then cache else caches j

  abbrev pub attended :
      Caches F → ℤ → List F → ℕ → LayerKvCache F → Caches F × Result Bytes (List F)
  attended caches layer_id q position cache = (
    with_cache caches layer_id cache,
    compute_attention_scalar floats hp q cache.k cache.v (suc position),
  )

  unfoldable pub attention :
      ℤ → List F → List F → List F → ℕ → Caches F → Caches F × Result Bytes (List F)
  attention layer_id q k v position caches =
      if not (length q == q_dim floats hp)
      then (caches, err (codes "Q vector has wrong size"))
      else if not (length k == kv_dim floats hp) || not (length v == kv_dim floats hp)
      then (caches, err (codes "K/V vector has wrong size"))
      else attended caches layer_id q position (stored k v position (caches layer_id))

  module _ (shard : Shard F) where
    abbrev pub layer_prefix : ℤ → Bytes
    layer_prefix layer_id = codes "blk." ++ (to_string layer_id ++ codes ".")

    -- The query, the key and the value of a token at its position.
    pub record Projection : Type 0 where
      pub q : List F
      pub k : List F
      pub v : List F

    abbrev roped : ℕ → List F → List F → List F → Projection
    roped position q k v =
        let (q', k') = apply_rope floats hp q k position in record { q = q'; k = k'; v = v }

    unfoldable pub projected : ℤ → List F → List F → ℕ → Result Bytes Projection
    projected layer_id attn_norm_weight x position =
        let prefix = layer_prefix layer_id in
        rms_norm floats hp x attn_norm_weight >>= λ xn.
        matvec shard (prefix ++ codes "attn_q.weight") xn >>= λ q.
        matvec shard (prefix ++ codes "attn_k.weight") xn >>= λ k.
        matvec shard (prefix ++ codes "attn_v.weight") xn >>= λ v. ok (roped position q k v)

    abbrev silu : F → F
    silu x = floats.over x (floats.plus floats.one (floats.exp (floats.negate x)))

    abbrev pub added : List F → List F → List F
    added a b =
        map (λ i. floats.plus (get_or a i floats.nought) (get_or b i floats.nought))
          (upto hp.hidden_size)

    abbrev pub gated : List F → List F → Result Bytes (List F)
    gated gate up =
        if not (length gate == hp.ffn_size) || not (length up == hp.ffn_size)
        then err (codes "FFN gate/up size mismatch")
        else ok (
            map (λ i. floats.times (silu (get_or gate i floats.nought)) (get_or up i floats.nought))
              (upto hp.ffn_size))

    abbrev pub feed_forward : Bytes → List F → List F → Result Bytes (List F)
    feed_forward prefix ffn_norm_weight h1 = rms_norm floats hp h1 ffn_norm_weight >>= λ fn.
        matvec shard (prefix ++ codes "ffn_gate.weight") fn >>= λ gate.
        matvec shard (prefix ++ codes "ffn_up.weight") fn >>= λ up.
        gated gate up >>= λ intermediate.
        matvec shard (prefix ++ codes "ffn_down.weight") intermediate >>= λ down. ok (added h1 down)

    -- What follows the attention.
    unfoldable pub transformed : ℤ → List F → List F → List F → Result Bytes (List F)
    transformed layer_id ffn_norm_weight x ctx =
        let prefix = layer_prefix layer_id in
        matvec shard (prefix ++ codes "attn_output.weight") ctx >>= λ attn_out.
        feed_forward prefix ffn_norm_weight (added x attn_out)

    abbrev pub after_attention :
        (List F → Result Bytes (List F))
        → Caches F × Result Bytes (List F)
        → Caches F × Result Bytes (List F)
    after_attention next (caches, outcome) = (caches, outcome >>= next)

    abbrev pub after_projection :
        ℤ
        → List F
        → List F
        → ℕ
        → Caches F
        → Result Bytes Projection
        → Caches F × Result Bytes (List F)
    after_projection layer_id ffn_norm_weight x position caches (err what) = (caches, err what)
    after_projection layer_id ffn_norm_weight x position caches (ok p) =
        after_attention (transformed layer_id ffn_norm_weight x)
          (attention layer_id p.q p.k p.v position caches)

    -- The row of one token.
    unfoldable pub token_row :
        ℤ → List F → List F → List F → ℕ → Caches F → Caches F × Result Bytes (List F)
    token_row layer_id attn_norm_weight ffn_norm_weight x position caches =
        after_projection layer_id ffn_norm_weight x position caches
          (projected layer_id attn_norm_weight x position)

    abbrev pub after_row :
        (List F → Caches F → Caches F × Result Bytes (List F))
        → ℕ
        → List F
        → Caches F × Result Bytes (List F)
        → Caches F × Result Bytes (List F)
    after_row next t output (caches, err what) = (caches, err what)
    after_row next t output (caches, ok row) =
        next (overwritten (t * hp.hidden_size) row output) caches

    -- The tokens that are left, from `t` on.
    unfoldable pub token_loop :
        ℤ → List F → List F → ℕ → ℕ → ℕ → List F → Caches F → Caches F × Result Bytes (List F)
    token_loop layer_id an fn kv_seq_before zero t output caches = (caches, ok output)
    token_loop layer_id an fn kv_seq_before (suc left) t output caches =
        after_row (token_loop layer_id an fn kv_seq_before left (suc t)) t output (
          token_row layer_id an fn (take hp.hidden_size (drop (t * hp.hidden_size) output))
            (kv_seq_before + t) caches)

    abbrev pub norm_weights : ℤ → Result Bytes (List F × List F)
    norm_weights layer_id =
        tensor_vector_to_float shard (layer_prefix layer_id ++ codes "attn_norm.weight")
          hp.hidden_size
        >>= λ an.
            tensor_vector_to_float shard (layer_prefix layer_id ++ codes "ffn_norm.weight")
              hp.hidden_size
            >>= λ fn. ok (an, fn)

    abbrev pub with_norms :
        ℤ
        → List F
        → ℕ
        → ℕ
        → Caches F
        → Result Bytes (List F × List F)
        → Caches F × Result Bytes (List F)
    with_norms layer_id input seq_len kv_seq_before caches (err what) = (caches, err what)
    with_norms layer_id input seq_len kv_seq_before caches (ok (an, fn)) =
        token_loop layer_id an fn kv_seq_before seq_len 0 input caches

    unfoldable pub run_layer : ℤ → List F → ℕ → ℕ → Caches F → Caches F × Result Bytes (List F)
    run_layer layer_id input seq_len kv_seq_before caches =
        with_norms layer_id input seq_len kv_seq_before caches (norm_weights layer_id)

    abbrev pub after_layer :
        (List F → Caches F → Caches F × Result Bytes (List F))
        → Caches F × Result Bytes (List F)
        → Caches F × Result Bytes (List F)
    after_layer next (caches, err what) = (caches, err what)
    after_layer next (caches, ok hidden) = next hidden caches

    -- `for (const int layer_id : layers)`
    unfoldable pub run_layers :
        List ℤ → List F → ℕ → ℕ → Caches F → Caches F × Result Bytes (List F)
    run_layers [] hidden seq_len kv_seq_before caches = (caches, ok hidden)
    run_layers (l ∷ ls) hidden seq_len kv_seq_before caches =
        after_layer (λ h c. run_layers ls h seq_len kv_seq_before c)
          (run_layer l hidden seq_len kv_seq_before caches)
