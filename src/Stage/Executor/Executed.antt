-- ===== src/Stage/Executor/Executed.antt =====
-- execute_source, execute_intermediate and execute_terminal of
-- src/native/dli_stage_cpp/src/runtimes/llama_cpu_executor.cpp: the executor as a whole, with its
-- caches and its generator of random numbers as the state. The generation mode is not read.
use distributed_layer_infere.Common.{
  ℕ, suc, ◌-◌, ◌*◌, Bool, not, ◌||◌, if◌then◌else◌, ◌==◌, Option, none, some, List, [], ◌∷◌, ◌++◌,
  map, length, get_or, take, drop, Result, ok, err, ◌>>=◌, Bytes, codes, to_string, ℤ, pos,
  pos_part, ltb_ℤ, eqb_ℤ,
}
use distributed_layer_infere.Tensor.{TensorBuffer, to_int32}
use distributed_layer_infere.Stage.Executor.{
  Floats, LlamaExecutorHyperparams, ShardTensor, Shard, require_tensor, tensor_row_to_float,
  tensor_vector_to_float, rms_norm,
}
use distributed_layer_infere.Stage.Executor.Layer.{Caches, resized, overwritten, run_layers}
use distributed_layer_infere.Stage.Executor.Tensors.{
  ExecutorError, thrown, tensor_to_token_ids, tensor_to_hidden_f32, float_hidden_to_tensor,
}
use distributed_layer_infere.Stage.Executor.Sampling.{LlamaSamplingParams, Sampler, sample_lm_head}

-- std::memcpy between a float and its 32 bits.
pub record FloatBits (F : Type 0) : Type 0 where
  pub of_bits : ℕ → F
  pub bits : F → ℕ

pub record ExecutorState (F G : Type 0) : Type 0 where
  pub layer_cache : Caches F
  pub rng : G

abbrev pub lifted : {A : Type 0} → Result Bytes A → Result ExecutorError A
lifted (ok a) = ok a
lifted (err what) = err (thrown what)

module _ {F D G : Type 0} (floats : Floats F D) (float_bits : FloatBits F)
    (hp : LlamaExecutorHyperparams F) (shard : Shard F) (sampler : Sampler F D G) where
  abbrev pub embedding_checked : ShardTensor F → Result Bytes (ShardTensor F)
  embedding_checked embedding =
      if not (eqb_ℤ embedding.ne0 (pos hp.hidden_size))
      then err (codes "token_embd.weight hidden size mismatch")
      else if not (eqb_ℤ embedding.ne1 (pos hp.vocab_size))
      then err (codes "token_embd.weight vocab size mismatch")
      else ok embedding

  abbrev pub token_in_range : ℤ → Result Bytes ℤ
  token_in_range token_id =
      if ltb_ℤ token_id (pos 0) || not (ltb_ℤ token_id (pos hp.vocab_size))
      then err (codes "token id out of range: " ++ to_string token_id)
      else ok token_id

  -- The rows of the tokens, from token `t` on.
  unfoldable pub embed_tokens : ShardTensor F → List ℤ → ℕ → List F → Result Bytes (List F)
  embed_tokens embedding [] t hidden = ok hidden
  embed_tokens embedding (token_id ∷ tokens) t hidden = token_in_range token_id >>= λ id.
      tensor_row_to_float shard embedding id >>= λ row.
      embed_tokens embedding tokens (suc t) (overwritten (t * hp.hidden_size) row hidden)

  abbrev pub embedded : List ℤ → Result Bytes (List F)
  embedded tokens =
      require_tensor shard (codes "token_embd.weight") >>= embedding_checked >>= λ embedding.
      embed_tokens embedding tokens 0 (resized floats.nought (length tokens * hp.hidden_size) [])

  -- The layers, with the hidden states or the exception before them.
  abbrev pub through_layers :
      List ℤ
      → ℕ
      → ℕ
      → Caches F
      → Result ExecutorError (List F)
      → Caches F × Result ExecutorError (List F)
  through_layers layers seq_len kv_seq_before caches (err e) = (caches, err e)
  through_layers layers seq_len kv_seq_before caches (ok hidden) =
      let (after, outcome) =
        run_layers floats hp shard layers hidden seq_len kv_seq_before caches in
      (after, lifted outcome)

  abbrev pub tensor_of : ℕ → Bytes → List F → Result ExecutorError TensorBuffer
  tensor_of seq_len precision hidden =
      float_hidden_to_tensor hp.hidden_size (map float_bits.bits hidden) 1 seq_len precision

  abbrev pub with_tensor :
      ℕ
      → Bytes
      → ExecutorState F G
      → Caches F × Result ExecutorError (List F)
      → ExecutorState F G × Result ExecutorError TensorBuffer
  with_tensor seq_len precision state (caches, outcome) =
      (record state { layer_cache = caches }, outcome >>= tensor_of seq_len precision)

  abbrev pub source_tokens :
      List ℤ
      → ℕ
      → Bytes
      → ExecutorState F G
      → Result ExecutorError (List ℤ)
      → ExecutorState F G × Result ExecutorError TensorBuffer
  source_tokens layers kv_seq_before precision state (err e) = (state, err e)
  source_tokens layers kv_seq_before precision state (ok tokens) =
      with_tensor (length tokens) precision state (
        through_layers layers (length tokens) kv_seq_before state.layer_cache
          (lifted (embedded tokens)))

  unfoldable pub execute_source :
      TensorBuffer
      → List ℤ
      → ℕ
      → Bytes
      → ExecutorState F G
      → ExecutorState F G × Result ExecutorError TensorBuffer
  execute_source token_ids layers kv_seq_before precision state =
      source_tokens layers kv_seq_before precision state (tensor_to_token_ids token_ids)

  -- `static_cast<int>(shape[1])`, which is positive if the tensor is accepted afterwards.
  abbrev pub seq_len_of : TensorBuffer → ℕ
  seq_len_of tensor = pos_part (to_int32 (pos_part (get_or tensor.metadata.shape 1 (pos 0))))

  abbrev pub hidden_of : TensorBuffer → Result ExecutorError (List F)
  hidden_of tensor =
      tensor_to_hidden_f32 hp.hidden_size tensor >>= λ values. ok (map float_bits.of_bits values)

  unfoldable pub execute_intermediate :
      TensorBuffer
      → List ℤ
      → ℕ
      → Bytes
      → ExecutorState F G
      → ExecutorState F G × Result ExecutorError TensorBuffer
  execute_intermediate hidden_states layers kv_seq_before precision state =
      with_tensor (seq_len_of hidden_states) precision state (
        through_layers layers (seq_len_of hidden_states) kv_seq_before state.layer_cache
          (hidden_of hidden_states))

  -- The generator is seeded at the start of a sequence, if there is a seed.
  abbrev seed_of : ℕ → Option ℤ → G → G
  seed_of kv_seq_before none rng = rng
  seed_of kv_seq_before (some seed) rng =
      let chosen = if ltb_ℤ seed (pos 0) then sampler.from_device rng else sampler.seeded seed in
      if kv_seq_before == 0 then chosen else rng

  abbrev last_normed : ℕ → List F → Result Bytes (List F)
  last_normed seq_len hidden =
      tensor_vector_to_float shard (codes "output_norm.weight") hp.hidden_size >>= λ weight.
      rms_norm floats hp (take hp.hidden_size (drop ((seq_len - 1) * hp.hidden_size) hidden)) weight

  abbrev owned : Bool → Bool → List F → Result Bytes (List F)
  owned owns_norm owns_lm_head hidden =
      if not owns_norm
      then err (codes "terminal partition must own output norm")
      else if not owns_lm_head
      then err (codes "terminal partition must own lm_head")
      else ok hidden

  abbrev with_token :
      LlamaSamplingParams F
      → Caches F
      → G
      → Result ExecutorError (List F)
      → ExecutorState F G × Result ExecutorError ℕ
  with_token sampling caches rng (err e) = (record { layer_cache = caches; rng = rng }, err e)
  with_token sampling caches rng (ok normed) =
      let (after, outcome) = sample_lm_head floats sampler shard normed sampling rng in
      (record { layer_cache = caches; rng = after }, lifted outcome)

  unfoldable pub execute_terminal :
      TensorBuffer
      → List ℤ
      → ℕ
      → Bool
      → Bool
      → LlamaSamplingParams F
      → ExecutorState F G
      → ExecutorState F G × Result ExecutorError ℕ
  execute_terminal hidden_states layers kv_seq_before owns_norm owns_lm_head sampling state =
      let seq_len = seq_len_of hidden_states in
      let (caches, outcome) =
        through_layers layers seq_len kv_seq_before state.layer_cache (hidden_of hidden_states) in
      let normed = outcome >>= λ hidden.
      lifted (owned owns_norm owns_lm_head hidden >>= last_normed seq_len) in
      with_token sampling caches (seed_of kv_seq_before sampling.seed state.rng) normed
