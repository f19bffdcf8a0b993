-- ===== src/Stage/Executor/Pipeline.antt =====
-- Two stages on the wire: execute_source of the first and execute_intermediate of the second against
-- execute_source of one machine,
-- src/native/dli_stage_cpp/src/runtimes/llama_cpu_executor.cpp.
use distributed_layer_infere.Common.{
  ℕ, suc, ◌+◌, ◌*◌, ◌≤◌, ◌≡◌, ap, ◌∙◌, arith, Option, none, some, List, [], ◌∷◌, length, ok, ◌>>=◌,
  ok_parts, Bytes, codes, ℤ, pos, pos_part, eqb_ℤ_iff,
}
use distributed_layer_infere.Stage.Executor.{
  Floats, LlamaExecutorHyperparams, ShardTensor, Shard, with_data, require_tensor,
  tensor_row_to_float,
}
use distributed_layer_infere.Stage.Executor.Layer.{resized, overwritten}
use distributed_layer_infere.Stage.Executor.Stored.{length-resized, length-overwritten}
use distributed_layer_infere.Stage.Executor.Lengths.{
  HasLength, HasLength-bind, HasLength-bind_eq, suc_times,
}
use distributed_layer_infere.Stage.Executor.Sampling.{Sampler}
use distributed_layer_infere.Stage.Executor.Executed.{
  FloatBits, embedding_checked, token_in_range, embed_tokens, embedded,
}
use native.Mathlib.Nat.{mul-le-mul_right}

-- What ggml documents: a gathered row has ne0 elements.
abbrev pub GathersRows : {F : Type 0} → Shard F → Type 0
GathersRows {F} shard =
    (name : Bytes) (tensor : ShardTensor F) (row : ℤ) (x : List F)
    → shard name ≡ some tensor
    → tensor.gathered row ≡ ok x
    → pos (length x) ≡ tensor.ne0

module _ {F D G : Type 0} (floats : Floats F D) (float_bits : FloatBits F)
    (hp : LlamaExecutorHyperparams F) (shard : Shard F) (sampler : Sampler F D G)
    (gathers : GathersRows shard) where
  found_with_data :
      (name : Bytes) (o : Option (ShardTensor F)) (tensor : ShardTensor F)
      → with_data name o ≡ ok tensor
      → o ≡ some tensor
  found_with_data name none tensor h = cc
  found_with_data name (some found) tensor h = ground arith

  required :
      (name : Bytes) (tensor : ShardTensor F)
      → require_tensor shard name ≡ ok tensor
      → shard name ≡ some tensor
  unfolding require_tensor
  required name tensor h = found_with_data name (shard name) tensor h

  gathered_by :
      (tensor : ShardTensor F) (id : ℤ) (x : List F)
      → tensor_row_to_float shard tensor id ≡ ok x
      → tensor.gathered id ≡ ok x
  unfolding tensor_row_to_float
  gathered_by tensor id x h = ground arith

  checked_by :
      (tensor e : ShardTensor F)
      → embedding_checked floats float_bits hp shard sampler tensor ≡ ok e
      → (tensor ≡ e) × (tensor.ne0 ≡ pos hp.hidden_size)
  checked_by tensor e h = (ground arith, ground (arith, eqb_ℤ_iff tensor.ne0 (pos hp.hidden_size)))

  -- The embedding that was found gives rows of the model's width.
  row_length :
      (embedding : ShardTensor F)
      → (require_tensor shard (codes "token_embd.weight")
          >>= embedding_checked floats float_bits hp shard sampler)
        ≡ ok embedding
      → (id : ℤ) (x : List F) → tensor_row_to_float shard embedding id ≡ ok x
      → length x ≡ hp.hidden_size
  row_length embedding found id x e =
      let (tensor, there, passed) =
        ok_parts (require_tensor shard (codes "token_embd.weight"))
          (embedding_checked floats float_bits hp shard sampler) found in
      let (same, width) = checked_by tensor embedding passed in
      let row : tensor.gathered id ≡ ok x =
        ap (λ (t : ShardTensor F). t.gathered id) same ∙ gathered_by embedding id x e in
      let size : pos (length x) ≡ pos hp.hidden_size =
        gathers (codes "token_embd.weight") tensor id x
          (required (codes "token_embd.weight") tensor there) row
        ∙ width in
      ap pos_part size

  embed_tokens-HasLength :
      (embedding : ShardTensor F)
      → ((id : ℤ) (x : List F)
          → tensor_row_to_float shard embedding id ≡ ok x
          → length x ≡ hp.hidden_size)
      → (tokens : List ℤ) (t n : ℕ) (hidden : List F) → length hidden ≡ n * hp.hidden_size
      → t + length tokens ≤ n
      → HasLength
          (n * hp.hidden_size)
          (embed_tokens floats float_bits hp shard sampler embedding tokens t hidden)
  unfolding embed_tokens
  embed_tokens-HasLength embedding wide [] t n hidden whole room = whole
  embed_tokens-HasLength embedding wide (token ∷ tokens) t n hidden whole room =
      let w = hp.hidden_size in
      HasLength-bind (n * w) (token_in_range floats float_bits hp shard sampler token) _ (λ id.
        HasLength-bind_eq (n * w) (tensor_row_to_float shard embedding id) _ (λ row e.
          let inside = mul-le-mul_right {m = suc t} {n = n} w (omega arith) in
          let step : suc t * w ≡ t * w + w = suc_times t w in
          embed_tokens-HasLength embedding wide tokens (suc t) n (overwritten (t * w) row hidden)
            (length-overwritten (t * w) row hidden
                (omega (arith, inside, step, wide id row e, whole))
              ∙ whole)
            (omega arith)))

  pub embedded-HasLength :
      (tokens : List ℤ)
      → HasLength
          (length tokens * hp.hidden_size)
          (embedded floats float_bits hp shard sampler tokens)
  embedded-HasLength tokens =
      HasLength-bind_eq (length tokens * hp.hidden_size)
        (require_tensor shard (codes "token_embd.weight")
          >>= embedding_checked floats float_bits hp shard sampler)
        _
        (λ embedding found.
          embed_tokens-HasLength embedding (row_length embedding found) tokens 0 (length tokens)
            (resized floats.nought (length tokens * hp.hidden_size) [])
            (length-resized floats.nought (length tokens * hp.hidden_size) []) (omega arith))
