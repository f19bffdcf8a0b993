-- ===== src/Stage/Executor/OneMachine.antt =====
-- A model cut across two stages against the model on one machine: execute_source and
-- execute_intermediate of src/native/dli_stage_cpp/src/runtimes/llama_cpu_executor.cpp, with the
-- hidden states as a float32 tensor between them.
mod Examples
use distributed_layer_infere.Common.{
  ℕ, zero, suc, ◌+◌, ◌*◌, ◌%◌, ◌^◌, ◌<◌, ◌≤◌, ◌≡◌, refl, sym, ap, ◌∙◌, arith, Bool, true, false,
  if◌then◌else◌, List, [], ◌∷◌, ◌++◌, map, length, All, Result, ok, err, ◌>>=◌, Result-cases, inl,
  inr, Bytes, codes, ℤ, pos, pos_part, ltb,
}
use distributed_layer_infere.Tensor.{TensorBuffer, to_int32}
use distributed_layer_infere.Stage.Executor.{
  Floats, LlamaExecutorHyperparams, Shard, check_hyperparams,
}
use distributed_layer_infere.Stage.Executor.Layer.{run_layers}
use distributed_layer_infere.Stage.Executor.Stored.{Agrees}
use distributed_layer_infere.Stage.Executor.Distributed.{Disjoint, run_layers_distributed}
use distributed_layer_infere.Stage.Executor.Lengths.{HasLength, run_layers-HasLength}
use distributed_layer_infere.Stage.Executor.Tensors.{
  ExecutorError, thrown, is_half, hidden_tensor, hidden_bytes, float_hidden_to_tensor,
  tensor_to_hidden_f32, tensor_to_token_ids,
}
use distributed_layer_infere.Stage.Executor.Carried.{rows, length-rows}
use distributed_layer_infere.Stage.Executor.Passed.{
  IsWord, written_row, written_width, hidden_bytes-rows, length-written, carried, read_rows,
  read_tensor,
}
use distributed_layer_infere.Stage.Executor.Sampling.{Sampler}
use distributed_layer_infere.Stage.Executor.Executed.{
  FloatBits, ExecutorState, lifted, embedded, through_layers, tensor_of, with_tensor, source_tokens,
  execute_source, seq_len_of, hidden_of, execute_intermediate,
}
use distributed_layer_infere.Stage.Executor.Pipeline.{GathersRows, embedded-HasLength}

-- std::memcpy of a float to 32 bits and back gives the float.
pub record IsLossless {F : Type 0} (float_bits : FloatBits F) : Type 0 where
  pub same : (f : F) → float_bits.of_bits (float_bits.bits f) ≡ f
  pub word : (f : F) → float_bits.bits f < 2 ^ 32

module _ {F : Type 0} (float_bits : FloatBits F) (lossless : IsLossless float_bits) where
  returned : (h : List F) → map float_bits.of_bits (map (carried false) (map float_bits.bits h)) ≡ h
  returned [] = refl
  returned (x ∷ xs) =
      ap (λ y. y ∷ map float_bits.of_bits (map (carried false) (map float_bits.bits xs)))
        (lossless.same x)
      ∙ ap (λ ys. x ∷ ys) (returned xs)

  words : (h : List F) → All IsWord (map float_bits.bits h)
  words [] = tt
  words (x ∷ xs) = (lossless.word x, words xs)

  length-bits : (h : List F) → length (map float_bits.bits h) ≡ length h
  length-bits [] = refl
  length-bits (x ∷ xs) = ap suc (length-bits xs)

same_int32 : (n : ℕ) → n < 2 ^ 31 → pos_part (to_int32 n) ≡ n
same_int32 n h = ground arith

factor_lt : (s w b : ℕ) → 0 < w → s * w < b → s < b
factor_lt s zero b h k = elim h [ ]
factor_lt s (suc w) b h k = omega arith

module _ {F D G : Type 0} (floats : Floats F D) (float_bits : FloatBits F)
    (hp : LlamaExecutorHyperparams F) (shard : Shard F) (sampler : Sampler F D G)
    (lossless : IsLossless float_bits) (some_hidden : 0 < hp.hidden_size) where
  -- The tensor that carries hidden states at full precision.
  full_tensor : ℕ → List F → TensorBuffer
  full_tensor seq_len h =
      hidden_tensor false hp.hidden_size 1 seq_len
        (rows (written_row false) (map float_bits.bits h))

  abbrev made : Bool → ℕ → Bytes → Result ExecutorError TensorBuffer
  made b seq_len bytes = ok (hidden_tensor b hp.hidden_size 1 seq_len bytes)

  tensor_of-full :
      (seq_len : ℕ) (precision : Bytes) (h : List F)
      → is_half precision ≡ false
      → tensor_of floats float_bits hp shard sampler seq_len precision h
        ≡ ok (full_tensor seq_len h)
  unfolding float_hidden_to_tensor full_tensor
  tensor_of-full seq_len precision h full =
      let values = map float_bits.bits h in
      ap (λ b. hidden_bytes b values >>= made b seq_len) full
      ∙ ap (λ o. o >>= made false seq_len) (hidden_bytes-rows false values)

  hidden_of-full :
      (seq_len : ℕ) (h : List F)
      → 0 < seq_len
      → seq_len * hp.hidden_size < 2 ^ 31
      → length h ≡ seq_len * hp.hidden_size
      → hidden_of floats float_bits hp shard sampler (full_tensor seq_len h) ≡ ok h
  unfolding full_tensor
  hidden_of-full seq_len h some few size =
      let values = map float_bits.bits h in
      let bytes = rows (written_row false) values in
      let count : length values ≡ seq_len * hp.hidden_size =
        length-bits float_bits lossless h ∙ size in
      let sized : length bytes ≡ seq_len * hp.hidden_size * 4 =
        length-rows 4 (written_row false) (length-written false) values
        ∙ ap (λ (n : ℕ). n * 4) count in
      let below : seq_len * hp.hidden_size < 2 ^ 61 = omega (arith, few) in
      ap (λ o. o >>= λ vs. ok (map float_bits.of_bits vs))
        (read_tensor hp.hidden_size seq_len bytes some_hidden some below false sized
          ∙ read_rows hp.hidden_size seq_len bytes some_hidden some below false values count
              (words float_bits lossless h))
      ∙ ap ok (returned float_bits lossless h)

  seq_len_of-full :
      (seq_len : ℕ) (h : List F)
      → seq_len * hp.hidden_size < 2 ^ 31
      → seq_len_of floats float_bits hp shard sampler (full_tensor seq_len h) ≡ seq_len
  unfolding full_tensor
  seq_len_of-full seq_len h few =
      same_int32 seq_len (factor_lt seq_len hp.hidden_size (2 ^ 31) some_hidden few)

  -- What one machine and the first stage do behind the embedding.
  module _ (ms : List ℤ) (n seq_len : ℕ) (precision wire : Bytes) (state2 : ExecutorState F G)
      (full : is_half wire ≡ false) (some : 0 < seq_len)
      (few : seq_len * hp.hidden_size < 2 ^ 31) where
    abbrev second : TensorBuffer → Result ExecutorError TensorBuffer
    second t = (execute_intermediate floats float_bits hp shard sampler t ms n precision state2).1

    abbrev finished : Result Bytes (List F) → Result ExecutorError TensorBuffer
    finished o = lifted o >>= tensor_of floats float_bits hp shard sampler seq_len precision

    second_stage :
        (h : List F)
        → length h ≡ seq_len * hp.hidden_size
        → second (full_tensor seq_len h)
          ≡ finished (run_layers floats hp shard ms h seq_len n state2.layer_cache).1
    unfolding execute_intermediate
    second_stage h size =
        let run = λ (s : ℕ) (o : Result ExecutorError (List F)).
          (with_tensor floats float_bits hp shard sampler s precision state2
            (through_layers floats float_bits hp shard sampler ms s n state2.layer_cache o)).1 in
        ap (λ s. run s (hidden_of floats float_bits hp shard sampler (full_tensor seq_len h)))
          (seq_len_of-full seq_len h few)
        ∙ ap (run seq_len) (hidden_of-full seq_len h some few size)

    handed_on :
        (o : Result Bytes (List F))
        → HasLength (seq_len * hp.hidden_size) o
        → finished (o >>= λ h. (run_layers floats hp shard ms h seq_len n state2.layer_cache).1)
          ≡ ((lifted o >>= tensor_of floats float_bits hp shard sampler seq_len wire) >>= second)
    handed_on (err what) size = refl
    handed_on (ok h) size =
        sym (ap (λ o. o >>= second) (tensor_of-full seq_len wire h full) ∙ second_stage h size)

some_hidden_of :
    {F : Type 0} (hp : LlamaExecutorHyperparams F)
    → check_hyperparams hp ≡ ok tt
    → 0 < hp.hidden_size
unfolding check_hyperparams
some_hidden_of hp h = ground arith

module _ {F D G : Type 0} (floats : Floats F D) (float_bits : FloatBits F)
    (hp : LlamaExecutorHyperparams F) (shard : Shard F) (sampler : Sampler F D G) (ls ms : List ℤ)
    (n : ℕ) (precision wire : Bytes) (state state1 state2 : ExecutorState F G)
    (accepted : check_hyperparams hp ≡ ok tt) (lossless : IsLossless float_bits)
    (gathers : GathersRows shard) (full : is_half wire ≡ false) (apart : Disjoint ls ms)
    (agree1 : All (λ j. Agrees floats hp n (state.layer_cache j) (state1.layer_cache j)) ls)
    (agree2 : All (λ j. Agrees floats hp n (state.layer_cache j) (state2.layer_cache j)) ms) where
  behind_embedding :
      (seq_len : ℕ) (o : Result Bytes (List F))
      → 0 < seq_len
      → seq_len * hp.hidden_size < 2 ^ 31
      → HasLength (seq_len * hp.hidden_size) o
      → (with_tensor floats float_bits hp shard sampler seq_len precision state (
          through_layers floats float_bits hp shard sampler
            (ls ++ ms)
            seq_len
            n
            state.layer_cache
            (lifted o))).1
        ≡ ((with_tensor floats float_bits hp shard sampler seq_len wire state1 (
              through_layers floats float_bits hp shard sampler ls seq_len n state1.layer_cache
                (lifted o))).1
            >>= λ t.
                (execute_intermediate floats float_bits hp shard sampler t ms n precision state2).1)
  behind_embedding seq_len (err what) some few size = refl
  behind_embedding seq_len (ok hidden) some few size =
      let some_hidden = some_hidden_of hp accepted in
      ap (λ o. lifted o >>= tensor_of floats float_bits hp shard sampler seq_len precision)
        (run_layers_distributed floats hp shard ls ms hidden seq_len n state.layer_cache
          state1.layer_cache state2.layer_cache accepted apart agree1 agree2)
      ∙ handed_on floats float_bits hp shard sampler lossless some_hidden ms n seq_len precision
          wire state2 full some few
          (run_layers floats hp shard ls hidden seq_len n state1.layer_cache).1
          (run_layers-HasLength floats hp shard ls hidden seq_len n state1.layer_cache size)

  -- A model cut across two stages computes what it computes on one machine. The hyperparameters are
  -- accepted by the constructor, the two stages share no layer, std::memcpy of a float is lossless,
  -- ggml gathers rows of ne0 elements, and the first stage answers at full precision (neither "fp16"
  -- nor "float16"). For a token tensor with tokens, of which there is one at least and whose hidden
  -- states are less than 2^31 numbers: execute_source with the layers `ls` and then `ms` on one machine
  -- returns the tensor, or throws the exception, that comes of execute_source with `ls` on a first
  -- stage and execute_intermediate with `ms` on its tensor on a second stage. The caches of each stage
  -- need to agree with those of the one machine only at its own layers and at the `n` positions before
  -- the tokens.
  pub execute_distributed :
      (token_ids : TensorBuffer) (tokens : List ℤ)
      → tensor_to_token_ids token_ids ≡ ok tokens
      → 0 < length tokens
      → length tokens * hp.hidden_size < 2 ^ 31
      → (execute_source floats float_bits hp shard sampler token_ids (ls ++ ms) n precision state).1
        ≡ ((execute_source floats float_bits hp shard sampler token_ids ls n wire state1).1 >>= λ t.
            (execute_intermediate floats float_bits hp shard sampler t ms n precision state2).1)
  unfolding execute_source
  execute_distributed token_ids tokens read some few =
      ap (λ o. (source_tokens floats float_bits hp shard sampler (ls ++ ms) n precision state o).1)
        read
      ∙ behind_embedding (length tokens) (embedded floats float_bits hp shard sampler tokens) some
          few (embedded-HasLength floats float_bits hp shard sampler gathers tokens)
      ∙ ap
          (λ o. (source_tokens floats float_bits hp shard sampler ls n wire state1 o).1 >>= λ t.
            (execute_intermediate floats float_bits hp shard sampler t ms n precision state2).1)
          (sym read)
