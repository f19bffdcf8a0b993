-- ===== src/Stage/Executor/Examples.antt =====
-- A model with one head of one number, on natural numbers for floats.
use distributed_layer_infere.Common.{
  ℕ, ◌≡◌, refl, arith, true, some, [], ◌∷◌, ◌+◌, ◌-◌, ◌*◌, ltb, leb, ok, ◌>>=◌, map, codes, pos,
  eqb_ℤ, eqb, if◌then◌else◌,
}
use distributed_layer_infere.Stage.Executor.{
  Floats, LlamaExecutorHyperparams, ShardTensor, Shard, check_hyperparams, require_tensor,
  tensor_row_to_float, tensor_vector_to_float, matvec, rms_norm, rotate, apply_rope,
}
use distributed_layer_infere.Stage.Executor.Attention.{
  scores, head_context, heads, compute_attention_scalar,
}
use distributed_layer_infere.Stage.Executor.Layer.{
  LayerKvCache, Caches, resized, overwritten, stored, attention, projected, transformed, token_row,
  token_loop, run_layer, run_layers,
}
use distributed_layer_infere.Stage.Executor.Stored.{Agrees}
use distributed_layer_infere.Stage.Executor.Sequence.{AgreeBehind, run_layers_agree}
use distributed_layer_infere.Stage.Executor.Half.{f16_bits_to_float, float_to_f16_bits}
use distributed_layer_infere.Stage.Executor.Tensors.{
  is_half, tensor_to_hidden_f32, float_hidden_to_tensor,
}
use distributed_layer_infere.Stage.Executor.Passed.{
  halved, carried, tensor_to_hidden_f32-float_hidden_to_tensor,
}

abbrev naturals : Floats ℕ ℕ
naturals = record {
  nought = 0;
  one = 1;
  minus_infinity = 0;
  of_int = λ n. n;
  negate = λ n. n;
  plus = λ m n. m + n;
  minus = λ m n. m - n;
  times = λ m n. m * n;
  over = λ m n. m;
  sqrt = λ n. n;
  exp = λ n. n + 1;
  cos = λ n. 1;
  sin = λ n. 0;
  pow = λ m n. m;
  less = λ m n. ltb m n;
  at_most = λ m n. leb m n;
  widened = λ n. n;
  narrowed = λ n. n;
  double_nought = 0;
  double_of_int = λ n. n;
  double_plus = λ m n. m + n;
  double_times = λ m n. m * n;
  double_over = λ m n. m;
}

abbrev small : LlamaExecutorHyperparams ℕ
small = record {
  architecture = codes "llama";
  hidden_size = 1;
  ffn_size = 1;
  n_head = 1;
  n_head_kv = 1;
  head_dim = 1;
  vocab_size = 4;
  rms_eps = 0;
  rope_theta = 1;
}

abbrev unit_tensor : ShardTensor ℕ
unit_tensor = record {
  ne0 = pos 1;
  ne1 = pos 1;
  has_data = true;
  gathered = λ row. ok (1 ∷ []);
  product = λ x. ok x;
}

abbrev unit_shard : Shard ℕ
unit_shard = λ name. some unit_tensor

abbrev empty_cache : LayerKvCache ℕ
empty_cache = record { seq_len = 0; k = []; v = [] }

-- What a former sequence of two tokens left behind.
abbrev stale_cache : LayerKvCache ℕ
stale_cache = record { seq_len = 2; k = 5 ∷ 6 ∷ []; v = 7 ∷ 8 ∷ [] }

abbrev fresh : Caches ℕ
fresh = λ layer. empty_cache

abbrev used : Caches ℕ
used = λ layer. if eqb_ℤ layer (pos 3) then stale_cache else empty_cache

small_accepted : check_hyperparams small ≡ ok tt
unfolding check_hyperparams eqb
small_accepted = refl

agree_at_start : Agrees naturals small 0 empty_cache stale_cache
agree_at_start = record {
  sized = record { k_size = refl; v_size = refl };
  sized' = record { k_size = refl; v_size = refl };
  within = omega arith;
  within' = omega arith;
  same_k = refl;
  same_v = refl;
}

run_layers_agree_example :
    ((run_layers naturals small unit_shard (pos 3 ∷ []) (2 ∷ 4 ∷ []) 2 0 fresh).1
      ≡ (run_layers naturals small unit_shard (pos 3 ∷ []) (2 ∷ 4 ∷ []) 2 0 used).1)
    × AgreeBehind naturals small 2
        (pos 3 ∷ [])
        (run_layers naturals small unit_shard (pos 3 ∷ []) (2 ∷ 4 ∷ []) 2 0 fresh)
        (run_layers naturals small unit_shard (pos 3 ∷ []) (2 ∷ 4 ∷ []) 2 0 used)
run_layers_agree_example =
    run_layers_agree naturals small unit_shard (pos 3 ∷ []) (2 ∷ 4 ∷ []) 2 0 fresh used
      small_accepted (agree_at_start, tt)

-- Both tokens are computed, so that the example is no agreement of exceptions.
two_tokens :
    (run_layers naturals small unit_shard (pos 3 ∷ []) (2 ∷ 4 ∷ []) 2 0 used).1 ≡ ok (20 ∷ 110 ∷ [])
unfolding run_layers run_layer token_loop token_row projected transformed attention stored
    overwritten resized compute_attention_scalar heads head_context scores apply_rope rotate
    rms_norm matvec tensor_vector_to_float tensor_row_to_float require_tensor
two_tokens = refl

-- One token of two numbers at half precision: 1.0 as a float32, and a number that float16 rounds.
tensor_to_hidden_f32-float_hidden_to_tensor_example :
    (float_hidden_to_tensor 2 (1065353216 ∷ 1065353217 ∷ []) 1 1 (codes "fp16")
      >>= tensor_to_hidden_f32 2)
    ≡ ok (map (carried (is_half (codes "fp16"))) (1065353216 ∷ 1065353217 ∷ []))
tensor_to_hidden_f32-float_hidden_to_tensor_example =
    tensor_to_hidden_f32-float_hidden_to_tensor 2 1 (1065353216 ∷ 1065353217 ∷ []) (codes "fp16")
      (omega arith) (omega arith) (omega arith) refl (omega arith, (omega arith, tt))

-- 1.99999 has the mantissa 0x7ffff0: its carry is lost on the exponent of 1.0.
carry_is_lost : halved 1073741808 ≡ 1065353216
unfolding f16_bits_to_float float_to_f16_bits
carry_is_lost = refl
