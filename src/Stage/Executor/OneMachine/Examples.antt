-- ===== src/Stage/Executor/OneMachine/Examples.antt =====
-- Two tokens on two stages with one layer each, on floats of one bit.
use distributed_layer_infere.Common.{
  ℕ, ◌<◌, ◌≡◌, refl, arith, Bool, true, false, not, ◌&&◌, ◌||◌, ◌==◌, some, [], ◌∷◌, length, ok,
  ◌>>=◌, ◌^◌, codes, pos, eqb,
}
use mathlib.Core.Path.{subst}
use distributed_layer_infere.Protocol.{read_u64_le}
use distributed_layer_infere.Tensor.{
  TensorBuffer, validate_token_ids_tensor, validate_little_endian, validate_tensor_byte_size,
  product_shape, dtype_size_bytes,
}
use distributed_layer_infere.Stage.Executor.{
  Floats, LlamaExecutorHyperparams, ShardTensor, Shard, check_hyperparams,
}
use distributed_layer_infere.Stage.Executor.Layer.{LayerKvCache}
use distributed_layer_infere.Stage.Executor.Stored.{Agrees}
use distributed_layer_infere.Stage.Executor.Tensors.{
  is_half, read_i64_le, read_each, tensor_to_token_ids,
}
use distributed_layer_infere.Stage.Executor.Sampling.{Sampler}
use distributed_layer_infere.Stage.Executor.Executed.{
  FloatBits, ExecutorState, execute_source, execute_intermediate,
}
use distributed_layer_infere.Stage.Executor.Pipeline.{GathersRows}
use distributed_layer_infere.Stage.Executor.OneMachine.{IsLossless, execute_distributed}

abbrev one_bit : Floats Bool Bool
one_bit = record {
  nought = false;
  one = true;
  minus_infinity = false;
  of_int = λ n. true;
  negate = λ a. a;
  plus = λ a b. a || b;
  minus = λ a b. a;
  times = λ a b. a && b;
  over = λ a b. a;
  sqrt = λ a. a;
  exp = λ a. true;
  cos = λ a. true;
  sin = λ a. false;
  pow = λ a b. a;
  less = λ a b. not a && b;
  at_most = λ a b. not a || b;
  widened = λ a. a;
  narrowed = λ a. a;
  double_nought = false;
  double_of_int = λ n. true;
  double_plus = λ a b. a || b;
  double_times = λ a b. a && b;
  double_over = λ a b. a;
}

abbrev bit_of : Bool → ℕ
bit_of true = 1
bit_of false = 0

abbrev bit_floats : FloatBits Bool
bit_floats = record { of_bits = λ n. not (n == 0); bits = bit_of }

bit_back : (b : Bool) → not (bit_of b == 0) ≡ b
bit_back true = refl
bit_back false = refl

bit_word : (b : Bool) → bit_of b < 2 ^ 32
bit_word true = omega arith
bit_word false = omega arith

bit_floats-IsLossless : IsLossless bit_floats
bit_floats-IsLossless = record { same = bit_back; word = bit_word }

abbrev hyperparams : LlamaExecutorHyperparams Bool
hyperparams = record {
  architecture = codes "llama";
  hidden_size = 1;
  ffn_size = 1;
  n_head = 1;
  n_head_kv = 1;
  head_dim = 1;
  vocab_size = 4;
  rms_eps = true;
  rope_theta = true;
}

hyperparams_accepted : check_hyperparams hyperparams ≡ ok tt
unfolding check_hyperparams eqb
hyperparams_accepted = refl

abbrev bit_tensor : ShardTensor Bool
bit_tensor = record {
  ne0 = pos 1;
  ne1 = pos 4;
  has_data = true;
  gathered = λ row. ok (true ∷ []);
  product = λ x. ok x;
}

abbrev bit_shard : Shard Bool
bit_shard = λ name. some bit_tensor

bit_shard-GathersRows : GathersRows bit_shard
bit_shard-GathersRows name tensor row x found e =
    let same : bit_tensor ≡ tensor = cc in
    subst (λ (t : ShardTensor Bool). t.gathered row ≡ ok x → pos (length x) ≡ t.ne0) same
      (λ e'. let there : true ∷ [] ≡ x = cc in subst (λ y. pos (length y) ≡ pos 1) there refl) e

abbrev still : Sampler Bool Bool (Unit {0})
still = record {
  sorted = λ candidates. candidates;
  seeded = λ seed. tt;
  from_device = λ rng. rng;
  draw = λ rng. (rng, true);
  double_exp = λ a. a;
  double_less = λ a b. not a && b;
  double_at_most = λ a b. not a || b;
}

abbrev two_tokens : TensorBuffer
two_tokens = record {
  metadata = record {
    dtype = codes "int64";
    shape = pos 1 ∷ pos 2 ∷ [];
    byte_order = codes "little";
  };
  bytes = 3 ∷ 0 ∷ 0 ∷ 0 ∷ 0 ∷ 0 ∷ 0 ∷ 0 ∷ 1 ∷ 0 ∷ 0 ∷ 0 ∷ 0 ∷ 0 ∷ 0 ∷ 0 ∷ [];
}

two_tokens_read : tensor_to_token_ids two_tokens ≡ ok (pos 3 ∷ pos 1 ∷ [])
unfolding tensor_to_token_ids read_each read_i64_le read_u64_le validate_token_ids_tensor
    validate_little_endian validate_tensor_byte_size product_shape dtype_size_bytes eqb
two_tokens_read = refl

abbrev no_cache : LayerKvCache Bool
no_cache = record { seq_len = 0; k = []; v = [] }

abbrev stale : LayerKvCache Bool
stale = record { seq_len = 1; k = true ∷ []; v = false ∷ [] }

abbrev machine : LayerKvCache Bool → ExecutorState Bool (Unit {0})
machine cache = record { layer_cache = λ layer. cache; rng = tt }

no_position : Agrees one_bit hyperparams 0 no_cache stale
no_position = record {
  sized = record { k_size = refl; v_size = refl };
  sized' = record { k_size = refl; v_size = refl };
  within = omega arith;
  within' = omega arith;
  same_k = refl;
  same_v = refl;
}

fp32_is_full : is_half (codes "fp32") ≡ false
unfolding eqb
fp32_is_full = refl

execute_distributed_example :
    (execute_source one_bit bit_floats hyperparams bit_shard still two_tokens
      (pos 0 ∷ pos 1 ∷ [])
      0
      (codes "fp16")
      (machine no_cache)).1
    ≡ ((execute_source one_bit bit_floats hyperparams bit_shard still two_tokens
          (pos 0 ∷ [])
          0
          (codes "fp32")
          (machine stale)).1
        >>= λ t.
            (execute_intermediate one_bit bit_floats hyperparams bit_shard still t
              (pos 1 ∷ [])
              0
              (codes "fp16")
              (machine stale)).1)
execute_distributed_example =
    execute_distributed one_bit bit_floats hyperparams bit_shard still (pos 0 ∷ []) (pos 1 ∷ []) 0
      (codes "fp16") (codes "fp32") (machine no_cache) (machine stale) (machine stale)
      hyperparams_accepted bit_floats-IsLossless bit_shard-GathersRows fp32_is_full ((refl, tt), tt)
      (no_position, tt) (no_position, tt) two_tokens (pos 3 ∷ pos 1 ∷ []) two_tokens_read
      (omega arith) (omega arith)
