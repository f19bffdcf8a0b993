-- ===== src/Stage/Executor.antt =====
-- The layer executor: the constructor, the tensors of the shard, rms_norm and apply_rope of
-- src/native/dli_stage_cpp/src/runtimes/llama_cpu_executor.cpp. A float and a double are parameters
-- with the operations that the code uses, in its order of evaluation; what ggml computes is a part of
-- a tensor. The hyperparameters are natural numbers: the constructor refuses a negative one as it
-- refuses zero. Products of int are not bounded.
pub mod Attention
pub mod Reads
pub mod Layer
pub mod Stored
pub mod Agree
pub mod Sequence
pub mod Distributed
pub mod Half
pub mod Tensors
pub mod Carried
pub mod Passed
pub mod Sampling
pub mod Executed
pub mod Lengths
pub mod Pipeline
pub mod OneMachine
mod Examples
use distributed_layer_infere.Common.{
  ℕ, zero, suc, ◌+◌, ◌*◌, ◌/◌, ◌%◌, Bool, true, false, not, ◌||◌, if◌then◌else◌, ltb, leb, ◌==◌,
  Option, none, some, List, [], ◌∷◌, ◌++◌, map, length, get_or, Result, ok, err, ◌>>=◌, Bytes,
  codes, eqb, decimal, to_string, ℤ, pos, negsuc, ltb_ℤ, eqb_ℤ,
}
use mathlib.Core.List.{foldl}

pub record Floats (F D : Type 0) : Type 0 where
  pub nought : F
  pub one : F
  pub minus_infinity : F
  pub of_int : ℕ → F
  pub negate : F → F
  pub plus : F → F → F
  pub minus : F → F → F
  pub times : F → F → F
  pub over : F → F → F
  pub sqrt : F → F
  pub exp : F → F
  pub cos : F → F
  pub sin : F → F
  pub pow : F → F → F
  pub less : F → F → Bool
  pub at_most : F → F → Bool
  pub widened : F → D
  pub narrowed : D → F
  pub double_nought : D
  pub double_of_int : ℕ → D
  pub double_plus : D → D → D
  pub double_times : D → D → D
  pub double_over : D → D → D

pub record LlamaExecutorHyperparams (F : Type 0) : Type 0 where
  pub architecture : Bytes
  pub hidden_size : ℕ
  pub ffn_size : ℕ
  pub n_head : ℕ
  pub n_head_kv : ℕ
  pub head_dim : ℕ
  pub vocab_size : ℕ
  pub rms_eps : F
  pub rope_theta : F

-- `for (i = 0; i < n; ++i)`: the values of `i`, from `start` on.
abbrev pub counted : ℕ → ℕ → List ℕ
counted zero start = []
counted (suc n) start = start ∷ counted n (suc start)

abbrev pub upto : ℕ → List ℕ
upto n = counted n 0

-- A write out of range is undefined in the source and changes nothing here.
abbrev pub set {ℓ} : {A : Type ℓ} → List A → ℕ → A → List A
set [] i a = []
set (x ∷ xs) zero a = a ∷ xs
set (x ∷ xs) (suc i) a = x ∷ set xs i a

-- The checks of the constructor; a null context is not modelled.
unfoldable pub check_hyperparams :
    {F : Type 0} → LlamaExecutorHyperparams F → Result Bytes (Unit {0})
check_hyperparams hp =
    if not (eqb hp.architecture (codes "llama"))
    then err (
        codes "LlamaCpuExecutor currently supports only GGUF architecture=llama, got: "
        ++ hp.architecture)
    else if hp.hidden_size == 0
        || hp.ffn_size == 0
        || hp.n_head == 0
        || hp.n_head_kv == 0
        || hp.head_dim == 0
        || hp.vocab_size == 0
    then err (codes "LlamaCpuExecutor received incomplete hyperparameters")
    else if not (hp.n_head % hp.n_head_kv == 0)
    then err (codes "n_head must be divisible by n_head_kv")
    else if not (hp.n_head * hp.head_dim == hp.hidden_size)
    then err (codes "n_head * head_dim must equal hidden_size")
    else ok tt

-- A tensor of the shard: its dimensions, whether it has data, and what ggml gathers from a row and
-- computes as the product with a vector, or the exception thrown on the way.
pub record ShardTensor (F : Type 0) : Type 0 where
  pub ne0 : ℤ
  pub ne1 : ℤ
  pub has_data : Bool
  pub gathered : ℤ → Result Bytes (List F)
  pub product : List F → Result Bytes (List F)

-- `ggml_get_tensor`
abbrev pub Shard : Type 0 → Type 0
Shard F = Bytes → Option (ShardTensor F)

abbrev pub with_data : {F : Type 0} → Bytes → Option (ShardTensor F) → Result Bytes (ShardTensor F)
with_data name none = err (codes "required tensor not found in shard: " ++ name)
with_data name (some tensor) =
    if tensor.has_data
    then ok tensor
    else err (codes "required tensor has null data pointer: " ++ name)

module _ {F : Type 0} (shard : Shard F) where
  unfoldable pub require_tensor : Bytes → Result Bytes (ShardTensor F)
  require_tensor name = with_data name (shard name)

  unfoldable pub tensor_row_to_float : ShardTensor F → ℤ → Result Bytes (List F)
  tensor_row_to_float tensor row =
      let row_count = if ltb_ℤ (pos 0) tensor.ne1 then tensor.ne1 else pos 1 in
      if not (ltb_ℤ (pos 0) tensor.ne0)
      then err (codes "tensor has invalid row dimensions")
      else if ltb_ℤ row (pos 0) || not (ltb_ℤ row row_count)
      then err (codes "tensor row index out of range")
      else tensor.gathered row

  abbrev sized_row : Bytes → ℕ → ShardTensor F → Result Bytes (List F)
  sized_row name expected tensor =
      if not (eqb_ℤ tensor.ne0 (pos expected))
      then err (
          codes "tensor "
          ++ (name
              ++ (codes " has wrong vector size: expected "
                  ++ (decimal expected ++ (codes ", got " ++ to_string tensor.ne0)))))
      else tensor_row_to_float tensor (pos 0)

  unfoldable pub tensor_vector_to_float : Bytes → ℕ → Result Bytes (List F)
  tensor_vector_to_float name expected = require_tensor name >>= sized_row name expected

  abbrev multiplied : Bytes → List F → ShardTensor F → Result Bytes (List F)
  multiplied name x weight =
      if not (ltb_ℤ (pos 0) weight.ne0) || not (ltb_ℤ (pos 0) weight.ne1)
      then err (codes "linear tensor has invalid shape: " ++ name)
      else if not (eqb_ℤ (pos (length x)) weight.ne0)
      then err (
          codes "matvec input size mismatch for "
          ++ (name
              ++ (codes ": expected "
                  ++ (to_string weight.ne0 ++ (codes ", got " ++ decimal (length x))))))
      else weight.product x

  unfoldable pub matvec : Bytes → List F → Result Bytes (List F)
  matvec name x = require_tensor name >>= multiplied name x

module _ {F D : Type 0} (floats : Floats F D) (hp : LlamaExecutorHyperparams F) where
  abbrev square_sum : List F → D
  square_sum x =
      foldl
        (λ sum v.
          floats.double_plus sum (floats.double_times (floats.widened v) (floats.widened v)))
        floats.double_nought x

  abbrev rms_scale : List F → F
  rms_scale x =
      let mean = floats.double_over (square_sum x) (floats.double_of_int (length x)) in
      floats.over floats.one (floats.sqrt (floats.plus (floats.narrowed mean) hp.rms_eps))

  unfoldable pub rms_norm : List F → List F → Result Bytes (List F)
  rms_norm x weight =
      let scale = rms_scale x in
      let scaled = λ (i : ℕ).
        floats.times (floats.times (get_or x i floats.nought) scale)
          (get_or weight i floats.nought) in
      if not (length x == length weight)
      then err (codes "rms_norm input and weight sizes differ")
      else ok (map scaled (upto (length x)))

  -- `rope_inv_freq_[i]`, for an even `i`.
  abbrev inv_freq : ℕ → F
  inv_freq i =
      floats.pow hp.rope_theta
        (floats.over (floats.negate (floats.of_int i)) (floats.of_int hp.head_dim))

  abbrev rotated_pair : ℕ → ℕ → List F → ℕ → List F
  rotated_pair position base x i =
      let angle = floats.times (floats.of_int position) (inv_freq i) in
      let c = floats.cos angle in
      let s = floats.sin angle in
      let x0 = get_or x (base + i) floats.nought in
      let x1 = get_or x (base + i + 1) floats.nought in
      set (set x (base + i) (floats.minus (floats.times x0 c) (floats.times x1 s))) (base + i + 1)
        (floats.plus (floats.times x0 s) (floats.times x1 c))

  -- The first of each pair: 0, 2, 4, ... below the head's dimension.
  abbrev evens : List ℕ
  evens = map (λ i. 2 * i) (upto ((hp.head_dim + 1) / 2))

  unfoldable pub rotate : ℕ → List F → ℕ → List F
  rotate position x heads =
      foldl (λ y h. foldl (rotated_pair position (h * hp.head_dim)) y evens) x (upto heads)

  unfoldable pub apply_rope : List F → List F → ℕ → List F × List F
  apply_rope q k position = (rotate position q hp.n_head, rotate position k hp.n_head_kv)
