-- ===== src/Stage/Executor/Tensors.antt =====
-- Tensors in and out of the executor: the readers and writers of little-endian words,
-- tensor_to_hidden_f32, tensor_to_token_ids and float_hidden_to_tensor of
-- src/native/dli_stage_cpp/src/runtimes/llama_cpu_executor.cpp. A float is the number of its 32 bits.
use distributed_layer_infere.Common.{
  ℕ, zero, suc, ◌+◌, ◌-◌, ◌*◌, ◌^◌, Bool, true, false, not, ◌||◌, if◌then◌else◌, ltb, List, [], ◌∷◌,
  ◌++◌, length, get_or, drop, Result, ok, err, ◌>>=◌, Bytes, codes, eqb, bit_or, ℤ, pos, negsuc,
  pos_part, eqb_ℤ,
}
use distributed_layer_infere.Protocol.{byte_at, read_u64_le}
use distributed_layer_infere.Tensor.{
  TensorBuffer, TensorError, validate_hidden_states_tensor, validate_token_ids_tensor,
}
use distributed_layer_infere.Stage.Executor.Layer.{resized, overwritten}
use distributed_layer_infere.Stage.Executor.Half.{float_to_f16_bits, f16_bits_to_float}

-- An exception of the executor, or one of the tensor ABI.
pub data ExecutorError : Type 0 where
  thrown : Bytes → ExecutorError
  refused : TensorError → ExecutorError

abbrev pub checked : {A : Type 0} → Result TensorError A → Result ExecutorError A
checked (ok a) = ok a
checked (err e) = err (refused e)

-- `static_cast<std::int64_t>`
abbrev pub as_int64 : ℕ → ℤ
as_int64 n = if ltb n (2 ^ 63) then pos n else negsuc (2 ^ 64 - 1 - n)

unfoldable pub read_i64_le : Bytes → ℕ → Result ExecutorError ℤ
read_i64_le bytes offset =
    if ltb (length bytes) (offset + 8)
    then err (thrown (codes "cannot read int64 past token tensor"))
    else ok (as_int64 (read_u64_le (drop offset bytes)))

unfoldable pub read_f32_le : Bytes → ℕ → Result ExecutorError ℕ
read_f32_le bytes offset =
    let byte = λ (i : ℕ). get_or bytes (offset + i) 0 in
    if ltb (length bytes) (offset + 4)
    then err (thrown (codes "cannot read float32 past hidden tensor"))
    else ok (
        bit_or (bit_or (bit_or (bit_or 0 (byte 0)) (byte 1 * 2 ^ 8)) (byte 2 * 2 ^ 16))
          (byte 3 * 2 ^ 24))

abbrev pub f32_bytes : ℕ → Bytes
f32_bytes raw = byte_at raw 0 ∷ byte_at raw 8 ∷ byte_at raw 16 ∷ byte_at raw 24 ∷ []

unfoldable pub write_f32_le : Bytes → ℕ → ℕ → Result ExecutorError Bytes
write_f32_le bytes offset value = ok (overwritten offset (f32_bytes value) bytes)

unfoldable pub read_f16_le : Bytes → ℕ → Result ExecutorError ℕ
read_f16_le bytes offset =
    if ltb (length bytes) (offset + 2)
    then err (thrown (codes "cannot read float16 past hidden tensor"))
    else ok
        (f16_bits_to_float (bit_or (get_or bytes offset 0) (get_or bytes (offset + 1) 0 * 2 ^ 8)))

abbrev pub f16_bytes : ℕ → Bytes
f16_bytes raw = byte_at raw 0 ∷ byte_at raw 8 ∷ []

unfoldable pub write_f16_le : Bytes → ℕ → ℕ → Result ExecutorError Bytes
write_f16_le bytes offset value =
    if ltb (length bytes) (offset + 2)
    then err (thrown (codes "cannot write float16 past hidden tensor"))
    else ok (overwritten offset (f16_bytes (float_to_f16_bits value)) bytes)

-- The loops over `i`, for elements of `width` bytes: the ones that are left, from `i` on.
unfoldable pub read_each :
    {A : Type 0}
    → (Bytes → ℕ → Result ExecutorError A)
    → ℕ
    → Bytes
    → ℕ
    → ℕ
    → Result ExecutorError (List A)
read_each read width bytes zero i = ok []
read_each read width bytes (suc left) i = read bytes (i * width) >>= λ value.
    read_each read width bytes left (suc i) >>= λ values. ok (value ∷ values)

unfoldable pub write_each :
    (Bytes → ℕ → ℕ → Result ExecutorError Bytes)
    → ℕ
    → List ℕ
    → ℕ
    → Bytes
    → Result ExecutorError Bytes
write_each write width [] i bytes = ok bytes
write_each write width (v ∷ vs) i bytes =
    write bytes (i * width) v >>= λ written. write_each write width vs (suc i) written

abbrev dimension : TensorBuffer → ℕ → ℤ
dimension tensor i = get_or tensor.metadata.shape i (pos 0)

abbrev one_batch : TensorBuffer → Result ExecutorError (Unit {0})
one_batch tensor =
    if not (eqb_ℤ (dimension tensor 0) (pos 1))
    then err (thrown (codes "CPU reference executor currently supports batch=1"))
    else ok tt

-- The dimensions were found positive.
abbrev hidden_count : TensorBuffer → ℕ
hidden_count tensor =
    pos_part (dimension tensor 0) * pos_part (dimension tensor 1) * pos_part (dimension tensor 2)

abbrev pub read_hidden : TensorBuffer → Result ExecutorError (List ℕ)
read_hidden tensor =
    let dtype = tensor.metadata.dtype in
    if eqb dtype (codes "float32")
    then read_each read_f32_le 4 tensor.bytes (hidden_count tensor) 0
    else if eqb dtype (codes "float16")
    then read_each read_f16_le 2 tensor.bytes (hidden_count tensor) 0
    else err (thrown (codes "unsupported hidden-state dtype: " ++ dtype))

unfoldable pub tensor_to_hidden_f32 : ℕ → TensorBuffer → Result ExecutorError (List ℕ)
tensor_to_hidden_f32 hidden_size tensor =
    checked (validate_hidden_states_tensor tensor (pos hidden_size) true) >>= λ _.
    one_batch tensor >>= λ _. read_hidden tensor

unfoldable pub tensor_to_token_ids : TensorBuffer → Result ExecutorError (List ℤ)
tensor_to_token_ids tensor = checked (validate_token_ids_tensor tensor) >>= λ _.
    one_batch tensor >>= λ _. read_each read_i64_le 8 tensor.bytes (pos_part (dimension tensor 1)) 0

abbrev pub is_half : Bytes → Bool
is_half precision = eqb precision (codes "fp16") || eqb precision (codes "float16")

abbrev pub hidden_tensor : Bool → ℕ → ℕ → ℕ → Bytes → TensorBuffer
hidden_tensor use_f16 hidden_size batch seq_len bytes = record {
  metadata = record {
    dtype = if use_f16 then codes "float16" else codes "float32";
    shape = pos batch ∷ pos seq_len ∷ pos hidden_size ∷ [];
    byte_order = codes "little";
  };
  bytes = bytes;
}

abbrev pub hidden_bytes : Bool → List ℕ → Result ExecutorError Bytes
hidden_bytes true hidden = write_each write_f16_le 2 hidden 0 (resized 0 (length hidden * 2) [])
hidden_bytes false hidden = write_each write_f32_le 4 hidden 0 (resized 0 (length hidden * 4) [])

unfoldable pub float_hidden_to_tensor :
    ℕ → List ℕ → ℕ → ℕ → Bytes → Result ExecutorError TensorBuffer
float_hidden_to_tensor hidden_size hidden batch seq_len activation_precision =
    hidden_bytes (is_half activation_precision) hidden >>= λ bytes.
    ok (hidden_tensor (is_half activation_precision) hidden_size batch seq_len bytes)
