-- ===== src/Tensor.antt =====
-- Tensors on the wire: src/native/dli_common_cpp/include/dli/common/tensor.hpp, its tensor.cpp and
-- the DLI2 tensor ABI of src/native/dli_common_cpp/include/dli/common/dli2_abi.hpp.
pub mod Sizes
pub mod Accepts
mod Examples
use distributed_layer_infere.Common.{
  ℕ, suc, ◌-◌, ◌*◌, ◌^◌, ◌%◌, ◌+◌, Bool, true, false, not, ◌&&◌, ◌||◌, List, [], ◌∷◌, Result, ok,
  err, ◌>>=◌, ◌>>◌, throw_if, ltb, leb, ◌==◌, if◌then◌else◌, length, get_or, Bytes, codes, eqb,
  is_empty, ℤ, pos, negsuc, pos_part, ltb_ℤ, eqb_ℤ,
}

pub record TensorMetadata : Type 0 where
  pub dtype : Bytes
  pub shape : List ℤ
  pub byte_order : Bytes

pub record TensorBuffer : Type 0 where
  pub metadata : TensorMetadata
  pub bytes : Bytes

pub data Dli2PayloadKind : Type 0 where
  token_ids hidden_states empty : Dli2PayloadKind

-- The exceptions of dli2_abi.hpp. `undefined_overflow` is no exception: it stands for the signed
-- overflow of `product *= dim`, which C++ leaves undefined.
pub data TensorError : Type 0 where
  non_positive_dimension undefined_overflow invalid_element_count unsupported_dtype : TensorError
  byte_size_mismatch unsupported_byte_order : TensorError
  token_ids_dtype token_ids_shape : TensorError
  hidden_dtype hidden_shape hidden_size_mismatch unknown_payload_kind : TensorError

abbrev pub dtype_token_ids : Bytes
dtype_token_ids = codes "int64"

abbrev pub dtype_hidden_f32 : Bytes
dtype_hidden_f32 = codes "float32"

abbrev pub dtype_hidden_f16 : Bytes
dtype_hidden_f16 = codes "float16"

abbrev pub byte_order_little : Bytes
byte_order_little = codes "little"

abbrev pub int64_max : ℕ
int64_max = 2 ^ 63 - 1

-- The loop over the dimensions; `product` starts at 1 and is multiplied by positive numbers.
product_rounds : List ℤ → ℕ → Result TensorError ℕ
product_rounds [] product = ok product
product_rounds (negsuc d ∷ dims) product = err TensorError.non_positive_dimension
product_rounds (pos d ∷ dims) product =
    let rest = product_rounds dims (product * d) in
    if leb d 0
    then err TensorError.non_positive_dimension
    else if ltb int64_max (product * d)
    then err TensorError.undefined_overflow
    else rest

unfoldable pub product_shape : List ℤ → Result TensorError ℤ
unfolding product_rounds
product_shape [] = ok (pos 0)
product_shape (d ∷ dims) = do product ← product_rounds (d ∷ dims) 1; ok (pos product)

unfoldable pub dtype_size_bytes : Bytes → Result TensorError ℕ
dtype_size_bytes dtype =
    if eqb dtype dtype_token_ids
    then ok 8
    else if eqb dtype dtype_hidden_f32
    then ok 4
    else if eqb dtype dtype_hidden_f16
    then ok 2
    else err TensorError.unsupported_dtype

-- `std::size_t` arithmetic wraps.
unfoldable pub validate_tensor_byte_size : TensorBuffer → Result TensorError (Unit {0})
validate_tensor_byte_size tensor = do
  elements ← product_shape tensor.metadata.shape
  throw_if (ltb_ℤ elements (pos 0)) TensorError.invalid_element_count
  size ← dtype_size_bytes tensor.metadata.dtype
  let expected = pos_part elements * size % 2 ^ 64
  throw_if (not (length tensor.bytes == expected)) TensorError.byte_size_mismatch

unfoldable pub validate_little_endian : TensorBuffer → Result TensorError (Unit {0})
validate_little_endian tensor =
    throw_if
      (not
        (is_empty tensor.metadata.byte_order || eqb tensor.metadata.byte_order byte_order_little))
      TensorError.unsupported_byte_order

unfoldable pub validate_token_ids_tensor : TensorBuffer → Result TensorError (Unit {0})
validate_token_ids_tensor tensor = do
  validate_little_endian tensor
  throw_if (not (eqb tensor.metadata.dtype dtype_token_ids)) TensorError.token_ids_dtype
  throw_if (not (length tensor.metadata.shape == 2)) TensorError.token_ids_shape
  validate_tensor_byte_size tensor

-- The third test of the source repeats the first and is never reached with another answer.
unfoldable pub validate_hidden_states_tensor :
    TensorBuffer → ℤ → Bool → Result TensorError (Unit {0})
validate_hidden_states_tensor tensor expected_hidden_size allow_float16 = do
  validate_little_endian tensor
  let is_f32 = eqb tensor.metadata.dtype dtype_hidden_f32
  let is_f16 = eqb tensor.metadata.dtype dtype_hidden_f16
  throw_if (not is_f32 && not (allow_float16 && is_f16)) TensorError.hidden_dtype
  throw_if (not (length tensor.metadata.shape == 3)) TensorError.hidden_shape
  throw_if
      (ltb_ℤ (pos 0) expected_hidden_size
        && not (eqb_ℤ (get_or tensor.metadata.shape 2 (pos 0)) expected_hidden_size))
      TensorError.hidden_size_mismatch
  throw_if (not is_f32 && not (allow_float16 && is_f16)) TensorError.hidden_dtype
  validate_tensor_byte_size tensor

pub infer_dli2_payload_kind : TensorBuffer → Result TensorError Dli2PayloadKind
infer_dli2_payload_kind tensor =
    if is_empty tensor.bytes && is_empty tensor.metadata.shape
    then ok Dli2PayloadKind.empty
    else if eqb tensor.metadata.dtype dtype_token_ids
    then ok Dli2PayloadKind.token_ids
    else if eqb tensor.metadata.dtype dtype_hidden_f32 || eqb tensor.metadata.dtype dtype_hidden_f16
    then ok Dli2PayloadKind.hidden_states
    else err TensorError.unknown_payload_kind

-- `static_cast<int>` of a non-negative `std::int64_t`: the low 32 bits, read as signed.
abbrev pub to_int32 : ℕ → ℤ
to_int32 n = let low = n % 2 ^ 32 in if ltb low (2 ^ 31) then pos low else negsuc (2 ^ 32 - low - 1)

abbrev positive_int32 : ℤ → ℤ
positive_int32 (pos n) = to_int32 n
positive_int32 (negsuc n) = pos 0

pub infer_sequence_length_from_shape : List ℤ → ℤ
infer_sequence_length_from_shape [] = pos 0
infer_sequence_length_from_shape (seq ∷ []) = positive_int32 seq
infer_sequence_length_from_shape (batch ∷ seq ∷ rest) = positive_int32 seq

abbrev first_dimension : List ℤ → ℤ
first_dimension [] = pos 0
first_dimension (batch ∷ rest) = batch

abbrev second_dimension : List ℤ → ℤ
second_dimension [] = pos 0
second_dimension (batch ∷ []) = pos 0
second_dimension (batch ∷ seq ∷ rest) = seq

pub dli2_batch_size : TensorBuffer → ℤ
dli2_batch_size tensor = first_dimension tensor.metadata.shape

unfoldable pub dli2_sequence_length : TensorBuffer → ℤ
dli2_sequence_length tensor = second_dimension tensor.metadata.shape
