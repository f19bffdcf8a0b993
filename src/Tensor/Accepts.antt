-- ===== src/Tensor/Accepts.antt =====
-- Exactly which tensors the two validators of dli2_abi.hpp accept.
use distributed_layer_infere.Common.{
  ℕ, zero, suc, ◌*◌, ◌%◌, ◌^◌, ◌<◌, ◌≤◌, ◌≡◌, ◌⊎◌, inl, inr, refl, sym, ◌∙◌, ap, [], ◌∷◌, List,
  true, arith, ok, length, All, ℤ, pos, negsuc, pos_part, eqb, eqb_iff, eqb_refl, is_empty,
  ok_parts, Bytes,
}
use distributed_layer_infere.Tensor.{
  TensorBuffer, int64_max, dtype_token_ids, byte_order_little, product_shape, dtype_size_bytes,
  validate_tensor_byte_size, validate_little_endian, validate_token_ids_tensor,
}
use distributed_layer_infere.Tensor.Sizes.{
  IsPositive, elements, product_shape-elements, elements-product_shape,
}

-- An absent byte order counts as little-endian.
abbrev pub IsLittle : Bytes → Type 0
IsLittle order = (order ≡ []) ⊎ (order ≡ byte_order_little)

-- A token tensor: int64, [batch, seq] with positive dimensions whose product an int64 holds. Its
-- byte count is compared modulo 2^64.
pub record IsTokenIds (t : TensorBuffer) (batch seq : ℕ) : Type 0 where
  pub order : IsLittle t.metadata.byte_order
  pub dtype : t.metadata.dtype ≡ dtype_token_ids
  pub shape : t.metadata.shape ≡ pos batch ∷ pos seq ∷ []
  pub batch_pos : 0 < batch
  pub seq_pos : 0 < seq
  pub no_overflow : batch * seq ≤ int64_max
  pub size : length t.bytes ≡ batch * seq * 8 % 2 ^ 64

IsLittle-iff :
    (order : Bytes)
    → (is_empty order ≡ true) ⊎ (eqb order byte_order_little ≡ true)
    → IsLittle order
IsLittle-iff [] h = inl refl
IsLittle-iff (x ∷ xs) (inl e) = cc
IsLittle-iff (x ∷ xs) (inr e) = inr ((eqb_iff (x ∷ xs) byte_order_little).0 e)

pub IsLittle-validate :
    (t : TensorBuffer) → validate_little_endian t ≡ ok tt → IsLittle t.metadata.byte_order
unfolding validate_little_endian
IsLittle-validate t h = IsLittle-iff t.metadata.byte_order (ground arith)

pub validate-IsLittle :
    (t : TensorBuffer) → IsLittle t.metadata.byte_order → validate_little_endian t ≡ ok tt
unfolding validate_little_endian
validate-IsLittle t (inl e) = rw e refl
validate-IsLittle t (inr e) = rw (e, eqb_refl byte_order_little) refl

-- The byte size is accepted exactly when it is the wrapped product.
module _ (t : TensorBuffer) (d : ℤ) (dims : List ℤ) (k : ℕ) (shaped : t.metadata.shape ≡ d ∷ dims)
    (sized : dtype_size_bytes t.metadata.dtype ≡ ok k) where
  pub sizes_of_validate :
      validate_tensor_byte_size t ≡ ok tt
      → All IsPositive (d ∷ dims)
        × (elements (d ∷ dims) ≤ int64_max)
        × (length t.bytes ≡ elements (d ∷ dims) * k % 2 ^ 64)
  unfolding validate_tensor_byte_size
  sizes_of_validate h =
      let (z, e, rest) = ok_parts (product_shape t.metadata.shape) _ h in
      let (positive, eq, fits) =
        elements-product_shape d dims z (ap product_shape (sym shaped) ∙ e) in
      (positive, fits, ground (arith, eq, sized))

  pub validate_of_sizes :
      All IsPositive (d ∷ dims)
      → elements (d ∷ dims) ≤ int64_max
      → length t.bytes ≡ elements (d ∷ dims) * k % 2 ^ 64
      → validate_tensor_byte_size t ≡ ok tt
  unfolding validate_tensor_byte_size
  validate_of_sizes positive fits size =
      ground (arith, shaped, sized, product_shape-elements d dims positive fits)

-- What `validate_token_ids_tensor` has tested before it measures the tensor.
tested_token_ids :
    (t : TensorBuffer)
    → validate_token_ids_tensor t ≡ ok tt
    → (validate_little_endian t ≡ ok tt)
      × (eqb t.metadata.dtype dtype_token_ids ≡ true)
      × (length t.metadata.shape ≡ 2)
      × (validate_tensor_byte_size t ≡ ok tt)
unfolding validate_token_ids_tensor
tested_token_ids t h = ground arith

two_dimensions : (dims : List ℤ) → length dims ≡ 2 → (a : ℤ) × (b : ℤ) × (dims ≡ a ∷ b ∷ [])
two_dimensions [] h = absurd (omega arith)
two_dimensions (a ∷ []) h = absurd (omega arith)
two_dimensions (a ∷ b ∷ []) h = (a, b, refl)
two_dimensions (a ∷ b ∷ c ∷ dims) h = absurd (omega arith)

pos_of_IsPositive : (z : ℤ) → IsPositive z → z ≡ pos (pos_part z)
pos_of_IsPositive (pos n) h = refl
pos_of_IsPositive (negsuc n) h = absurd (omega arith)

int64_width : (dtype : Bytes) → dtype ≡ dtype_token_ids → dtype_size_bytes dtype ≡ ok 8
unfolding dtype_size_bytes
int64_width dtype e = rw (e, eqb_refl dtype_token_ids) refl

-- An accepted token tensor has the dimensions and, modulo 2^64, the bytes that the ABI asks for.
pub IsTokenIds-validate :
    (t : TensorBuffer)
    → validate_token_ids_tensor t ≡ ok tt
    → (batch : ℕ) × (seq : ℕ) × IsTokenIds t batch seq
IsTokenIds-validate t h =
    let (order, named, two, measured) = tested_token_ids t h in
    let dtype = (eqb_iff t.metadata.dtype dtype_token_ids).0 named in
    let (a, b, shaped) = two_dimensions t.metadata.shape two in
    let (positive, fits, size) =
      sizes_of_validate t a (b ∷ []) 8 shaped (int64_width t.metadata.dtype dtype) measured in
    (
      pos_part a,
      pos_part b,
      record {
        order = IsLittle-validate t order;
        dtype = dtype;
        shape =
            ground
              (arith, shaped, pos_of_IsPositive a positive.0, pos_of_IsPositive b positive.1.0);
        batch_pos = positive.0;
        seq_pos = positive.1.0;
        no_overflow = omega (arith, fits);
        size = omega (arith, size);
      },
    )

pub validate-IsTokenIds :
    (t : TensorBuffer) (batch seq : ℕ)
    → IsTokenIds t batch seq
    → validate_token_ids_tensor t ≡ ok tt
unfolding validate_token_ids_tensor
validate-IsTokenIds t batch seq v = ground (
  arith,
  validate-IsLittle t v.order,
  v.dtype,
  eqb_refl dtype_token_ids,
  v.shape,
  validate_of_sizes t (pos batch) (pos seq ∷ []) 8 v.shape (int64_width t.metadata.dtype v.dtype)
      (v.batch_pos, (v.seq_pos, tt)) (omega (arith, v.no_overflow)) (omega (arith, v.size)),
)

-- The byte count is exact below 2^61 elements.
pub token_ids_exact_size :
    (t : TensorBuffer) (batch seq : ℕ)
    → IsTokenIds t batch seq
    → batch * seq < 2 ^ 61
    → length t.bytes ≡ batch * seq * 8
token_ids_exact_size t batch seq v h = omega (arith, v.size)

-- A little-endian int64 token tensor of a shape [batch, seq] with 2^61 * k elements, where k is
-- 1, 2 or 3, is accepted with no bytes at all.
pub token_ids_wrap_accepted :
    (t : TensorBuffer) (batch seq k : ℕ)
    → IsLittle t.metadata.byte_order
    → t.metadata.dtype ≡ dtype_token_ids
    → t.metadata.shape ≡ pos batch ∷ pos seq ∷ []
    → batch * seq ≡ 2 ^ 61 * k
    → 0 < k
    → k < 4
    → t.bytes ≡ []
    → validate_token_ids_tensor t ≡ ok tt
token_ids_wrap_accepted t batch seq k order dtype shape e some_k few empty =
    validate-IsTokenIds t batch seq (record {
      order = order;
      dtype = dtype;
      shape = shape;
      batch_pos = factor_pos batch seq (omega (arith, e));
      seq_pos = factor_pos seq batch (omega (arith, e));
      no_overflow = omega (arith, e);
      size = ap length empty ∙ omega (arith, e);
    })
  where
    factor_pos : (m n : ℕ) → 0 < m * n → 0 < m
    factor_pos zero n h = absurd (omega arith)
    factor_pos (suc m) n h = omega arith
