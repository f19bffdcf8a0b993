-- ===== src/Stage/Executor/Passed.antt =====
-- Hidden states from one stage to the next: what tensor_to_hidden_f32 reads of what
-- float_hidden_to_tensor has written,
-- src/native/dli_stage_cpp/src/runtimes/llama_cpu_executor.cpp.
use distributed_layer_infere.Common.{
  ℕ, ◌+◌, ◌*◌, ◌%◌, ◌^◌, ◌<◌, ◌≡◌, refl, sym, ap, ◌∙◌, arith, Bool, true, false, if◌then◌else◌,
  if_false, ltb, le→ltb, ◌==◌, ==_refl, inr, List, [], ◌∷◌, ◌++◌, map, length, get_or,
  length-append, All, ok, ◌>>=◌, Bytes, codes, eqb, pos, bit_or, bit_or_shifted, zero-bit_or,
}
use distributed_layer_infere.Protocol.{byte_at, read_u32_le}
use distributed_layer_infere.Protocol.Words.{read_u32_le-u32_bytes}
use distributed_layer_infere.Tensor.{
  validate_tensor_byte_size, validate_hidden_states_tensor, dtype_size_bytes,
}
use distributed_layer_infere.Tensor.Accepts.{validate-IsLittle, validate_of_sizes}
use distributed_layer_infere.Stage.Executor.Stored.{length-resized}
use distributed_layer_infere.Stage.Executor.Half.{float_to_f16_bits, f16_bits_to_float}
use distributed_layer_infere.Stage.Executor.Tensors.{
  read_f32_le, f32_bytes, write_f32_le, read_f16_le, f16_bytes, write_f16_le, checked, read_each,
  is_half, hidden_tensor, hidden_bytes, float_hidden_to_tensor, read_hidden, tensor_to_hidden_f32,
}
use distributed_layer_infere.Stage.Executor.Carried.{
  get_or-front, rows, length-rows, write_each-rows, read_each-rows,
}

abbrev pub IsWord : ℕ → Type 0
IsWord v = v < 2 ^ 32

joined_f32 :
    (v : ℕ)
    → v < 2 ^ 32
    → bit_or
        (bit_or (bit_or (bit_or 0 (byte_at v 0)) (byte_at v 8 * 2 ^ 8)) (byte_at v 16 * 2 ^ 16))
        (byte_at v 24 * 2 ^ 24)
      ≡ v
unfolding read_u32_le
joined_f32 v h =
    ap
      (λ (b : ℕ).
        bit_or (bit_or (bit_or b (byte_at v 8 * 2 ^ 8)) (byte_at v 16 * 2 ^ 16))
          (byte_at v 24 * 2 ^ 24))
      (zero-bit_or (byte_at v 0))
    ∙ read_u32_le-u32_bytes v [] h

in_reach :
    (front row rest : Bytes) (n : ℕ)
    → length row ≡ n
    → ltb (length (front ++ (row ++ rest))) (length front + n) ≡ false
in_reach front row rest n h =
    le→ltb _ _ (omega (arith, length-append front (row ++ rest), length-append row rest, h))

read_f32_le-row :
    (front rest : Bytes) (v : ℕ)
    → IsWord v
    → read_f32_le (front ++ (f32_bytes v ++ rest)) (length front) ≡ ok v
unfolding read_f32_le
read_f32_le-row front rest v h =
    let byte = λ (i : ℕ). get_or-front front (f32_bytes v ++ rest) i 0 in
    if_false _ _ (in_reach front (f32_bytes v) rest 4 refl)
    ∙ rw (byte 0, byte 1, byte 2, byte 3) (ap ok (joined_f32 v h))

half_bits : (v : ℕ) → float_to_f16_bits v < 2 ^ 16
unfolding float_to_f16_bits
half_bits v = omega arith

joined_f16 : (raw : ℕ) → raw < 2 ^ 16 → bit_or (byte_at raw 0) (byte_at raw 8 * 2 ^ 8) ≡ raw
joined_f16 raw h = bit_or_shifted 8 (byte_at raw 0) (byte_at raw 8) (omega arith) ∙ omega arith

-- What a float becomes on its way as a float16.
abbrev pub halved : ℕ → ℕ
halved v = f16_bits_to_float (float_to_f16_bits v)

read_f16_le-row :
    (front rest : Bytes) (v : ℕ)
    → IsWord v
    → read_f16_le (front ++ (f16_bytes (float_to_f16_bits v) ++ rest)) (length front)
      ≡ ok (halved v)
unfolding read_f16_le
read_f16_le-row front rest v h =
    let row = f16_bytes (float_to_f16_bits v) in
    let first : get_or (front ++ (row ++ rest)) (length front) 0 ≡ byte_at (float_to_f16_bits v) 0 =
      let e : length front ≡ length front + 0 = omega arith in
      ap (λ (n : ℕ). get_or (front ++ (row ++ rest)) n 0) e
      ∙ get_or-front front (row ++ rest) 0 0 in
    if_false _ _ (in_reach front row rest 2 refl)
    ∙ rw (first, get_or-front front (row ++ rest) 1 0)
        (ap (λ t. ok (f16_bits_to_float t)) (joined_f16 (float_to_f16_bits v) (half_bits v)))

-- The rows that are written for a precision.
abbrev pub written_row : Bool → ℕ → Bytes
written_row true v = f16_bytes (float_to_f16_bits v)
written_row false v = f32_bytes v

abbrev pub written_width : Bool → ℕ
written_width true = 2
written_width false = 4

pub hidden_bytes-rows :
    (b : Bool) (hidden : List ℕ) → hidden_bytes b hidden ≡ ok (rows (written_row b) hidden)
unfolding write_f32_le write_f16_le
hidden_bytes-rows true hidden =
    write_each-rows 2 (written_row true) (λ v. refl) write_f16_le
      (λ bytes offset v h. if_false _ _ (le→ltb _ _ h)) hidden 0 [] _ refl
      (length-resized 0 (length hidden * 2) [])
hidden_bytes-rows false hidden =
    write_each-rows 4 (written_row false) (λ v. refl) write_f32_le (λ bytes offset v h. refl) hidden
      0 [] _ refl (length-resized 0 (length hidden * 4) [])

-- What a float is after its way at a precision.
abbrev pub carried : Bool → ℕ → ℕ
carried true v = halved v
carried false v = v

known_width :
    (b : Bool)
    → dtype_size_bytes (if b then codes "float16" else codes "float32") ≡ ok (written_width b)
unfolding dtype_size_bytes eqb
known_width true = refl
known_width false = refl

no_wrap : (b : Bool) (n : ℕ) → n < 2 ^ 61 → n * written_width b ≡ n * written_width b % 2 ^ 64
no_wrap true n h = omega arith
no_wrap false n h = omega arith

-- A tensor of one batch that has the bytes which its shape asks for.
module _ (hidden_size seq_len : ℕ) (bytes : Bytes) (some_hidden : 0 < hidden_size)
    (some_tokens : 0 < seq_len) (few : seq_len * hidden_size < 2 ^ 61) where
  count_lem : 1 * (seq_len * (hidden_size * 1)) ≡ seq_len * hidden_size
  count_lem = let e : hidden_size * 1 ≡ hidden_size = omega arith in rw e (omega arith)

  accepted_size :
      (b : Bool)
      → length bytes ≡ seq_len * hidden_size * written_width b
      → validate_tensor_byte_size (hidden_tensor b hidden_size 1 seq_len bytes) ≡ ok tt
  accepted_size b sized =
      validate_of_sizes (hidden_tensor b hidden_size 1 seq_len bytes) (pos 1)
        (pos seq_len ∷ pos hidden_size ∷ []) (written_width b) refl (known_width b)
        (omega arith, (some_tokens, (some_hidden, tt))) (omega (arith, count_lem, few))
        (sized
          ∙ no_wrap b (seq_len * hidden_size) few
          ∙ ap (λ (n : ℕ). n * written_width b % 2 ^ 64) (sym count_lem))

  same_size : (hidden_size == hidden_size) ≡ true
  same_size = ==_refl hidden_size

  accepted :
      (b : Bool)
      → length bytes ≡ seq_len * hidden_size * written_width b
      → validate_hidden_states_tensor
          (hidden_tensor b hidden_size 1 seq_len bytes)
          (pos hidden_size)
          true
        ≡ ok tt
  unfolding validate_hidden_states_tensor eqb
  accepted true sized =
      let t = hidden_tensor true hidden_size 1 seq_len bytes in
      ground (arith, validate-IsLittle t (inr refl), accepted_size true sized)
  accepted false sized =
      let t = hidden_tensor false hidden_size 1 seq_len bytes in
      ground (arith, validate-IsLittle t (inr refl), accepted_size false sized)

  pub read_rows :
      (b : Bool) (hidden : List ℕ)
      → length hidden ≡ seq_len * hidden_size
      → All IsWord hidden
      → read_hidden (hidden_tensor b hidden_size 1 seq_len (rows (written_row b) hidden))
        ≡ ok (map (carried b) hidden)
  unfolding eqb
  read_rows true hidden size words =
      let count : 1 * seq_len * hidden_size ≡ length hidden = omega (arith, size) in
      ap (λ n. read_each read_f16_le 2 (rows (written_row true) hidden) n 0) count
      ∙ read_each-rows 2 (written_row true) (λ v. refl) IsWord read_f16_le halved read_f16_le-row
          hidden 0 [] words refl
  read_rows false hidden size words =
      let count : 1 * seq_len * hidden_size ≡ length hidden = omega (arith, size) in
      ap (λ n. read_each read_f32_le 4 (rows (written_row false) hidden) n 0) count
      ∙ read_each-rows 4 (written_row false) (λ v. refl) IsWord read_f32_le (λ v. v) read_f32_le-row
          hidden 0 [] words refl

  pub read_tensor :
      (b : Bool)
      → length bytes ≡ seq_len * hidden_size * written_width b
      → tensor_to_hidden_f32 hidden_size (hidden_tensor b hidden_size 1 seq_len bytes)
        ≡ read_hidden (hidden_tensor b hidden_size 1 seq_len bytes)
  unfolding tensor_to_hidden_f32
  read_tensor b sized =
      let t = hidden_tensor b hidden_size 1 seq_len bytes in
      ap (λ o. checked o >>= λ _. read_hidden t) (accepted b sized)

pub length-written : (b : Bool) (v : ℕ) → length (written_row b v) ≡ written_width b
length-written true v = refl
length-written false v = refl

-- The hidden states of `seq_len` tokens that one stage writes with float_hidden_to_tensor are read by
-- tensor_to_hidden_f32 of the next one, for a model with the same hidden_size: bit by bit as they were
-- for any activation_precision but "fp16" and "float16", and for these two each as f16_bits_to_float
-- of its float_to_f16_bits. There is at least one token, and there are less than 2^61 numbers.
pub tensor_to_hidden_f32-float_hidden_to_tensor :
    (hidden_size seq_len : ℕ) (hidden : List ℕ) (activation_precision : Bytes)
    → 0 < hidden_size
    → 0 < seq_len
    → seq_len * hidden_size < 2 ^ 61
    → length hidden ≡ seq_len * hidden_size
    → All IsWord hidden
    → (float_hidden_to_tensor hidden_size hidden 1 seq_len activation_precision
        >>= tensor_to_hidden_f32 hidden_size)
      ≡ ok (map (carried (is_half activation_precision)) hidden)
unfolding float_hidden_to_tensor
tensor_to_hidden_f32-float_hidden_to_tensor hidden_size seq_len hidden precision h s few size
      words =
    let b = is_half precision in
    let bytes = rows (written_row b) hidden in
    let sized : length bytes ≡ seq_len * hidden_size * written_width b =
      length-rows (written_width b) (written_row b) (length-written b) hidden
      ∙ ap (λ (n : ℕ). n * written_width b) size in
    ap
      (λ o.
        (o >>= λ bs. ok (hidden_tensor b hidden_size 1 seq_len bs))
        >>= tensor_to_hidden_f32 hidden_size)
      (hidden_bytes-rows b hidden)
    ∙ read_tensor hidden_size seq_len bytes h s few b sized
    ∙ read_rows hidden_size seq_len bytes h s few b hidden size words
