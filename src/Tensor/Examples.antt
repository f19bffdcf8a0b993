-- ===== src/Tensor/Examples.antt =====
-- Tensors on which the theorems about the ABI are applied.
use distributed_layer_infere.Common.{◌^◌, ◌≡◌, refl, inr, [], ◌∷◌, arith, ok, codes, pos}
use distributed_layer_infere.Tensor.{TensorBuffer, validate_token_ids_tensor}
use distributed_layer_infere.Tensor.Accepts.{token_ids_wrap_accepted}

abbrev one_token : TensorBuffer
one_token = record {
  metadata = record { dtype = codes "int64"; shape = pos 1 ∷ pos 1 ∷ []; byte_order = [] };
  bytes = 5 ∷ 0 ∷ 0 ∷ 0 ∷ 0 ∷ 0 ∷ 0 ∷ 0 ∷ [];
}

-- [1, 2^61]: 2^64 bytes are asked for, and none are there.
abbrev huge_and_empty : TensorBuffer
huge_and_empty = record {
  metadata = record {
    dtype = codes "int64";
    shape = pos 1 ∷ pos (2 ^ 61) ∷ [];
    byte_order = codes "little";
  };
  bytes = [];
}

token_ids_wrap_accepted_example : validate_token_ids_tensor huge_and_empty ≡ ok tt
token_ids_wrap_accepted_example =
    token_ids_wrap_accepted huge_and_empty 1 (2 ^ 61) 1 (inr refl) refl refl (omega arith)
      (omega arith) (omega arith) refl
