-- ===== src/Stage/Shard.antt =====
-- The checks of a loaded shard against the stage's configuration and of a request against the
-- shard: validate_shard_against_stage_config and validate_runtime_request_matches_partition of
-- src/native/dli_stage_cpp/src/runtimes/llama_partial_runtime.cpp.
use distributed_layer_infere.Common.{
  Bool, true, false, not, ◌&&◌, List, [], ◌∷◌, Result, ok, err, ◌>>=◌, ◌>>◌, throw_if,
  if◌then◌else◌, eqb, eqb_iff, eqb_refl, ℤ, eqb_ℤ, eqb_ℤ_iff, ◌≡◌, ◌↔◌, refl, arith,
}
use distributed_layer_infere.Tensor.{
  Dli2PayloadKind, TensorError, infer_dli2_payload_kind, validate_token_ids_tensor,
  validate_hidden_states_tensor,
}
use distributed_layer_infere.Stage.{
  RuntimeRequest, LlamaPartialRuntimeConfig, LlamaShardMetadata, RuntimeError,
}

-- `==` on two Booleans and on two vectors of int.
abbrev pub same : Bool → Bool → Bool
same true b = b
same false b = not b

unfoldable pub eqb_layers : List ℤ → List ℤ → Bool
eqb_layers [] [] = true
eqb_layers [] (y ∷ ys) = false
eqb_layers (x ∷ xs) [] = false
eqb_layers (x ∷ xs) (y ∷ ys) = eqb_ℤ x y && eqb_layers xs ys

pub validate_shard_against_stage_config :
    LlamaShardMetadata → LlamaPartialRuntimeConfig → Result RuntimeError (Unit {0})
validate_shard_against_stage_config shard config = do
  throw_if (not shard.shard_loaded) RuntimeError.unloaded_shard
  throw_if (not (eqb_ℤ shard.stage_id config.stage_id)) RuntimeError.stage_id_mismatch
  throw_if (not (eqb_layers shard.layers config.expected_layers)) RuntimeError.layers_mismatch
  throw_if (not (same shard.owns_embedding config.expected_owns_embedding))
      RuntimeError.embedding_mismatch
  throw_if (not (same shard.owns_norm config.expected_owns_norm)) RuntimeError.norm_mismatch
  throw_if (not (same shard.owns_lm_head config.expected_owns_lm_head))
      RuntimeError.lm_head_mismatch
  throw_if (not (eqb shard.next_stage_url config.expected_next_stage_url))
      RuntimeError.next_stage_url_mismatch

-- An exception of the tensor checks passes through.
abbrev pub lift : {A : Type 0} → Result TensorError A → Result RuntimeError A
lift (ok a) = ok a
lift (err e) = err (RuntimeError.bad_tensor e)

abbrev pub is_token_ids : Dli2PayloadKind → Bool
is_token_ids Dli2PayloadKind.token_ids = true
is_token_ids Dli2PayloadKind.hidden_states = false
is_token_ids Dli2PayloadKind.empty = false

abbrev pub is_hidden_states : Dli2PayloadKind → Bool
is_hidden_states Dli2PayloadKind.token_ids = false
is_hidden_states Dli2PayloadKind.hidden_states = true
is_hidden_states Dli2PayloadKind.empty = false

abbrev matches_kind :
    RuntimeRequest → LlamaShardMetadata → Dli2PayloadKind → Result RuntimeError (Unit {0})
matches_kind request shard kind =
    if shard.owns_embedding
    then throw_if (not (is_token_ids kind)) RuntimeError.expects_token_ids
      >> lift (validate_token_ids_tensor request.input_tensor)
    else throw_if (not (is_hidden_states kind)) RuntimeError.expects_hidden_states
      >> lift (validate_hidden_states_tensor request.input_tensor shard.hidden_size true)

unfoldable pub validate_runtime_request_matches_partition :
    RuntimeRequest → LlamaShardMetadata → Result RuntimeError (Unit {0})
validate_runtime_request_matches_partition request shard = do
  kind ← lift (infer_dli2_payload_kind request.input_tensor)
  matches_kind request shard kind

-- What the configuration expects of a shard.
pub record IsExpected (shard : LlamaShardMetadata) (config : LlamaPartialRuntimeConfig)
    : Type 0 where
  pub loaded : shard.shard_loaded ≡ true
  pub stage : shard.stage_id ≡ config.stage_id
  pub layers : shard.layers ≡ config.expected_layers
  pub embedding : shard.owns_embedding ≡ config.expected_owns_embedding
  pub norm : shard.owns_norm ≡ config.expected_owns_norm
  pub lm_head : shard.owns_lm_head ≡ config.expected_owns_lm_head
  pub next_stage_url : shard.next_stage_url ≡ config.expected_next_stage_url

eqb_layers→eq : (xs ys : List ℤ) → eqb_layers xs ys ≡ true → xs ≡ ys
unfolding eqb_layers
eqb_layers→eq [] [] h = refl
eqb_layers→eq [] (y ∷ ys) h = cc
eqb_layers→eq (x ∷ xs) [] h = cc
eqb_layers→eq (x ∷ xs) (y ∷ ys) h = ground (arith, (eqb_ℤ_iff x y).0, eqb_layers→eq xs ys)

eqb_layers_refl : (xs : List ℤ) → eqb_layers xs xs ≡ true
unfolding eqb_layers
eqb_layers_refl [] = refl
eqb_layers_refl (x ∷ xs) = ground (arith, (eqb_ℤ_iff x x).1 refl, eqb_layers_refl xs)

same→eq : (a b : Bool) → same a b ≡ true → a ≡ b
same→eq true b h = ground arith
same→eq false b h = ground arith

same_refl : (a : Bool) → same a a ≡ true
same_refl true = refl
same_refl false = refl

tested_shard :
    (shard : LlamaShardMetadata) (config : LlamaPartialRuntimeConfig)
    → validate_shard_against_stage_config shard config ≡ ok tt
    → (shard.shard_loaded ≡ true)
      × (eqb_ℤ shard.stage_id config.stage_id ≡ true)
      × (eqb_layers shard.layers config.expected_layers ≡ true)
      × (same shard.owns_embedding config.expected_owns_embedding ≡ true)
      × (same shard.owns_norm config.expected_owns_norm ≡ true)
      × (same shard.owns_lm_head config.expected_owns_lm_head ≡ true)
      × (eqb shard.next_stage_url config.expected_next_stage_url ≡ true)
unfolding validate_shard_against_stage_config
tested_shard shard config h = ground arith

IsExpected-of_tested :
    (shard : LlamaShardMetadata) (config : LlamaPartialRuntimeConfig)
    → validate_shard_against_stage_config shard config ≡ ok tt
    → IsExpected shard config
IsExpected-of_tested shard config h =
    let (a, b, c, d, e, f, g) = tested_shard shard config h in
    record {
      loaded = a;
      stage = (eqb_ℤ_iff shard.stage_id config.stage_id).0 b;
      layers = eqb_layers→eq shard.layers config.expected_layers c;
      embedding = same→eq shard.owns_embedding config.expected_owns_embedding d;
      norm = same→eq shard.owns_norm config.expected_owns_norm e;
      lm_head = same→eq shard.owns_lm_head config.expected_owns_lm_head f;
      next_stage_url = (eqb_iff shard.next_stage_url config.expected_next_stage_url).0 g;
    }

tested-of_IsExpected :
    (shard : LlamaShardMetadata) (config : LlamaPartialRuntimeConfig)
    → IsExpected shard config
    → validate_shard_against_stage_config shard config ≡ ok tt
unfolding validate_shard_against_stage_config
tested-of_IsExpected shard config v =
    rw
      (
        v.loaded,
        v.stage,
        v.layers,
        v.embedding,
        v.norm,
        v.lm_head,
        v.next_stage_url,
        (eqb_ℤ_iff config.stage_id config.stage_id).1 refl,
        eqb_layers_refl config.expected_layers,
        same_refl config.expected_owns_embedding,
        same_refl config.expected_owns_norm,
        same_refl config.expected_owns_lm_head,
        eqb_refl config.expected_next_stage_url,
      )
      refl

-- `validate_shard_against_stage_config` passes exactly the loaded shards whose stage id, layers,
-- owned components and next stage are those of the stage's configuration.
pub validate_shard_against_stage_config_iff :
    (shard : LlamaShardMetadata) (config : LlamaPartialRuntimeConfig)
    → (validate_shard_against_stage_config shard config ≡ ok tt) ↔ IsExpected shard config
validate_shard_against_stage_config_iff shard config =
    (IsExpected-of_tested shard config, tested-of_IsExpected shard config)
