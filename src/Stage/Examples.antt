-- ===== src/Stage/Examples.antt =====
-- Runs of the stage's parts on small inputs. The executor counts its calls.
use distributed_layer_infere.Common.{
  ℕ, suc, ◌≤◌, ◌≡◌, ◌↔◌, refl, arith, true, false, max, [], ◌∷◌, ok, length, All, Bytes, codes, eqb,
  ℤ, pos,
}
use distributed_layer_infere.Tensor.{TensorBuffer, dtype_token_ids, byte_order_little}
use distributed_layer_infere.Stage.{
  RuntimeRequest, LlamaPartialRuntimeConfig, LlamaShardMetadata, LlamaRequestSession,
}
use distributed_layer_infere.Stage.Shard.{
  IsExpected, validate_shard_against_stage_config, validate_shard_against_stage_config_iff,
}
use distributed_layer_infere.Stage.Sessions.{Map, find, session_for_request, prune_sessions_except}
use distributed_layer_infere.Stage.Sessions.Lookups.{IsUnique}
use distributed_layer_infere.Stage.Sessions.Kept.{IsPruned, prune_sessions_except-IsPruned}
use distributed_layer_infere.Stage.Sessions.Served.{
  IsRehash, IsOutcome, session_for_request-IsOutcome,
}
use distributed_layer_infere.Stage.Cache.{IsGood, run_steps, run_steps-valid}
use distributed_layer_infere.Stage.Forward.{Executor, LlamaPartialRuntime, forward}
use distributed_layer_infere.Stage.Forward.Bounded.{IsBounded, forward-IsBounded}

abbrev shard : LlamaShardMetadata
shard = record {
  shard_loaded = true;
  format = codes "dli.gguf.stage_shard";
  format_version = pos 1;
  partition_id = codes "p0";
  stage_id = pos 1;
  layers = pos 0 ∷ pos 1 ∷ [];
  owns_embedding = true;
  owns_norm = false;
  owns_lm_head = false;
  next_partition_id = codes "p1";
  next_stage_url = codes "http://b:1/f";
  hidden_size = pos 4;
  source_model = codes "m";
}

abbrev stage_config : LlamaPartialRuntimeConfig
stage_config = record {
  model_path = codes "m";
  stage_id = pos 1;
  expected_layers = pos 0 ∷ pos 1 ∷ [];
  expected_owns_embedding = true;
  expected_owns_norm = false;
  expected_owns_lm_head = false;
  expected_next_stage_url = codes "http://b:1/f";
}

validate_shard_against_stage_config_iff_example :
    (validate_shard_against_stage_config shard stage_config ≡ ok tt) ↔ IsExpected shard stage_config
validate_shard_against_stage_config_iff_example =
    validate_shard_against_stage_config_iff shard stage_config

-- Requests of one token tensor each.
abbrev tokens : ℕ → TensorBuffer
tokens n = record {
  metadata = record {
    dtype = dtype_token_ids;
    shape = pos 1 ∷ pos n ∷ [];
    byte_order = byte_order_little;
  };
  bytes = 1 ∷ 0 ∷ 0 ∷ 0 ∷ 0 ∷ 0 ∷ 0 ∷ 0 ∷ [];
}

abbrev request_of : Bytes → ℤ → Bytes → ℕ → RuntimeRequest
request_of id index mode n = record {
  request_id = id;
  token_index = index;
  generation_mode = mode;
  input_metadata_json = [];
  input_tensor = tokens n;
  kv_cache_enabled = true;
  activation_precision = codes "fp32";
}

abbrev session_of : ℕ → LlamaRequestSession ℕ
session_of n = record { kv_cache = record { seq_len = pos n; valid = true }; executor = n }

abbrev three : Map ℕ
three =
    record { key = codes "a"; session = session_of 3 }
    ∷ record { key = codes "b"; session = session_of 5 }
    ∷ record { key = codes "c"; session = session_of 7 }
    ∷ []

three-IsUnique : IsUnique three
unfolding find eqb
three-IsUnique = (refl, (refl, (refl, tt)))

prune_sessions_except-IsPruned_example :
    (length (prune_sessions_except 2 (codes "a") three) ≤ max 1 2)
    × IsPruned (codes "a") three (prune_sessions_except 2 (codes "a") three)
prune_sessions_except-IsPruned_example =
    prune_sessions_except-IsPruned 2 (codes "a") three refl three-IsUnique

-- A map that keeps its order.
abbrev in_place : Map ℕ → Map ℕ
in_place s = s

in_place-IsRehash : IsRehash in_place
in_place-IsRehash = record { finds = λ j s u. refl; unique = λ s u. u }

session_for_request-IsOutcome_example :
    IsOutcome 2 (ok 0) (request_of (codes "d") (pos 0) (codes "prefill") 1) three (
      session_for_request in_place 2
        (ok 0)
        (request_of (codes "d") (pos 0) (codes "prefill") 1)
        three)
session_for_request-IsOutcome_example =
    session_for_request-IsOutcome in_place in_place-IsRehash 2 (ok 0)
      (request_of (codes "d") (pos 0) (codes "prefill") 1) three three-IsUnique

abbrev decode_request : RuntimeRequest
decode_request = request_of (codes "a") (pos 1) (codes "decode") 1

abbrev prefill_request : RuntimeRequest
prefill_request = request_of (codes "a") (pos 0) (codes "prefill") 4

run_steps-valid_example :
    ((run_steps shard (pos 4) (prefill_request ∷ decode_request ∷ []) (session_of 0)).kv_cache.valid
      ≡ true)
    ↔ ((true ≡ true) × All IsGood (prefill_request ∷ decode_request ∷ []))
run_steps-valid_example =
    run_steps-valid shard (pos 4) (prefill_request ∷ decode_request ∷ []) (session_of 0)

abbrev counting : Executor ℕ
counting = record {
  new_executor = ok 0;
  execute_source = λ tensor layers mode seq precision n. (suc n, ok tensor);
  execute_intermediate = λ tensor layers mode seq precision n. (suc n, ok tensor);
  execute_terminal = λ tensor layers mode seq norm head n. (suc n, ok (pos n));
}

abbrev source_runtime : LlamaPartialRuntime ℕ
source_runtime = record {
  shard = shard;
  n_embd = pos 4;
  limit = 3;
  rehash = in_place;
  executor = counting;
}

three-IsBounded : IsBounded 3 three
three-IsBounded = record { size = omega arith; unique = three-IsUnique }

forward-IsBounded_example :
    IsBounded 3
      (forward source_runtime (request_of (codes "d") (pos 0) (codes "prefill") 1) three).0
forward-IsBounded_example =
    forward-IsBounded source_runtime in_place-IsRehash
      (request_of (codes "d") (pos 0) (codes "prefill") 1) three three-IsBounded
