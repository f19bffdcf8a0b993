-- ===== src/Stage/Forward.antt =====
-- The dispatch of a request over a stage's partition: LlamaPartialRuntime::forward and the three
-- forward_*_partition of src/native/dli_stage_cpp/src/runtimes/llama_partial_runtime.cpp.
pub mod Bounded
use distributed_layer_infere.Common.{
  ℕ, ◌≤◌, ◌≡◌, ◌⊎◌, inl, inr, refl, ◌∙◌, sym, ap, arith, Bool, true, false, not, ◌||◌,
  if◌then◌else◌, Bool-cases, Option, none, some, max, List, [], ◌∷◌, length, Result, ok, err,
  Result-cases, Bytes, eqb, eqb→eq, eqb_refl, is_empty, ℤ, pos, negsuc,
}
use distributed_layer_infere.Tensor.{TensorBuffer}
use distributed_layer_infere.Stage.{
  RuntimeRequest, LlamaShardMetadata, PartitionKvCacheStep, LlamaRequestSession, RuntimeError,
}
use distributed_layer_infere.Stage.Shard.{validate_runtime_request_matches_partition}
use distributed_layer_infere.Stage.Sessions.{Entry, Map, find, session_key, session_for_request}
use distributed_layer_infere.Stage.Sessions.Lookups.{IsUnique}
use distributed_layer_infere.Stage.Cache.{update_kv_cache_for_request}

-- The answer, without the texts and times of its metrics.
pub record RuntimeResponse : Type 0 where
  pub is_final_stage : Bool
  pub next_token_id : ℤ
  pub output_metadata_json : Bytes
  pub output_tensor : TensorBuffer
  pub kv_step : PartitionKvCacheStep

-- What the layers do on ggml's tensors: the constructor returns or throws, by the checks that
-- check_hyperparams of Stage.Executor has; an executor changes its state and answers or throws. The
-- sampling parameters of the terminal one are left out.
pub record Executor (X : Type 0) : Type 0 where
  pub new_executor : Result RuntimeError X
  pub execute_source :
      TensorBuffer → List ℤ → Bytes → ℤ → Bytes → X → X × Result RuntimeError TensorBuffer
  pub execute_intermediate :
      TensorBuffer → List ℤ → Bytes → ℤ → Bytes → X → X × Result RuntimeError TensorBuffer
  pub execute_terminal :
      TensorBuffer → List ℤ → Bytes → ℤ → Bool → Bool → X → X × Result RuntimeError ℤ

-- `RuntimeResponse::output_tensor = {}`
abbrev pub no_tensor : TensorBuffer
no_tensor = record { metadata = record { dtype = []; shape = []; byte_order = [] }; bytes = [] }

-- The session is a reference into the map: what it becomes is seen there.
unfoldable pub store : {X : Type 0} → Bytes → LlamaRequestSession X → Map X → Map X
store k session [] = []
store k session (e ∷ es) =
    let rest = store k session es in
    if eqb e.key k then record { key = e.key; session = session } ∷ rest else e ∷ rest

-- The runtime: what is fixed when it is constructed.
pub record LlamaPartialRuntime (X : Type 0) : Type 0 where
  pub shard : LlamaShardMetadata
  pub n_embd : ℤ
  pub limit : ℕ
  pub rehash : Map X → Map X
  pub executor : Executor X

abbrev answered : {A B : Type 0} → (A → B) → Result RuntimeError A → Result RuntimeError B
answered f (ok a) = ok (f a)
answered f (err e) = err e

-- The response of a partition that hands hidden states on, and that of the terminal one.
abbrev hidden_response : RuntimeRequest → PartitionKvCacheStep → TensorBuffer → RuntimeResponse
hidden_response request step output = record {
  is_final_stage = false;
  next_token_id = negsuc 0;
  output_metadata_json = request.input_metadata_json;
  output_tensor = output;
  kv_step = step;
}

abbrev terminal_response : RuntimeRequest → PartitionKvCacheStep → ℤ → RuntimeResponse
terminal_response request step token = record {
  is_final_stage = true;
  next_token_id = token;
  output_metadata_json = request.input_metadata_json;
  output_tensor = no_tensor;
  kv_step = step;
}

module _ {X : Type 0} (runtime : LlamaPartialRuntime X) (request : RuntimeRequest) where
  abbrev pub on_session :
      {A : Type 0}
      → (ℤ → X → X × Result RuntimeError A)
      → (PartitionKvCacheStep → A → RuntimeResponse)
      → Map X × Result RuntimeError (LlamaRequestSession X)
      → Map X × Result RuntimeError RuntimeResponse
  on_session execute answer (held, err e) = (held, err e)
  on_session execute answer (held, ok session) =
      let (stepped, step) =
        update_kv_cache_for_request runtime.shard runtime.n_embd request session in
      let (executor, outcome) = execute step.seq_before stepped.executor in
      let after : LlamaRequestSession X = record {
        kv_cache = stepped.kv_cache;
        executor = executor;
      } in
      (store (session_key request) after held, answered (answer step) outcome)

  -- The session of the request, its cache step, and the executor's run behind it, whose outcome
  -- becomes the answer. The three forwards of the source share this order.
  unfoldable pub run_on_session :
      {A : Type 0}
      → (ℤ → X → X × Result RuntimeError A)
      → (PartitionKvCacheStep → A → RuntimeResponse)
      → Map X
      → Map X × Result RuntimeError RuntimeResponse
  run_on_session execute answer s =
      on_session execute answer
        (session_for_request runtime.rehash runtime.limit runtime.executor.new_executor request s)

  unfoldable pub forward_source_partition : Map X → Map X × Result RuntimeError RuntimeResponse
  forward_source_partition =
      run_on_session
        (λ seq_before.
          runtime.executor.execute_source request.input_tensor runtime.shard.layers
            request.generation_mode seq_before request.activation_precision)
        (hidden_response request)

  unfoldable pub forward_intermediate_partition :
      Map X → Map X × Result RuntimeError RuntimeResponse
  forward_intermediate_partition =
      run_on_session
        (λ seq_before.
          runtime.executor.execute_intermediate request.input_tensor runtime.shard.layers
            request.generation_mode seq_before request.activation_precision)
        (hidden_response request)

  unfoldable pub forward_terminal_partition : Map X → Map X × Result RuntimeError RuntimeResponse
  forward_terminal_partition =
      run_on_session
        (λ seq_before.
          runtime.executor.execute_terminal request.input_tensor runtime.shard.layers
            request.generation_mode seq_before runtime.shard.owns_norm runtime.shard.owns_lm_head)
        (terminal_response request)

  abbrev pub dispatch : Map X → Map X × Result RuntimeError RuntimeResponse
  dispatch s =
      if runtime.shard.owns_embedding
      then forward_source_partition s
      else if runtime.shard.owns_lm_head || is_empty runtime.shard.next_stage_url
      then forward_terminal_partition s
      else forward_intermediate_partition s

  -- A throw before the dispatch leaves the sessions as they are.
  abbrev pub after_validation :
      Map X → Result RuntimeError (Unit {0}) → Map X × Result RuntimeError RuntimeResponse
  after_validation s (err e) = (s, err e)
  after_validation s (ok u) = dispatch s

  unfoldable pub forward : Map X → Map X × Result RuntimeError RuntimeResponse
  forward s =
      let checked = validate_runtime_request_matches_partition request runtime.shard in
      if not runtime.shard.shard_loaded
      then (s, err RuntimeError.no_loaded_shard)
      else after_validation s checked
