-- ===== src/Stage/Forward/Bounded.antt =====
-- The session map stays within its bound whatever a stage is asked.
use distributed_layer_infere.Common.{
  ℕ, ◌≤◌, ◌≡◌, refl, arith, Bool, true, false, not, ◌||◌, if◌then◌else◌, none, max, [], ◌∷◌, length,
  Result, ok, err, Bytes, is_empty, ℤ,
}
use distributed_layer_infere.Stage.{
  RuntimeRequest, PartitionKvCacheStep, LlamaRequestSession, RuntimeError,
}
use distributed_layer_infere.Stage.Shard.{validate_runtime_request_matches_partition}
use distributed_layer_infere.Stage.Sessions.{Map, find, session_key}
use distributed_layer_infere.Stage.Sessions.Lookups.{IsUnique}
use distributed_layer_infere.Stage.Sessions.Served.{
  IsRehash, IsOutcome, session_for_request-IsOutcome,
}
use distributed_layer_infere.Stage.Forward.{
  RuntimeResponse, LlamaPartialRuntime, store, on_session, run_on_session, forward_source_partition,
  forward_intermediate_partition, forward_terminal_partition, forward, dispatch, after_validation,
}

module _ {X : Type 0} where
  store-length :
      (k : Bytes) (session : LlamaRequestSession X) (s : Map X)
      → length (store k session s) ≡ length s
  unfolding store
  store-length k session [] = refl
  store-length k session (e ∷ es) = ground (arith, store-length k session es)

  store_absent :
      (j k : Bytes) (session : LlamaRequestSession X) (s : Map X)
      → find j s ≡ none
      → find j (store k session s) ≡ none
  unfolding store find
  store_absent j k session [] h = refl
  store_absent j k session (e ∷ es) h = ground (arith, store_absent j k session es)

  store-IsUnique :
      (k : Bytes) (session : LlamaRequestSession X) (s : Map X)
      → IsUnique s
      → IsUnique (store k session s)
  unfolding store
  store-IsUnique k session [] u = tt
  store-IsUnique k session (e ∷ es) u =
      ground (arith, store_absent e.key k session es, store-IsUnique k session es)

  -- At most max(1, limit) sessions, and no key twice.
  pub record IsBounded (limit : ℕ) (s : Map X) : Type 0 where
    pub size : length s ≤ max 1 limit
    pub unique : IsUnique s

module _ {X : Type 0} (runtime : LlamaPartialRuntime X) (ordered : IsRehash runtime.rehash)
    (request : RuntimeRequest) (s : Map X) (v : IsBounded runtime.limit s) where
  on_session-IsBounded :
      {A : Type 0} (execute : ℤ → X → X × Result RuntimeError A)
      (answer : PartitionKvCacheStep → A → RuntimeResponse)
      (r : Map X × Result RuntimeError (LlamaRequestSession X))
      → IsOutcome runtime.limit runtime.executor.new_executor request s r
      → IsBounded runtime.limit (on_session runtime request execute answer r).0
  on_session-IsBounded execute answer (held, err e) h = record {
    size = omega (arith, h.shorter, v.size);
    unique = h.unique;
  }
  on_session-IsBounded execute answer (held, ok session) h = record {
    size = rw (store-length (session_key request) _ _) h.size;
    unique = store-IsUnique (session_key request) _ _ h.unique;
  }

  run_on_session-IsBounded :
      {A : Type 0} (execute : ℤ → X → X × Result RuntimeError A)
      (answer : PartitionKvCacheStep → A → RuntimeResponse)
      → IsBounded runtime.limit (run_on_session runtime request execute answer s).0
  unfolding run_on_session
  run_on_session-IsBounded execute answer = on_session-IsBounded execute answer _ (
      session_for_request-IsOutcome runtime.rehash ordered runtime.limit
        runtime.executor.new_executor request s v.unique)

  either-IsBounded :
      (b : Bool) (x y : Map X × Result RuntimeError RuntimeResponse)
      → IsBounded runtime.limit x.0
      → IsBounded runtime.limit y.0
      → IsBounded runtime.limit (if b then x else y).0
  either-IsBounded true x y h k = h
  either-IsBounded false x y h k = k

  dispatch-IsBounded : IsBounded runtime.limit (dispatch runtime request s).0
  unfolding forward_source_partition forward_terminal_partition forward_intermediate_partition
  dispatch-IsBounded =
      either-IsBounded runtime.shard.owns_embedding _ _ (run_on_session-IsBounded _ _) (
        either-IsBounded (runtime.shard.owns_lm_head || is_empty runtime.shard.next_stage_url) _ _
          (run_on_session-IsBounded _ _) (run_on_session-IsBounded _ _))

  after_validation-IsBounded :
      (r : Result RuntimeError (Unit {0}))
      → IsBounded runtime.limit (after_validation runtime request s r).0
  after_validation-IsBounded (err e) = v
  after_validation-IsBounded (ok u) = dispatch-IsBounded

  -- `forward` keeps the bound on the sessions and the uniqueness of their keys on every branch:
  -- a refused request, each of the three partitions, and an executor that throws, be it in its
  -- constructor or in its run.
  pub forward-IsBounded : IsBounded runtime.limit (forward runtime request s).0
  unfolding forward
  forward-IsBounded = either-IsBounded (not runtime.shard.shard_loaded) _ _ v (
      after_validation-IsBounded (validate_runtime_request_matches_partition request runtime.shard))
