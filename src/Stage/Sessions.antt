-- ===== src/Stage/Sessions.antt =====
-- The request sessions of a stage: prune_sessions_except and session_for_request of
-- src/native/dli_stage_cpp/src/runtimes/llama_partial_runtime.cpp.
pub mod Lookups
pub mod Kept
pub mod Served
use distributed_layer_infere.Common.{
  ℕ, zero, suc, Bool, true, not, ◌&&◌, Option, none, some, List, [], ◌∷◌, max, ltb, if◌then◌else◌,
  length, Bytes, codes, eqb, is_empty, ℤ, pos, eqb_ℤ, Result, ok, err,
}
use distributed_layer_infere.Stage.{RuntimeRequest, LlamaRequestSession, RuntimeError}

-- An entry of the map, and the map in its iteration order.
pub record Entry (X : Type 0) : Type 0 where
  pub key : Bytes
  pub session : LlamaRequestSession X

abbrev pub Map : Type 0 → Type 0
Map X = List (Entry X)

-- `sessions_.find(key)`
unfoldable pub find : {X : Type 0} → Bytes → Map X → Option (LlamaRequestSession X)
find k [] = none
find k (e ∷ es) = if eqb e.key k then some e.session else find k es

-- `sessions_.erase(key)`
unfoldable pub erase : {X : Type 0} → Bytes → Map X → Map X
erase k [] = []
erase k (e ∷ es) = let rest = erase k es in if eqb e.key k then rest else e ∷ rest

-- One round of the loop: the map without the victim, or none where the loop breaks.
unfoldable pub without_victim : {X : Type 0} → Bytes → Map X → Option (Map X)
without_victim keep [] = none
without_victim keep (e ∷ []) = if not (is_empty keep) && eqb e.key keep then none else some []
without_victim keep (e ∷ f ∷ es) =
    if not (is_empty keep) && eqb e.key keep then some (e ∷ es) else some (f ∷ es)

-- `while (sessions_.size() > max_sessions)` by the rounds left.
unfoldable pub prune_rounds : {X : Type 0} → ℕ → ℕ → Bytes → Map X → Map X
prune_rounds zero max_sessions keep s = s
prune_rounds (suc rounds) max_sessions keep s =
    if ltb max_sessions (length s)
    then elim (without_victim keep s) [
      | none ↦ s
      | some s' ↦ prune_rounds rounds max_sessions keep s'
    ]
    else s

-- `limit` is DLI_NATIVE_MAX_SESSIONS, or 8. Every round removes an entry, so there are no more
-- rounds than entries.
unfoldable pub prune_sessions_except : {X : Type 0} → ℕ → Bytes → Map X → Map X
prune_sessions_except limit keep s = prune_rounds (length s) (max 1 limit) keep s

unfoldable pub session_key : RuntimeRequest → Bytes
session_key request =
    if is_empty request.request_id then codes "__default__" else request.request_id

-- The test before the old session is erased.
abbrev pub restarts : RuntimeRequest → Bool
restarts request =
    eqb request.generation_mode (codes "prefill") && eqb_ℤ request.token_index (pos 0)

abbrev pub fresh_session : {X : Type 0} → X → LlamaRequestSession X
fresh_session executor = record {
  kv_cache = record { seq_len = pos 0; valid = true };
  executor = executor;
}

-- A new session, if its executor can be constructed. `rehash` is the iteration order of the map after
-- an emplace, which std::unordered_map leaves open.
abbrev pub emplaced :
    {X : Type 0}
    → (Map X → Map X)
    → Bytes
    → Map X
    → Result RuntimeError X
    → Map X × Result RuntimeError (LlamaRequestSession X)
emplaced rehash key s (err e) = (s, err e)
emplaced rehash key s (ok executor) = (
  rehash (record { key = key; session = fresh_session executor } ∷ s),
  ok (fresh_session executor),
)

-- The session that a lookup gives, and the map that holds it.
abbrev pub found_or_emplaced :
    {X : Type 0}
    → (Map X → Map X)
    → Result RuntimeError X
    → Bytes
    → Map X
    → Option (LlamaRequestSession X)
    → Map X × Result RuntimeError (LlamaRequestSession X)
found_or_emplaced rehash made key s none = emplaced rehash key s made
found_or_emplaced rehash made key s (some session) = (s, ok session)

-- Where the constructor throws, the old session stays erased and nothing is pruned.
abbrev pub pruned :
    {X : Type 0}
    → ℕ
    → Bytes
    → Map X × Result RuntimeError (LlamaRequestSession X)
    → Map X × Result RuntimeError (LlamaRequestSession X)
pruned limit key (s, err e) = (s, err e)
pruned limit key (s, ok session) = (prune_sessions_except limit key s, ok session)

-- `made` is what the executor's constructor returns or throws on the loaded shard.
unfoldable pub session_for_request :
    {X : Type 0}
    → (Map X → Map X)
    → ℕ
    → Result RuntimeError X
    → RuntimeRequest
    → Map X
    → Map X × Result RuntimeError (LlamaRequestSession X)
session_for_request rehash limit made request s =
    let key = session_key request in
    let kept = if restarts request then erase key s else s in
    pruned limit key (found_or_emplaced rehash made key kept (find key kept))
