-- ===== src/Stage/Cache.antt =====
-- The bookkeeping of a partition's key-value cache: estimate_kv_cache_bytes and
-- update_kv_cache_for_request of src/native/dli_stage_cpp/src/runtimes/llama_partial_runtime.cpp.
use distributed_layer_infere.Common.{
  ℕ, ◌-◌, ◌*◌, ◌%◌, ◌^◌, Bool, true, false, not, ◌&&◌, ◌||◌, if◌then◌else◌, ◌≡◌, ◌⊎◌, inl, inr,
  refl, ◌↔◌, arith, List, [], ◌∷◌, length, Bytes, codes, eqb, is_empty, ℤ, pos, negsuc, pos_part,
  ltb_ℤ, eqb_ℤ, ◌+ℤ◌, Bool-cases, eqb→eq, eqb_ℤ_iff, Option, none, some, Option-cases, All,
}
use distributed_layer_infere.Tensor.{to_int32, dli2_sequence_length}
use distributed_layer_infere.Stage.{
  RuntimeRequest, LlamaShardMetadata, PartitionKvCacheState, PartitionKvCacheStep,
  LlamaRequestSession,
}

-- `n_embd` is that of the model's metadata. The products are of std::uint64_t.
unfoldable pub estimate_kv_cache_bytes : LlamaShardMetadata → ℤ → ℤ → ℕ
estimate_kv_cache_bytes shard n_embd seq_len =
    if not (ltb_ℤ (pos 0) seq_len) || is_empty shard.layers
    then 0
    else let hidden_size = if ltb_ℤ (pos 0) shard.hidden_size then shard.hidden_size else n_embd in
      if not (ltb_ℤ (pos 0) hidden_size)
      then 0
      else pos_part seq_len * length shard.layers * pos_part hidden_size * 2 * 4 % 2 ^ 64

-- `static_cast<int>` of a std::int64_t.
abbrev pub cast_int : ℤ → ℤ
cast_int (pos n) = to_int32 n
cast_int (negsuc n) = to_int32 (2 ^ 32 - 1 - n % 2 ^ 32)

-- What a step adds to the length, or none where the step is not valid.
unfoldable pub step_length : Bytes → ℤ → Option ℤ
step_length mode input_seq =
    if eqb mode (codes "prefill")
    then (if not (ltb_ℤ (pos 0) input_seq) then none else some input_seq)
    else if eqb mode (codes "decode")
    then (if not (eqb_ℤ input_seq (pos 1)) then none else some (pos 1))
    else none

abbrev pub input_length : RuntimeRequest → ℤ
input_length request = cast_int (dli2_sequence_length request.input_tensor)

-- The cache after a step. The sum is an int: where it does not fit, C++ leaves it undefined, and
-- here it wraps around.
abbrev pub stepped : PartitionKvCacheState → Option ℤ → PartitionKvCacheState
stepped cache none = record { seq_len = cache.seq_len; valid = cache.valid && false }
stepped cache (some added) = record {
  seq_len = cast_int (cache.seq_len +ℤ added);
  valid = cache.valid && true;
}

unfoldable pub update_kv_cache_for_request :
    {X : Type 0}
    → LlamaShardMetadata
    → ℤ
    → RuntimeRequest
    → LlamaRequestSession X
    → LlamaRequestSession X × PartitionKvCacheStep
update_kv_cache_for_request shard n_embd request session =
    let cache = session.kv_cache in
    let after = stepped cache (step_length request.generation_mode (input_length request)) in
    if not request.kv_cache_enabled
    then (
      session,
      record {
        seq_before = cache.seq_len;
        seq_after = cache.seq_len;
        bytes = estimate_kv_cache_bytes shard n_embd cache.seq_len;
        valid = true;
      },
    )
    else (
      record { kv_cache = after; executor = session.executor },
      record {
        seq_before = cache.seq_len;
        seq_after = after.seq_len;
        bytes = estimate_kv_cache_bytes shard n_embd after.seq_len;
        valid = after.valid;
      },
    )

-- The steps of one request: each has its mode and its tensor.
unfoldable pub run_steps :
    {X : Type 0}
    → LlamaShardMetadata
    → ℤ
    → List RuntimeRequest
    → LlamaRequestSession X
    → LlamaRequestSession X
run_steps shard n_embd [] session = session
run_steps shard n_embd (r ∷ rs) session =
    run_steps shard n_embd rs (update_kv_cache_for_request shard n_embd r session).0

-- What a step that uses the cache has to be: a prefill of at least one token or a decode of one.
abbrev pub IsStep : Bytes → ℤ → Type 0
IsStep mode input_seq =
    ((mode ≡ codes "prefill") × (ltb_ℤ (pos 0) input_seq ≡ true))
    ⊎ ((mode ≡ codes "decode") × (input_seq ≡ pos 1))

-- A step that is taken without the cache, or that is one of those.
abbrev pub IsGood : RuntimeRequest → Type 0
IsGood r = (r.kv_cache_enabled ≡ false) ⊎ IsStep r.generation_mode (input_length r)

step_length-IsStep :
    (mode : Bytes) (input_seq l : ℤ) → step_length mode input_seq ≡ some l → IsStep mode input_seq
unfolding step_length
step_length-IsStep mode input_seq l e = elim (Bool-cases (eqb mode (codes "prefill"))) [
  | inl y ↦ elim (Bool-cases (ltb_ℤ (pos 0) input_seq)) [
    | inl more ↦ inl (eqb→eq _ _ y, more)
    | inr none_in ↦ absurd (ground arith)
  ]
  | inr n ↦ elim (Bool-cases (eqb mode (codes "decode"))) [
    | inl y ↦ elim (Bool-cases (eqb_ℤ input_seq (pos 1))) [
      | inl one ↦ inr (eqb→eq _ _ y, (eqb_ℤ_iff input_seq (pos 1)).0 one)
      | inr other ↦ absurd (ground arith)
    ]
    | inr m ↦ absurd (ground arith)
  ]
]

IsStep-step_length :
    (mode : Bytes) (input_seq : ℤ)
    → IsStep mode input_seq
    → (l : ℤ) × (step_length mode input_seq ≡ some l)
unfolding step_length eqb
IsStep-step_length mode input_seq (inl (m, more)) = (input_seq, rw (m, more) refl)
IsStep-step_length mode input_seq (inr (m, one)) = (pos 1, rw (m, one) refl)

kept_valid : (v : Bool) → (v && true) ≡ true → v ≡ true
kept_valid v h = ground arith

refused :
    (r : RuntimeRequest)
    → step_length r.generation_mode (input_length r) ≡ none
    → (true ≡ false) ⊎ IsStep r.generation_mode (input_length r)
    → ⊥
refused r e (inl off) = absurd (cc)
refused r e (inr step) =
    let (l, f) = IsStep-step_length r.generation_mode (input_length r) step in absurd (cc)

module _ {X : Type 0} (shard : LlamaShardMetadata) (n_embd : ℤ) where
  step_valid :
      (r : RuntimeRequest) (session : LlamaRequestSession X)
      → ((update_kv_cache_for_request shard n_embd r session).0.kv_cache.valid ≡ true)
        ↔ ((session.kv_cache.valid ≡ true) × IsGood r)
  unfolding update_kv_cache_for_request
  step_valid r session = elim (Bool-cases r.kv_cache_enabled) [
    | inr off ↦ rw off (λ e. (e, inl refl), λ p. p.0)
    | inl on ↦ elim (Option-cases (step_length r.generation_mode (input_length r))) [
      | inl e ↦ rw (on, e) (λ h. absurd (ground arith), λ p. absurd (refused r e p.1))
      | inr (l, e) ↦
          rw (on, e)
            (
              λ h. (kept_valid session.kv_cache.valid h, inr (step_length-IsStep _ _ l e)),
              λ p. rw p.0 refl,
            )
    ]
  ]

  -- The cache of a session is valid after any sequence of steps exactly when it was valid before
  -- and each step that used the cache was a prefill of at least one token or a decode of one.
  pub run_steps-valid :
      (rs : List RuntimeRequest) (session : LlamaRequestSession X)
      → ((run_steps shard n_embd rs session).kv_cache.valid ≡ true)
        ↔ ((session.kv_cache.valid ≡ true) × All IsGood rs)
  unfolding run_steps
  run_steps-valid [] session = (λ e. (e, tt), λ p. p.0)
  run_steps-valid (r ∷ rs) session =
      let (to, from) = run_steps-valid rs (update_kv_cache_for_request shard n_embd r session).0 in
      let (one, back) = step_valid r session in
      (
        λ e. let (v, rest) = to e in let (w, good) = one v in (w, (good, rest)),
        λ p. from (back (p.0, p.1.0), p.1.1),
      )
