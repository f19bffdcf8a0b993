-- ===== src/Stage/Executor/Attention.antt =====
-- compute_attention_scalar of src/native/dli_stage_cpp/src/runtimes/llama_cpu_executor.cpp, the
-- attention that runs unless DLI_GGML_ATTENTION is set.
use distributed_layer_infere.Common.{
  ℕ, ◌+◌, ◌*◌, ◌/◌, if◌then◌else◌, List, [], ◌∷◌, ◌++◌, map, get_or, Result, ok, err, ◌>>=◌, Bytes,
  codes,
}
use mathlib.Core.List.{foldl}
use distributed_layer_infere.Stage.Executor.{Floats, LlamaExecutorHyperparams, upto}

module _ {F D : Type 0} (floats : Floats F D) (hp : LlamaExecutorHyperparams F) where
  abbrev pub kv_dim : ℕ
  kv_dim = hp.n_head_kv * hp.head_dim

  abbrev pub q_dim : ℕ
  q_dim = hp.n_head * hp.head_dim

  -- The head of the cache that a query head reads.
  abbrev pub kv_head : ℕ → ℕ
  kv_head qh = qh / (hp.n_head / hp.n_head_kv)

  abbrev pub at_position : List F → ℕ → ℕ → ℕ → F
  at_position cache qh pos d =
      get_or cache (pos * kv_dim + (kv_head qh * hp.head_dim + d)) floats.nought

  abbrev pub dot : List F → List F → ℕ → ℕ → F
  dot q k_cache qh pos =
      foldl
        (λ sum d. floats.plus sum (
          floats.times (get_or q (qh * hp.head_dim + d) floats.nought)
            (at_position k_cache qh pos d)))
        floats.nought (upto hp.head_dim)

  unfoldable pub scores : List F → List F → ℕ → ℕ → List F
  scores q k_cache required_seq qh =
      let scale = floats.over floats.one (floats.sqrt (floats.of_int hp.head_dim)) in
      map (λ pos. floats.times (dot q k_cache qh pos) scale) (upto required_seq)

  -- The exponentials, before they are divided by their sum.
  abbrev pub weights : List F → List F
  weights found =
      let max_score = foldl (λ a b. if floats.less a b then b else a) floats.minus_infinity found in
      map (λ score. floats.exp (floats.minus score max_score)) found

  unfoldable pub head_context : List F → List F → ℕ → ℕ → F → List F
  head_context exps v_cache required_seq qh denom =
      map
        (λ d.
          foldl
            (λ sum pos. floats.plus sum (
              floats.times (floats.over (get_or exps pos floats.nought) denom)
                (at_position v_cache qh pos d)))
            floats.nought (upto required_seq))
        (upto hp.head_dim)

  abbrev pub if_positive : F → List F → Result Bytes (List F)
  if_positive denom context =
      if floats.at_most denom floats.nought
      then err (codes "attention softmax denominator is non-positive")
      else ok context

  abbrev pub one_head : List F → List F → List F → ℕ → ℕ → Result Bytes (List F)
  one_head q k_cache v_cache required_seq qh =
      let exps = weights (scores q k_cache required_seq qh) in
      let denom = foldl floats.plus floats.nought exps in
      if_positive denom (head_context exps v_cache required_seq qh denom)

  unfoldable pub heads : List F → List F → List F → ℕ → List ℕ → Result Bytes (List F)
  heads q k_cache v_cache required_seq [] = ok []
  heads q k_cache v_cache required_seq (qh ∷ qhs) =
      one_head q k_cache v_cache required_seq qh >>= λ context.
      heads q k_cache v_cache required_seq qhs >>= λ others. ok (context ++ others)

  unfoldable pub compute_attention_scalar : List F → List F → List F → ℕ → Result Bytes (List F)
  compute_attention_scalar q k_cache v_cache required_seq =
      heads q k_cache v_cache required_seq (upto hp.n_head)
