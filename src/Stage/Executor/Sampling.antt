-- ===== src/Stage/Executor/Sampling.antt =====
-- sample_lm_head and sample_from_logits of
-- src/native/dli_stage_cpp/src/runtimes/llama_cpu_executor.cpp. std::sort, the generator of random
-- numbers and what the code does with doubles are parameters.
use distributed_layer_infere.Common.{
  ℕ, suc, Bool, not, ◌&&◌, ◌||◌, if◌then◌else◌, Option, List, [], ◌∷◌, map, length, take, Result,
  ok, err, Bytes, codes, is_empty, ℤ, pos, pos_part, ltb_ℤ,
}
use mathlib.Core.List.{foldl}
use distributed_layer_infere.Stage.Executor.{Floats, Shard, matvec}

-- `has_seed` and `seed` are one field.
pub record LlamaSamplingParams (F : Type 0) : Type 0 where
  pub enabled : Bool
  pub temperature : F
  pub top_k : ℤ
  pub top_p : F
  pub seed : Option ℤ

-- The standard library: std::sort by descending logit, std::mt19937 with its seeds and the uniform
-- distribution, std::exp and the comparisons of doubles.
pub record Sampler (F D G : Type 0) : Type 0 where
  pub sorted : List (ℕ × F) → List (ℕ × F)
  pub seeded : ℤ → G
  pub from_device : G → G
  pub draw : G → G × D
  pub double_exp : D → D
  pub double_less : D → D → Bool
  pub double_at_most : D → D → Bool

module _ {F D G : Type 0} (floats : Floats F D) (sampler : Sampler F D G) where
  -- The loop of the greedy choice: the best so far, from token `i` on.
  unfoldable pub best_from : ℕ → F → ℕ → List F → ℕ
  best_from best_id best_value i [] = best_id
  best_from best_id best_value i (x ∷ xs) =
      let better = floats.less best_value x in
      best_from (if better then i else best_id) (if better then x else best_value) (suc i) xs

  -- An empty list is refused before.
  abbrev pub greedy : List F → ℕ
  greedy [] = 0
  greedy (x ∷ xs) = best_from 0 x 1 xs

  abbrev candidates_from : ℕ → F → List F → List (ℕ × F)
  candidates_from i inv_temperature [] = []
  candidates_from i inv_temperature (x ∷ xs) =
      (i, floats.times x inv_temperature) ∷ candidates_from (suc i) inv_temperature xs

  unfoldable pub top_k_of : ℤ → List (ℕ × F) → List (ℕ × F)
  top_k_of k candidates =
      if ltb_ℤ (pos 0) k && ltb_ℤ k (pos (length candidates))
      then take (pos_part k) candidates
      else candidates

  abbrev sum_of : List D → D
  sum_of ps = foldl floats.double_plus floats.double_nought ps

  abbrev shares : List D → List D
  shares ps = let whole = sum_of ps in map (λ p. floats.double_over p whole) ps

  unfoldable pub softmax : F → List (ℕ × F) → List D
  softmax max_logit candidates =
      shares
        (map (λ c. sampler.double_exp (floats.widened (floats.minus c.1 max_logit))) candidates)

  -- `cutoff`: the first prefix whose sum reaches top_p, or all.
  unfoldable pub cutoff_from : D → D → ℕ → List D → ℕ
  cutoff_from top_p cumulative i [] = i
  cutoff_from top_p cumulative i (p ∷ ps) =
      let total = floats.double_plus cumulative p in
      let rest = cutoff_from top_p total (suc i) ps in
      if sampler.double_at_most top_p total then suc i else rest

  abbrev renormalized : List D → List D
  renormalized kept =
      if sampler.double_less floats.double_nought (sum_of kept) then shares kept else kept

  -- The probabilities before `cutoff`; the others are not read again.
  unfoldable pub nucleus : F → List D → List D
  nucleus top_p probs =
      let cutoff = cutoff_from (floats.widened top_p) floats.double_nought 0 probs in
      if floats.less top_p floats.one && floats.less floats.nought top_p
      then renormalized (take cutoff probs)
      else probs

  unfoldable pub picked : ℕ → D → D → List (ℕ × F) → List D → ℕ
  picked fallback drawn cumulative [] ps = fallback
  picked fallback drawn cumulative (c ∷ cs) [] = fallback
  picked fallback drawn cumulative (c ∷ cs) (p ∷ ps) =
      let total = floats.double_plus cumulative p in
      let rest = picked fallback drawn total cs ps in
      if sampler.double_at_most drawn total then c.0 else rest

  -- There is a candidate: the logits are not empty, and top_k keeps one at least.
  abbrev pub pick_of : F → List (ℕ × F) → G → G × ℕ
  pick_of top_p [] rng = (rng, 0)
  pick_of top_p (c ∷ cs) rng =
      let (next, drawn) = sampler.draw rng in
      let probs = nucleus top_p (softmax c.1 (c ∷ cs)) in
      (next, picked c.0 drawn floats.double_nought (c ∷ cs) probs)

  unfoldable pub sample_from_logits : List F → LlamaSamplingParams F → G → G × ℕ
  sample_from_logits logits sampling rng =
      let inv_temperature = floats.over floats.one sampling.temperature in
      let candidates = sampler.sorted (candidates_from 0 inv_temperature logits) in
      if not sampling.enabled || floats.at_most sampling.temperature floats.nought
      then (rng, greedy logits)
      else pick_of sampling.top_p (top_k_of sampling.top_k candidates) rng

  abbrev drawn_from : LlamaSamplingParams F → G → Result Bytes (List F) → G × Result Bytes ℕ
  drawn_from sampling rng (err what) = (rng, err what)
  drawn_from sampling rng (ok logits) =
      let (next, id) = sample_from_logits logits sampling rng in
      if is_empty logits then (rng, err (codes "empty logits from lm_head")) else (next, ok id)

  unfoldable pub sample_lm_head : Shard F → List F → LlamaSamplingParams F → G → G × Result Bytes ℕ
  sample_lm_head shard last_hidden sampling rng =
      drawn_from sampling rng (matvec shard (codes "output.weight") last_hidden)
