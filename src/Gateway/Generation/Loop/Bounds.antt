-- ===== src/Gateway/Generation/Loop/Bounds.antt =====
-- How many tokens a generation has, and with which reason it ends.
use distributed_layer_infere.Common.{
  ℕ, suc, ◌+◌, ◌≤◌, ◌≡◌, ◌⊎◌, inl, inr, refl, ap, arith, true, false, Bool-cases, none, List, [],
  ◌∷◌, ◌++◌, All, Result, ok, err, length, length-append, Bytes, ℤ, pos, ltb_ℤ,
}
use mathlib.Core.Path.{subst}
use mathlib.Core.List.{append_assoc}
use distributed_layer_infere.Metadata.Request.{Double}
use distributed_layer_infere.Gateway.Routing.{LoopError, Post}
use distributed_layer_infere.Gateway.Generation.{GenerationLoopConfig}
use distributed_layer_infere.Gateway.Generation.Loop.{
  Tokenizer, TerminationReason, max_new_tokens, stop_marker, Run, GenerationLoopResult,
  should_stop_after, thrown_by_tokenizer, decode_steps, generate, concluded, with_text, from_prompt,
  run_stub_generation,
}
use distributed_layer_infere.Gateway.Generation.Loop.Specification.{
  IsToken, Generates, limit, stop, go_on, fail, stop_fail, generate-Generates,
}

module _ {D : Type 0} (tokens : Tokenizer) (config : GenerationLoopConfig D) where
  Generates-length :
      {n : ℕ} {front more : List ℤ} {outcome : Result LoopError TerminationReason}
      → Generates tokens config n front more outcome
      → length more ≤ n
  Generates-length limit = omega arith
  Generates-length (stop token b) = omega arith
  Generates-length (go_on token b rest) = omega (arith, Generates-length rest)
  Generates-length fail = omega arith
  Generates-length (stop_fail token b) = omega arith

  Generates-IsToken :
      {n : ℕ} {front more : List ℤ} {outcome : Result LoopError TerminationReason}
      → Generates tokens config n front more outcome
      → All IsToken more
  Generates-IsToken limit = tt
  Generates-IsToken (stop token b) = (token, tt)
  Generates-IsToken (go_on token b rest) = (token, Generates-IsToken rest)
  Generates-IsToken fail = tt
  Generates-IsToken (stop_fail token b) = (token, tt)

  -- At least min_new_tokens tokens.
  abbrev pub IsEnough : ℕ → Type 0
  IsEnough n = ltb_ℤ (pos n) config.min_new_tokens ≡ false

  -- A generation without failure reaches the limit, or stops before or at it with enough tokens.
  abbrev pub IsComplete : ℕ → ℕ → TerminationReason → Type 0
  IsComplete n count reason =
      ((reason ≡ max_new_tokens) × (count ≡ n))
      ⊎ ((reason ≡ stop_marker) × (count ≤ n) × IsEnough count)

  IsEnough-should_stop_after :
      (generated : List ℤ) (t : ℤ)
      → should_stop_after tokens config generated t ≡ ok true
      → IsEnough (length generated)
  unfolding should_stop_after
  IsEnough-should_stop_after generated t h =
      elim (Bool-cases (ltb_ℤ (pos (length generated)) config.min_new_tokens)) [
        | inl few ↦ absurd (ground arith)
        | inr enough ↦ enough
      ]

  abbrev Ends : ℕ → List ℤ → List ℤ → Result LoopError TerminationReason → Type 0
  Ends n front more (err e) = Unit {0}
  Ends n front more (ok reason) = IsComplete (length front + n) (length (front ++ more)) reason

  Ends-go_on :
      (n : ℕ) (front more : List ℤ) (t : ℤ) (outcome : Result LoopError TerminationReason)
      → Ends n (front ++ (t ∷ [])) more outcome
      → Ends (suc n) front (t ∷ more) outcome
  Ends-go_on n front more t (err e) h = tt
  Ends-go_on n front more t (ok reason) h =
      let limit_moved : length (front ++ (t ∷ [])) + n ≡ length front + suc n =
        omega (arith, length-append front (t ∷ [])) in
      let joined = ap length (append_assoc front (t ∷ []) more) in
      subst (λ k. IsComplete k (length (front ++ (t ∷ more))) reason) limit_moved
        (subst (λ k. IsComplete (length (front ++ (t ∷ [])) + n) k reason) joined h)

  Generates-Ends :
      {n : ℕ} {front more : List ℤ} {outcome : Result LoopError TerminationReason}
      → Generates tokens config n front more outcome
      → Ends n front more outcome
  Generates-Ends {front = front} limit = inl (refl, length-append front [])
  Generates-Ends {n = suc n} {front = front} (stop {t = t} token b) = inr (
    refl,
    omega (arith, length-append front (t ∷ [])),
    IsEnough-should_stop_after (front ++ (t ∷ [])) t b,
  )
  Generates-Ends {n = suc n} {front = front}
        (go_on {more = more} {t = t} {outcome = outcome} token b rest) =
      Ends-go_on n front more t outcome (Generates-Ends rest)
  Generates-Ends fail = tt
  Generates-Ends (stop_fail token b) = tt

module _ {W D : Type 0} (post : Post W) (double : Double D) (tokens : Tokenizer)
    (config : GenerationLoopConfig D) (request_id : Bytes) where
  abbrev IsCompleteRun : ℕ → GenerationLoopResult W → Type 0
  IsCompleteRun n result =
      (length result.generated_token_ids ≤ n)
      × All IsToken result.generated_token_ids
      × (result.failure ≡ none
          → (result.generated_token_count ≡ length result.generated_token_ids)
            × IsComplete tokens config n (length result.generated_token_ids)
                result.termination_reason)

  text_complete :
      (n : ℕ) (ids : List ℤ) (run : Run W) (reason : TerminationReason)
      (text : Result LoopError Bytes)
      → Generates tokens config n [] run.generated_token_ids (ok reason)
      → IsCompleteRun n (with_text post double tokens config request_id ids run reason text)
  text_complete n ids run reason (err e) g =
      (Generates-length tokens config g, Generates-IsToken tokens config g, λ h. absurd (cc))
  text_complete n ids run reason (ok text) g = (
    Generates-length tokens config g,
    Generates-IsToken tokens config g,
    λ h. (
      refl,
      subst (λ k. IsComplete tokens config k (length run.generated_token_ids) reason) (omega arith)
          (Generates-Ends tokens config g),
    ),
  )

  finished_complete :
      (n : ℕ) (ids : List ℤ) (run : Run W) (outcome : Result LoopError TerminationReason)
      → Generates tokens config n [] run.generated_token_ids outcome
      → IsCompleteRun n (concluded post double tokens config request_id ids run outcome)
  finished_complete n ids run (err e) g =
      (Generates-length tokens config g, Generates-IsToken tokens config g, λ h. absurd (cc))
  finished_complete n ids run (ok reason) g =
      text_complete n ids run reason
        (thrown_by_tokenizer (tokens.detokenize run.generated_token_ids)) g

  prompt_complete :
      (n : ℕ) (w : W) (ids : Result LoopError (List ℤ))
      → IsCompleteRun n (from_prompt post double tokens config request_id n w ids)
  prompt_complete n w (err e) = (omega arith, tt, λ h. absurd (cc))
  prompt_complete n w (ok ids) =
      let run = generate post double tokens config request_id n ids w in
      finished_complete n ids run run.outcome
        (generate-Generates post double tokens config request_id n ids w)

  -- run_stub_generation generates at most max(0, max_new_tokens) tokens, none of them negative. If
  -- it does not fail, the count is that of the tokens, and the reason is max_new_tokens with exactly
  -- that many tokens, or stop_marker with no more than that and at least min_new_tokens.
  pub run_stub_generation-IsComplete :
      (prompt : Bytes) (max_tokens : ℤ) (w : W)
      → let result = run_stub_generation post double tokens config request_id prompt max_tokens w in
        let n = decode_steps max_tokens in
        (length result.generated_token_ids ≤ n)
        × All IsToken result.generated_token_ids
        × (result.failure ≡ none
            → (result.generated_token_count ≡ length result.generated_token_ids)
              × IsComplete tokens config n
                  (length result.generated_token_ids)
                  result.termination_reason)
  unfolding run_stub_generation
  run_stub_generation-IsComplete prompt max_tokens w = prompt_complete _ w _
