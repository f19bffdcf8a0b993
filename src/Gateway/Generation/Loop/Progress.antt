-- ===== src/Gateway/Generation/Loop/Progress.antt =====
-- A generation over a path that answers ends without a failure.
use distributed_layer_infere.Common.{
  ℕ, zero, suc, ◌+◌, ◌≤◌, ◌<◌, arith, ◌≡◌, refl, ap, ◌∙◌, Bool, true, false, if_true, if_false,
  Bool-cases, inl, inr, none, List, [], ◌∷◌, ◌++◌, Result, ok, err, ◌>>=◌, length, Bytes, codes, ℤ,
  pos, ltb_ℤ,
}
use distributed_layer_infere.Metadata.Request.{Double}
use distributed_layer_infere.Gateway.Routing.{
  LoopError, Post, Pass, StageClientResult, GenerationStepTrace,
}
use distributed_layer_infere.Gateway.Generation.{
  GenerationLoopConfig, format_prompt_for_generation, contains_generation_control_marker,
}
use distributed_layer_infere.Gateway.Generation.Loop.{
  Tokenizer, TerminationReason, max_new_tokens, stop_marker, Run,
  next_token_id_from_terminal_response, should_stop_after, marker_in, thrown_by_tokenizer, pass_for,
  after_push, after_token, decode_loop, decode_steps, after_prefill, generate, concluded, with_text,
  from_prompt, run_stub_generation,
}

abbrev pub Returns : {E A : Type 0} → Result E A → Type 0
Returns {A = A} r = (a : A) × (r ≡ ok a)

module _ {W D : Type 0} (post : Post W) (double : Double D) (tokens : Tokenizer)
    (config : GenerationLoopConfig D) (request_id : Bytes) where
  -- A pass comes back with a next token.
  abbrev IsAnswered : Pass W → Type 0
  IsAnswered pass = Returns (pass.outcome >>= next_token_id_from_terminal_response double)

  abbrev pub PrefillAnswers : List ℤ → W → Type 0
  PrefillAnswers ids w = IsAnswered (
      pass_for post double tokens config request_id (pos 0) (codes "prefill")
        (pos 1 ∷ pos (length ids) ∷ []) ids w [])

  -- Whatever came before, each of the first `n` decode passes is answered.
  abbrev pub DecodeAnswers : ℕ → Type 0
  DecodeAnswers n =
      (i : ℕ) (last : ℤ) (w : W) (steps : List GenerationStepTrace)
      → i < n
      → IsAnswered (
          pass_for post double tokens config request_id (pos i) (codes "decode")
            (pos 1 ∷ pos 1 ∷ []) (last ∷ []) w steps)

  abbrev Next : Type 0
  Next = W → List GenerationStepTrace → List ℤ → ℤ → Run W

  module _ (detokenizes : (ids : List ℤ) → Returns (tokens.detokenize ids)) where
    decides : (generated : List ℤ) (t : ℤ) → Returns (should_stop_after tokens config generated t)
    unfolding should_stop_after
    decides generated t = elim (Bool-cases (ltb_ℤ (pos (length generated)) config.min_new_tokens)) [
      | inl few ↦ (false, if_true _ _ few)
      | inr enough ↦
          let (text, e) = detokenizes (t ∷ []) in
          (
            contains_generation_control_marker text,
            if_false _ _ enough ∙ ap (λ r. marker_in (thrown_by_tokenizer r)) e,
          )
    ]

    module _ (next : Next)
        (go_on : (w : W) (steps : List GenerationStepTrace) (ids : List ℤ) (t : ℤ)
          → Returns (next w steps ids t).outcome) where
      returns_push :
          (w : W) (steps : List GenerationStepTrace) (ids : List ℤ) (t : ℤ)
          (b : Result LoopError Bool)
          → Returns b
          → Returns (after_push post double tokens config request_id next w steps ids t b).outcome
      returns_push w steps ids t (err e) h = absurd (cc)
      returns_push w steps ids t (ok true) h = (stop_marker, refl)
      returns_push w steps ids t (ok false) h = go_on w steps ids t

      returns_token :
          (w : W) (steps : List GenerationStepTrace) (ids : List ℤ) (r : Result LoopError ℤ)
          → Returns r
          → Returns (after_token post double tokens config request_id next w steps ids r).outcome
      returns_token w steps ids (err e) h = absurd (cc)
      returns_token w steps ids (ok t) h =
          returns_push w steps (ids ++ (t ∷ [])) t _ (decides (ids ++ (t ∷ [])) t)

    module _ (n : ℕ) (answers : DecodeAnswers n) where
      decode_loop-Returns :
          (rounds i : ℕ) (w : W) (steps : List GenerationStepTrace) (ids : List ℤ) (last : ℤ)
          → i + rounds ≤ n
          → Returns
              (decode_loop post double tokens config request_id rounds i w steps ids last).outcome
      unfolding decode_loop
      decode_loop-Returns zero i w steps ids last h = (max_new_tokens, refl)
      decode_loop-Returns (suc rounds) i w steps ids last h =
          let pass =
            pass_for post double tokens config request_id (pos i) (codes "decode")
              (pos 1 ∷ pos 1 ∷ []) (last ∷ []) w steps in
          returns_token (decode_loop post double tokens config request_id rounds (suc i))
            (λ w' steps' ids' t. decode_loop-Returns rounds (suc i) w' steps' ids' t (omega arith))
            pass.world pass.steps ids (pass.outcome >>= next_token_id_from_terminal_response double)
            (answers i last w steps (omega arith))

      prefill_returns :
          (outcome : Result LoopError StageClientResult)
          → Returns (outcome >>= next_token_id_from_terminal_response double)
          → Returns {E = LoopError} (outcome >>= λ r. ok max_new_tokens)
      prefill_returns (err e) h = absurd (cc)
      prefill_returns (ok r) h = (max_new_tokens, refl)

      after_prefill-Returns :
          (m : ℕ) (pass : Pass W)
          → m ≤ n
          → IsAnswered pass
          → Returns (after_prefill post double tokens config request_id m pass).outcome
      after_prefill-Returns zero pass h answered = prefill_returns pass.outcome answered
      after_prefill-Returns (suc m) pass h answered =
          returns_token (decode_loop post double tokens config request_id m 1)
            (λ w steps ids t. decode_loop-Returns m 1 w steps ids t (omega arith)) pass.world
            pass.steps [] (pass.outcome >>= next_token_id_from_terminal_response double) answered

      generate-Returns :
          (ids : List ℤ) (w : W)
          → PrefillAnswers ids w
          → Returns (generate post double tokens config request_id n ids w).outcome
      unfolding generate
      generate-Returns ids w prefill = after_prefill-Returns n _ (omega arith) prefill

      ends_well :
          (ids : List ℤ) (run : Run W) (reason : TerminationReason) (text : Result Bytes Bytes)
          → Returns text
          → (with_text post double tokens config request_id ids run reason
              (thrown_by_tokenizer text)).failure
            ≡ none
      ends_well ids run reason (err e) h = absurd (cc)
      ends_well ids run reason (ok text) h = refl

      finishes :
          (ids : List ℤ) (run : Run W) (outcome : Result LoopError TerminationReason)
          → Returns outcome
          → (concluded post double tokens config request_id ids run outcome).failure ≡ none
      finishes ids run (err e) h = absurd (cc)
      finishes ids run (ok reason) h =
          ends_well ids run reason _ (detokenizes run.generated_token_ids)

    -- If the tokenizer reads the prompt and never throws on tokens, the prefill comes back with a
    -- next token, and so does each decode pass up to the number of tokens asked for, then
    -- run_stub_generation ends without a failure.
    pub run_stub_generation-succeeds :
        (prompt : Bytes) (ids : List ℤ) (max_tokens : ℤ) (w : W)
        → tokens.tokenize (format_prompt_for_generation prompt config.apply_chat_template) ≡ ok ids
        → PrefillAnswers ids w
        → DecodeAnswers (decode_steps max_tokens)
        → (run_stub_generation post double tokens config request_id prompt max_tokens w).failure
          ≡ none
    unfolding run_stub_generation
    run_stub_generation-succeeds prompt ids max_tokens w tokenized prefill answers =
        let n = decode_steps max_tokens in
        ap
          (λ r.
            (from_prompt post double tokens config request_id n w (thrown_by_tokenizer r)).failure)
          tokenized
        ∙ finishes n answers ids (generate post double tokens config request_id n ids w) _
            (generate-Returns n answers ids w prefill)
