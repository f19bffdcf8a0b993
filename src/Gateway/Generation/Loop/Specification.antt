-- ===== src/Gateway/Generation/Loop/Specification.antt =====
-- What the tokens of a generation may be, whatever makes a pass fail: generation_loop.cpp.
use distributed_layer_infere.Common.{
  ℕ, zero, suc, ◌≡◌, refl, ◌∙◌, arith, Bool, true, false, if_false, Bool-cases, Option, none, some,
  List, [], ◌∷◌, ◌++◌, Result, ok, err, ◌>>=◌, Bytes, codes, length, ℤ, sym, inl, inr, pos, ltb_ℤ,
  is_empty,
}
use mathlib.Core.Path.{subst}
use mathlib.Core.List.{append_assoc, append-nil}
use distributed_layer_infere.Metadata.{MetadataError}
use distributed_layer_infere.Metadata.Request.{Double}
use distributed_layer_infere.Metadata.Parsed.{ParsedRequestMetadata, parse_request_metadata}
use distributed_layer_infere.Gateway.Routing.{
  LoopError, Post, Pass, StageClientResult, GenerationStepTrace,
}
use distributed_layer_infere.Gateway.Generation.{GenerationLoopConfig}
use distributed_layer_infere.Gateway.Generation.Loop.{
  Tokenizer, TerminationReason, max_new_tokens, stop_marker, Run, should_stop_after, token_if,
  parsed_token, next_token_id_from_terminal_response, pass_for, after_push, after_token, after_pass,
  decode_loop, after_prefill, generate,
}

-- A token of the vocabulary.
abbrev pub IsToken : ℤ → Type 0
IsToken t = ltb_ℤ t (pos 0) ≡ false

module _ {D : Type 0} (tokens : Tokenizer) (config : GenerationLoopConfig D) where
  -- From the tokens `front` on, with `n` tokens left, `more` are generated and this is the outcome.
  pub data Generates : ℕ → List ℤ → List ℤ → Result LoopError TerminationReason → Type 0 where
    limit : {front : List ℤ} → Generates 0 front [] (ok max_new_tokens)
    stop :
        {n : ℕ} {front : List ℤ} {t : ℤ}
        → IsToken t
        → should_stop_after tokens config (front ++ (t ∷ [])) t ≡ ok true
        → Generates (suc n) front (t ∷ []) (ok stop_marker)
    go_on :
        {n : ℕ} {front more : List ℤ} {t : ℤ} {outcome : Result LoopError TerminationReason}
        → IsToken t
        → should_stop_after tokens config (front ++ (t ∷ [])) t ≡ ok false
        → Generates n (front ++ (t ∷ [])) more outcome
        → Generates (suc n) front (t ∷ more) outcome
    fail : {n : ℕ} {front : List ℤ} {e : LoopError} → Generates n front [] (err e)
    stop_fail :
        {n : ℕ} {front : List ℤ} {t : ℤ} {e : LoopError}
        → IsToken t
        → should_stop_after tokens config (front ++ (t ∷ [])) t ≡ err e
        → Generates (suc n) front (t ∷ []) (err e)

  -- What a run adds to `front`.
  pub record Adds {W : Type 0} (n : ℕ) (front : List ℤ) (run : Run W) : Type 0 where
    pub more : List ℤ
    pub whole : run.generated_token_ids ≡ front ++ more
    pub generates : Generates n front more run.outcome

token_if-IsToken : (o : Option ℤ) (t : ℤ) → token_if o ≡ ok t → IsToken t
token_if-IsToken none t h = absurd (cc)
token_if-IsToken (some z) t h = ground arith

parsed_token-IsToken :
    {D : Type 0} (r : Result MetadataError (ParsedRequestMetadata D)) (t : ℤ)
    → parsed_token r ≡ ok t
    → IsToken t
parsed_token-IsToken (err e) t h = absurd (cc)
parsed_token-IsToken (ok parsed) t h = token_if-IsToken parsed.next_token_id t h

pub next_token_id_from_terminal_response-IsToken :
    {D : Type 0} (double : Double D) (r : StageClientResult) (t : ℤ)
    → next_token_id_from_terminal_response double r ≡ ok t
    → IsToken t
unfolding next_token_id_from_terminal_response
next_token_id_from_terminal_response-IsToken double r t h =
    elim (Bool-cases (is_empty r.response_frame.metadata_json)) [
      | inl y ↦ absurd (ground arith)
      | inr n ↦
          parsed_token-IsToken (parse_request_metadata double r.response_frame.metadata_json) t
            (sym (if_false _ _ n) ∙ h)
    ]

module _ {W D : Type 0} (post : Post W) (double : Double D) (tokens : Tokenizer)
    (config : GenerationLoopConfig D) (request_id : Bytes) where
  abbrev Next : Type 0
  Next = W → List GenerationStepTrace → List ℤ → ℤ → Run W

  bound-IsToken :
      (outcome : Result LoopError StageClientResult) (t : ℤ)
      → (outcome >>= next_token_id_from_terminal_response double) ≡ ok t
      → IsToken t
  bound-IsToken (err e) t h = absurd (cc)
  bound-IsToken (ok r) t h = next_token_id_from_terminal_response-IsToken double r t h

  Adds-after_push :
      (next : Next) (n : ℕ) (w : W) (steps : List GenerationStepTrace) (front : List ℤ) (t : ℤ)
      (b : Result LoopError Bool)
      → IsToken t
      → should_stop_after tokens config (front ++ (t ∷ [])) t ≡ b
      → Adds tokens config n (front ++ (t ∷ [])) (next w steps (front ++ (t ∷ [])) t)
      → Adds tokens config
          (suc n)
          front
          (after_push post double tokens config request_id next w steps (front ++ (t ∷ [])) t b)
  Adds-after_push next n w steps front t (err e) token b rest = record {
    more = t ∷ [];
    whole = refl;
    generates = stop_fail token b;
  }
  Adds-after_push next n w steps front t (ok true) token b rest = record {
    more = t ∷ [];
    whole = refl;
    generates = stop token b;
  }
  Adds-after_push next n w steps front t (ok false) token b rest = record {
    more = t ∷ rest.more;
    whole = rest.whole ∙ append_assoc front (t ∷ []) rest.more;
    generates = go_on token b rest.generates;
  }

  module _ (next : Next) (n : ℕ)
      (sound : (w : W) (steps : List GenerationStepTrace) (front : List ℤ) (t : ℤ)
        → Adds tokens config n front (next w steps front t)) where
    Adds-after_token :
        (w : W) (steps : List GenerationStepTrace) (front : List ℤ) (r : Result LoopError ℤ)
        → ((t : ℤ) → r ≡ ok t → IsToken t)
        → Adds tokens config
            (suc n)
            front
            (after_token post double tokens config request_id next w steps front r)
    Adds-after_token w steps front (err e) valid = record {
      more = [];
      whole = sym (append-nil front);
      generates = fail;
    }
    Adds-after_token w steps front (ok t) valid =
        Adds-after_push next n w steps front t _ (valid t refl) refl
          (sound w steps (front ++ (t ∷ [])) t)

    Adds-after_pass :
        (front : List ℤ) (pass : Pass W)
        → Adds tokens config
            (suc n)
            front
            (after_pass post double tokens config request_id next front pass)
    Adds-after_pass front pass =
        Adds-after_token pass.world pass.steps front _ (λ t h. bound-IsToken pass.outcome t h)

  decode_loop-Adds :
      (rounds i : ℕ) (w : W) (steps : List GenerationStepTrace) (front : List ℤ) (last : ℤ)
      → Adds tokens config rounds front
          (decode_loop post double tokens config request_id rounds i w steps front last)
  unfolding decode_loop
  decode_loop-Adds zero i w steps front last = record {
    more = [];
    whole = sym (append-nil front);
    generates = limit;
  }
  decode_loop-Adds (suc rounds) i w steps front last =
      Adds-after_pass (decode_loop post double tokens config request_id rounds (suc i)) rounds
        (decode_loop-Adds rounds (suc i)) front
        (pass_for post double tokens config request_id (pos i) (codes "decode") (pos 1 ∷ pos 1 ∷ [])
          (last ∷ []) w steps)

  prefill_only :
      (outcome : Result LoopError StageClientResult)
      → Generates tokens config 0 [] [] (outcome >>= λ r. ok max_new_tokens)
  prefill_only (ok r) = limit
  prefill_only (err e) = fail

  after_prefill-Adds :
      (n : ℕ) (pass : Pass W)
      → Adds tokens config n [] (after_prefill post double tokens config request_id n pass)
  after_prefill-Adds zero pass = record {
    more = [];
    whole = refl;
    generates = prefill_only pass.outcome;
  }
  after_prefill-Adds (suc n) pass =
      Adds-after_pass (decode_loop post double tokens config request_id n 1) n
        (decode_loop-Adds n 1) [] pass

  -- The tokens and the outcome of the loop are of that shape.
  pub generate-Generates :
      (n : ℕ) (token_ids : List ℤ) (w : W)
      → let run = generate post double tokens config request_id n token_ids w in
        Generates tokens config n [] run.generated_token_ids run.outcome
  unfolding generate
  generate-Generates n token_ids w =
      let shape = pos 1 ∷ pos (length token_ids) ∷ [] in
      let pass =
        pass_for post double tokens config request_id (pos 0) (codes "prefill") shape token_ids w
          [] in
      let adds = after_prefill-Adds n pass in
      let outcome = (after_prefill post double tokens config request_id n pass).outcome in
      subst (λ ts. Generates tokens config n [] ts outcome) (sym adds.whole) adds.generates
