-- ===== src/Gateway/Generation/Loop/Rounds.antt =====
-- What a generation is: a pass for each token, on the prompt and then on the last token, until the
-- first stop marker that counts, the limit or a failure; and that the loop is one.
use distributed_layer_infere.Common.{
  ℕ, zero, suc, ◌≡◌, refl, arith, Bool, true, false, if_true, if_false, Bool-cases, List, [], ◌∷◌,
  ◌++◌, ◌⊎◌, length-append, ap, Result, ok, err, ◌>>=◌, Bytes, codes, length, ℤ, sym, inl, inr, pos,
  ltb_ℤ,
}
use mathlib.Core.Path.{subst}
use distributed_layer_infere.Metadata.Request.{Double}
use distributed_layer_infere.Gateway.Routing.{
  LoopError, tokenizer, Post, Pass, StageClientResult, GenerationStepTrace,
}
use distributed_layer_infere.Gateway.Generation.{
  GenerationLoopConfig, contains_generation_control_marker,
}
use distributed_layer_infere.Gateway.Generation.Loop.{
  Tokenizer, thrown_by_tokenizer, marker_in, run_of, TerminationReason, max_new_tokens, stop_marker,
  Run, should_stop_after, next_token_id_from_terminal_response, pass_for, after_push, after_token,
  after_pass, decode_loop, generate,
}
use distributed_layer_infere.Gateway.Generation.Loop.Specification.{
  IsToken, next_token_id_from_terminal_response-IsToken,
}

module _ {D : Type 0} (tokens : Tokenizer) (config : GenerationLoopConfig D) where
  -- The token behind `front` is tested for a stop marker: its number is not below min_new_tokens.
  abbrev is_early : List ℤ → Bool
  is_early front = ltb_ℤ (pos (suc (length front))) config.min_new_tokens

  -- The text of a token has a stop marker, or has none.
  abbrev HasMarker : Bool → ℤ → Type 0
  HasMarker b t =
      (text : Bytes) × (tokens.detokenize (t ∷ []) ≡ ok text)
      × (contains_generation_control_marker text ≡ b)

  -- Whether the token `t` behind `front` ends the generation, or throws.
  abbrev pub Tells : List ℤ → ℤ → Result LoopError Bool → Type 0
  Tells front t (ok true) = (is_early front ≡ false) × HasMarker true t
  Tells front t (ok false) = (is_early front ≡ true) ⊎ HasMarker false t
  Tells front t (err e) =
      (is_early front ≡ false)
      × ((text : Bytes) × (tokens.detokenize (t ∷ []) ≡ err text) × (e ≡ tokenizer text))

  marked-Tells :
      (front : List ℤ) (t : ℤ) (text : Bytes) (b : Bool)
      → is_early front ≡ false
      → tokens.detokenize (t ∷ []) ≡ ok text
      → contains_generation_control_marker text ≡ b
      → Tells front t (ok b)
  marked-Tells front t text true late e f = (late, (text, e, f))
  marked-Tells front t text false late e f = inr (text, e, f)

  detokenized-Tells :
      (front : List ℤ) (t : ℤ) (o : Result Bytes Bytes)
      → is_early front ≡ false
      → tokens.detokenize (t ∷ []) ≡ o
      → Tells front t (marker_in (thrown_by_tokenizer o))
  detokenized-Tells front t (err text) late e = (late, (text, e, refl))
  detokenized-Tells front t (ok text) late e = marked-Tells front t text _ late e refl

  should_stop_after-Tells :
      (front : List ℤ) (t : ℤ)
      → Tells front t (should_stop_after tokens config (front ++ (t ∷ [])) t)
  unfolding should_stop_after
  should_stop_after-Tells front t =
      let longer : length (front ++ (t ∷ [])) ≡ suc (length front) =
        omega (arith, length-append front (t ∷ [])) in
      elim (Bool-cases (is_early front)) [
        | inl early ↦ rw longer (subst (Tells front t) (sym (if_true _ _ early)) (inl early))
        | inr late ↦ rw longer (
            subst (Tells front t) (sym (if_false _ _ late)) (detokenized-Tells front t _ late refl))
      ]

abbrev pub last_of : ℤ → List ℤ → ℤ
last_of t [] = t
last_of t (u ∷ us) = last_of u us

last_of-snoc : (t : ℤ) (ts : List ℤ) (u : ℤ) → last_of t (ts ++ (u ∷ [])) ≡ u
last_of-snoc t [] u = refl
last_of-snoc t (x ∷ ts) u = last_of-snoc x ts u

module _ {W D : Type 0} (post : Post W) (double : Double D) (tokens : Tokenizer)
    (config : GenerationLoopConfig D) (request_id : Bytes) (prompt : List ℤ) where
  abbrev Next : Type 0
  Next = W → List GenerationStepTrace → List ℤ → ℤ → Run W

  -- The pass that gives the token behind `front`: the prefill of the prompt, or a decode of the last
  -- token whose index is the number of tokens so far.
  abbrev pub pass_behind : List ℤ → W → List GenerationStepTrace → Pass W
  pass_behind [] w steps =
      pass_for post double tokens config request_id (pos 0) (codes "prefill")
        (pos 1 ∷ pos (length prompt) ∷ []) prompt w steps
  pass_behind (t ∷ ts) w steps =
      pass_for post double tokens config request_id (pos (suc (length ts))) (codes "decode")
        (pos 1 ∷ pos 1 ∷ []) (last_of t ts ∷ []) w steps

  abbrev pub token_of : Pass W → Result LoopError ℤ
  token_of pass = pass.outcome >>= next_token_id_from_terminal_response double

  abbrev pub left_by : Pass W → List ℤ → Result LoopError TerminationReason → Run W
  left_by pass ids outcome =
      run_of post double tokens config request_id pass.world pass.steps ids outcome

  -- Behind the tokens `front`, in the world `w` and with `n` tokens left, the generation ends so.
  pub data Generates : ℕ → List ℤ → W → List GenerationStepTrace → Run W → Type 0 where
    limit :
        {front : List ℤ} {w : W} {steps : List GenerationStepTrace}
        → Generates 0 front w steps
            (run_of post double tokens config request_id w steps front (ok max_new_tokens))
    fail :
        {n : ℕ} {front : List ℤ} {w : W} {steps : List GenerationStepTrace} {e : LoopError}
        → token_of (pass_behind front w steps) ≡ err e
        → Generates (suc n) front w steps (left_by (pass_behind front w steps) front (err e))
    stop :
        {n : ℕ} {front : List ℤ} {w : W} {steps : List GenerationStepTrace} {t : ℤ}
        → token_of (pass_behind front w steps) ≡ ok t
        → IsToken t
        → Tells tokens config front t (ok true)
        → Generates
            (suc n)
            front
            w
            steps
            (left_by (pass_behind front w steps) (front ++ (t ∷ [])) (ok stop_marker))
    stop_fail :
        {n : ℕ} {front : List ℤ} {w : W} {steps : List GenerationStepTrace} {t : ℤ} {e : LoopError}
        → token_of (pass_behind front w steps) ≡ ok t
        → IsToken t
        → Tells tokens config front t (err e)
        → Generates
            (suc n)
            front
            w
            steps
            (left_by (pass_behind front w steps) (front ++ (t ∷ [])) (err e))
    go_on :
        {n : ℕ} {front : List ℤ} {w : W} {steps : List GenerationStepTrace} {t : ℤ} {run : Run W}
        → token_of (pass_behind front w steps) ≡ ok t
        → IsToken t
        → Tells tokens config front t (ok false)
        → Generates n
            (front ++ (t ∷ []))
            (pass_behind front w steps).world
            (pass_behind front w steps).steps
            run
        → Generates (suc n) front w steps run

  bound-IsToken : (pass : Pass W) (t : ℤ) → token_of pass ≡ ok t → IsToken t
  bound-IsToken pass t h = outcome-IsToken pass.outcome t h
    where
      outcome-IsToken :
          (outcome : Result LoopError StageClientResult) (t : ℤ)
          → (outcome >>= next_token_id_from_terminal_response double) ≡ ok t
          → IsToken t
      outcome-IsToken (err e) t h = absurd (cc)
      outcome-IsToken (ok r) t h = next_token_id_from_terminal_response-IsToken double r t h

  module _ (next : Next) (n : ℕ) (front : List ℤ) (w : W) (steps : List GenerationStepTrace)
      (sound : (w' : W) (steps' : List GenerationStepTrace) (t : ℤ)
        → Generates n (front ++ (t ∷ [])) w' steps' (next w' steps' (front ++ (t ∷ [])) t)) where
    abbrev pass : Pass W
    pass = pass_behind front w steps

    after_push-Generates :
        (t : ℤ) (b : Result LoopError Bool)
        → token_of pass ≡ ok t
        → Tells tokens config front t b
        → Generates (suc n) front w steps (
            after_push post double tokens config request_id next pass.world pass.steps
              (front ++ (t ∷ []))
              t
              b)
    after_push-Generates t (err e) h tells = stop_fail h (bound-IsToken pass t h) tells
    after_push-Generates t (ok true) h tells = stop h (bound-IsToken pass t h) tells
    after_push-Generates t (ok false) h tells =
        go_on h (bound-IsToken pass t h) tells (sound pass.world pass.steps t)

    after_token-Generates :
        (r : Result LoopError ℤ)
        → token_of pass ≡ r
        → Generates
            (suc n)
            front
            w
            steps
            (after_token post double tokens config request_id next pass.world pass.steps front r)
    after_token-Generates (err e) h = fail h
    after_token-Generates (ok t) h =
        after_push-Generates t _ h (should_stop_after-Tells tokens config front t)

    after_pass-Generates :
        Generates
          (suc n)
          front
          w
          steps
          (after_pass post double tokens config request_id next front pass)
    after_pass-Generates = after_token-Generates (token_of pass) refl

  decode_loop-Generates :
      (rounds i : ℕ) (w : W) (steps : List GenerationStepTrace) (t : ℤ) (ts : List ℤ) (last : ℤ)
      → i ≡ suc (length ts)
      → last ≡ last_of t ts
      → Generates rounds
          (t ∷ ts)
          w
          steps
          (decode_loop post double tokens config request_id rounds i w steps (t ∷ ts) last)
  unfolding decode_loop
  decode_loop-Generates zero i w steps t ts last e f = limit
  decode_loop-Generates (suc rounds) i w steps t ts last e f =
      rw (f, ap (λ j. pos j) e)
        (after_pass-Generates (decode_loop post double tokens config request_id rounds (suc i))
          rounds (t ∷ ts) w steps
          (λ w' steps' u.
            decode_loop-Generates rounds (suc i) w' steps' t (ts ++ (u ∷ [])) u
              (omega (arith, e, length-append ts (u ∷ []))) (sym (last_of-snoc t ts u))))

  -- Without a token to generate the prefill is made, and only its failure counts.
  abbrev pub IsGeneration : ℕ → W → Run W → Type 0
  IsGeneration zero w run =
      run
      ≡ left_by (pass_behind [] w []) [] ((pass_behind [] w []).outcome >>= λ r. ok max_new_tokens)
  IsGeneration (suc n) w run = Generates (suc n) [] w [] run

  -- The run of the loop, with its world, its steps, its tokens and its outcome, is the generation of
  -- at most `n` tokens: the prefill of the prompt gives the first token and a decode of the last
  -- token, with the number of tokens so far as its index, each further one; every token is not
  -- negative. It ends behind a token whose number is at least min_new_tokens and whose text has a
  -- stop marker, at the limit, or with the exception of the pass or of its token or of the
  -- tokenizer on a token whose text is looked at; otherwise it goes on. With `n` zero there is the
  -- prefill alone and no token.
  pub generate-IsGeneration :
      (n : ℕ) (w : W) → IsGeneration n w (generate post double tokens config request_id n prompt w)
  unfolding generate
  generate-IsGeneration zero w = refl
  generate-IsGeneration (suc n) w =
      after_pass-Generates (decode_loop post double tokens config request_id n 1) n [] w []
        (λ w' steps' t. decode_loop-Generates n 1 w' steps' t [] t refl refl)
