-- ===== src/Gateway/Generation/Loop.antt =====
-- The prefill and the decode loop: next_token_id_from_terminal_response and
-- GenerationLoop::run_stub_generation of src/native/dli_gateway_cpp/src/generation_loop.cpp, without
-- its clock and its metrics.
pub mod Specification
pub mod Rounds
pub mod Bounds
pub mod Progress
mod Examples
use distributed_layer_infere.Common.{
  ℕ, zero, suc, Bool, true, false, if◌then◌else◌, Option, none, some, List, [], ◌∷◌, ◌++◌, Result,
  ok, err, ◌>>=◌, length, Bytes, codes, is_empty, ℤ, pos, negsuc, ltb_ℤ,
}
use distributed_layer_infere.Protocol.{DliFrame}
use distributed_layer_infere.Metadata.{MetadataError}
use distributed_layer_infere.Metadata.Request.{Double}
use distributed_layer_infere.Metadata.Parsed.{ParsedRequestMetadata, parse_request_metadata}
use distributed_layer_infere.Gateway.Routing.{
  LoopError, tokenizer, empty_metadata, invalid_next_token_id, metadata, Post, Pass,
  StageClientResult, GenerationStepTrace, forward_through_partition_graph,
}
use distributed_layer_infere.Gateway.Generation.{
  GenerationLoopConfig, contains_generation_control_marker, format_prompt_for_generation,
  cleanup_generated_text, int64_tokens_to_bytes, request_metadata_json,
}

-- The virtual functions of the class Tokenizer; they may throw with a text.
pub record Tokenizer : Type 0 where
  pub tokenize : Bytes → Result Bytes (List ℤ)
  pub detokenize : List ℤ → Result Bytes Bytes
  pub backend_name : Bytes

abbrev pub thrown_by_tokenizer : {A : Type 0} → Result Bytes A → Result LoopError A
thrown_by_tokenizer (ok a) = ok a
thrown_by_tokenizer (err text) = err (tokenizer text)

-- Why the loop ended.
pub data TerminationReason : Type 0 where
  unknown max_new_tokens stop_marker error : TerminationReason

-- What the loop leaves behind: the world, `result.steps` and `result.generated_token_ids`, and
-- the reason or the exception.
pub record Run (W : Type 0) : Type 0 where
  pub world : W
  pub steps : List GenerationStepTrace
  pub generated_token_ids : List ℤ
  pub outcome : Result LoopError TerminationReason

pub record GenerationLoopResult (W : Type 0) : Type 0 where
  pub world : W
  pub prompt_token_ids : List ℤ
  pub generated_token_ids : List ℤ
  pub generated_text : Bytes
  pub steps : List GenerationStepTrace
  pub generated_token_count : ℕ
  pub failure : Option LoopError
  pub termination_reason : TerminationReason

abbrev pub token_if : Option ℤ → Result LoopError ℤ
token_if none = err invalid_next_token_id
token_if (some t) = if ltb_ℤ t (pos 0) then err invalid_next_token_id else ok t

abbrev pub parsed_token :
    {D : Type 0} → Result MetadataError (ParsedRequestMetadata D) → Result LoopError ℤ
parsed_token (err e) = err (metadata e)
parsed_token (ok parsed) = token_if parsed.next_token_id

module _ {D : Type 0} (double : Double D) where
  unfoldable pub next_token_id_from_terminal_response : StageClientResult → Result LoopError ℤ
  next_token_id_from_terminal_response response =
      let json = response.response_frame.metadata_json in
      if is_empty json
      then err empty_metadata
      else parsed_token (parse_request_metadata double json)

abbrev pub marker_in : Result LoopError Bytes → Result LoopError Bool
marker_in (err e) = err e
marker_in (ok text) = ok (contains_generation_control_marker text)

module _ {D : Type 0} (tokens : Tokenizer) (config : GenerationLoopConfig D) where
  -- With the tokens that were generated, this one included.
  unfoldable pub should_stop_after : List ℤ → ℤ → Result LoopError Bool
  should_stop_after generated token_id =
      if ltb_ℤ (pos (length generated)) config.min_new_tokens
      then ok false
      else marker_in (thrown_by_tokenizer (tokens.detokenize (token_id ∷ [])))

-- `std::max(0, max_new_tokens)`
abbrev pub decode_steps : ℤ → ℕ
decode_steps (pos n) = n
decode_steps (negsuc n) = 0

module _ {W D : Type 0} (post : Post W) (double : Double D) (tokens : Tokenizer)
    (config : GenerationLoopConfig D) (request_id : Bytes) where
  abbrev pub frame_of : ℤ → Bytes → List ℤ → List ℤ → DliFrame
  frame_of token_index mode shape ids = record {
    metadata_json =
        request_metadata_json double config request_id token_index mode (codes "int64") shape;
    tensor_bytes = int64_tokens_to_bytes ids;
  }

  abbrev pub pass_for : ℤ → Bytes → List ℤ → List ℤ → W → List GenerationStepTrace → Pass W
  pass_for token_index mode shape ids w steps =
      forward_through_partition_graph post config.native_stage_chaining_enabled
        config.first_stage_url config.partitions (frame_of token_index mode shape ids) token_index
        mode w steps

  abbrev pub run_of :
      W → List GenerationStepTrace → List ℤ → Result LoopError TerminationReason → Run W
  run_of w steps generated outcome = record {
    world = w;
    steps = steps;
    generated_token_ids = generated;
    outcome = outcome;
  }

  -- A token has been pushed: the loop stops, goes on with `next`, or throws.
  abbrev pub after_push :
      (W → List GenerationStepTrace → List ℤ → ℤ → Run W)
      → W
      → List GenerationStepTrace
      → List ℤ
      → ℤ
      → Result LoopError Bool
      → Run W
  after_push next w steps generated t (err e) = run_of w steps generated (err e)
  after_push next w steps generated t (ok true) = run_of w steps generated (ok stop_marker)
  after_push next w steps generated t (ok false) = next w steps generated t

  abbrev pub after_token :
      (W → List GenerationStepTrace → List ℤ → ℤ → Run W)
      → W
      → List GenerationStepTrace
      → List ℤ
      → Result LoopError ℤ
      → Run W
  after_token next w steps generated (err e) = run_of w steps generated (err e)
  after_token next w steps generated (ok t) =
      let longer = generated ++ (t ∷ []) in
      after_push next w steps longer t (should_stop_after tokens config longer t)

  abbrev pub after_pass :
      (W → List GenerationStepTrace → List ℤ → ℤ → Run W) → List ℤ → Pass W → Run W
  after_pass next generated pass =
      after_token next pass.world pass.steps generated
        (pass.outcome >>= next_token_id_from_terminal_response double)

  -- `for (i = decode_start; i < decode_steps; ++i)`, by the rounds that are left.
  unfoldable pub decode_loop : ℕ → ℕ → W → List GenerationStepTrace → List ℤ → ℤ → Run W
  decode_loop zero i w steps generated last = run_of w steps generated (ok max_new_tokens)
  decode_loop (suc rounds) i w steps generated last =
      after_pass (decode_loop rounds (suc i)) generated
        (pass_for (pos i) (codes "decode") (pos 1 ∷ pos 1 ∷ []) (last ∷ []) w steps)

  -- The first token comes with the prefill; the others with one decode each. Without tokens to
  -- generate only the outcome of the prefill counts.
  abbrev pub after_prefill : ℕ → Pass W → Run W
  after_prefill zero pass =
      run_of pass.world pass.steps [] (pass.outcome >>= λ r. ok max_new_tokens)
  after_prefill (suc rounds) pass = after_pass (decode_loop rounds 1) [] pass

  unfoldable pub generate : ℕ → List ℤ → W → Run W
  generate n token_ids w =
      after_prefill n
        (pass_for (pos 0) (codes "prefill") (pos 1 ∷ pos (length token_ids) ∷ []) token_ids w [])

  -- `result` at the end of the try block, or in the catch block.
  abbrev failed_result :
      W → List ℤ → List ℤ → List GenerationStepTrace → LoopError → GenerationLoopResult W
  failed_result w prompt_ids ids steps e = record {
    world = w;
    prompt_token_ids = prompt_ids;
    generated_token_ids = ids;
    generated_text = [];
    steps = steps;
    generated_token_count = 0;
    failure = some e;
    termination_reason = TerminationReason.error;
  }

  abbrev pub with_text :
      List ℤ → Run W → TerminationReason → Result LoopError Bytes → GenerationLoopResult W
  with_text prompt_ids run reason (err e) =
      failed_result run.world prompt_ids run.generated_token_ids run.steps e
  with_text prompt_ids run reason (ok text) = record {
    world = run.world;
    prompt_token_ids = prompt_ids;
    generated_token_ids = run.generated_token_ids;
    generated_text = cleanup_generated_text text;
    steps = run.steps;
    generated_token_count = length run.generated_token_ids;
    failure = none;
    termination_reason = reason;
  }

  abbrev pub concluded :
      List ℤ → Run W → Result LoopError TerminationReason → GenerationLoopResult W
  concluded prompt_ids run (err e) =
      failed_result run.world prompt_ids run.generated_token_ids run.steps e
  concluded prompt_ids run (ok reason) =
      with_text prompt_ids run reason
        (thrown_by_tokenizer (tokens.detokenize run.generated_token_ids))

  abbrev pub from_prompt : ℕ → W → Result LoopError (List ℤ) → GenerationLoopResult W
  from_prompt n w (err e) = failed_result w [] [] [] e
  from_prompt n w (ok token_ids) =
      let run = generate n token_ids w in concluded token_ids run run.outcome

  unfoldable pub run_stub_generation : Bytes → ℤ → W → GenerationLoopResult W
  run_stub_generation prompt max_tokens w = from_prompt (decode_steps max_tokens) w (
      thrown_by_tokenizer
        (tokens.tokenize (format_prompt_for_generation prompt config.apply_chat_template)))
