-- ===== src/Gateway/Generation/Loop/Examples.antt =====
-- Generations over one stage that always answers with token 7.
use distributed_layer_infere.Common.{
  false, ℕ, zero, suc, ◌≤◌, ◌>>=◌, ◌∙◌, ◌≡◌, refl, ap, arith, true, none, some, List, [], ◌∷◌, ◌++◌,
  ok, Bytes, codes, ℤ, pos, All, length, eqb, starts_with, decimal, digits, to_string, skip_spaces,
  leading_digits,
}
use distributed_layer_infere.Json.{json_escape, escape_byte}
use distributed_layer_infere.Protocol.{
  DliFrame, encode_frame, decode_frame, decode_frame_at, append_u64_rounds, read_u64_rounds,
  magic_matches, read_u32_le, read_u64_le, append_u64_le,
}
use distributed_layer_infere.Protocol.Header.{encode_frame-wire}
use distributed_layer_infere.Metadata.{
  extract_int_alias, extract_int_field, first_match, after_key, integer_at, stoi,
}
use distributed_layer_infere.Metadata.Request.{Double, extract_shape, extract_double_field}
use distributed_layer_infere.Metadata.Parsed.{parse_request_metadata}
use distributed_layer_infere.Gateway.Graph.Examples.{last}
use distributed_layer_infere.Gateway.Routing.{
  Post, forward_frame, sent, after_chained, forward_through_partition_graph, GenerationStepTrace,
}
use distributed_layer_infere.Gateway.Generation.{
  GenerationLoopConfig, int64_tokens_to_bytes, request_metadata_json, shape_json,
  format_prompt_for_generation, contains,
}
use distributed_layer_infere.Gateway.Generation.Loop.{
  run_stub_generation, generate, next_token_id_from_terminal_response,
}
use distributed_layer_infere.Gateway.Generation.Loop.Specification.{IsToken}
use distributed_layer_infere.Gateway.Generation.Loop.Rounds.{IsGeneration, generate-IsGeneration}
use distributed_layer_infere.Gateway.Generation.Loop.Bounds.{
  IsComplete, run_stub_generation-IsComplete,
}
use distributed_layer_infere.Gateway.Generation.Loop.Progress.{
  Returns, PrefillAnswers, DecodeAnswers, run_stub_generation-succeeds,
}
use distributed_layer_infere.Gateway.Tokenizer.{
  TokenizerStub, stub_tokenize, stub_detokenize, word_count, ids_from,
}

-- A double that is always nought.
abbrev nought_only : Double (Unit {0})
nought_only = record {
  stod = λ text. some tt;
  to_long_long = λ d. pos 0;
  to_uint64 = λ d. 0;
  plus = λ c d. tt;
  minus = λ c d. tt;
  less = λ c d. false;
  at_most = λ c d. true;
  nought = tt;
  streamed = λ d. codes "0";
  to_text = λ d. codes "0.000000";
}

abbrev config : GenerationLoopConfig (Unit {0})
config = record {
  first_stage_url = codes "http://a:1/";
  min_new_tokens = pos 1;
  apply_chat_template = true;
  temperature = tt;
  top_k = pos 0;
  top_p = none;
  seed = none;
  partitions = last ∷ [];
  persistent_sessions_enabled = true;
  native_stage_chaining_enabled = true;
  activation_precision = codes "fp32";
  metadata_level = codes "compact";
}

abbrev reply : Bytes
reply =
    (68 ∷ 76 ∷ 73 ∷ 50 ∷ 2 ∷ 0 ∷ 0 ∷ 0 ∷ 8 ∷ 0 ∷ 0 ∷ 0 ∷ 0 ∷ 0 ∷ 0 ∷ 0 ∷ 0 ∷ 0 ∷ 0 ∷ 0 ∷ [])
    ++ codes "{\"nt\":7}"

-- A stage that counts its calls.
abbrev stage : Post ℕ
stage url body n =
    (suc n, ok (record { status_code = pos 200; reason = codes "OK"; headers = []; body = reply }))

generate-IsGeneration_example :
    IsGeneration stage nought_only TokenizerStub config
      (codes "r")
      (pos 1 ∷ [])
      2
      0
      (generate stage nought_only TokenizerStub config (codes "r") 2 (pos 1 ∷ []) 0)
generate-IsGeneration_example =
    generate-IsGeneration stage nought_only TokenizerStub config (codes "r") (pos 1 ∷ []) 2 0

run_stub_generation-IsComplete_example :
    let result =
      run_stub_generation stage nought_only TokenizerStub config
        (codes "r")
        (codes "hi")
        (pos 2)
        0 in
    (length result.generated_token_ids ≤ 2)
    × All IsToken result.generated_token_ids
    × (result.failure ≡ none
        → (result.generated_token_count ≡ length result.generated_token_ids)
          × IsComplete TokenizerStub config 2
              (length result.generated_token_ids)
              result.termination_reason)
run_stub_generation-IsComplete_example =
    run_stub_generation-IsComplete stage nought_only TokenizerStub config (codes "r") (codes "hi")
      (pos 2) 0

replied :
    (i : ℤ) (mode : Bytes) (w : ℕ) (steps : List GenerationStepTrace) (body : Bytes)
    → ((after_chained i mode last
          (codes "http://a:1/")
          steps
          (sent stage (codes "http://a:1/") (ok body) w)).outcome
        >>= next_token_id_from_terminal_response nought_only)
      ≡ ok (pos 7)
unfolding decode_frame decode_frame_at magic_matches read_u32_le read_u64_le read_u64_rounds
    next_token_id_from_terminal_response parse_request_metadata extract_int_alias extract_int_field
    first_match after_key skip_spaces starts_with integer_at leading_digits stoi extract_shape
    extract_double_field
replied i mode w steps body = refl

-- A frame that can be encoded is answered.
answered :
    (frame : DliFrame) (body : Bytes) (i : ℤ) (mode : Bytes) (w : ℕ)
    (steps : List GenerationStepTrace)
    → encode_frame frame ≡ ok body
    → Returns (
        (forward_through_partition_graph stage true
          (codes "http://a:1/")
          (last ∷ [])
          frame
          i
          mode
          w
          steps).outcome
        >>= next_token_id_from_terminal_response nought_only)
unfolding forward_through_partition_graph forward_frame
answered frame body i mode w steps e = (
  pos 7,
  ap
        (λ r.
          (after_chained i mode last (codes "http://a:1/") steps
            (sent stage (codes "http://a:1/") r w)).outcome
          >>= next_token_id_from_terminal_response nought_only)
        e
      ∙ replied i mode w steps body,
)

abbrev prompt_ids : List ℤ
prompt_ids = stub_tokenize (codes "<|user|> </s> <|assistant|>")

prefill : PrefillAnswers stage nought_only TokenizerStub config (codes "r") prompt_ids 0
unfolding request_metadata_json json_escape escape_byte shape_json to_string decimal digits eqb
    int64_tokens_to_bytes append_u64_le append_u64_rounds stub_tokenize word_count ids_from
prefill =
    answered _ _ (pos 0) (codes "prefill") 0 []
      (encode_frame-wire _ (record { metadata = omega arith; tensor = omega arith }))

decodes : DecodeAnswers stage nought_only TokenizerStub config (codes "r") 2
unfolding request_metadata_json json_escape escape_byte shape_json to_string decimal digits eqb
    int64_tokens_to_bytes append_u64_le append_u64_rounds
decodes zero token w steps h =
    answered _ _ (pos 0) (codes "decode") w steps
      (encode_frame-wire _ (record { metadata = omega arith; tensor = omega arith }))
decodes (suc zero) token w steps h =
    answered _ _ (pos 1) (codes "decode") w steps
      (encode_frame-wire _ (record { metadata = omega arith; tensor = omega arith }))
decodes (suc (suc i)) token w steps h = absurd (omega arith)

run_stub_generation-succeeds_example :
    (run_stub_generation stage nought_only TokenizerStub config (codes "r") [] (pos 2) 0).failure
    ≡ none
unfolding stub_tokenize word_count ids_from format_prompt_for_generation contains starts_with
run_stub_generation-succeeds_example =
    run_stub_generation-succeeds stage nought_only TokenizerStub config (codes "r")
      (λ ids. (stub_detokenize ids, refl)) [] prompt_ids (pos 2) 0 refl prefill decodes
