-- ===== src/Gateway/Generation.antt =====
-- The texts of a generation: the prompt, the markers, the token bytes and the request metadata of
-- src/native/dli_gateway_cpp/src/generation_loop.cpp.
pub mod Loop
use distributed_layer_infere.Common.{
  ℕ, zero, suc, ◌-◌, ◌%◌, ◌^◌, Bool, true, false, not, ◌||◌, if◌then◌else◌, Option, none, some,
  List, [], ◌∷◌, ◌++◌, length, get_elem?, Bytes, codes, eqb, is_empty, starts_with, to_string, ℤ,
  pos, negsuc,
}
use distributed_layer_infere.Http.Text.{trim_copy}
use distributed_layer_infere.Json.{json_escape}
use distributed_layer_infere.Metadata.Request.{Double}
use distributed_layer_infere.Protocol.{append_u64_le}
use distributed_layer_infere.Gateway.Config.{PartitionNodeConfig}

-- `text.find(marker) != npos`
unfoldable pub contains : Bytes → Bytes → Bool
contains [] marker = starts_with [] marker
contains (c ∷ cs) marker = starts_with (c ∷ cs) marker || contains cs marker

unfoldable pub contains_generation_control_marker : Bytes → Bool
contains_generation_control_marker text =
    contains text (codes "</s>")
    || contains text (codes "<s>")
    || contains text (codes "<|user|>")
    || contains text (codes "<|assistant|>")
    || contains text (codes "<|system|>")

unfoldable pub format_prompt_for_generation : Bytes → Bool → Bytes
format_prompt_for_generation prompt apply_chat_template =
    if not apply_chat_template
    then prompt
    else if contains prompt (codes "<|user|>") || contains prompt (codes "<|assistant|>")
    then prompt
    else codes "<|user|>\n" ++ (prompt ++ codes "</s>\n<|assistant|>\n")

-- `text.substr(0, text.find(marker))`, if the marker is there.
unfoldable pub cut_before : Bytes → Bytes → Bytes
cut_before marker [] = []
cut_before marker (c ∷ cs) =
    let rest = cut_before marker cs in if starts_with (c ∷ cs) marker then [] else c ∷ rest

-- Erasing goes on where the marker stood, so that a marker that forms across this place stays;
-- `skip` characters of one marker are still to be erased.
unfoldable pub erase_marker : Bytes → ℕ → Bytes → Bytes
erase_marker marker skip [] = []
erase_marker marker (suc skip) (c ∷ cs) = erase_marker marker skip cs
erase_marker marker zero (c ∷ cs) =
    let erased = erase_marker marker (length marker - 1) cs in
    let kept = erase_marker marker 0 cs in if starts_with (c ∷ cs) marker then erased else c ∷ kept

unfoldable pub cleanup_generated_text : Bytes → Bytes
cleanup_generated_text text =
    let user = cut_before (codes "<|user|>") text in
    let system = cut_before (codes "<|system|>") user in
    let assistant = cut_before (codes "<|assistant|>") system in
    trim_copy (erase_marker (codes "<s>") 0 (erase_marker (codes "</s>") 0 assistant))

-- `static_cast<std::uint64_t>` of a signed number.
abbrev pub as_uint64 : ℤ → ℕ
as_uint64 (pos n) = n % 2 ^ 64
as_uint64 (negsuc n) = 2 ^ 64 - 1 - n % 2 ^ 64

unfoldable pub int64_tokens_to_bytes : List ℤ → Bytes
int64_tokens_to_bytes [] = []
int64_tokens_to_bytes (t ∷ ts) = append_u64_le [] (as_uint64 t) ++ int64_tokens_to_bytes ts

pub record GenerationLoopConfig (D : Type 0) : Type 0 where
  pub first_stage_url : Bytes
  pub min_new_tokens : ℤ
  pub apply_chat_template : Bool
  pub temperature : D
  pub top_k : ℤ
  pub top_p : Option D
  pub seed : Option ℤ
  pub partitions : List PartitionNodeConfig
  pub persistent_sessions_enabled : Bool
  pub native_stage_chaining_enabled : Bool
  pub activation_precision : Bytes
  pub metadata_level : Bytes

abbrev pub metadata_level_is_compact : Bytes → Bool
metadata_level_is_compact level = eqb level (codes "compact") || eqb level (codes "minimal")

-- A comma between two values.
abbrev joined_values : List ℤ → Bytes
joined_values [] = []
joined_values (z ∷ []) = to_string z
joined_values (z ∷ y ∷ zs) = to_string z ++ (b',' ∷ joined_values (y ∷ zs))

unfoldable pub shape_json : List ℤ → Bytes
shape_json shape = b'[' ∷ joined_values shape ++ codes "]"

abbrev text_of : Bool → Bytes
text_of true = codes "true"
text_of false = codes "false"

abbrev second_or_zero : Option ℤ → ℤ
second_or_zero none = pos 0
second_or_zero (some z) = z

abbrev quoted : Bytes → Bytes
quoted text = b'"' ∷ json_escape text ++ codes "\""

module _ {D : Type 0} (double : Double D) (config : GenerationLoopConfig D) where
  abbrev top_p_json : Option D → Bytes
  top_p_json none = codes "null"
  top_p_json (some d) = double.to_text d

  abbrev seed_json : Option ℤ → Bytes
  seed_json none = []
  seed_json (some z) = codes "\"seed\":" ++ to_string z ++ codes ","

  abbrev sampling_json : Bytes
  sampling_json =
      codes "\"temperature\":"
      ++ double.streamed config.temperature
      ++ codes ",\"top_k\":"
      ++ to_string config.top_k
      ++ codes ",\"top_p\":"
      ++ top_p_json config.top_p
      ++ codes ","
      ++ seed_json config.seed

  abbrev compact_json : Bytes → ℤ → Bytes → Bytes → List ℤ → Bytes
  compact_json request_id token_index generation_mode dtype shape =
      codes "{\"rid\":"
      ++ quoted request_id
      ++ codes ",\"ti\":"
      ++ to_string token_index
      ++ codes ",\"gm\":"
      ++ quoted generation_mode
      ++ codes ",\"dt\":"
      ++ quoted dtype
      ++ codes ",\"sh\":"
      ++ shape_json shape
      ++ codes ",\"bo\":\"little\",\"ap\":"
      ++ quoted config.activation_precision
      ++ codes ",\"kv\":true,\"ps\":"
      ++ text_of config.persistent_sessions_enabled
      ++ codes ",\"nsc\":"
      ++ text_of config.native_stage_chaining_enabled
      ++ codes ","
      ++ sampling_json
      ++ codes "\"m\":"
      ++ to_string config.min_new_tokens
      ++ codes "}"

  abbrev full_json : Bytes → ℤ → Bytes → Bytes → List ℤ → Bytes
  full_json request_id token_index generation_mode dtype shape =
      codes "{\"request_id\":"
      ++ quoted request_id
      ++ codes ",\"token_index\":"
      ++ to_string token_index
      ++ codes ",\"generation_mode\":"
      ++ quoted generation_mode
      ++ codes ",\"sequence_length\":"
      ++ to_string (second_or_zero (get_elem? shape 1))
      ++ codes ",\"tensor\":{\"dtype\":"
      ++ quoted dtype
      ++ codes ",\"shape\":"
      ++ shape_json shape
      ++ codes ",\"byte_order\":\"little\"},\"feature_flags\":{\"kv_cache_enabled\":true,"
      ++ codes "\"transport_mode\":\"binary_octet_stream\",\"activation_precision\":"
      ++ quoted config.activation_precision
      ++ codes ",\"persistent_sessions_enabled\":"
      ++ text_of config.persistent_sessions_enabled
      ++ codes ",\"native_stage_chaining_enabled\":"
      ++ text_of config.native_stage_chaining_enabled
      ++ codes ",\"metadata_level\":"
      ++ quoted config.metadata_level
      ++ codes ",\"apply_chat_template\":"
      ++ text_of config.apply_chat_template
      ++ codes "},\"sampling\":{"
      ++ sampling_json
      ++ codes "\"min_new_tokens\":"
      ++ to_string config.min_new_tokens
      ++ codes "}}"

  unfoldable pub request_metadata_json : Bytes → ℤ → Bytes → Bytes → List ℤ → Bytes
  request_metadata_json request_id token_index generation_mode dtype shape =
      if metadata_level_is_compact config.metadata_level
      then compact_json request_id token_index generation_mode dtype shape
      else full_json request_id token_index generation_mode dtype shape
