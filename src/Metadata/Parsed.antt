-- ===== src/Metadata/Parsed.antt =====
-- ParsedRequestMetadata of src/native/dli_common_cpp/include/dli/common/metadata.hpp and
-- parse_request_metadata of src/native/dli_common_cpp/src/metadata.cpp.
use distributed_layer_infere.Common.{
  Bool, false, Option, none, some, [], Result, ok, ◌>>=◌, Bytes, codes, ℤ, pos,
}
use distributed_layer_infere.Tensor.{TensorMetadata, infer_sequence_length_from_shape}
use distributed_layer_infere.Metadata.{
  MetadataError, extract_int_field, extract_bool_field, extract_string_field, extract_string_alias,
  extract_bool_alias, extract_int_alias,
}
use distributed_layer_infere.Metadata.Request.{Double, extract_double_field, extract_shape}

-- A field with a `has_` flag is an Option.
pub record ParsedRequestMetadata (D : Type 0) : Type 0 where
  pub request_id : Bytes
  pub token_index : ℤ
  pub generation_mode : Bytes
  pub tensor : TensorMetadata
  pub kv_cache_enabled : Bool
  pub activation_precision : Bytes
  pub transport_mode : Bytes
  pub rebalance_profile : Bytes
  pub persistent_sessions_enabled : Bool
  pub topology_aware_routing : Bool
  pub metadata_level : Bytes
  pub native_stage_chaining_enabled : Bool
  pub temperature : Option D
  pub top_k : Option ℤ
  pub top_p : Option D
  pub seed : Option ℤ
  pub next_token_id : Option ℤ
  pub stage_input_token_count : ℤ

-- The initial value of a field, if the text has none.
abbrev pub value_or : {A : Type 0} → A → Option A → A
value_or initial none = initial
value_or initial (some a) = a

abbrev as_seed : {D : Type 0} → Double D → Option D → Option ℤ
as_seed double none = none
as_seed double (some d) = some (double.to_long_long d)

-- The fields that may throw are read in the order of the source; no other field throws.
unfoldable pub parse_request_metadata :
    {D : Type 0} → Double D → Bytes → Result MetadataError (ParsedRequestMetadata D)
parse_request_metadata double json = do
  token_index ← extract_int_alias json (codes "token_index") (codes "ti")
  next_token_id ← extract_int_alias json (codes "next_token_id") (codes "nt")
  shape ← extract_shape json
  temperature ← extract_double_field double json (codes "temperature")
  top_k ← extract_int_field json (codes "top_k")
  top_p ← extract_double_field double json (codes "top_p")
  seed ← extract_double_field double json (codes "seed")
  ok (record {
    request_id = value_or [] (extract_string_alias json (codes "request_id") (codes "rid"));
    token_index = value_or (pos 0) token_index;
    generation_mode =
        value_or (codes "unknown")
          (extract_string_alias json (codes "generation_mode") (codes "gm"));
    tensor = record {
      dtype = value_or [] (extract_string_alias json (codes "dtype") (codes "dt"));
      shape = shape;
      byte_order =
          value_or (codes "little") (extract_string_alias json (codes "byte_order") (codes "bo"));
    };
    kv_cache_enabled =
        value_or false (extract_bool_alias json (codes "kv_cache_enabled") (codes "kv"));
    activation_precision =
        value_or (codes "fp32")
          (extract_string_alias json (codes "activation_precision") (codes "ap"));
    transport_mode =
        value_or (codes "binary_octet_stream")
          (extract_string_alias json (codes "transport_mode") (codes "tm"));
    rebalance_profile =
        value_or (codes "baseline") (extract_string_field json (codes "rebalance_profile"));
    persistent_sessions_enabled =
        value_or false (extract_bool_alias json (codes "persistent_sessions_enabled") (codes "ps"));
    topology_aware_routing =
        value_or false (extract_bool_field json (codes "topology_aware_routing"));
    metadata_level =
        value_or (codes "debug") (extract_string_alias json (codes "metadata_level") (codes "ml"));
    native_stage_chaining_enabled =
        value_or false
          (extract_bool_alias json (codes "native_stage_chaining_enabled") (codes "nsc"));
    temperature = temperature;
    top_k = top_k;
    top_p = top_p;
    seed = as_seed double seed;
    next_token_id = next_token_id;
    stage_input_token_count = infer_sequence_length_from_shape shape;
  })
