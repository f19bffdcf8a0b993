-- ===== src/Protocol/Examples.antt =====
-- Frames on which the codec's theorems are applied, as in dli_common_cpp/tests/test_protocol.cpp.
use distributed_layer_infere.Common.{◌≡◌, refl, [], ◌∷◌, ◌++◌, arith, ok, err, codes, Bytes, All}
use distributed_layer_infere.Protocol.{
  DliFrame, size_mismatch, invalid_magic, encode_frame, decode_frame, frame_bytes, append_u32_le,
  append_u64_le, read_u32_le, read_u64_le, magic_matches,
}
use distributed_layer_infere.Protocol.RoundTrip.{
  IsByte, decode_frame-encode_frame, encode_frame-decode_frame,
}
use distributed_layer_infere.Protocol.Rejects.{decode_frame_truncated, decode_frame_overlong}

abbrev sample : DliFrame
sample = record { metadata_json = codes "{}"; tensor_bytes = 1 ∷ 250 ∷ 251 ∷ [] }

abbrev sample_header : Bytes
sample_header =
    0x44 ∷ 0x4c ∷ 0x49 ∷ 0x32 ∷ 2 ∷ 0 ∷ 0 ∷ 0 ∷ 2 ∷ 0 ∷ 0 ∷ 0 ∷ 3 ∷ 0 ∷ 0 ∷ 0 ∷ 0 ∷ 0 ∷ 0 ∷ 0 ∷ []

abbrev sample_bytes : Bytes
sample_bytes = sample_header ++ (0x7b ∷ 0x7d ∷ 1 ∷ 250 ∷ 251 ∷ [])

encode-sample : encode_frame sample ≡ ok sample_bytes
unfolding encode_frame frame_bytes append_u32_le append_u64_le
encode-sample = refl

decode-sample : decode_frame sample_bytes ≡ ok sample
unfolding decode_frame magic_matches read_u32_le read_u64_le
decode-sample = refl

sample_bytes-IsByte : All IsByte sample_bytes
sample_bytes-IsByte = omega arith

bad_magic_is_rejected : decode_frame (b'X' ∷ sample_bytes) ≡ err invalid_magic
unfolding decode_frame magic_matches
bad_magic_is_rejected = refl

decode_frame-encode_frame_example : decode_frame sample_bytes ≡ ok sample
decode_frame-encode_frame_example = decode_frame-encode_frame sample sample_bytes encode-sample

encode_frame-decode_frame_example : encode_frame sample ≡ ok sample_bytes
encode_frame-decode_frame_example =
    encode_frame-decode_frame sample_bytes sample_bytes-IsByte sample decode-sample

decode_frame_truncated_example :
    decode_frame (sample_header ++ (0x7b ∷ 0x7d ∷ 1 ∷ 250 ∷ [])) ≡ err size_mismatch
decode_frame_truncated_example =
    decode_frame_truncated (sample_header ++ (0x7b ∷ 0x7d ∷ 1 ∷ 250 ∷ [])) 251 [] sample
      decode-sample

decode_frame_overlong_example : decode_frame (sample_bytes ++ (0 ∷ [])) ≡ err size_mismatch
decode_frame_overlong_example = decode_frame_overlong sample_bytes sample 0 [] decode-sample
