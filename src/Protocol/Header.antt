-- ===== src/Protocol/Header.antt =====
-- The fixed header of 20 bytes: what `encode_frame` lays out and how `decode_frame` reads it.
use distributed_layer_infere.Common.{
  Bytes, ℕ, ◌+◌, ◌%◌, ◌^◌, ◌≤◌, ◌≡◌, ap, ◌∙◌, ◌++◌, arith, ok, length, length-append, take_front,
  drop_front, take_all,
}
use distributed_layer_infere.Protocol.{
  DliFrame, dli2_magic, dli2_version, header_bytes, max_metadata_bytes, max_tensor_bytes,
  frame_bytes, encode_frame, decode_frame, magic_matches,
}
use distributed_layer_infere.Protocol.Words.{
  u32_bytes, u64_bytes, append_u32_le_lem, append_u64_le_lem, read_u32_le-u32_bytes,
  read_u64_le-u64_bytes,
}

abbrev pub header : ℕ → ℕ → Bytes
header metadata_len tensor_len =
    dli2_magic ++ (u32_bytes dli2_version ++ (u32_bytes metadata_len ++ u64_bytes tensor_len))

pub frame_bytes_lem :
    (m t : ℕ) (f : DliFrame) → frame_bytes m t f ≡ header m t ++ (f.metadata_json ++ f.tensor_bytes)
unfolding frame_bytes
frame_bytes_lem m t f = simp (append_u32_le_lem, append_u64_le_lem)

-- The frame has both parts within the limits.
pub record Fits (f : DliFrame) : Type 0 where
  pub metadata : length f.metadata_json ≤ max_metadata_bytes
  pub tensor : length f.tensor_bytes ≤ max_tensor_bytes

abbrev pub wire : DliFrame → Bytes
wire f =
    header (length f.metadata_json) (length f.tensor_bytes) ++ (f.metadata_json ++ f.tensor_bytes)

pub length-wire :
    (f : DliFrame) → length (wire f) ≡ header_bytes + length f.metadata_json + length f.tensor_bytes
length-wire f = omega (arith, length-append f.metadata_json f.tensor_bytes)

same_lengths :
    (f : DliFrame) (m t : ℕ)
    → m ≡ length f.metadata_json
    → t ≡ length f.tensor_bytes
    → frame_bytes m t f ≡ wire f
same_lengths f m t p q =
    frame_bytes_lem m t f
    ∙ ap (λ (k : ℕ). header k t ++ (f.metadata_json ++ f.tensor_bytes)) p
    ∙ ap (λ (k : ℕ). header (length f.metadata_json) k ++ (f.metadata_json ++ f.tensor_bytes)) q

pub encode_frame-wire : (f : DliFrame) → Fits f → encode_frame f ≡ ok (wire f)
unfolding encode_frame
encode_frame-wire f fits =
    ground
      (arith, same_lengths f (length f.metadata_json % 2 ^ 32) (length f.tensor_bytes % 2 ^ 64))

pub Fits-encode_frame : (f : DliFrame) (b : Bytes) → encode_frame f ≡ ok b → Fits f
unfolding encode_frame
Fits-encode_frame f b h = ground arith

pub encode_frame-eq-wire : (f : DliFrame) (b : Bytes) → encode_frame f ≡ ok b → b ≡ wire f
encode_frame-eq-wire f b h = ground (arith, encode_frame-wire f (Fits-encode_frame f b h))

pub decode_frame-wire : (f : DliFrame) → Fits f → decode_frame (wire f) ≡ ok f
unfolding decode_frame magic_matches
decode_frame-wire f fits =
    let body = f.metadata_json ++ f.tensor_bytes in
    ground (
      arith,
      read_u32_le-u32_bytes dli2_version
          (u32_bytes (length f.metadata_json) ++ (u64_bytes (length f.tensor_bytes) ++ body)),
      read_u32_le-u32_bytes (length f.metadata_json) (u64_bytes (length f.tensor_bytes) ++ body),
      read_u64_le-u64_bytes (length f.tensor_bytes) body,
      length-append f.metadata_json f.tensor_bytes,
      take_front f.metadata_json f.tensor_bytes,
      drop_front f.metadata_json f.tensor_bytes,
      take_all (length f.tensor_bytes) f.tensor_bytes,
    )
