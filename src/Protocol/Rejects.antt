-- ===== src/Protocol/Rejects.antt =====
-- What `decode_frame` refuses: cut and overlong frames.
use distributed_layer_infere.Common.{
  Bytes, ℕ, ◌≤◌, ◌≡◌, ap, ◌∙◌, ◌∷◌, ◌++◌, arith, ok, err, ltb, if◌then◌else◌, length, drop,
  length-append, length-drop, get_or-append, drop-append,
}
use distributed_layer_infere.Protocol.{
  DliFrame, too_small, size_mismatch, header_bytes, decode_frame, magic_matches, read_u32_le,
  read_u64_le,
}
use distributed_layer_infere.Protocol.RoundTrip.{decode_frame-Accepted}

-- The header is read from its own bytes: what follows does not change it.
magic_matches-append : (b e : Bytes) → 4 ≤ length b → magic_matches (b ++ e) ≡ magic_matches b
unfolding magic_matches
magic_matches-append b e h = rw (
  get_or-append b e 0 0 (omega arith),
  get_or-append b e 1 0 (omega arith),
  get_or-append b e 2 0 (omega arith),
  get_or-append b e 3 0 (omega arith),
)

read_u32_le-append : (b e : Bytes) → 4 ≤ length b → read_u32_le (b ++ e) ≡ read_u32_le b
unfolding read_u32_le
read_u32_le-append b e h = rw (
  get_or-append b e 0 0 (omega arith),
  get_or-append b e 1 0 (omega arith),
  get_or-append b e 2 0 (omega arith),
  get_or-append b e 3 0 (omega arith),
)

read_u64_le-append : (b e : Bytes) → 8 ≤ length b → read_u64_le (b ++ e) ≡ read_u64_le b
unfolding read_u64_le
read_u64_le-append b e h = rw (
  get_or-append b e 0 0 (omega arith),
  get_or-append b e 1 0 (omega arith),
  get_or-append b e 2 0 (omega arith),
  get_or-append b e 3 0 (omega arith),
  get_or-append b e 4 0 (omega arith),
  get_or-append b e 5 0 (omega arith),
  get_or-append b e 6 0 (omega arith),
  get_or-append b e 7 0 (omega arith),
)

module _ (b e : Bytes) (long : header_bytes ≤ length b) where
  version_of : read_u32_le (drop 4 (b ++ e)) ≡ read_u32_le (drop 4 b)
  version_of =
      ap read_u32_le (drop-append 4 b e (omega arith))
      ∙ read_u32_le-append (drop 4 b) e (omega (arith, length-drop 4 b))

  metadata_len_of : read_u32_le (drop 8 (b ++ e)) ≡ read_u32_le (drop 8 b)
  metadata_len_of =
      ap read_u32_le (drop-append 8 b e (omega arith))
      ∙ read_u32_le-append (drop 8 b) e (omega (arith, length-drop 8 b))

  tensor_len_of : read_u64_le (drop 12 (b ++ e)) ≡ read_u64_le (drop 12 b)
  tensor_len_of =
      ap read_u64_le (drop-append 12 b e (omega arith))
      ∙ read_u64_le-append (drop 12 b) e (omega (arith, length-drop 12 b))

-- A frame that decodes is refused when a byte or more is added at its end.
pub decode_frame_overlong :
    (b : Bytes) (f : DliFrame) (x : ℕ) (e : Bytes)
    → decode_frame b ≡ ok f
    → decode_frame (b ++ (x ∷ e)) ≡ err size_mismatch
unfolding decode_frame
decode_frame_overlong b f x e h =
    let a = decode_frame-Accepted b f h in
    let long : header_bytes ≤ length b = omega (arith, a.size) in
    ground (
      arith,
      a.magic,
      a.version,
      a.metadata_fits,
      a.tensor_fits,
      a.size,
      version_of b (x ∷ e) long,
      metadata_len_of b (x ∷ e) long,
      tensor_len_of b (x ∷ e) long,
      magic_matches-append b (x ∷ e) (omega arith),
      length-append b (x ∷ e),
    )

-- A proper prefix of a frame that decodes is refused: below 20 bytes as too small, and from
-- there on because its length is not the one that its header states.
pub decode_frame_truncated :
    (front : Bytes) (x : ℕ) (back : Bytes) (f : DliFrame)
    → decode_frame (front ++ (x ∷ back)) ≡ ok f
    → decode_frame front
      ≡ err (if ltb (length front) header_bytes then too_small else size_mismatch)
unfolding decode_frame
decode_frame_truncated front x back f h =
    let a = decode_frame-Accepted (front ++ (x ∷ back)) f h in
    ground (
      arith,
      a.magic,
      a.version,
      a.metadata_fits,
      a.tensor_fits,
      a.size,
      version_of front (x ∷ back),
      metadata_len_of front (x ∷ back),
      tensor_len_of front (x ∷ back),
      magic_matches-append front (x ∷ back),
      length-append front (x ∷ back),
    )
