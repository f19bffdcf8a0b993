-- ===== src/Protocol/RoundTrip.antt =====
-- Encoding and decoding are inverse to one another.
use distributed_layer_infere.Common.{
  Bytes, ℕ, suc, ◌+◌, ◌<◌, ◌≤◌, ◌≡◌, true, ap, sym, ◌∙◌, [], ◌∷◌, ◌++◌, arith, ok, length, take,
  drop, length-take, length-drop, take-append-drop, take_all, drop_next, All, All-get_or,
}
use distributed_layer_infere.Protocol.{
  DliFrame, dli2_version, header_bytes, max_metadata_bytes, max_tensor_bytes, byte, encode_frame,
  decode_frame, magic_matches, read_u32_le, read_u64_le,
}
use distributed_layer_infere.Protocol.Words.{
  little, u32_bytes, u64_bytes, read_u32_le-little, read_u64_le-little,
}
use distributed_layer_infere.Protocol.Header.{
  header, encode_frame-wire, Fits-encode_frame, encode_frame-eq-wire, decode_frame-wire,
}

abbrev pub IsByte : ℕ → Type 0
IsByte b = b < 256

-- If `encode_frame` returns bytes for a frame, `decode_frame` of these bytes returns that frame.
pub decode_frame-encode_frame :
    (f : DliFrame) (b : Bytes) → encode_frame f ≡ ok b → decode_frame b ≡ ok f
decode_frame-encode_frame f b h =
    ap decode_frame (encode_frame-eq-wire f b h) ∙ decode_frame-wire f (Fits-encode_frame f b h)

-- What `decode_frame` has checked when it returns.
pub record Accepted (b : Bytes) (f : DliFrame) : Type 0 where
  pub magic : magic_matches b ≡ true
  pub version : read_u32_le (drop 4 b) ≡ dli2_version
  pub metadata_fits : read_u32_le (drop 8 b) ≤ max_metadata_bytes
  pub tensor_fits : read_u64_le (drop 12 b) ≤ max_tensor_bytes
  pub size : length b ≡ header_bytes + read_u32_le (drop 8 b) + read_u64_le (drop 12 b)
  pub metadata : f.metadata_json ≡ take (read_u32_le (drop 8 b)) (drop 20 b)
  pub tensor :
      f.tensor_bytes ≡ take (read_u64_le (drop 12 b)) (drop (read_u32_le (drop 8 b)) (drop 20 b))

pub decode_frame-Accepted : (b : Bytes) (f : DliFrame) → decode_frame b ≡ ok f → Accepted b f
unfolding decode_frame
decode_frame-Accepted b f h = ground arith

module _ (b : Bytes) (bytes : All IsByte b) where
  byte-lt : (i : ℕ) → byte b i < 256
  byte-lt i = All-get_or IsByte b i 0 (omega arith) bytes

  from : (i : ℕ) → i < length b → drop i b ≡ byte b i ∷ drop (suc i) b
  from i h = drop_next b i 0 h

  four :
      (i : ℕ)
      → i + 4 ≤ length b
      → drop i b
        ≡ byte b i
          ∷ byte b (suc i)
          ∷ byte b (suc (suc i))
          ∷ byte b (suc (suc (suc i)))
          ∷ drop (suc (suc (suc (suc i)))) b
  four i h =
      from i (omega arith)
      ∙ ap (λ t. byte b i ∷ t) (from (suc i) (omega arith))
      ∙ ap (λ t. byte b i ∷ byte b (suc i) ∷ t) (from (suc (suc i)) (omega arith))
      ∙ ap (λ t. byte b i ∷ byte b (suc i) ∷ byte b (suc (suc i)) ∷ t)
          (from (suc (suc (suc i))) (omega arith))

u32_bytes-little :
    (b0 b1 b2 b3 : ℕ)
    → b0 < 256
    → b1 < 256
    → b2 < 256
    → b3 < 256
    → u32_bytes (little (b0 ∷ b1 ∷ b2 ∷ b3 ∷ [])) ≡ b0 ∷ b1 ∷ b2 ∷ b3 ∷ []
u32_bytes-little b0 b1 b2 b3 h0 h1 h2 h3 = ground arith

u64_bytes-little :
    (b0 b1 b2 b3 b4 b5 b6 b7 : ℕ)
    → b0 < 256
    → b1 < 256
    → b2 < 256
    → b3 < 256
    → b4 < 256
    → b5 < 256
    → b6 < 256
    → b7 < 256
    → u64_bytes (little (b0 ∷ b1 ∷ b2 ∷ b3 ∷ b4 ∷ b5 ∷ b6 ∷ b7 ∷ []))
      ≡ b0 ∷ b1 ∷ b2 ∷ b3 ∷ b4 ∷ b5 ∷ b6 ∷ b7 ∷ []
u64_bytes-little b0 b1 b2 b3 b4 b5 b6 b7 h0 h1 h2 h3 h4 h5 h6 h7 = ground arith

module _ (b : Bytes) (bytes : All IsByte b) where
  u32_at :
      (i : ℕ)
      → i + 4 ≤ length b
      → drop i b ≡ u32_bytes (read_u32_le (drop i b)) ++ drop (suc (suc (suc (suc i)))) b
  u32_at i h =
      let s : Bytes = drop (suc (suc (suc (suc i)))) b in
      let lt = byte-lt b bytes in
      let v =
        read_u32_le-little (byte b i) (byte b (suc i)) (byte b (suc (suc i)))
          (byte b (suc (suc (suc i)))) s (lt i) (lt _) (lt _) (lt _) in
      let w =
        u32_bytes-little (byte b i) (byte b (suc i)) (byte b (suc (suc i)))
          (byte b (suc (suc (suc i)))) (lt i) (lt _) (lt _) (lt _) in
      four b bytes i h
      ∙ sym (ap (λ t. t ++ s) (ap u32_bytes (ap read_u32_le (four b bytes i h) ∙ v) ∙ w))

  u64_at : 20 ≤ length b → drop 12 b ≡ u64_bytes (read_u64_le (drop 12 b)) ++ drop 20 b
  u64_at h =
      let lt = byte-lt b bytes in
      let split : drop 12 b
          ≡ byte b 12
            ∷ byte b 13
            ∷ byte b 14
            ∷ byte b 15
            ∷ byte b 16
            ∷ byte b 17
            ∷ byte b 18
            ∷ byte b 19
            ∷ drop 20 b =
        four b bytes 12 (omega arith)
        ∙ ap (λ t. byte b 12 ∷ byte b 13 ∷ byte b 14 ∷ byte b 15 ∷ t)
            (four b bytes 16 (omega arith)) in
      let v =
        read_u64_le-little (byte b 12) (byte b 13) (byte b 14) (byte b 15) (drop 20 b) (lt 12)
          (lt 13) (lt 14) (lt 15) (byte b 16) (byte b 17) (byte b 18) (byte b 19) (lt 16) (lt 17)
          (lt 18) (lt 19) in
      let w =
        u64_bytes-little (byte b 12) (byte b 13) (byte b 14) (byte b 15) (byte b 16) (byte b 17)
          (byte b 18) (byte b 19) (lt 12) (lt 13) (lt 14) (lt 15) (lt 16) (lt 17) (lt 18) (lt 19) in
      split ∙ sym (ap (λ t. t ++ drop 20 b) (ap u64_bytes (ap read_u64_le split ∙ v) ∙ w))

  magic_at : 20 ≤ length b → magic_matches b ≡ true → b ≡ 0x44 ∷ 0x4c ∷ 0x49 ∷ 0x32 ∷ drop 4 b
  unfolding magic_matches
  magic_at h m = four b bytes 0 (omega arith) ∙ ground arith

  header_at :
      (f : DliFrame)
      → Accepted b f
      → b ≡ header (read_u32_le (drop 8 b)) (read_u64_le (drop 12 b)) ++ drop 20 b
  header_at f a =
      magic_at (omega (arith, a.size)) a.magic
      ∙ ap (λ t. 0x44 ∷ 0x4c ∷ 0x49 ∷ 0x32 ∷ t)
          (u32_at 4 (omega (arith, a.size))
            ∙ ap (λ (v : ℕ). u32_bytes v ++ drop 8 b) a.version
            ∙ ap (λ t. u32_bytes dli2_version ++ t)
                (u32_at 8 (omega (arith, a.size))
                  ∙ ap (λ t. u32_bytes (read_u32_le (drop 8 b)) ++ t)
                      (u64_at (omega (arith, a.size)))))

  Fits-Accepted :
      (f : DliFrame)
      → Accepted b f
      → (length f.metadata_json ≡ read_u32_le (drop 8 b))
        × (length f.tensor_bytes ≡ read_u64_le (drop 12 b))
        × (f.metadata_json ++ f.tensor_bytes ≡ drop 20 b)
  Fits-Accepted f a =
      let m = read_u32_le (drop 8 b) in
      let t = read_u64_le (drop 12 b) in
      let body : Bytes = drop 20 b in
      let n : length body ≡ m + t = omega (arith, length-drop 20 b, a.size) in
      (
        ap length a.metadata ∙ omega (arith, length-take m body, n),
        ap length a.tensor ∙ omega (arith, length-take t (drop m body), length-drop m body, n),
        ap (λ p. p ++ f.tensor_bytes) a.metadata
            ∙ ap (λ p. take m body ++ p)
                (a.tensor ∙ take_all t (drop m body) (omega (arith, length-drop m body, n)))
            ∙ take-append-drop m body,
      )

  -- If `decode_frame` returns a frame for a string of bytes, `encode_frame` of that frame returns
  -- this string: no frame has two encodings.
  pub encode_frame-decode_frame : (f : DliFrame) → decode_frame b ≡ ok f → encode_frame f ≡ ok b
  encode_frame-decode_frame f h =
      let a = decode_frame-Accepted b f h in
      let (m, t, body) = Fits-Accepted f a in
      encode_frame-wire f (record {
        metadata = omega (arith, m, a.metadata_fits);
        tensor = omega (arith, t, a.tensor_fits);
      })
      ∙ ap ok (
          ap (λ (k : ℕ). header k (length f.tensor_bytes) ++ (f.metadata_json ++ f.tensor_bytes)) m
          ∙ ap (λ (k : ℕ). header (read_u32_le (drop 8 b)) k ++ (f.metadata_json ++ f.tensor_bytes))
              t
          ∙ ap (λ p. header (read_u32_le (drop 8 b)) (read_u64_le (drop 12 b)) ++ p) body
          ∙ sym (header_at f a))
