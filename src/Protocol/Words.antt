-- ===== src/Protocol/Words.antt =====
-- The little-endian words of protocol.cpp as sums of bytes.
use distributed_layer_infere.Common.{
  Bytes, ℕ, ◌+◌, ◌*◌, ◌^◌, ◌<◌, ◌≡◌, refl, ap, ◌∙◌, [], ◌∷◌, ◌++◌, arith, bit_or, bit_or_shifted,
}
use mathlib.Core.List.{append_assoc}
use distributed_layer_infere.Protocol.{
  byte_at, append_u32_le, append_u64_le, read_u32_le, read_u64_le,
}

-- The value of a list of bytes, lowest first.
abbrev pub little : Bytes → ℕ
little [] = 0
little (b ∷ bs) = b + 256 * little bs

abbrev pub u32_bytes : ℕ → Bytes
u32_bytes v = byte_at v 0 ∷ byte_at v 8 ∷ byte_at v 16 ∷ byte_at v 24 ∷ []

abbrev pub u64_bytes : ℕ → Bytes
u64_bytes v =
    byte_at v 0
    ∷ byte_at v 8
    ∷ byte_at v 16
    ∷ byte_at v 24
    ∷ byte_at v 32
    ∷ byte_at v 40
    ∷ byte_at v 48
    ∷ byte_at v 56
    ∷ []

-- One more byte is put above the `k` bits that were read.
next_byte : (k a acc b : ℕ) → acc ≡ a → a < 2 ^ k → bit_or acc (b * 2 ^ k) ≡ a + b * 2 ^ k
next_byte k a acc b e h = ap (λ (t : ℕ). bit_or t (b * 2 ^ k)) e ∙ bit_or_shifted k a b h

module _ (b0 b1 b2 b3 : ℕ) (rest : Bytes) (h0 : b0 < 256) (h1 : b1 < 256) (h2 : b2 < 256)
    (h3 : b3 < 256) where
  low_half :
      bit_or (bit_or (bit_or b0 (b1 * 2 ^ 8)) (b2 * 2 ^ 16)) (b3 * 2 ^ 24)
      ≡ b0 + b1 * 2 ^ 8 + b2 * 2 ^ 16 + b3 * 2 ^ 24
  low_half =
      next_byte 24 (b0 + b1 * 2 ^ 8 + b2 * 2 ^ 16) _ b3
        (next_byte 16 (b0 + b1 * 2 ^ 8) _ b2 (bit_or_shifted 8 b0 b1 (omega arith)) (omega arith))
        (omega arith)

  pub read_u32_le-little : read_u32_le (b0 ∷ b1 ∷ b2 ∷ b3 ∷ rest) ≡ little (b0 ∷ b1 ∷ b2 ∷ b3 ∷ [])
  unfolding read_u32_le
  read_u32_le-little = low_half ∙ omega arith

  module _ (b4 b5 b6 b7 : ℕ) (h4 : b4 < 256) (h5 : b5 < 256) (h6 : b6 < 256) (h7 : b7 < 256) where
    pub read_u64_le-little :
        read_u64_le (b0 ∷ b1 ∷ b2 ∷ b3 ∷ b4 ∷ b5 ∷ b6 ∷ b7 ∷ rest)
        ≡ little (b0 ∷ b1 ∷ b2 ∷ b3 ∷ b4 ∷ b5 ∷ b6 ∷ b7 ∷ [])
    unfolding read_u64_le
    read_u64_le-little =
        let s0 : bit_or 0 (b0 * 2 ^ 0) ≡ b0 = next_byte 0 0 0 b0 refl (omega arith) ∙ omega arith in
        let s1 = next_byte 8 (b0) _ b1 s0 (omega arith) in
        let s2 = next_byte 16 (b0 + b1 * 2 ^ 8) _ b2 s1 (omega arith) in
        let s3 = next_byte 24 (b0 + b1 * 2 ^ 8 + b2 * 2 ^ 16) _ b3 s2 (omega arith) in
        let s4 = next_byte 32 (b0 + b1 * 2 ^ 8 + b2 * 2 ^ 16 + b3 * 2 ^ 24) _ b4 s3 (omega arith) in
        let s5 =
          next_byte 40 (b0 + b1 * 2 ^ 8 + b2 * 2 ^ 16 + b3 * 2 ^ 24 + b4 * 2 ^ 32) _ b5 s4
            (omega arith) in
        let s6 =
          next_byte 48 (b0 + b1 * 2 ^ 8 + b2 * 2 ^ 16 + b3 * 2 ^ 24 + b4 * 2 ^ 32 + b5 * 2 ^ 40) _
            b6 s5 (omega arith) in
        let s7 =
          next_byte 56
            (b0 + b1 * 2 ^ 8 + b2 * 2 ^ 16 + b3 * 2 ^ 24 + b4 * 2 ^ 32 + b5 * 2 ^ 40 + b6 * 2 ^ 48)
            _ b7 s6 (omega arith) in
        s7 ∙ omega arith

-- A number of 32 or 64 bits is the value of its bytes.
pub little-u32_bytes : (v : ℕ) → v < 2 ^ 32 → little (u32_bytes v) ≡ v
little-u32_bytes v h = omega arith

pub little-u64_bytes : (v : ℕ) → v < 2 ^ 64 → little (u64_bytes v) ≡ v
little-u64_bytes v h = omega arith

pub append_u32_le_lem : (out : Bytes) (v : ℕ) → append_u32_le out v ≡ out ++ u32_bytes v
unfolding append_u32_le
append_u32_le_lem out v = refl

pub append_u64_le_lem : (out : Bytes) (v : ℕ) → append_u64_le out v ≡ out ++ u64_bytes v
unfolding append_u64_le
append_u64_le_lem out v = simp append_assoc

-- What is written is read back, whatever follows it.
pub read_u32_le-u32_bytes :
    (v : ℕ) (rest : Bytes) → v < 2 ^ 32 → read_u32_le (u32_bytes v ++ rest) ≡ v
read_u32_le-u32_bytes v rest h =
    read_u32_le-little (byte_at v 0) (byte_at v 8) (byte_at v 16) (byte_at v 24) rest (omega arith)
      (omega arith) (omega arith) (omega arith)
    ∙ little-u32_bytes v h

pub read_u64_le-u64_bytes :
    (v : ℕ) (rest : Bytes) → v < 2 ^ 64 → read_u64_le (u64_bytes v ++ rest) ≡ v
read_u64_le-u64_bytes v rest h =
    read_u64_le-little (byte_at v 0) (byte_at v 8) (byte_at v 16) (byte_at v 24) rest (omega arith)
      (omega arith) (omega arith) (omega arith) (byte_at v 32) (byte_at v 40) (byte_at v 48)
      (byte_at v 56) (omega arith) (omega arith) (omega arith) (omega arith)
    ∙ little-u64_bytes v h
