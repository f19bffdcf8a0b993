-- ===== src/Protocol.antt =====
-- The DLI2 frame codec: src/native/dli_common_cpp/include/dli/common/protocol.hpp and
-- src/native/dli_common_cpp/src/protocol.cpp. A byte vector is a list of numbers below 256.

pub mod Words
pub mod Header
pub mod RoundTrip
pub mod Rejects
mod Examples
use distributed_layer_infere.Common.{
  ℕ, zero, suc, ◌+◌, ◌*◌, ◌/◌, ◌%◌, ◌^◌, ◌-◌, bit_or, Bool, true, false, not, ◌&&◌, Option, none,
  some, List, [], ◌∷◌, ◌++◌, Result, ok, err, ◌>>=◌, ◌>>◌, throw_if, ltb, ◌==◌, length, get_or,
  take, drop, Bytes,
}

pub record DliFrame : Type 0 where
  pub metadata_json : Bytes
  pub tensor_bytes : Bytes

-- One constructor for each message that a `ProtocolError` carries.
pub data ProtocolError : Type 0 where
  metadata_exceeds tensor_exceeds frame_too_large : ProtocolError
  null_data too_small invalid_magic unsupported_version : ProtocolError
  metadata_length_exceeds tensor_length_exceeds size_mismatch : ProtocolError

abbrev pub header_bytes : ℕ
header_bytes = 20

abbrev pub dli2_version : ℕ
dli2_version = 2

-- "DLI2"
abbrev pub dli2_magic : Bytes
dli2_magic = 0x44 ∷ 0x4c ∷ 0x49 ∷ 0x32 ∷ []

-- 16 MiB
abbrev pub max_metadata_bytes : ℕ
max_metadata_bytes = 16 * 1024 * 1024

-- 8 GiB
abbrev pub max_tensor_bytes : ℕ
max_tensor_bytes = 8 * 1024 * 1024 * 1024

-- The largest `std::size_t` of the 64-bit target.
abbrev pub size_max : ℕ
size_max = 2 ^ 64 - 1

-- `static_cast<std::uint8_t>((value >> shift) & 0xff)`
abbrev pub byte_at : ℕ → ℕ → ℕ
byte_at value shift = value / 2 ^ shift % 256

unfoldable pub append_u32_le : Bytes → ℕ → Bytes
append_u32_le out value =
    out ++ (byte_at value 0 ∷ byte_at value 8 ∷ byte_at value 16 ∷ byte_at value 24 ∷ [])

-- `for (shift = 0; shift < 64; shift += 8)`, by the number of rounds that are left.
unfoldable pub append_u64_rounds : ℕ → ℕ → Bytes → ℕ → Bytes
append_u64_rounds zero shift out value = out
append_u64_rounds (suc rounds) shift out value =
    append_u64_rounds rounds (shift + 8) (out ++ (byte_at value shift ∷ [])) value

unfoldable pub append_u64_le : Bytes → ℕ → Bytes
unfolding append_u64_rounds
append_u64_le out value = append_u64_rounds 8 0 out value

-- A byte of the buffer. The callers have checked that it is inside.
abbrev pub byte : Bytes → ℕ → ℕ
byte data_ i = get_or data_ i 0

unfoldable pub read_u32_le : Bytes → ℕ
read_u32_le b =
    bit_or (bit_or (bit_or (byte b 0) (byte b 1 * 2 ^ 8)) (byte b 2 * 2 ^ 16)) (byte b 3 * 2 ^ 24)

-- `for (i = 0; i < 8; ++i) value |= data[i] << (i * 8)`
unfoldable pub read_u64_rounds : ℕ → ℕ → ℕ → Bytes → ℕ
read_u64_rounds zero i value b = value
read_u64_rounds (suc rounds) i value b =
    read_u64_rounds rounds (i + 1) (bit_or value (byte b i * 2 ^ (i * 8))) b

unfoldable pub read_u64_le : Bytes → ℕ
unfolding read_u64_rounds
read_u64_le b = read_u64_rounds 8 0 0 b

-- `std::memcmp(data, DLI2_MAGIC, 4) == 0`
unfoldable pub magic_matches : Bytes → Bool
magic_matches b = byte b 0 == 0x44 && byte b 1 == 0x4c && byte b 2 == 0x49 && byte b 3 == 0x32

-- The frame's bytes after the checks, in the order in which they are appended.
unfoldable pub frame_bytes : ℕ → ℕ → DliFrame → Bytes
frame_bytes metadata_len tensor_len frame =
    append_u64_le (append_u32_le (append_u32_le ([] ++ dli2_magic) dli2_version) metadata_len)
      tensor_len
    ++ (frame.metadata_json ++ frame.tensor_bytes)

unfoldable pub encode_frame : DliFrame → Result ProtocolError Bytes
encode_frame frame = do
  throw_if (ltb max_metadata_bytes (length frame.metadata_json)) ProtocolError.metadata_exceeds
  throw_if (ltb max_tensor_bytes (length frame.tensor_bytes)) ProtocolError.tensor_exceeds
  let metadata_len = length frame.metadata_json % 2 ^ 32
  let tensor_len = length frame.tensor_bytes % 2 ^ 64
  throw_if (ltb size_max ((header_bytes + metadata_len + tensor_len) % 2 ^ 64))
      ProtocolError.frame_too_large
  ok (frame_bytes metadata_len tensor_len frame)

-- What stands behind the pointer; a null pointer is `none`.
abbrev pub pointee : Option Bytes → Bytes
pointee none = []
pointee (some b) = b

abbrev pub is_null : Option Bytes → Bool
is_null none = true
is_null (some b) = false

unfoldable pub decode_frame_at : Option Bytes → ℕ → Result ProtocolError DliFrame
decode_frame_at pointer size = do
  throw_if (is_null pointer && ltb 0 size) ProtocolError.null_data
  throw_if (ltb size header_bytes) ProtocolError.too_small
  let b = pointee pointer
  throw_if (not (magic_matches b)) ProtocolError.invalid_magic
  throw_if (not (read_u32_le (drop 4 b) == dli2_version)) ProtocolError.unsupported_version
  let metadata_len = read_u32_le (drop 8 b)
  let tensor_len = read_u64_le (drop 12 b)
  throw_if (ltb max_metadata_bytes metadata_len) ProtocolError.metadata_length_exceeds
  throw_if (ltb max_tensor_bytes tensor_len) ProtocolError.tensor_length_exceeds
  throw_if (not ((header_bytes + metadata_len + tensor_len) % 2 ^ 64 == size))
      ProtocolError.size_mismatch
  let metadata_start = drop header_bytes b
  ok (record {
    metadata_json = take metadata_len metadata_start;
    tensor_bytes = take tensor_len (drop metadata_len metadata_start);
  })

-- The overload on a vector.
unfoldable pub decode_frame : Bytes → Result ProtocolError DliFrame
unfolding decode_frame_at
decode_frame b = decode_frame_at (some b) (length b)
