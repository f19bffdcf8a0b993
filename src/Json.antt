-- ===== src/Json.antt =====
-- JSON strings: src/native/dli_common_cpp/src/json_escape.cpp writes them, and
-- `unescape_json_string` of src/native/dli_common_cpp/src/metadata.cpp reads them back.
pub mod RoundTrip
mod Examples
use distributed_layer_infere.Common.{
  ℕ, ◌/◌, ◌%◌, Bool, true, false, not, ◌&&◌, ◌||◌, [], ◌∷◌, ◌++◌, ltb, ◌==◌, if◌then◌else◌, get_or,
  Bytes, codes,
}

abbrev pub quote : ℕ
quote = 0x22

abbrev pub backslash : ℕ
backslash = 0x5c

-- `hex[n]` of "0123456789abcdef"
pub hex : ℕ → ℕ
hex n = get_or (codes "0123456789abcdef") n 0

-- One round of the switch: `(c >> 4) & 0x0f` and `c & 0x0f` are the two hexadecimal digits.
unfoldable pub escape_byte : ℕ → Bytes
escape_byte c =
    if c == quote
    then backslash ∷ quote ∷ []
    else if c == backslash
    then backslash ∷ backslash ∷ []
    else if c == 0x08
    then backslash ∷ b'b' ∷ []
    else if c == 0x0c
    then backslash ∷ b'f' ∷ []
    else if c == 0x0a
    then backslash ∷ b'n' ∷ []
    else if c == 0x0d
    then backslash ∷ b'r' ∷ []
    else if c == 0x09
    then backslash ∷ b't' ∷ []
    else if ltb c 0x20
    then backslash ∷ b'u' ∷ b'0' ∷ b'0' ∷ hex (c / 16 % 16) ∷ hex (c % 16) ∷ []
    else c ∷ []

unfoldable pub json_escape : Bytes → Bytes
json_escape [] = []
json_escape (c ∷ cs) = escape_byte c ++ json_escape cs

-- The switch on the byte behind a backslash.
pub unescaped : ℕ → Bytes
unescaped e =
    if e == quote
    then quote ∷ []
    else if e == backslash
    then backslash ∷ []
    else if e == b'/'
    then b'/' ∷ []
    else if e == b'b'
    then 0x08 ∷ []
    else if e == b'f'
    then 0x0c ∷ []
    else if e == b'n'
    then 0x0a ∷ []
    else if e == b'r'
    then 0x0d ∷ []
    else if e == b't'
    then 0x09 ∷ []
    else backslash ∷ e ∷ []

-- The loop over the text; a backslash at the very end stands for itself.
unfoldable pub unescape_json_string : Bytes → Bytes
unescape_json_string [] = []
unescape_json_string (c ∷ []) = c ∷ []
unescape_json_string (c ∷ e ∷ rest) =
    let plain = c ∷ unescape_json_string (e ∷ rest) in
    let escaped = unescaped e ++ unescape_json_string rest in
    if not (c == backslash) then plain else escaped
