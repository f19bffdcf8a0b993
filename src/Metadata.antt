-- ===== src/Metadata.antt =====
-- The fields of a frame's metadata: the extractors of src/native/dli_common_cpp/src/metadata.cpp.
-- Each std::regex there has one way to match at a position, so a match is a scan from it; the search
-- takes the first position at which the scan succeeds.
pub mod Fields
pub mod Request
pub mod Parsed
mod Examples
use distributed_layer_infere.Common.{
  ℕ, zero, suc, ◌+◌, ◌-◌, ◌*◌, ◌^◌, Bool, true, false, not, ◌&&◌, ◌||◌, if◌then◌else◌, ltb, leb,
  ◌==◌, Option, none, some, List, [], ◌∷◌, ◌++◌, Result, ok, err, ◌>>=◌, Bytes, codes, is_empty,
  starts_with, drop, length, value_from, ℤ, pos, is_digit, skip_spaces, leading_digits, int_max,
  negated,
}
use distributed_layer_infere.Json.{unescape_json_string}

pub data MetadataError : Type 0 where
  invalid_integer invalid_number : Bytes → MetadataError
  invalid_shape : MetadataError

-- `"key"\s*:\s*` at this position: what stands behind it.
abbrev pub after_colon : Bytes → Option Bytes
after_colon [] = none
after_colon (c ∷ cs) = if c == b':' then some (skip_spaces cs) else none

unfoldable pub after_key : Bytes → Bytes → Option Bytes
after_key key s =
    let quoted = b'"' ∷ key ++ (b'"' ∷ []) in
    if starts_with s quoted then after_colon (skip_spaces (drop (length quoted) s)) else none

-- The first of two that is there.
abbrev pub or_else : {A : Type 0} → Option A → Option A → Option A
or_else none o = o
or_else (some a) o = some a

-- `std::regex_search`
unfoldable pub first_match : {A : Type 0} → (Bytes → Option A) → Bytes → Option A
first_match scan [] = scan []
first_match scan (c ∷ cs) = or_else (scan (c ∷ cs)) (first_match scan cs)

abbrev pub behind_key : {A : Type 0} → (Bytes → Option A) → Option Bytes → Option A
behind_key scan none = none
behind_key scan (some s) = scan s

-- `-?\d+` at this position: the sign and the digits.
abbrev pub digits_of : Bool → Bytes → Option (Bool × Bytes)
digits_of negative [] = none
digits_of negative (d ∷ ds) = some (negative, d ∷ ds)

unfoldable pub integer_at : Bytes → Option (Bool × Bytes)
integer_at [] = none
integer_at (c ∷ cs) =
    if c == b'-'
    then digits_of true (leading_digits cs)
    else digits_of false (leading_digits (c ∷ cs))

-- `std::stoi`, which throws out of the range of int.
unfoldable pub stoi : Bytes → Bool × Bytes → Result MetadataError (Option ℤ)
stoi key (negative, text) =
    let value = value_from 0 text in
    if negative
    then (if ltb (int_max + 1) value
        then err (MetadataError.invalid_integer key)
        else ok (some (negated value)))
    else if ltb int_max value
    then err (MetadataError.invalid_integer key)
    else ok (some (pos value))

abbrev pub converted : Bytes → Option (Bool × Bytes) → Result MetadataError (Option ℤ)
converted key none = ok none
converted key (some text) = stoi key text

unfoldable pub extract_int_field : Bytes → Bytes → Result MetadataError (Option ℤ)
extract_int_field json key =
    converted key (first_match (λ s. behind_key integer_at (after_key key s)) json)

-- `(true|false)`
abbrev pub bool_at : Bytes → Option Bool
bool_at s =
    if starts_with s (codes "true")
    then some true
    else if starts_with s (codes "false")
    then some false
    else none

unfoldable pub extract_bool_field : Bytes → Bytes → Option Bool
extract_bool_field json key = first_match (λ s. behind_key bool_at (after_key key s)) json

-- `((?:\\.|[^"\\])*)"` behind the opening quote: what the group takes. `.` is no line end.
abbrev pub pushed : ℕ → Option Bytes → Option Bytes
pushed c none = none
pushed c (some cs) = some (c ∷ cs)

unfoldable pub string_body : Bytes → Option Bytes
string_body [] = none
string_body (c ∷ []) = if c == b'"' then some [] else none
string_body (c ∷ d ∷ cs) =
    let escaped = string_body cs in
    let plain = string_body (d ∷ cs) in
    if c == b'"'
    then some []
    else if c == b'\\'
    then (if d == 10 || d == 13 then none else pushed c (pushed d escaped))
    else pushed c plain

abbrev pub string_at : Bytes → Option Bytes
string_at [] = none
string_at (c ∷ cs) = if c == b'"' then string_body cs else none

abbrev pub unescaped_match : Option Bytes → Option Bytes
unescaped_match none = none
unescaped_match (some text) = some (unescape_json_string text)

unfoldable pub extract_string_field : Bytes → Bytes → Option Bytes
extract_string_field json key =
    unescaped_match (first_match (λ s. behind_key string_at (after_key key s)) json)

-- The long key, then the short one.
unfoldable pub extract_string_alias : Bytes → Bytes → Bytes → Option Bytes
extract_string_alias json long_key short_key =
    or_else (extract_string_field json long_key) (extract_string_field json short_key)

unfoldable pub extract_bool_alias : Bytes → Bytes → Bytes → Option Bool
extract_bool_alias json long_key short_key =
    or_else (extract_bool_field json long_key) (extract_bool_field json short_key)

abbrev int_or_else : Option ℤ → Result MetadataError (Option ℤ) → Result MetadataError (Option ℤ)
int_or_else none o = o
int_or_else (some z) o = ok (some z)

unfoldable pub extract_int_alias : Bytes → Bytes → Bytes → Result MetadataError (Option ℤ)
extract_int_alias json long_key short_key = extract_int_field json long_key >>= λ value.
    int_or_else value (extract_int_field json short_key)
