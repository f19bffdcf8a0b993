-- ===== src/Metadata/Fields.antt =====
-- Fields that were written as JSON come back through the extractors.
use distributed_layer_infere.Common.{
  ℕ, suc, ◌+◌, ◌≤◌, ◌<◌, ◌/◌, ◌%◌, ◌^◌, ◌≡◌, ◌≢◌, refl, sym, ap, ◌∙◌, arith, Bool, true, false,
  Option, none, some, [], ◌∷◌, ◌++◌, ok, Bytes, All, drop_front, starts_with, starts_with-append,
  decimal, value_from-decimal, decimal-IsDigit, decimal_nonempty, IsDigit, skip_spaces, EndsDigits,
  leading_digits-append, not_minus, to_string, ℤ, pos, negsuc, pos_part, neg_part,
}
use distributed_layer_infere.Json.{json_escape, escape_byte, hex, quote, backslash}
use distributed_layer_infere.Json.RoundTrip.{plain_hex, IsShort, unescape-json_escape_iff}
use mathlib.Core.List.{append_assoc}
use mathlib.Core.Path.{subst}
use distributed_layer_infere.Metadata.{
  after_key, first_match, integer_at, stoi, extract_int_field, string_body, string_at,
  extract_string_field, pushed, behind_key, unescaped_match, converted, digits_of,
}

abbrev pub prepended : Bytes → Option Bytes → Option Bytes
prepended xs none = none
prepended xs (some ys) = some (xs ++ ys)

string_body_plain :
    (c : ℕ) (rest : Bytes)
    → c ≢ quote
    → c ≢ backslash
    → string_body (c ∷ rest) ≡ pushed c (string_body rest)
unfolding string_body
string_body_plain c [] h k = ground arith
string_body_plain c (e ∷ rest) h k = ground arith

string_body_escape :
    (d : ℕ) (rest : Bytes)
    → d ≢ 10
    → d ≢ 13
    → string_body (backslash ∷ d ∷ rest) ≡ pushed backslash (pushed d (string_body rest))
unfolding string_body
string_body_escape d rest h k = ground arith

string_body_end : (rest : Bytes) → string_body (quote ∷ rest) ≡ some []
unfolding string_body
string_body_end [] = refl
string_body_end (e ∷ rest) = refl

string_body-escape_byte :
    (c : ℕ) (rest body : Bytes)
    → string_body rest ≡ some body
    → string_body (escape_byte c ++ rest) ≡ some (escape_byte c ++ body)
unfolding escape_byte
string_body-escape_byte c rest body h =
    let high = hex (c / 16 % 16) in
    let low = hex (c % 16) in
    ground (
      arith,
      h,
      string_body_plain c rest,
      string_body_escape quote rest (omega arith) (omega arith),
      string_body_escape backslash rest (omega arith) (omega arith),
      string_body_escape b'b' rest (omega arith) (omega arith),
      string_body_escape b'f' rest (omega arith) (omega arith),
      string_body_escape b'n' rest (omega arith) (omega arith),
      string_body_escape b'r' rest (omega arith) (omega arith),
      string_body_escape b't' rest (omega arith) (omega arith),
      string_body_escape b'u' (b'0' ∷ b'0' ∷ high ∷ low ∷ rest) (omega arith) (omega arith),
      string_body_plain b'0' (b'0' ∷ high ∷ low ∷ rest),
      string_body_plain b'0' (high ∷ low ∷ rest),
      string_body_plain high (low ∷ rest),
      string_body_plain low rest,
      plain_hex (c / 16 % 16) (omega arith),
      plain_hex (c % 16) (omega arith),
    )

string_body-json_escape :
    (v rest : Bytes) → string_body (json_escape v ++ (quote ∷ rest)) ≡ some (json_escape v)
unfolding json_escape
string_body-json_escape [] rest = string_body_end rest
string_body-json_escape (c ∷ v) rest =
    ap string_body (append_assoc (escape_byte c) (json_escape v) (quote ∷ rest))
    ∙ string_body-escape_byte c (json_escape v ++ (quote ∷ rest)) (json_escape v)
        (string_body-json_escape v rest)

-- A field as it is written: the quoted key, a colon, and the value.
abbrev pub field : Bytes → Bytes → Bytes
field key value = (quote ∷ key ++ (quote ∷ [])) ++ (b':' ∷ value)

after_key-field :
    (key value : Bytes) → skip_spaces value ≡ value → after_key key (field key value) ≡ some value
unfolding after_key skip_spaces
after_key-field key value h =
    rw
      (
        starts_with-append (quote ∷ key ++ (quote ∷ [])) (b':' ∷ value),
        drop_front (quote ∷ key ++ (quote ∷ [])) (b':' ∷ value),
        h,
      )
      refl

-- No field starts at a character that is no quote.
after_key-none : (key : Bytes) (c : ℕ) (s : Bytes) → c ≢ quote → after_key key (c ∷ s) ≡ none
unfolding after_key starts_with
after_key-none key c s h = ground arith

abbrev pub HasNoQuote : Bytes → Type 0
HasNoQuote = All (λ c. c ≢ quote)

module _ {A : Type 0} (key : Bytes) (scan : Bytes → Option A) where
  first_match_here :
      (s : Bytes) (a : A)
      → behind_key scan (after_key key s) ≡ some a
      → first_match (λ t. behind_key scan (after_key key t)) s ≡ some a
  unfolding first_match
  first_match_here [] a h = h
  first_match_here (c ∷ cs) a h = rw h refl

  first_match_front :
      (front s : Bytes) (a : A)
      → HasNoQuote front
      → behind_key scan (after_key key s) ≡ some a
      → first_match (λ t. behind_key scan (after_key key t)) (front ++ s) ≡ some a
  unfolding first_match
  first_match_front [] s a n h = first_match_here s a h
  first_match_front (c ∷ front) s a n h =
      rw (after_key-none key c (front ++ s) n.0) (first_match_front front s a n.1 h)

quote_stays : (s : Bytes) → skip_spaces (quote ∷ s) ≡ quote ∷ s
unfolding skip_spaces
quote_stays s = refl

-- A string field that was written with `json_escape`, behind text without a quote, is read back as
-- it was if every control byte of the value has a short escape: such a value, quotes and
-- backslashes included, does not end its field early.
pub extract_string_field-field :
    (front key value rest : Bytes)
    → HasNoQuote front
    → All IsShort value
    → extract_string_field (front ++ field key (quote ∷ json_escape value ++ (quote ∷ rest))) key
      ≡ some value
unfolding extract_string_field
extract_string_field-field front key value rest n short =
    let written = quote ∷ json_escape value ++ (quote ∷ rest) in
    let here : behind_key string_at (after_key key (field key written)) ≡ some (json_escape value) =
      ap (behind_key string_at) (after_key-field key written (quote_stays _))
      ∙ string_body-json_escape value rest in
    ap unescaped_match
      (first_match_front key string_at front (field key written) (json_escape value) n here)
    ∙ ap some ((unescape-json_escape_iff value).1 short)

-- A nonempty numeral, read with its sign.
abbrev pub signed : Bool → Bytes → Bytes
signed true ds = b'-' ∷ ds
signed false ds = ds

integer_at-signed :
    (negative : Bool) (d : ℕ) (ds rest : Bytes)
    → All IsDigit (d ∷ ds)
    → EndsDigits rest
    → integer_at (signed negative (d ∷ ds) ++ rest) ≡ some (negative, d ∷ ds)
unfolding integer_at
integer_at-signed true d ds rest h e = ap (digits_of true) (leading_digits-append (d ∷ ds) rest h e)
integer_at-signed false d ds rest h e =
    rw (not_minus d h.0) (ap (digits_of false) (leading_digits-append (d ∷ ds) rest h e))

signed_stays :
    (negative : Bool) (d : ℕ) (ds rest : Bytes)
    → IsDigit d
    → skip_spaces (signed negative (d ∷ ds) ++ rest) ≡ signed negative (d ∷ ds) ++ rest
unfolding skip_spaces
signed_stays true d ds rest h = refl
signed_stays false d ds rest h = ground arith

-- What `to_string` writes, by its sign and digits.
abbrev pub is_negative : ℤ → Bool
is_negative (pos n) = false
is_negative (negsuc n) = true

abbrev pub magnitude : ℤ → ℕ
magnitude z = pos_part z + neg_part z

to_string-signed : (z : ℤ) → to_string z ≡ signed (is_negative z) (decimal (magnitude z))
unfolding to_string
to_string-signed (pos n) = ap decimal (omega arith)
to_string-signed (negsuc n) = ap (λ m. b'-' ∷ decimal m) (omega arith)

-- An int of C++.
abbrev pub IsInt : ℤ → Type 0
IsInt z = (pos_part z < 2 ^ 31) × (neg_part z ≤ 2 ^ 31)

stoi-decimal :
    (key : Bytes) (z : ℤ) → IsInt z → stoi key (is_negative z, decimal (magnitude z)) ≡ ok (some z)
unfolding stoi
stoi-decimal key (pos n) h = rw (value_from-decimal (n + 0)) (ground arith)
stoi-decimal key (negsuc n) h = rw (value_from-decimal (0 + suc n)) (ground arith)

-- An integer field that was written with `std::to_string`, behind text without a quote and before
-- a character that is no digit, is read back as it was if it is an int.
extract_int_field-field :
    (front key rest : Bytes) (z : ℤ)
    → HasNoQuote front
    → EndsDigits rest
    → IsInt z
    → extract_int_field (front ++ field key (to_string z ++ rest)) key ≡ ok (some z)
unfolding extract_int_field
extract_int_field-field front key rest z n e int =
    let (d, ds, shape) = decimal_nonempty (magnitude z) in
    let text = to_string-signed z ∙ ap (signed (is_negative z)) shape in
    let digits : All IsDigit (d ∷ ds) = subst (All IsDigit) shape (decimal-IsDigit (magnitude z)) in
    let written = signed (is_negative z) (d ∷ ds) ++ rest in
    let here : behind_key integer_at (after_key key (field key written))
        ≡ some (is_negative z, d ∷ ds) =
      ap (behind_key integer_at)
        (after_key-field key written (signed_stays (is_negative z) d ds rest digits.0))
      ∙ integer_at-signed (is_negative z) d ds rest digits e in
    ap (λ t. extract_int_field (front ++ field key (t ++ rest)) key) text
    ∙ ap (converted key)
        (first_match_front key integer_at front (field key written) (is_negative z, d ∷ ds) n here)
    ∙ ap (λ t. stoi key (is_negative z, t)) (sym shape)
    ∙ stoi-decimal key z int
