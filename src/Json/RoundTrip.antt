-- ===== src/Json/RoundTrip.antt =====
-- What survives `json_escape` followed by `unescape_json_string`.
use distributed_layer_infere.Common.{
  ℕ, suc, ◌/◌, ◌%◌, ◌<◌, ◌≤◌, ◌≡◌, ◌≢◌, ◌⊎◌, ◌↔◌, Option, none, some, if◌then◌else◌, zero, refl, ap,
  ◌∙◌, Bool, true, ◌||◌, ◌&&◌, not, inl, inr, [], ◌∷◌, ◌++◌, arith, ◌==◌, ltb, Bool-cases, Bytes,
  All,
}
use mathlib.Core.List.{append_assoc}
use distributed_layer_infere.Json.{
  quote, backslash, hex, escape_byte, json_escape, unescaped, unescape_json_string,
}

-- The bytes that `json_escape` writes with a short escape or as they are.
abbrev pub IsShort : ℕ → Type 0
IsShort c = (0x20 ≤ c) ⊎ (c ≡ 0x08) ⊎ (c ≡ 0x09) ⊎ (c ≡ 0x0a) ⊎ (c ≡ 0x0c) ⊎ (c ≡ 0x0d)

-- Reading goes on behind the escape of one byte.
plain_byte :
    (c : ℕ) (rest : Bytes)
    → c ≢ backslash
    → unescape_json_string (c ∷ rest) ≡ c ∷ unescape_json_string rest
unfolding unescape_json_string
plain_byte c [] h = refl
plain_byte c (e ∷ rest) h = ground arith

unescape-escape_byte :
    (c : ℕ) (rest : Bytes)
    → IsShort c
    → unescape_json_string (escape_byte c ++ rest) ≡ c ∷ unescape_json_string rest
unfolding unescape_json_string escape_byte unescaped
unescape-escape_byte c rest h = ground (arith, plain_byte c rest)

-- A text with no control byte but \b \t \n \f \r is read back as it was written.
pub unescape-json_escape : (s : Bytes) → All IsShort s → unescape_json_string (json_escape s) ≡ s
unfolding json_escape
unescape-json_escape [] h = unfold unescape_json_string in refl
unescape-json_escape (c ∷ s) h =
    unescape-escape_byte c (json_escape s) h.0 ∙ ap (λ t. c ∷ t) (unescape-json_escape s h.1)

-- The other control bytes come back as the six characters of their \u escape.
control_byte :
    (c : ℕ) (rest s : Bytes)
    → c < 0x20
    → (IsShort c → ⊥)
    → unescape_json_string (escape_byte c ++ rest) ≢ c ∷ s
unfolding unescape_json_string escape_byte unescaped
control_byte c rest s low other e = ground (arith, plain_byte b'u' (b'0' ∷ b'0' ∷ rest))

IsShort-cases : (c : ℕ) → IsShort c ⊎ ((c < 0x20) × (IsShort c → ⊥))
IsShort-cases c = elim (Bool-cases (ltb c 0x20)) [
  | inr high ↦ inl (ground arith)
  | inl low ↦ elim (Bool-cases (c == 0x08 || c == 0x09 || c == 0x0a || c == 0x0c || c == 0x0d)) [
    | inl named ↦ inl (ground arith)
    | inr other ↦ inr (ground arith, λ short. ground arith)
  ]
]

All-IsShort : (s : Bytes) → unescape_json_string (json_escape s) ≡ s → All IsShort s
unfolding json_escape
All-IsShort [] h = tt
All-IsShort (c ∷ s) h = elim (IsShort-cases c) [
  | inl short ↦ (short, All-IsShort s (cc (unescape-escape_byte c (json_escape s) short)))
  | inr (low, other) ↦ absurd (control_byte c (json_escape s) s low other h)
]

-- `unescape_json_string` undoes `json_escape` on a text exactly when every control byte of the
-- text is one of \b, \t, \n, \f, \r: the \u escapes of the others are not read back.
pub unescape-json_escape_iff :
    (s : Bytes) → (unescape_json_string (json_escape s) ≡ s) ↔ All IsShort s
unescape-json_escape_iff s = (All-IsShort s, unescape-json_escape s)

-- A reader of a JSON string's body: what follows the closing quote.
abbrev pub after_quote : Bytes → Option Bytes
after_quote [] = none
after_quote (c ∷ []) = if c == quote then some [] else none
after_quote (c ∷ e ∷ rest) =
    let escaped = after_quote rest in
    let plain = after_quote (e ∷ rest) in
    if c == quote then some (e ∷ rest) else if c == backslash then escaped else plain

plain_after_quote :
    (c : ℕ) (rest : Bytes) → c ≢ quote → c ≢ backslash → after_quote (c ∷ rest) ≡ after_quote rest
plain_after_quote c [] h k = ground arith
plain_after_quote c (e ∷ rest) h k = ground arith

pub plain_digit : ℕ → Bool
plain_digit c = not (c == quote) && not (c == backslash)

-- The digits of a \u escape are plain characters.
hex_digits : ℕ → Bool
hex_digits zero = true
hex_digits (suc n) = plain_digit (hex n) && hex_digits n

plain_digits : (k n : ℕ) → hex_digits k ≡ true → n < k → plain_digit (hex n) ≡ true
unfolding hex_digits
plain_digits zero n h lt = absurd (omega arith)
plain_digits (suc k) n h lt = ground (arith, plain_digits k n)

pub plain_hex : (n : ℕ) → n < 16 → (hex n ≢ quote) × (hex n ≢ backslash)
unfolding plain_digit hex_digits hex
plain_hex n h = unfold plain_digit in ground (arith, plain_digits 16 n refl h)

after_quote-escape_byte :
    (c : ℕ) (rest : Bytes) → after_quote (escape_byte c ++ rest) ≡ after_quote rest
unfolding escape_byte
after_quote-escape_byte c rest =
    let high = hex (c / 16 % 16) in
    let low = hex (c % 16) in
    ground (
      arith,
      plain_after_quote c rest,
      plain_after_quote b'0' (b'0' ∷ high ∷ low ∷ rest),
      plain_after_quote b'0' (high ∷ low ∷ rest),
      plain_after_quote high (low ∷ rest),
      plain_after_quote low rest,
      plain_hex (c / 16 % 16) (omega arith),
      plain_hex (c % 16) (omega arith),
    )

end_quote : (rest : Bytes) → after_quote (quote ∷ rest) ≡ some rest
end_quote [] = refl
end_quote (e ∷ rest) = refl

-- Text that was escaped never ends the string that it is put into: the reader finds the quote that
-- was written behind it, and what follows.
pub after_quote-json_escape :
    (s rest : Bytes) → after_quote (json_escape s ++ (quote ∷ rest)) ≡ some rest
unfolding json_escape
after_quote-json_escape [] rest = end_quote rest
after_quote-json_escape (c ∷ s) rest =
    ap after_quote (append_assoc (escape_byte c) (json_escape s) (quote ∷ rest))
    ∙ after_quote-escape_byte c (json_escape s ++ (quote ∷ rest))
    ∙ after_quote-json_escape s rest
