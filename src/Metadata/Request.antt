-- ===== src/Metadata/Request.antt =====
-- The whole of a frame's metadata: extract_double_field, extract_shape and parse_request_metadata of
-- src/native/dli_common_cpp/src/metadata.cpp.
use distributed_layer_infere.Common.{
  ℕ, ◌-◌, ◌^◌, Bool, true, false, ◌||◌, if◌then◌else◌, leb, ◌==◌, Option, none, some, List, [], ◌∷◌,
  ◌++◌, Result, ok, err, ◌>>=◌, length, drop, Bytes, codes, value_from, ℤ, pos, negsuc, is_digit,
  leading_digits, with_sign,
}
use distributed_layer_infere.Metadata.{
  MetadataError, invalid_number, invalid_shape, after_key, or_else, first_match, behind_key,
}

-- What the code does with a double: std::stod, which may throw, the casts, the constant 0.0, the sum,
-- the difference, `<` and `<=`, `<<` and std::to_string.
pub record Double (D : Type 0) : Type 0 where
  pub stod : Bytes → Option D
  pub to_long_long : D → ℤ
  pub to_uint64 : D → ℕ
  pub nought : D
  pub plus : D → D → D
  pub minus : D → D → D
  pub less : D → D → Bool
  pub at_most : D → D → Bool
  pub streamed : D → Bytes
  pub to_text : D → Bytes

-- `-?(?:\d+\.?\d*|\.\d+)(?:[eE][+-]?\d+)?` at this position.
abbrev fraction : Bytes → Bytes
fraction [] = []
fraction (c ∷ cs) = if c == b'.' then c ∷ leading_digits cs else []

abbrev pub mantissa_of : Bytes → Bytes → Bytes
mantissa_of [] (_ ∷ []) = []
mantissa_of [] fraction = fraction
mantissa_of (d ∷ ds) fraction = d ∷ ds ++ fraction

abbrev mantissa : Bytes → Bytes
mantissa s = let digits = leading_digits s in mantissa_of digits (fraction (drop (length digits) s))

abbrev behind_sign : Bytes → Bytes × Bytes
behind_sign [] = ([], [])
behind_sign (c ∷ cs) = if c == b'+' || c == b'-' then (c ∷ [], cs) else ([], c ∷ cs)

abbrev exponent_of : ℕ → Bytes → Bytes → Bytes
exponent_of e sign [] = []
exponent_of e sign (d ∷ ds) = e ∷ sign ++ (d ∷ ds)

abbrev exponent : Bytes → Bytes
exponent [] = []
exponent (c ∷ cs) =
    let (sign, rest) = behind_sign cs in
    if c == b'e' || c == b'E' then exponent_of c sign (leading_digits rest) else []

abbrev number_of : Bytes → Bytes → Bytes → Option Bytes
number_of sign [] rest = none
number_of sign (d ∷ ds) rest = some (sign ++ (d ∷ ds) ++ exponent rest)

abbrev unsigned_at : Bytes → Bytes → Option Bytes
unsigned_at sign s = let m = mantissa s in number_of sign m (drop (length m) s)

unfoldable pub double_at : Bytes → Option Bytes
double_at [] = none
double_at (c ∷ cs) = if c == b'-' then unsigned_at (c ∷ []) cs else unsigned_at [] (c ∷ cs)

abbrev double_of : {D : Type 0} → Bytes → Option D → Result MetadataError (Option D)
double_of key none = err (invalid_number key)
double_of key (some d) = ok (some d)

abbrev double_text :
    {D : Type 0} → Double D → Bytes → Option Bytes → Result MetadataError (Option D)
double_text double key none = ok none
double_text double key (some text) = double_of key (double.stod text)

unfoldable pub extract_double_field :
    {D : Type 0} → Double D → Bytes → Bytes → Result MetadataError (Option D)
extract_double_field double json key =
    double_text double key (first_match (λ s. behind_key double_at (after_key key s)) json)

-- `\[([^\]]*)\]` at this position: what the group takes.
abbrev onto_body : ℕ → Option Bytes → Option Bytes
onto_body c none = none
onto_body c (some cs) = some (c ∷ cs)

unfoldable pub shape_body : Bytes → Option Bytes
shape_body [] = none
shape_body (c ∷ cs) = let rest = shape_body cs in if c == b']' then some [] else onto_body c rest

abbrev shape_at : Bytes → Option Bytes
shape_at [] = none
shape_at (c ∷ cs) = if c == b'[' then shape_body cs else none

-- The integers that `-?\d+` finds one behind the other; `current` is the one that is being read, its
-- sign and its digits.
abbrev pub closed_number : Option (Bool × Bytes) → List (Bool × Bytes)
closed_number none = []
closed_number (some (negative, [])) = []
closed_number (some (negative, d ∷ ds)) = (negative, d ∷ ds) ∷ []

abbrev pub with_digit : Option (Bool × Bytes) → ℕ → Option (Bool × Bytes)
with_digit none d = some (false, d ∷ [])
with_digit (some (negative, ds)) d = some (negative, ds ++ (d ∷ []))

unfoldable pub integers : Option (Bool × Bytes) → Bytes → List (Bool × Bytes)
integers current [] = closed_number current
integers current (c ∷ cs) =
    let longer = integers (with_digit current c) cs in
    let minus = integers (some (true, [])) cs in
    let fresh = integers none cs in
    if is_digit c
    then longer
    else if c == b'-'
    then closed_number current ++ minus
    else closed_number current ++ fresh

abbrev fits_int64 : ℤ → Bool
fits_int64 (pos n) = leb n (2 ^ 63 - 1)
fits_int64 (negsuc n) = leb n (2 ^ 63 - 1)

-- `std::stoll` of each of them.
unfoldable pub dimensions : List (Bool × Bytes) → Result MetadataError (List ℤ)
dimensions [] = ok []
dimensions ((negative, text) ∷ texts) =
    let dim = with_sign negative (value_from 0 text) in
    let rest = dimensions texts >>= λ dims. ok (dim ∷ dims) in
    if fits_int64 dim then rest else err invalid_shape

abbrev shape_of : Option Bytes → Result MetadataError (List ℤ)
shape_of none = ok []
shape_of (some body) = dimensions (integers none body)

unfoldable pub extract_shape : Bytes → Result MetadataError (List ℤ)
extract_shape json = shape_of (
    first_match
      (λ s. behind_key shape_at (or_else (after_key (codes "shape") s) (after_key (codes "sh") s)))
      json)
