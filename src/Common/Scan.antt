-- ===== src/Common/Scan.antt =====
-- Reading white space and decimal numbers off a text, as std::isspace, std::stoi and `>>` do in the C
-- locale.
use Prim.Native.Nat.{ℕ, zero, suc, ◌-◌, ◌^◌, ◌≤◌}
use mathlib.Core.Bool.{Bool, true, false, ◌&&◌, ◌||◌}
use mathlib.Core.Option.{Option, none, some}
use mathlib.Core.List.{[], ◌∷◌, ◌++◌}
use mathlib.Core.Path.{◌≡◌, refl, sym, ap, subst, ◌∙◌}
use native.Mathlib.Omega.{arith}
use distributed_layer_infere.Common.Tests.{leb, ◌==◌, if◌then◌else◌}
use distributed_layer_infere.Common.Lists.{length, drop, drop_front, All}
use distributed_layer_infere.Common.Text.{Bytes}
use distributed_layer_infere.Common.Decimal.{
  value_from, value_from-decimal, decimal, decimal-IsDigit, decimal_nonempty, IsDigit,
}
use distributed_layer_infere.Common.Int.{ℤ, pos, negsuc}

-- `std::isspace`, `\s`
abbrev pub is_space : ℕ → Bool
is_space c = (leb 9 c && leb c 13) || c == 32

-- `std::isdigit`, `\d`
abbrev pub is_digit : ℕ → Bool
is_digit c = leb 48 c && leb c 57

-- What is left behind `\s*`.
unfoldable pub skip_spaces : Bytes → Bytes
skip_spaces [] = []
skip_spaces (c ∷ cs) = let rest = skip_spaces cs in if is_space c then rest else c ∷ cs

-- What `\d*` takes.
unfoldable pub leading_digits : Bytes → Bytes
leading_digits [] = []
leading_digits (c ∷ cs) = let rest = leading_digits cs in if is_digit c then c ∷ rest else []

abbrev pub int_max : ℕ
int_max = 2 ^ 31 - 1

abbrev pub negated : ℕ → ℤ
negated zero = pos 0
negated (suc n) = negsuc n

-- The number that digits stand for, with its sign, and what is behind them; without digits none.
abbrev pub with_sign : Bool → ℕ → ℤ
with_sign true n = negated n
with_sign false n = pos n

abbrev pub number_of : Bool → Bytes → Bytes → Option (ℤ × Bytes)
number_of negative [] rest = none
number_of negative (d ∷ ds) rest = some (with_sign negative (value_from 0 (d ∷ ds)), rest)

abbrev pub unsigned_number : Bool → Bytes → Option (ℤ × Bytes)
unsigned_number negative s =
    let digits = leading_digits s in number_of negative digits (drop (length digits) s)

abbrev pub signed_number : Bytes → Option (ℤ × Bytes)
signed_number [] = none
signed_number (c ∷ cs) =
    if c == b'-'
    then unsigned_number true cs
    else if c == b'+'
    then unsigned_number false cs
    else unsigned_number false (c ∷ cs)

unfoldable pub scan_number : Bytes → Option (ℤ × Bytes)
scan_number s = signed_number (skip_spaces s)

abbrev pub fits_int : ℤ → Bool
fits_int (pos n) = leb n int_max
fits_int (negsuc n) = leb n int_max

abbrev pub as_int : Option (ℤ × Bytes) → Option ℤ
as_int none = none
as_int (some (z, rest)) = if fits_int z then some z else none

-- `std::stoi`: what is behind the digits is passed over; none is an exception.
unfoldable pub stoi_prefix : Bytes → Option ℤ
stoi_prefix s = as_int (scan_number s)

-- The digits of a numeral end where a character follows that is no digit.
abbrev pub EndsDigits : Bytes → Type 0
EndsDigits [] = Unit {0}
EndsDigits (c ∷ cs) = is_digit c ≡ false

leading_digits_end : (rest : Bytes) → EndsDigits rest → leading_digits rest ≡ []
unfolding leading_digits
leading_digits_end [] h = refl
leading_digits_end (c ∷ cs) h = rw h refl

pub leading_digits-append :
    (ds rest : Bytes) → All IsDigit ds → EndsDigits rest → leading_digits (ds ++ rest) ≡ ds
unfolding leading_digits
leading_digits-append [] rest h e = leading_digits_end rest e
leading_digits-append (d ∷ ds) rest h e = ground (arith, leading_digits-append ds rest)

pub not_minus : (d : ℕ) → IsDigit d → (d == b'-') ≡ false
not_minus d h = ground arith

-- A number that was written in decimal is read back.
scan_digits :
    (d : ℕ) (ds rest : Bytes)
    → All IsDigit (d ∷ ds)
    → EndsDigits rest
    → scan_number ((d ∷ ds) ++ rest) ≡ some (pos (value_from 0 (d ∷ ds)), rest)
unfolding scan_number skip_spaces
scan_digits d ds rest h e =
    let digits = leading_digits-append (d ∷ ds) rest h e in
    let stays : skip_spaces ((d ∷ ds) ++ rest) ≡ (d ∷ ds) ++ rest = ground arith in
    let unsigned : signed_number ((d ∷ ds) ++ rest) ≡ unsigned_number false ((d ∷ ds) ++ rest) =
      ground arith in
    ap signed_number stays
    ∙ unsigned
    ∙ ap (λ t. number_of false t (drop (length t) ((d ∷ ds) ++ rest))) digits
    ∙ ap (λ t. some (pos (value_from 0 (d ∷ ds)), t)) (drop_front (d ∷ ds) rest)

pub scan_number-decimal :
    (n : ℕ) (rest : Bytes) → EndsDigits rest → scan_number (decimal n ++ rest) ≡ some (pos n, rest)
scan_number-decimal n rest e =
    let (d, ds, shape) = decimal_nonempty n in
    ap (λ t. scan_number (t ++ rest)) shape
    ∙ scan_digits d ds rest (subst (All IsDigit) shape (decimal-IsDigit n)) e
    ∙ ap (λ t. some (pos (value_from 0 t), rest)) (sym shape)
    ∙ ap (λ m. some (pos m, rest)) (value_from-decimal n)

pub stoi_prefix-decimal :
    (n : ℕ) (rest : Bytes)
    → EndsDigits rest
    → n ≤ int_max
    → stoi_prefix (decimal n ++ rest) ≡ some (pos n)
unfolding stoi_prefix
stoi_prefix-decimal n rest e h = ap as_int (scan_number-decimal n rest e) ∙ ground arith
