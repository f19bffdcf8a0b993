-- ===== src/Common/Decimal.antt =====
-- `std::to_string` of an integer: its decimal digits.
use Prim.Native.Nat.{ℕ, zero, suc, ◌+◌, ◌-◌, ◌*◌, ◌/◌, ◌%◌, ◌≤◌, ◌<◌}
use mathlib.Core.Path.{◌≡◌, refl, ap, sym, ◌∙◌}
use mathlib.Core.List.{[], ◌∷◌, ◌++◌}
use native.Mathlib.Omega.{arith}
use distributed_layer_infere.Common.Tests.{ltb, if◌then◌else◌, Bool-cases}
use mathlib.Core.Logic.{inl, inr}
use distributed_layer_infere.Common.Lists.{All, All-snoc}
use distributed_layer_infere.Common.Text.{Bytes}
use distributed_layer_infere.Common.Int.{ℤ, pos, negsuc}

-- With fuel for the number of digits; a number has fewer digits than itself, but for 0.
unfoldable pub digits : ℕ → ℕ → Bytes
digits zero n = (48 + n % 10) ∷ []
digits (suc fuel) n =
    let front = digits fuel (n / 10) in
    if ltb n 10 then (48 + n % 10) ∷ [] else front ++ ((48 + n % 10) ∷ [])

unfoldable pub decimal : ℕ → Bytes
unfolding digits
decimal n = digits n n

unfoldable pub to_string : ℤ → Bytes
to_string (pos n) = decimal n
to_string (negsuc n) = b'-' ∷ decimal (suc n)

-- The number that digits stand for, behind those that were read.
abbrev pub value_from : ℕ → Bytes → ℕ
value_from acc [] = acc
value_from acc (d ∷ ds) = value_from (acc * 10 + (d - 48)) ds

value_from-append :
    (acc : ℕ) (xs : Bytes) (d : ℕ)
    → value_from acc (xs ++ (d ∷ [])) ≡ value_from acc xs * 10 + (d - 48)
value_from-append acc [] d = refl
value_from-append acc (x ∷ xs) d = value_from-append (acc * 10 + (x - 48)) xs d

value_from-digits : (fuel n : ℕ) → n ≤ fuel → value_from 0 (digits fuel n) ≡ n
unfolding digits
value_from-digits zero n h = omega arith
value_from-digits (suc fuel) n h = ground (
  arith,
  value_from-digits fuel (n / 10),
  value_from-append 0 (digits fuel (n / 10)) (48 + n % 10),
)

pub value_from-decimal : (n : ℕ) → value_from 0 (decimal n) ≡ n
unfolding decimal
value_from-decimal n = value_from-digits n n (omega arith)

abbrev pub IsDigit : ℕ → Type 0
IsDigit c = (48 ≤ c) × (c < 58)

digits-IsDigit : (fuel n : ℕ) → All IsDigit (digits fuel n)
unfolding digits
digits-IsDigit zero n = omega arith
digits-IsDigit (suc fuel) n =
    ground
      (arith, digits-IsDigit fuel (n / 10), All-snoc IsDigit (digits fuel (n / 10)) (48 + n % 10))

pub decimal-IsDigit : (n : ℕ) → All IsDigit (decimal n)
unfolding decimal
decimal-IsDigit n = digits-IsDigit n n

digits_nonempty : (fuel n : ℕ) → (d : ℕ) × (ds : Bytes) × (digits fuel n ≡ d ∷ ds)
unfolding digits
digits_nonempty zero n = (48 + n % 10, [], refl)
digits_nonempty (suc fuel) n = elim (Bool-cases (ltb n 10)) [
  | inl y ↦ (48 + n % 10, [], rw y refl)
  | inr y ↦
      let (d, ds, e) = digits_nonempty fuel (n / 10) in
      (d, ds ++ ((48 + n % 10) ∷ []), rw (y, e) refl)
]

pub decimal_nonempty : (n : ℕ) → (d : ℕ) × (ds : Bytes) × (decimal n ≡ d ∷ ds)
unfolding decimal
decimal_nonempty n = digits_nonempty n n

pub decimal_injective : (m n : ℕ) → decimal m ≡ decimal n → m ≡ n
decimal_injective m n e = sym (value_from-decimal m) ∙ ap (value_from 0) e ∙ value_from-decimal n
