-- ===== src/Http/Written/Lengths.antt =====
-- A length that was written in decimal is the length that is read.
use distributed_layer_infere.Common.{
  ℕ, ◌≤◌, ◌<◌, ◌^◌, ◌≡◌, refl, sym, ap, ◌∙◌, arith, true, some, [], ◌∷◌, ok, Bytes, All, IsDigit,
  decimal, decimal-IsDigit, decimal_nonempty, value_from, value_from-decimal,
}
use mathlib.Core.Path.{subst}
use distributed_layer_infere.Http.Text.Cuts.{HasNoSpace, All-map}
use distributed_layer_infere.Http.Message.{whole_stoull, all_digits, bounded, max_body_bytes}

all_digits-IsDigit : (ds : Bytes) → All IsDigit ds → all_digits ds ≡ true
all_digits-IsDigit [] h = refl
all_digits-IsDigit (d ∷ ds) h = ground (arith, all_digits-IsDigit ds h.1)

stoull_digits :
    (d : ℕ) (ds : Bytes)
    → All IsDigit (d ∷ ds)
    → value_from 0 (d ∷ ds) < 2 ^ 64
    → whole_stoull (d ∷ ds) ≡ some (value_from 0 (d ∷ ds))
unfolding whole_stoull
stoull_digits d ds h small = ground (arith, all_digits-IsDigit (d ∷ ds) h)

pub whole_stoull-decimal : (n : ℕ) → n < 2 ^ 64 → whole_stoull (decimal n) ≡ some n
whole_stoull-decimal n small =
    let (d, ds, shape) = decimal_nonempty n in
    let value : value_from 0 (d ∷ ds) ≡ n = sym (ap (value_from 0) shape) ∙ value_from-decimal n in
    ap whole_stoull shape
    ∙ stoull_digits d ds (subst (All IsDigit) shape (decimal-IsDigit n)) (omega (arith, value))
    ∙ ap some value

pub bounded-decimal : (n : ℕ) → n ≤ max_body_bytes → bounded (whole_stoull (decimal n)) ≡ ok n
bounded-decimal n small = ap bounded (whole_stoull-decimal n (omega arith)) ∙ ground arith

pub decimal-HasNoSpace : (n : ℕ) → HasNoSpace (decimal n)
decimal-HasNoSpace n = All-map IsDigit _ (decimal n) (λ c h. ground arith) (decimal-IsDigit n)
