-- ===== src/Stage/Executor/Half.antt =====
-- float_to_f16_bits and f16_bits_to_float of
-- src/native/dli_stage_cpp/src/runtimes/llama_cpu_executor.cpp. A float is the number that its 32 bits
-- stand for, as std::memcpy gives it.
use distributed_layer_infere.Common.{
  ℕ, zero, suc, ◌+◌, ◌-◌, ◌*◌, ◌/◌, ◌%◌, ◌^◌, ◌<◌, ◌≡◌, refl, arith, Bool, true, false, not,
  if◌then◌else◌, if_true, sym, ap, ◌∙◌, ltb, ◌==◌, bit_or, ℤ, pos, negsuc, sub_ℕ, ltb_ℤ,
}

-- `static_cast<unsigned>(1 - exponent)`, for an exponent that is not positive.
abbrev shift_of : ℤ → ℕ
shift_of (pos n) = 1 - n
shift_of (negsuc n) = n + 2

-- The mantissa without its last 13 bits, rounded.
abbrev rounded : ℕ → ℕ
rounded mantissa = (mantissa + 2 ^ 12) % 2 ^ 32 / 2 ^ 13

abbrev biased : ℤ → ℕ
biased (pos n) = n
biased (negsuc n) = 0

abbrev f16_of_parts : ℕ → ℤ → ℕ → ℕ
f16_of_parts sign exponent mantissa =
    if not (ltb_ℤ (pos 0) exponent)
    then (if ltb_ℤ exponent (negsuc 9)
        then sign
        else bit_or sign (rounded (bit_or mantissa (2 ^ 23) / 2 ^ shift_of exponent)))
    else if not (ltb_ℤ exponent (pos 31))
    then bit_or sign (31 * 2 ^ 10)
    else bit_or (bit_or sign (biased exponent * 2 ^ 10)) (rounded mantissa)

unfoldable pub float_to_f16_bits : ℕ → ℕ
float_to_f16_bits bits =
    f16_of_parts (bits / 2 ^ 31 % 2 * 2 ^ 15) (sub_ℕ (bits / 2 ^ 23 % 2 ^ 8) 112) (bits % 2 ^ 23)
    % 2 ^ 16

-- `while ((mantissa & 0x0400u) == 0)`: a mantissa that is not zero needs ten rounds at most. The
-- exponent is a std::uint32_t and wraps.
unfoldable pub normalized : ℕ → ℕ → ℕ → ℕ × ℕ
normalized zero mantissa exponent = (mantissa, exponent)
normalized (suc fuel) mantissa exponent =
    let shifted = normalized fuel (mantissa * 2 % 2 ^ 32) ((exponent + (2 ^ 32 - 1)) % 2 ^ 32) in
    if mantissa / 2 ^ 10 % 2 == 0 then shifted else (mantissa, exponent)

abbrev float_of_parts : ℕ → ℕ → ℕ → ℕ
float_of_parts sign exponent mantissa =
    bit_or (bit_or sign ((exponent + 112) % 2 ^ 32 * 2 ^ 23 % 2 ^ 32)) (mantissa * 2 ^ 13)

abbrev normal_float : ℕ → ℕ × ℕ → ℕ
normal_float sign (mantissa, exponent) = float_of_parts sign exponent (mantissa % 2 ^ 10)

unfoldable pub f16_bits_to_float : ℕ → ℕ
f16_bits_to_float value =
    let sign = value / 2 ^ 15 % 2 * 2 ^ 31 in
    let exponent = value / 2 ^ 10 % 2 ^ 5 in
    let mantissa = value % 2 ^ 10 in
    let subnormal = normal_float sign (normalized 10 mantissa 1) in
    if exponent == 0
    then (if mantissa == 0 then sign else subnormal)
    else if exponent == 31
    then bit_or (bit_or sign (255 * 2 ^ 23)) (mantissa * 2 ^ 13)
    else float_of_parts sign exponent mantissa

-- A test of all numbers under a bound, from the bound down.
tested_under : (ℕ → Bool) → ℕ → Bool
tested_under test zero = true
tested_under test (suc bound) =
    let others = tested_under test bound in if test bound then others else false

-- A number under the bound is the last one or under the next bound.
tested-holds :
    (test : ℕ → Bool) (bound k : ℕ) → k < bound → tested_under test bound ≡ true → test k ≡ true
unfolding tested_under
tested-holds test zero k below h = elim below [ ]
tested-holds test (suc bound) k below h = ground (arith, tested-holds test bound k)

-- A float16 that is no NaN.
abbrev pub is_number : ℕ → Bool
is_number h = ltb (h % 2 ^ 15) (31 * 2 ^ 10 + 1)

returns : ℕ → ℕ → Bool
returns e m =
    let h = e * 2 ^ 10 + m in
    if is_number h then float_to_f16_bits (f16_bits_to_float h) == h else true

return_table : tested_under (λ e. tested_under (λ m. returns e m) 1024) 64 ≡ true
unfolding tested_under returns float_to_f16_bits f16_bits_to_float normalized
return_table = refl

in_table : (h : ℕ) → h < 2 ^ 16 → returns (h / 2 ^ 10) (h % 2 ^ 10) ≡ true
in_table h lt =
    tested-holds (λ m. returns (h / 2 ^ 10) m) 1024 (h % 2 ^ 10) (omega arith)
      (tested-holds (λ e. tested_under (λ m. returns e m) 1024) 64 (h / 2 ^ 10) (omega arith)
        return_table)

-- A float16 that is no NaN is a float32 without loss: it is the same one again.
pub float_to_f16_bits-f16_bits_to_float :
    (h : ℕ) → h < 2 ^ 16 → is_number h ≡ true → float_to_f16_bits (f16_bits_to_float h) ≡ h
unfolding returns
float_to_f16_bits-f16_bits_to_float h lt number =
    let whole : h / 2 ^ 10 * 2 ^ 10 + h % 2 ^ 10 ≡ h = omega arith in
    let split =
      λ (k : ℕ). if is_number k then float_to_f16_bits (f16_bits_to_float k) == k else true in
    let test : split h ≡ true = sym (ap split whole) ∙ in_table h lt in
    let same : (float_to_f16_bits (f16_bits_to_float h) == h) ≡ true =
      sym (if_true _ _ number) ∙ test in
    ground (arith, same)
