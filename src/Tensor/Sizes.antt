-- ===== src/Tensor/Sizes.antt =====
-- The element count of a shape, and the bytes that a tensor of that shape takes.
use distributed_layer_infere.Common.{
  ℕ, zero, suc, ◌*◌, ◌<◌, ◌≤◌, ◌≡◌, [], ◌∷◌, List, arith, ok, All, ℤ, pos, negsuc, pos_part, ap,
  ok_parts,
}
use distributed_layer_infere.Tensor.{int64_max, product_rounds, product_shape}

abbrev pub IsPositive : ℤ → Type 0
IsPositive d = 0 < pos_part d

-- The product of the dimensions, without bound.
abbrev pub elements : List ℤ → ℕ
elements [] = 1
elements (d ∷ dims) = pos_part d * elements dims

le-mul_pos : (a b : ℕ) → 0 < b → a ≤ a * b
le-mul_pos a zero h = absurd (omega arith)
le-mul_pos a (suc b) h = omega arith

elements_pos : (dims : List ℤ) → All IsPositive dims → 0 < elements dims
elements_pos [] h = omega arith
elements_pos (d ∷ dims) h = let ih = elements_pos dims h.1 in grind arith

product_rounds-elements :
    (dims : List ℤ) (p : ℕ)
    → 0 < p
    → All IsPositive dims
    → p * elements dims ≤ int64_max
    → product_rounds dims p ≡ ok (p * elements dims)
unfolding product_rounds
product_rounds-elements [] p hp h fits = ap ok (omega arith)
product_rounds-elements (negsuc d ∷ dims) p hp h fits = absurd (omega arith)
product_rounds-elements (pos d ∷ dims) p hp h fits =
    let rest = elements_pos dims h.1 in
    let inner : 0 < p * d = grind arith in
    ground (
      arith,
      h.0,
      inner,
      le-mul_pos (p * d) (elements dims) rest,
      product_rounds-elements dims (p * d),
    )

-- What the loop has multiplied when it returns.
elements-product_rounds :
    (dims : List ℤ) (p q : ℕ)
    → product_rounds dims p ≡ ok q
    → p ≤ int64_max
    → All IsPositive dims × (q ≡ p * elements dims) × (q ≤ int64_max)
unfolding product_rounds
elements-product_rounds [] p q h fits = (tt, ground arith, ground arith)
elements-product_rounds (negsuc d ∷ dims) p q h fits = cc
elements-product_rounds (pos d ∷ dims) p q h fits =
    ground (arith, elements-product_rounds dims (p * d) q)

-- `product_shape` returns exactly the products of positive dimensions that an int64 can hold,
-- and 0 for the empty shape.
pub product_shape-elements :
    (d : ℤ) (dims : List ℤ)
    → All IsPositive (d ∷ dims)
    → elements (d ∷ dims) ≤ int64_max
    → product_shape (d ∷ dims) ≡ ok (pos (elements (d ∷ dims)))
unfolding product_shape
product_shape-elements d dims h fits = ground (arith, product_rounds-elements (d ∷ dims) 1)

pub elements-product_shape :
    (d : ℤ) (dims : List ℤ) (z : ℤ)
    → product_shape (d ∷ dims) ≡ ok z
    → All IsPositive (d ∷ dims)
      × (z ≡ pos (elements (d ∷ dims)))
      × (elements (d ∷ dims) ≤ int64_max)
unfolding product_shape
elements-product_shape d dims z h =
    let (q, looped, e) = ok_parts (product_rounds (d ∷ dims) 1) (λ q. ok (pos q)) h in
    let (positive, eq, fits) = elements-product_rounds (d ∷ dims) 1 q looped (omega arith) in
    (positive, ground (arith, e, eq), omega (arith, eq, fits))
