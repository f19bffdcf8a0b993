-- ===== src/Stage/Executor/Stored.antt =====
-- What a layer's cache keeps: the positions below the one that is computed decide, whatever a former
-- sequence left behind them.
use distributed_layer_infere.Common.{
  ℕ, zero, suc, ◌+◌, ◌*◌, ◌<◌, ◌≤◌, ◌≡◌, refl, sym, ap, ◌∙◌, arith, ltb, Bool-cases, inl, inr, List,
  [], ◌∷◌, ◌++◌, length, take, drop, length-append, length-take, length-drop, take_front,
}
use mathlib.Core.List.{append_assoc}
use native.Mathlib.Nat.{mul-le-mul_right}
use distributed_layer_infere.Stage.Executor.{Floats, LlamaExecutorHyperparams}
use distributed_layer_infere.Stage.Executor.Attention.{kv_dim}
use distributed_layer_infere.Stage.Executor.Layer.{
  LayerKvCache, resized, overwritten, grown, stored,
}

module _ {ℓ} {A : Type ℓ} where
  pub length-resized : (d : A) (n : ℕ) (xs : List A) → length (resized d n xs) ≡ n
  unfolding resized
  length-resized d zero xs = refl
  length-resized d (suc n) [] = ap suc (length-resized d n [])
  length-resized d (suc n) (x ∷ xs) = ap suc (length-resized d n xs)

  take-resized :
      (d : A) (m n : ℕ) (xs : List A) → m ≤ length xs → m ≤ n → take m (resized d n xs) ≡ take m xs
  unfolding resized
  take-resized d zero n xs h k = refl
  take-resized d (suc m) zero xs h k = elim k [ ]
  take-resized d (suc m) (suc n) [] h k = elim h [ ]
  take-resized d (suc m) (suc n) (x ∷ xs) h k =
      ap (λ t. x ∷ t) (take-resized d m n xs (omega arith) (omega arith))

  pub length-overwritten :
      (offset : ℕ) (row xs : List A)
      → offset + length row ≤ length xs
      → length (overwritten offset row xs) ≡ length xs
  unfolding overwritten
  length-overwritten offset row xs h = omega (
    arith,
    length-append (take offset xs) (row ++ drop (offset + length row) xs),
    length-append row (drop (offset + length row) xs),
    length-take offset xs,
    length-drop (offset + length row) xs,
  )

  take-overwritten :
      (offset : ℕ) (row xs : List A)
      → offset ≤ length xs
      → take (offset + length row) (overwritten offset row xs) ≡ take offset xs ++ row
  unfolding overwritten
  take-overwritten offset row xs h =
      let front = take offset xs ++ row in
      let size : offset + length row ≡ length front =
        omega (arith, length-append (take offset xs) row, length-take offset xs) in
      ap (λ n. take n (take offset xs ++ (row ++ drop (offset + length row) xs))) size
      ∙ ap (take (length front))
          (sym (append_assoc (take offset xs) row (drop (offset + length row) xs)))
      ∙ take_front front (drop (offset + length row) xs)

  -- Lists that agree on a front agree on a shorter one.
  take-take : (m n : ℕ) (xs : List A) → m ≤ n → take m (take n xs) ≡ take m xs
  take-take zero n xs h = refl
  take-take (suc m) zero xs h = elim h [ ]
  take-take (suc m) (suc n) [] h = refl
  take-take (suc m) (suc n) (x ∷ xs) h = ap (λ t. x ∷ t) (take-take m n xs (omega arith))

  shorter_agree : (m n : ℕ) (xs ys : List A) → m ≤ n → take n xs ≡ take n ys → take m xs ≡ take m ys
  shorter_agree m n xs ys h e = sym (take-take m n xs h) ∙ ap (take m) e ∙ take-take m n ys h

module _ {F D : Type 0} (floats : Floats F D) (hp : LlamaExecutorHyperparams F) where
  -- A cache holds as many numbers as its length says.
  pub record IsSized (c : LayerKvCache F) : Type 0 where
    pub k_size : length c.k ≡ c.seq_len * kv_dim floats hp
    pub v_size : length c.v ≡ c.seq_len * kv_dim floats hp

  -- Two caches hold the same keys and values at the first `n` positions.
  pub record Agrees (n : ℕ) (c c' : LayerKvCache F) : Type 0 where
    pub sized : IsSized c
    pub sized' : IsSized c'
    pub within : n ≤ c.seq_len
    pub within' : n ≤ c'.seq_len
    pub same_k : take (n * kv_dim floats hp) c.k ≡ take (n * kv_dim floats hp) c'.k
    pub same_v : take (n * kv_dim floats hp) c.v ≡ take (n * kv_dim floats hp) c'.v

  pub Agrees-shorter : (m n : ℕ) (c c' : LayerKvCache F) → m ≤ n → Agrees n c c' → Agrees m c c'
  Agrees-shorter m n c c' h a =
      let below = mul-le-mul_right (kv_dim floats hp) h in
      record {
        sized = a.sized;
        sized' = a.sized';
        within = omega (arith, a.within);
        within' = omega (arith, a.within');
        same_k = shorter_agree _ _ c.k c'.k below a.same_k;
        same_v = shorter_agree _ _ c.v c'.v below a.same_v;
      }

  -- A cache that has room for a position.
  record HasGrown (p : ℕ) (c g : LayerKvCache F) : Type 0 where
    sized : IsSized g
    room : p < g.seq_len
    front_k : take (p * kv_dim floats hp) g.k ≡ take (p * kv_dim floats hp) c.k
    front_v : take (p * kv_dim floats hp) g.v ≡ take (p * kv_dim floats hp) c.v

  grown-HasGrown :
      (p : ℕ) (c : LayerKvCache F)
      → IsSized c
      → p ≤ c.seq_len
      → HasGrown p c (grown floats hp (suc p) c)
  grown-HasGrown p c s h =
      let w = kv_dim floats hp in
      let in_k : p * w ≤ length c.k = omega (arith, s.k_size, mul-le-mul_right w h) in
      let in_v : p * w ≤ length c.v = omega (arith, s.v_size, mul-le-mul_right w h) in
      let more : p * w ≤ suc p * w = mul-le-mul_right w (omega arith) in
      elim (Bool-cases (ltb c.seq_len (suc p))) [
        | inl short ↦ rw short (record {
          sized = record {
            k_size = length-resized floats.nought (suc p * w) c.k;
            v_size = length-resized floats.nought (suc p * w) c.v;
          };
          room = omega arith;
          front_k = take-resized floats.nought (p * w) (suc p * w) c.k in_k more;
          front_v = take-resized floats.nought (p * w) (suc p * w) c.v in_v more;
        })
        | inr enough ↦
            rw enough
              (record { sized = s; room = ground (arith, enough); front_k = refl; front_v = refl })
      ]

  next_row : (p w : ℕ) → suc p * w ≡ p * w + w
  next_row p w = grind arith

  -- Storing a row of the right size at a position extends an agreement.
  stored_front :
      (p : ℕ) (row g c : List F)
      → length row ≡ kv_dim floats hp
      → p * kv_dim floats hp ≤ length g
      → take (p * kv_dim floats hp) g ≡ take (p * kv_dim floats hp) c
      → take (suc p * kv_dim floats hp) (overwritten (p * kv_dim floats hp) row g)
        ≡ take (p * kv_dim floats hp) c ++ row
  stored_front p row g c size h e =
      let w = kv_dim floats hp in
      let n : suc p * w ≡ p * w + length row = omega (arith, next_row p w, size) in
      ap (λ m. take m (overwritten (p * w) row g)) n
      ∙ take-overwritten (p * w) row g h
      ∙ ap (λ t. t ++ row) e

  stored_size :
      (p s : ℕ) (row g : List F)
      → length row ≡ kv_dim floats hp
      → length g ≡ s * kv_dim floats hp
      → p < s
      → length (overwritten (p * kv_dim floats hp) row g) ≡ s * kv_dim floats hp
  stored_size p s row g size whole h =
      let w = kv_dim floats hp in
      length-overwritten (p * w) row g
        (omega (arith, size, whole, next_row p w, mul-le-mul_right {m = suc p} {n = s} w h))
      ∙ whole

  module _ (p : ℕ) (k v : List F) (k_size : length k ≡ kv_dim floats hp)
      (v_size : length v ≡ kv_dim floats hp) where
    pub stored-IsSized :
        (c : LayerKvCache F) → IsSized c → p ≤ c.seq_len → IsSized (stored floats hp k v p c)
    unfolding stored
    stored-IsSized c s h =
        let g = grown-HasGrown p c s h in
        let larger = grown floats hp (suc p) c in
        record {
          k_size = stored_size p larger.seq_len k larger.k k_size g.sized.k_size g.room;
          v_size = stored_size p larger.seq_len v larger.v v_size g.sized.v_size g.room;
        }

    stored_k :
        (c : LayerKvCache F)
        → IsSized c
        → p ≤ c.seq_len
        → (take (suc p * kv_dim floats hp) (stored floats hp k v p c).k
            ≡ take (p * kv_dim floats hp) c.k ++ k)
          × (take (suc p * kv_dim floats hp) (stored floats hp k v p c).v
              ≡ take (p * kv_dim floats hp) c.v ++ v)
          × (suc p ≤ (stored floats hp k v p c).seq_len)
    unfolding stored
    stored_k c s h =
        let g = grown-HasGrown p c s h in
        let larger = grown floats hp (suc p) c in
        let w = kv_dim floats hp in
        let below = mul-le-mul_right {m = p} {n = larger.seq_len} w (omega (arith, g.room)) in
        (
          stored_front p k larger.k c.k k_size (omega (arith, g.sized.k_size, below)) g.front_k,
          stored_front p v larger.v c.v v_size (omega (arith, g.sized.v_size, below)) g.front_v,
          g.room,
        )

    pub stored-Agrees :
        (c c' : LayerKvCache F)
        → Agrees p c c'
        → Agrees (suc p) (stored floats hp k v p c) (stored floats hp k v p c')
    stored-Agrees c c' a =
        let (ek, ev, room) = stored_k c a.sized a.within in
        let (ek', ev', room') = stored_k c' a.sized' a.within' in
        record {
          sized = stored-IsSized c a.sized a.within;
          sized' = stored-IsSized c' a.sized' a.within';
          within = room;
          within' = room';
          same_k = ek ∙ ap (λ t. t ++ k) a.same_k ∙ sym ek';
          same_v = ev ∙ ap (λ t. t ++ v) a.same_v ∙ sym ev';
        }
