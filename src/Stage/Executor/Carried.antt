-- ===== src/Stage/Executor/Carried.antt =====
-- The loops that write and read the elements of a tensor, on whole rows of bytes:
-- float_hidden_to_tensor and tensor_to_hidden_f32 of
-- src/native/dli_stage_cpp/src/runtimes/llama_cpu_executor.cpp.
use distributed_layer_infere.Common.{
  ℕ, suc, ◌+◌, ◌*◌, ◌≤◌, ◌≡◌, refl, sym, ap, ◌∙◌, arith, List, [], ◌∷◌, ◌++◌, map, length, get_or,
  drop, take_front, length-append, length-drop, All, Result, ok, ◌>>=◌, Bytes,
}
use mathlib.Core.List.{append_assoc}
use distributed_layer_infere.Stage.Executor.Layer.{overwritten}
use distributed_layer_infere.Stage.Executor.Tensors.{ExecutorError, read_each, write_each}

module _ {ℓ} {A : Type ℓ} where
  pub get_or-front :
      (xs ys : List A) (i : ℕ) (d : A) → get_or (xs ++ ys) (length xs + i) d ≡ get_or ys i d
  get_or-front [] ys i d = let e : 0 + i ≡ i = omega arith in ap (λ (n : ℕ). get_or ys n d) e
  get_or-front (x ∷ xs) ys i d =
      let e : suc (length xs) + i ≡ suc (length xs + i) = omega arith in
      ap (λ (n : ℕ). get_or (x ∷ (xs ++ ys)) n d) e ∙ get_or-front xs ys i d

  drop-front : (xs ys : List A) (n : ℕ) → drop (length xs + n) (xs ++ ys) ≡ drop n ys
  drop-front [] ys n = let e : 0 + n ≡ n = omega arith in ap (λ (m : ℕ). drop m ys) e
  drop-front (x ∷ xs) ys n =
      let e : suc (length xs) + n ≡ suc (length xs + n) = omega arith in
      ap (λ (m : ℕ). drop m (x ∷ (xs ++ ys))) e ∙ drop-front xs ys n

  overwritten_behind :
      (front row tail : List A)
      → overwritten (length front) row (front ++ tail) ≡ front ++ (row ++ drop (length row) tail)
  unfolding overwritten
  overwritten_behind front row tail =
      ap (λ t. t ++ (row ++ drop (length front + length row) (front ++ tail)))
        (take_front front tail)
      ∙ ap (λ t. front ++ (row ++ t)) (drop-front front tail (length row))

  no_elements : (xs : List A) → length xs ≡ 0 → xs ≡ []
  no_elements [] h = refl
  no_elements (x ∷ xs) h = absurd (omega (arith, h))

-- The bytes of the elements, one behind the other.
abbrev pub rows : (ℕ → Bytes) → List ℕ → Bytes
rows row [] = []
rows row (v ∷ vs) = row v ++ rows row vs

suc_rows : (n w : ℕ) → suc n * w ≡ n * w + w
suc_rows n w = grind arith

module _ (width : ℕ) (row : ℕ → Bytes) (row_size : (v : ℕ) → length (row v) ≡ width) where
  pub length-rows : (vs : List ℕ) → length (rows row vs) ≡ length vs * width
  length-rows [] = omega arith
  length-rows (v ∷ vs) = omega (
    arith,
    length-append (row v) (rows row vs),
    row_size v,
    length-rows vs,
    suc_rows (length vs) width,
  )

  longer_front :
      (front : Bytes) (v i : ℕ) → length front ≡ i * width → length (front ++ row v) ≡ suc i * width
  longer_front front v i h =
      omega (arith, length-append front (row v), row_size v, h, suc_rows i width)

  module _ (write : Bytes → ℕ → ℕ → Result ExecutorError Bytes)
      (writes : (bytes : Bytes) (offset v : ℕ)
        → offset + width ≤ length bytes
        → write bytes offset v ≡ ok (overwritten offset (row v) bytes)) where
    write_behind :
        (v i n : ℕ) (front tail : Bytes)
        → length front ≡ i * width
        → length tail ≡ suc n * width
        → write (front ++ tail) (i * width) v ≡ ok ((front ++ row v) ++ drop width tail)
    write_behind v i n front tail h k =
        let room : i * width + width ≤ length (front ++ tail) =
          omega (arith, length-append front tail, h, k, suc_rows n width) in
        writes (front ++ tail) (i * width) v room
        ∙ ap (λ m. ok (overwritten m (row v) (front ++ tail))) (sym h)
        ∙ ap ok (overwritten_behind front (row v) tail)
        ∙ ap (λ m. ok (front ++ (row v ++ drop m tail))) (row_size v)
        ∙ ap ok (sym (append_assoc front (row v) (drop width tail)))

    pub write_each-rows :
        (vs : List ℕ) (i : ℕ) (front tail : Bytes)
        → length front ≡ i * width
        → length tail ≡ length vs * width
        → write_each write width vs i (front ++ tail) ≡ ok (front ++ rows row vs)
    unfolding write_each
    write_each-rows [] i front tail h k =
        ap (λ t. ok (front ++ t)) (no_elements tail (omega (arith, k)))
    write_each-rows (v ∷ vs) i front tail h k =
        ap (λ r. r >>= λ written. write_each write width vs (suc i) written)
          (write_behind v i (length vs) front tail h k)
        ∙ write_each-rows vs (suc i) (front ++ row v) (drop width tail) (longer_front front v i h)
            (omega (arith, length-drop width tail, k, suc_rows (length vs) width))
        ∙ ap ok (append_assoc front (row v) (rows row vs))

  module _ (P : ℕ → Type 0) (read : Bytes → ℕ → Result ExecutorError ℕ) (carried : ℕ → ℕ)
      (reads : (front rest : Bytes) (v : ℕ)
        → P v
        → read (front ++ (row v ++ rest)) (length front) ≡ ok (carried v)) where
    pub read_each-rows :
        (vs : List ℕ) (i : ℕ) (front : Bytes)
        → All P vs
        → length front ≡ i * width
        → read_each read width (front ++ rows row vs) (length vs) i ≡ ok (map carried vs)
    unfolding read_each
    read_each-rows [] i front p h = refl
    read_each-rows (v ∷ vs) i front p h =
        let whole = front ++ (row v ++ rows row vs) in
        let next =
          λ (w : ℕ). read_each read width whole (length vs) (suc i) >>= λ values. ok (w ∷ values) in
        let first : read whole (i * width) ≡ ok (carried v) =
          ap (read whole) (sym h) ∙ reads front (rows row vs) v p.0 in
        let others =
          ap (λ bytes. read_each read width bytes (length vs) (suc i))
            (sym (append_assoc front (row v) (rows row vs)))
          ∙ read_each-rows vs (suc i) (front ++ row v) p.1 (longer_front front v i h) in
        ap (λ r. r >>= next) first ∙ ap (λ r. r >>= λ values. ok (carried v ∷ values)) others
