-- ===== src/Stage/Executor/Reads.antt =====
-- What the attention reads of the cache: compute_attention_scalar of
-- src/native/dli_stage_cpp/src/runtimes/llama_cpu_executor.cpp.
use distributed_layer_infere.Common.{
  ℕ, zero, suc, ◌+◌, ◌*◌, ◌/◌, ◌%◌, ◌<◌, ◌≤◌, ◌≡◌, refl, sym, ap, ◌∙◌, arith, List, [], ◌∷◌, ◌++◌,
  map, get_or, take, ok, ◌>>=◌,
}
use mathlib.Core.List.{foldl}
use native.Mathlib.Nat.{div-lt_iff_lt-mul, div-add-mod}
use distributed_layer_infere.Stage.Executor.{
  Floats, LlamaExecutorHyperparams, counted, check_hyperparams,
}
use distributed_layer_infere.Stage.Executor.Attention.{
  kv_dim, kv_head, at_position, scores, weights, head_context, if_positive, one_head, heads,
  compute_attention_scalar,
}

-- Loops whose bodies agree within their bounds.
map-counted {ℓ} :
    {A : Type ℓ} (f g : ℕ → A) (n start : ℕ)
    → ((i : ℕ) → i < start + n → f i ≡ g i)
    → map f (counted n start) ≡ map g (counted n start)
map-counted f g zero start same = refl
map-counted f g (suc n) start same =
    ap (λ a. a ∷ map f (counted n (suc start))) (same start (omega arith))
    ∙ ap (λ t. g start ∷ t) (map-counted f g n (suc start) (λ i h. same i (omega arith)))

foldl-counted {ℓ} :
    {S : Type ℓ} (f g : S → ℕ → S) (s : S) (n start : ℕ)
    → ((t : S) (i : ℕ) → i < start + n → f t i ≡ g t i)
    → foldl f s (counted n start) ≡ foldl g s (counted n start)
foldl-counted f g s zero start same = refl
foldl-counted f g s (suc n) start same =
    ap (λ t. foldl f t (counted n (suc start))) (same s start (omega arith))
    ∙ foldl-counted f g (g s start) n (suc start) (λ t i h. same t i (omega arith))

get_or-take {ℓ} :
    {A : Type ℓ} (n i : ℕ) (xs : List A) (d : A) → i < n → get_or (take n xs) i d ≡ get_or xs i d
get_or-take zero i xs d h = elim h [ ]
get_or-take (suc n) i [] d h = refl
get_or-take (suc n) zero (x ∷ xs) d h = refl
get_or-take (suc n) (suc i) (x ∷ xs) d h = get_or-take n i xs d (omega arith)

flat_index : (r c w h : ℕ) → r < h → c < w → r * w + c < h * w
flat_index r c w h p q = grind arith

-- What the constructor has checked.
pub record IsUsable {F : Type 0} (hp : LlamaExecutorHyperparams F) : Type 0 where
  pub some_heads : 0 < hp.n_head
  pub some_kv_heads : 0 < hp.n_head_kv
  pub divisible : hp.n_head % hp.n_head_kv ≡ 0

pub check_hyperparams-IsUsable :
    {F : Type 0} (hp : LlamaExecutorHyperparams F) → check_hyperparams hp ≡ ok tt → IsUsable hp
unfolding check_hyperparams
check_hyperparams-IsUsable hp h = ground arith

nonzero : (n m q : ℕ) → 0 < n → n ≡ m * q → 0 < q
nonzero n m zero h e = absurd (omega (arith, e))
nonzero n m (suc q) h e = omega arith

groups_lem : (n m : ℕ) → 0 < n → 0 < m → n % m ≡ 0 → (n ≡ m * (n / m)) × (0 < n / m)
groups_lem n m h k e =
    let whole : n ≡ m * (n / m) = omega (arith, div-add-mod n m) in
    (whole, nonzero n m (n / m) h whole)

kv_head-lt :
    {F : Type 0} (hp : LlamaExecutorHyperparams F) (qh : ℕ)
    → IsUsable hp
    → qh < hp.n_head
    → qh / (hp.n_head / hp.n_head_kv) < hp.n_head_kv
kv_head-lt hp qh u h =
    let (whole, positive) =
      groups_lem hp.n_head hp.n_head_kv u.some_heads u.some_kv_heads u.divisible in
    (div-lt_iff_lt-mul {k = hp.n_head / hp.n_head_kv} {x = qh} {y = hp.n_head_kv} positive).1
      (omega (arith, whole))

module _ {F D : Type 0} (floats : Floats F D) (hp : LlamaExecutorHyperparams F)
    (usable : IsUsable hp) where
  -- Two caches that agree below a position are read alike below it.
  at_position_agree :
      (c c' : List F) (n qh pos d : ℕ)
      → take (n * kv_dim floats hp) c ≡ take (n * kv_dim floats hp) c'
      → qh < hp.n_head
      → pos < n
      → d < hp.head_dim
      → at_position floats hp c qh pos d ≡ at_position floats hp c' qh pos d
  at_position_agree c c' n qh pos d same hq hpos hd =
      let inner =
        flat_index (kv_head floats hp qh) d hp.head_dim hp.n_head_kv (kv_head-lt hp qh usable hq)
          hd in
      let i = pos * kv_dim floats hp + (kv_head floats hp qh * hp.head_dim + d) in
      let below : i < n * kv_dim floats hp = flat_index pos _ (kv_dim floats hp) n hpos inner in
      sym (get_or-take (n * kv_dim floats hp) i c floats.nought below)
      ∙ ap (λ t. get_or t i floats.nought) same
      ∙ get_or-take (n * kv_dim floats hp) i c' floats.nought below

  module _ (q k k' v v' : List F) (n : ℕ)
      (same_k : take (n * kv_dim floats hp) k ≡ take (n * kv_dim floats hp) k')
      (same_v : take (n * kv_dim floats hp) v ≡ take (n * kv_dim floats hp) v') where
    scores_agree :
        (qh : ℕ) → qh < hp.n_head → scores floats hp q k n qh ≡ scores floats hp q k' n qh
    unfolding scores
    scores_agree qh hq =
        let scale = floats.over floats.one (floats.sqrt (floats.of_int hp.head_dim)) in
        let read = λ (d : ℕ). get_or q (qh * hp.head_dim + d) floats.nought in
        map-counted _ _ n 0 (λ pos hpos.
          ap (λ s. floats.times s scale)
            (foldl-counted _ _ floats.nought hp.head_dim 0 (λ sum d hd.
              ap (λ a. floats.plus sum (floats.times (read d) a))
                (at_position_agree k k' n qh pos d same_k hq (omega arith) (omega arith)))))

    head_context_agree :
        (exps : List F) (qh : ℕ) (denom : F)
        → qh < hp.n_head
        → head_context floats hp exps v n qh denom ≡ head_context floats hp exps v' n qh denom
    unfolding head_context
    head_context_agree exps qh denom hq = map-counted _ _ hp.head_dim 0 (λ d hd.
        foldl-counted _ _ floats.nought n 0 (λ sum pos hpos.
          ap
            (λ a.
              floats.plus sum (floats.times (floats.over (get_or exps pos floats.nought) denom) a))
            (at_position_agree v v' n qh pos d same_v hq (omega arith) (omega arith))))

    one_head_agree :
        (qh : ℕ) → qh < hp.n_head → one_head floats hp q k v n qh ≡ one_head floats hp q k' v' n qh
    one_head_agree qh hq =
        let sum = λ (exps : List F). foldl floats.plus floats.nought exps in
        let exps = weights floats hp (scores floats hp q k n qh) in
        ap (if_positive floats hp (sum exps)) (head_context_agree exps qh (sum exps) hq)
        ∙ ap
            (λ found.
              let e = weights floats hp found in
              if_positive floats hp (sum e) (head_context floats hp e v' n qh (sum e)))
            (scores_agree qh hq)

    heads_agree :
        (m start : ℕ)
        → start + m ≤ hp.n_head
        → heads floats hp q k v n (counted m start) ≡ heads floats hp q k' v' n (counted m start)
    unfolding heads
    heads_agree zero start h = refl
    heads_agree (suc m) start h =
        ap
          (λ r. r >>= λ context.
            heads floats hp q k v n (counted m (suc start)) >>= λ others. ok (context ++ others))
          (one_head_agree start (omega arith))
        ∙ ap
            (λ r. one_head floats hp q k' v' n start >>= λ context.
              r >>= λ others. ok (context ++ others))
            (heads_agree m (suc start) (omega arith))

    -- The attention at a position reads nothing behind it.
    pub compute_attention_scalar_agree :
        compute_attention_scalar floats hp q k v n ≡ compute_attention_scalar floats hp q k' v' n
    unfolding compute_attention_scalar
    compute_attention_scalar_agree = heads_agree hp.n_head 0 (omega arith)
