-- ===== src/Stage/Executor/Agree.antt =====
-- A layer, and a sequence of layers, from caches that agree on the positions before the tokens:
-- run_layer and the loops over the layers of
-- src/native/dli_stage_cpp/src/runtimes/llama_cpu_executor.cpp.
use distributed_layer_infere.Common.{
  ℕ, zero, suc, ◌+◌, ◌*◌, ◌≡◌, refl, sym, ap, ◌∙◌, arith, false, ◌==◌, Bool-cases, if_true,
  if_false, inl, inr, List, length, take, drop, Result, ok, err, ◌>>=◌, Bytes, ℤ, eqb_ℤ, eqb_ℤ_iff,
}
use mathlib.Core.Path.{subst}
use distributed_layer_infere.Stage.Executor.{Floats, LlamaExecutorHyperparams, Shard}
use distributed_layer_infere.Stage.Executor.Attention.{kv_dim, q_dim}
use distributed_layer_infere.Stage.Executor.Reads.{IsUsable, compute_attention_scalar_agree}
use distributed_layer_infere.Stage.Executor.Layer.{
  LayerKvCache, Caches, overwritten, with_cache, attended, attention, Projection, projected,
  transformed, after_attention, after_projection, token_row, after_row, token_loop, norm_weights,
  with_norms, run_layer,
}
use distributed_layer_infere.Stage.Executor.Stored.{Agrees, stored-Agrees}

-- The caches behind a call and what it returned.
abbrev pub After : Type 0 → Type 0
After F = Caches F × Result Bytes (List F)

module _ {F D : Type 0} (floats : Floats F D) (hp : LlamaExecutorHyperparams F)
    (usable : IsUsable hp) where
  -- Two calls for one layer came to the same outcome; if it is a value, the caches of the layer
  -- agree up to `m`. No other cache changed.
  pub record Moved (l : ℤ) (m : ℕ) (C C' : Caches F) (s s' : After F) : Type 0 where
    pub outcome : s.1 ≡ s'.1
    pub reached : (a : List F) → s.1 ≡ ok a → Agrees floats hp m (s.0 l) (s'.0 l)
    pub others : (j : ℤ) → eqb_ℤ j l ≡ false → (s.0 j ≡ C j) × (s'.0 j ≡ C' j)

  unmoved :
      (l : ℤ) (m : ℕ) (C C' : Caches F) (what : Bytes) → Moved l m C C' (C, err what) (C', err what)
  unmoved l m C C' what = record {
    outcome = refl;
    reached = λ a e. absurd (cc);
    others = λ j h. (refl, refl);
  }

  with_cache_here : (C : Caches F) (l : ℤ) (c : LayerKvCache F) → with_cache floats hp C l c l ≡ c
  with_cache_here C l c = if_true c (C l) ((eqb_ℤ_iff l l).1 refl)

  attended-Moved :
      (l : ℤ) (q : List F) (p : ℕ) (C C' : Caches F) (c c' : LayerKvCache F)
      → Agrees floats hp (suc p) c c'
      → Moved l (suc p) C C' (attended floats hp C l q p c) (attended floats hp C' l q p c')
  attended-Moved l q p C C' c c' a = record {
    outcome =
        compute_attention_scalar_agree floats hp usable q c.k c'.k c.v c'.v (suc p) a.same_k
          a.same_v;
    reached = λ b e.
        subst (λ t. Agrees floats hp (suc p) t (with_cache floats hp C' l c' l))
          (sym (with_cache_here C l c))
          (subst (λ t. Agrees floats hp (suc p) c t) (sym (with_cache_here C' l c')) a);
    others = λ j h. (if_false c (C j) h, if_false c' (C' j) h);
  }

  attention-Moved :
      (l : ℤ) (q k v : List F) (p : ℕ) (C C' : Caches F)
      → Agrees floats hp p (C l) (C' l)
      → Moved l (suc p) C C' (attention floats hp l q k v p C) (attention floats hp l q k v p C')
  unfolding attention
  attention-Moved l q k v p C C' a = elim (Bool-cases (length q == q_dim floats hp)) [
    | inr e ↦ rw e (unmoved l (suc p) C C' _)
    | inl e ↦ rw e (elim (Bool-cases (length k == kv_dim floats hp)) [
      | inr ek ↦ rw ek (unmoved l (suc p) C C' _)
      | inl ek ↦ rw ek (elim (Bool-cases (length v == kv_dim floats hp)) [
        | inr ev ↦ rw ev (unmoved l (suc p) C C' _)
        | inl ev ↦ rw ev (
            attended-Moved l q p C C' _ _ (
              stored-Agrees floats hp p k v (ground (arith, ek)) (ground (arith, ev)) (C l) (C' l)
                a))
      ])
    ])
  ]

  module _ (shard : Shard F) where
    after_attention-Moved :
        (l : ℤ) (m : ℕ) (C C' : Caches F) (next : List F → Result Bytes (List F)) (s s' : After F)
        → Moved l m C C' s s'
        → Moved l m C C'
            (after_attention floats hp shard next s)
            (after_attention floats hp shard next s')
    after_attention-Moved l m C C' next (c, ok x) (c', o') h = record {
      outcome = ap (λ o. o >>= next) h.outcome;
      reached = λ a e. h.reached x refl;
      others = h.others;
    }
    after_attention-Moved l m C C' next (c, err w) (c', o') h = record {
      outcome = ap (λ o. o >>= next) h.outcome;
      reached = λ a e. absurd (cc);
      others = h.others;
    }

    after_projection-Moved :
        (l : ℤ) (fn x : List F) (p : ℕ) (C C' : Caches F)
        (o : Result Bytes (Projection floats hp shard))
        → Agrees floats hp p (C l) (C' l)
        → Moved l
            (suc p)
            C
            C'
            (after_projection floats hp shard l fn x p C o)
            (after_projection floats hp shard l fn x p C' o)
    after_projection-Moved l fn x p C C' (err w) a = unmoved l (suc p) C C' w
    after_projection-Moved l fn x p C C' (ok r) a =
        after_attention-Moved l (suc p) C C' (transformed floats hp shard l fn x)
          (attention floats hp l r.q r.k r.v p C) (attention floats hp l r.q r.k r.v p C')
          (attention-Moved l r.q r.k r.v p C C' a)

    token_row-Moved :
        (l : ℤ) (an fn x : List F) (p : ℕ) (C C' : Caches F)
        → Agrees floats hp p (C l) (C' l)
        → Moved l
            (suc p)
            C
            C'
            (token_row floats hp shard l an fn x p C)
            (token_row floats hp shard l an fn x p C')
    unfolding token_row
    token_row-Moved l an fn x p C C' a =
        after_projection-Moved l fn x p C C' (projected floats hp shard l an x p) a

    -- A call behind another one.
    then-Moved :
        (l : ℤ) (m m' : ℕ) (C C' : Caches F) (r r' s s' : After F)
        → Moved l m C C' r r'
        → Moved l m' r.0 r'.0 s s'
        → Moved l m' C C' s s'
    then-Moved l m m' C C' r r' s s' h k = record {
      outcome = k.outcome;
      reached = k.reached;
      others = λ j e. let (a, a') = h.others j e in let (b, b') = k.others j e in (b ∙ a, b' ∙ a');
    }

    after_row-Moved :
        (l : ℤ) (m m' t : ℕ) (output : List F) (C C' : Caches F)
        (next : List F → Caches F → After F) (s s' : After F)
        → Moved l m C C' s s'
        → ((o : List F) (c c' : Caches F)
            → Agrees floats hp m (c l) (c' l)
            → Moved l m' c c' (next o c) (next o c'))
        → Moved l m' C C'
            (after_row floats hp shard next t output s)
            (after_row floats hp shard next t output s')
    after_row-Moved l m m' t output C C' next (c, err w) (c', err w') h sound = record {
      outcome = ap (λ (o : Result Bytes (List F)). o) h.outcome;
      reached = λ a e. absurd (cc);
      others = h.others;
    }
    after_row-Moved l m m' t output C C' next (c, err w) (c', ok x) h sound =
        absurd (cc (h.outcome))
    after_row-Moved l m m' t output C C' next (c, ok x) (c', err w) h sound =
        absurd (cc (h.outcome))
    after_row-Moved l m m' t output C C' next (c, ok x) (c', ok x') h sound =
        let same : x ≡ x' = cc (h.outcome) in
        let there = λ (y : List F). overwritten (t * hp.hidden_size) y output in
        then-Moved l m m' C C' (c, ok x) (c', ok x') _ _ h
          (subst (λ y. Moved l m' c c' (next (there x) c) (next (there y) c')) same
            (sound (there x) c c' (h.reached x refl)))

    token_loop-Moved :
        (l : ℤ) (an fn : List F) (before left t m : ℕ) (output : List F) (C C' : Caches F)
        → before + t + left ≡ m
        → Agrees floats hp (before + t) (C l) (C' l)
        → Moved l m C C'
            (token_loop floats hp shard l an fn before left t output C)
            (token_loop floats hp shard l an fn before left t output C')
    unfolding token_loop
    token_loop-Moved l an fn before zero t m output C C' e a = record {
      outcome = refl;
      reached = λ b x. subst (λ n. Agrees floats hp n (C l) (C' l)) (omega (arith, e)) a;
      others = λ j h. (refl, refl);
    }
    token_loop-Moved l an fn before (suc left) t m output C C' e a =
        after_row-Moved l (suc (before + t)) m t output C C'
          (token_loop floats hp shard l an fn before left (suc t)) _ _
          (token_row-Moved l an fn (take hp.hidden_size (drop (t * hp.hidden_size) output))
            (before + t) C C' a)
          (λ o c c' b.
            token_loop-Moved l an fn before left (suc t) m o c c' (omega (arith, e))
              (subst (λ n. Agrees floats hp n (c l) (c' l)) (omega arith) b))

    with_norms-Moved :
        (l : ℤ) (input : List F) (seq_len before : ℕ) (C C' : Caches F)
        (o : Result Bytes (List F × List F))
        → Agrees floats hp before (C l) (C' l)
        → Moved l
            (before + seq_len)
            C
            C'
            (with_norms floats hp shard l input seq_len before C o)
            (with_norms floats hp shard l input seq_len before C' o)
    with_norms-Moved l input seq_len before C C' (err w) a = unmoved l (before + seq_len) C C' w
    with_norms-Moved l input seq_len before C C' (ok (an, fn)) a =
        token_loop-Moved l an fn before seq_len 0 (before + seq_len) input C C' (omega arith)
          (subst (λ n. Agrees floats hp n (C l) (C' l)) (omega arith) a)

    pub run_layer-Moved :
        (l : ℤ) (input : List F) (seq_len before : ℕ) (C C' : Caches F)
        → Agrees floats hp before (C l) (C' l)
        → Moved l
            (before + seq_len)
            C
            C'
            (run_layer floats hp shard l input seq_len before C)
            (run_layer floats hp shard l input seq_len before C')
    unfolding run_layer
    run_layer-Moved l input seq_len before C C' a =
        with_norms-Moved l input seq_len before C C' (norm_weights floats hp shard l) a
