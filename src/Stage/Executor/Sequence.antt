-- ===== src/Stage/Executor/Sequence.antt =====
-- All layers of a partition, from caches that agree on the positions before the tokens: the loop
-- over the layers in execute_source, execute_intermediate and execute_terminal of
-- src/native/dli_stage_cpp/src/runtimes/llama_cpu_executor.cpp.
use distributed_layer_infere.Common.{
  ℕ, ◌∙◌, false, ◌+◌, ◌≤◌, ◌≡◌, refl, sym, arith, Bool-cases, inl, inr, List, [], ◌∷◌, All, ok, err,
  ℤ, eqb_ℤ, eqb_ℤ_iff,
}
use mathlib.Core.Path.{subst}
use distributed_layer_infere.Stage.Executor.{
  Floats, LlamaExecutorHyperparams, Shard, check_hyperparams,
}
use distributed_layer_infere.Stage.Executor.Reads.{IsUsable, check_hyperparams-IsUsable}
use distributed_layer_infere.Stage.Executor.Layer.{Caches, after_layer, run_layers}
use distributed_layer_infere.Stage.Executor.Stored.{Agrees, Agrees-shorter}
use distributed_layer_infere.Stage.Executor.Agree.{After, Moved, run_layer-Moved}

module _ {F D : Type 0} (floats : Floats F D) (hp : LlamaExecutorHyperparams F)
    (usable : IsUsable hp) (shard : Shard F) where
  -- Two calls came to the same outcome; if it is a value, each cache that agreed up to some position
  -- not behind `m` still does.
  record Kept (m : ℕ) (C C' : Caches F) (s s' : After F) : Type 0 where
    outcome : s.1 ≡ s'.1
    kept :
        (a : List F)
        → s.1 ≡ ok a
        → (j : ℤ) (n : ℕ) → n ≤ m
        → Agrees floats hp n (C j) (C' j)
        → Agrees floats hp n (s.0 j) (s'.0 j)

  Moved-Kept :
      (l : ℤ) (m : ℕ) (C C' : Caches F) (s s' : After F)
      → Moved floats hp usable l m C C' s s'
      → Kept m C C' s s'
  Moved-Kept l m C C' s s' h = record {
    outcome = h.outcome;
    kept = λ a e j n le agree. elim (Bool-cases (eqb_ℤ j l)) [
      | inl here ↦
          subst (λ i. Agrees floats hp n (s.0 i) (s'.0 i)) (sym ((eqb_ℤ_iff j l).0 here))
            (Agrees-shorter floats hp n m (s.0 l) (s'.0 l) le (h.reached a e))
      | inr other ↦
          let (same, same') = h.others j other in
          subst (λ c. Agrees floats hp n c (s'.0 j)) (sym same)
            (subst (λ c. Agrees floats hp n (C j) c) (sym same') agree)
    ];
  }

  -- All layers of a list came to agree, and no other cache changed.
  pub record Ran (ls : List ℤ) (m : ℕ) (C C' : Caches F) (s s' : After F) : Type 0 where
    pub outcome : s.1 ≡ s'.1
    pub kept :
        (a : List F)
        → s.1 ≡ ok a
        → (j : ℤ) (n : ℕ) → n ≤ m
        → Agrees floats hp n (C j) (C' j)
        → Agrees floats hp n (s.0 j) (s'.0 j)
    pub reached : (a : List F) → s.1 ≡ ok a → All (λ j. Agrees floats hp m (s.0 j) (s'.0 j)) ls
    pub others : (j : ℤ) → All (λ l. eqb_ℤ j l ≡ false) ls → (s.0 j ≡ C j) × (s'.0 j ≡ C' j)

  All-weaken : (P Q : ℤ → Type 0) (ls : List ℤ) → ((j : ℤ) → P j → Q j) → All P ls → All Q ls
  All-weaken P Q [] f h = tt
  All-weaken P Q (l ∷ ls) f h = (f l h.0, All-weaken P Q ls f h.1)

  after_layer-Ran :
      (l : ℤ) (ls : List ℤ) (n m : ℕ) (C C' : Caches F) (next : List F → Caches F → After F)
      (r r' : After F)
      → n ≤ m
      → All (λ j. Agrees floats hp n (C j) (C' j)) ls
      → Moved floats hp usable l m C C' r r'
      → ((x : List F) (c c' : Caches F)
          → All (λ j. Agrees floats hp n (c j) (c' j)) ls
          → Ran ls m c c' (next x c) (next x c'))
      → Ran
          (l ∷ ls)
          m
          C
          C'
          (after_layer floats hp shard next r)
          (after_layer floats hp shard next r')
  after_layer-Ran l ls n m C C' next (c, err w) (c', err w') le a h sound = record {
    outcome = h.outcome;
    kept = λ b e. absurd (cc);
    reached = λ b e. absurd (cc);
    others = λ j apart. h.others j apart.0;
  }
  after_layer-Ran l ls n m C C' next (c, err w) (c', ok x) le a h sound = absurd (cc (h.outcome))
  after_layer-Ran l ls n m C C' next (c, ok x) (c', err w) le a h sound = absurd (cc (h.outcome))
  after_layer-Ran l ls n m C C' next (c, ok x) (c', ok x') le a h sound =
      let same : x ≡ x' = cc (h.outcome) in
      let step = Moved-Kept l m C C' (c, ok x) (c', ok x') h in
      let others = All-weaken _ _ ls (λ j b. step.kept x refl j n le b) a in
      subst (λ y. Ran (l ∷ ls) m C C' (next x c) (next y c')) same
        (let rest = sound x c c' others in
          record {
            outcome = rest.outcome;
            kept = λ b e j k le' agree. rest.kept b e j k le' (step.kept x refl j k le' agree);
            reached = λ b e. (rest.kept b e l m (omega arith) (h.reached x refl), rest.reached b e);
            others = λ j apart.
                let (a, a') = h.others j apart.0 in
                let (b, b') = rest.others j apart.1 in (b ∙ a, b' ∙ a');
          })

  pub run_layers-Ran :
      (ls : List ℤ) (hidden : List F) (seq_len before : ℕ) (C C' : Caches F)
      → All (λ j. Agrees floats hp before (C j) (C' j)) ls
      → Ran ls
          (before + seq_len)
          C
          C'
          (run_layers floats hp shard ls hidden seq_len before C)
          (run_layers floats hp shard ls hidden seq_len before C')
  unfolding run_layers
  run_layers-Ran [] hidden seq_len before C C' a = record {
    outcome = refl;
    kept = λ b e j n le agree. agree;
    reached = λ b e. tt;
    others = λ j apart. (refl, refl);
  }
  run_layers-Ran (l ∷ ls) hidden seq_len before C C' a =
      after_layer-Ran l ls before (before + seq_len) C C'
        (λ h c. run_layers floats hp shard ls h seq_len before c) _ _ (omega arith) a.1
        (run_layer-Moved floats hp usable shard l hidden seq_len before C C' a.0)
        (λ x c c' b. run_layers-Ran ls x seq_len before c c' b)

-- If the first call returned a value: the caches of the layers agree up to `m`.
abbrev pub AgreeBehind :
    {F D : Type 0}
    → Floats F D
    → LlamaExecutorHyperparams F
    → ℕ
    → List ℤ
    → After F
    → After F
    → Type 0
AgreeBehind floats hp m ls (c, err what) (c', o) = Unit {0}
AgreeBehind floats hp m ls (c, ok hidden) (c', o) = All (λ l. Agrees floats hp m (c l) (c' l)) ls

Ran-AgreeBehind :
    {F D : Type 0} (floats : Floats F D) (hp : LlamaExecutorHyperparams F) (usable : IsUsable hp)
    (shard : Shard F) (ls : List ℤ) (m : ℕ) (C C' : Caches F) (s s' : After F)
    → Ran floats hp usable shard ls m C C' s s'
    → AgreeBehind floats hp m ls s s'
Ran-AgreeBehind floats hp usable shard ls m C C' (c, err w) (c', o) h = tt
Ran-AgreeBehind floats hp usable shard ls m C C' (c, ok a) (c', o) h = h.reached a refl

-- For hyperparameters that the constructor accepts: what the layers of a partition compute at
-- kv_seq_before `n` depends on nothing but the first `n` positions of their caches. From caches that
-- agree there (all well-sized ones do for `n` zero, whatever a former sequence left in them) run_layers
-- comes to the same hidden states or the same exception, and in the first case the caches of its
-- layers agree on the positions of the new tokens too.
pub run_layers_agree :
    {F D : Type 0} (floats : Floats F D) (hp : LlamaExecutorHyperparams F) (shard : Shard F)
    (ls : List ℤ) (hidden : List F) (seq_len n : ℕ) (C C' : Caches F)
    → check_hyperparams hp ≡ ok tt
    → All (λ l. Agrees floats hp n (C l) (C' l)) ls
    → ((run_layers floats hp shard ls hidden seq_len n C).1
        ≡ (run_layers floats hp shard ls hidden seq_len n C').1)
      × AgreeBehind floats hp
          (n + seq_len)
          ls
          (run_layers floats hp shard ls hidden seq_len n C)
          (run_layers floats hp shard ls hidden seq_len n C')
run_layers_agree floats hp shard ls hidden seq_len n C C' accepted agree =
    let usable = check_hyperparams-IsUsable hp accepted in
    let ran = run_layers-Ran floats hp usable shard ls hidden seq_len n C C' agree in
    (ran.outcome, Ran-AgreeBehind floats hp usable shard ls (n + seq_len) C C' _ _ ran)
