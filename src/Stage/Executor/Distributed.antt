-- ===== src/Stage/Executor/Distributed.antt =====
-- The layers of a model cut into two partitions, each with caches of its own: the loop over the
-- layers of src/native/dli_stage_cpp/src/runtimes/llama_cpu_executor.cpp on two stages and on one
-- machine.
use distributed_layer_infere.Common.{
  ℕ, ◌+◌, ◌≡◌, refl, sym, ap, ◌∙◌, false, List, [], ◌∷◌, ◌++◌, All, ok, err, ◌>>=◌, ℤ, eqb_ℤ,
}
use mathlib.Core.Path.{subst, fun_ext}
use distributed_layer_infere.Stage.Executor.{
  Floats, LlamaExecutorHyperparams, Shard, check_hyperparams,
}
use distributed_layer_infere.Stage.Executor.Reads.{IsUsable, check_hyperparams-IsUsable}
use distributed_layer_infere.Stage.Executor.Layer.{Caches, run_layer, after_layer, run_layers}
use distributed_layer_infere.Stage.Executor.Stored.{Agrees}
use distributed_layer_infere.Stage.Executor.Agree.{After}
use distributed_layer_infere.Stage.Executor.Sequence.{Ran, run_layers-Ran}

-- No layer of the second partition is one of the first.
abbrev pub Disjoint : List ℤ → List ℤ → Type 0
Disjoint ls ms = All (λ j. All (λ l. eqb_ℤ j l ≡ false) ls) ms

module _ {F D : Type 0} (floats : Floats F D) (hp : LlamaExecutorHyperparams F)
    (usable : IsUsable hp) (shard : Shard F) where
  after_layer-append :
      (next more : List F → Caches F → After F) (s : After F)
      → after_layer floats hp shard (λ h c. after_layer floats hp shard more (next h c)) s
        ≡ after_layer floats hp shard more (after_layer floats hp shard next s)
  after_layer-append next more (c, err w) = refl
  after_layer-append next more (c, ok h) = refl

  run_layers-append :
      (ls ms : List ℤ) (hidden : List F) (seq_len n : ℕ) (C : Caches F)
      → run_layers floats hp shard (ls ++ ms) hidden seq_len n C
        ≡ after_layer floats hp shard
            (λ h c. run_layers floats hp shard ms h seq_len n c)
            (run_layers floats hp shard ls hidden seq_len n C)
  unfolding run_layers
  run_layers-append [] ms hidden seq_len n C = refl
  run_layers-append (l ∷ ls) ms hidden seq_len n C =
      let first = run_layer floats hp shard l hidden seq_len n C in
      ap (λ next. after_layer floats hp shard next first)
        (fun_ext (λ h. fun_ext (λ c. run_layers-append ls ms h seq_len n c)))
      ∙ after_layer-append (λ h c. run_layers floats hp shard ls h seq_len n c)
          (λ h c. run_layers floats hp shard ms h seq_len n c) first

  -- Agreement of caches that are the same ones under another name.
  Agrees-moved :
      (n : ℕ) (ls ms : List ℤ) (C C' E : Caches F)
      → ((j : ℤ) → All (λ l. eqb_ℤ j l ≡ false) ls → E j ≡ C j)
      → Disjoint ls ms
      → All (λ j. Agrees floats hp n (C j) (C' j)) ms
      → All (λ j. Agrees floats hp n (E j) (C' j)) ms
  Agrees-moved n ls [] C C' E same apart a = tt
  Agrees-moved n ls (j ∷ ms) C C' E same apart a = (
    subst (λ c. Agrees floats hp n c (C' j)) (sym (same j apart.0)) a.0,
    Agrees-moved n ls ms C C' E same apart.1 a.1,
  )

  after_first :
      (ls ms : List ℤ) (seq_len n : ℕ) (C C1 C2 : Caches F) (s s1 : After F)
      → Ran floats hp usable shard ls (n + seq_len) C C1 s s1
      → Disjoint ls ms
      → All (λ j. Agrees floats hp n (C j) (C2 j)) ms
      → (after_layer floats hp shard (λ h c. run_layers floats hp shard ms h seq_len n c) s).1
        ≡ (s1.1 >>= λ h. (run_layers floats hp shard ms h seq_len n C2).1)
  after_first ls ms seq_len n C C1 C2 (c, err w) (c1, o) ran apart agree =
      ap (λ r. r >>= λ h. (run_layers floats hp shard ms h seq_len n C2).1) ran.outcome
  after_first ls ms seq_len n C C1 C2 (c, ok h) (c1, o) ran apart agree =
      let here = Agrees-moved n ls ms C C2 c (λ j e. (ran.others j e).0) apart agree in
      let second = run_layers-Ran floats hp usable shard ms h seq_len n c C2 here in
      second.outcome
      ∙ ap (λ r. r >>= λ h'. (run_layers floats hp shard ms h' seq_len n C2).1) ran.outcome

-- A model cut into two partitions that share no layer computes what it computes on one machine: for
-- hyperparameters that the constructor accepts, run_layers over the layers `ls` and then `ms` on one
-- machine returns the hidden states, or throws the exception, of a first stage that runs `ls` and
-- hands its hidden states to a second one that runs `ms`. Each stage has caches of its own; they need
-- to agree with those of the one machine only at its own layers and at the `n` positions before the
-- tokens.
pub run_layers_distributed :
    {F D : Type 0} (floats : Floats F D) (hp : LlamaExecutorHyperparams F) (shard : Shard F)
    (ls ms : List ℤ) (hidden : List F) (seq_len n : ℕ) (C C1 C2 : Caches F)
    → check_hyperparams hp ≡ ok tt
    → Disjoint ls ms
    → All (λ j. Agrees floats hp n (C j) (C1 j)) ls
    → All (λ j. Agrees floats hp n (C j) (C2 j)) ms
    → (run_layers floats hp shard (ls ++ ms) hidden seq_len n C).1 ≡ (
        (run_layers floats hp shard ls hidden seq_len n C1).1 >>= λ h.
        (run_layers floats hp shard ms h seq_len n C2).1)
run_layers_distributed floats hp shard ls ms hidden seq_len n C C1 C2 accepted apart a b =
    let usable = check_hyperparams-IsUsable hp accepted in
    let first = run_layers-Ran floats hp usable shard ls hidden seq_len n C C1 a in
    ap (λ s. s.1) (run_layers-append floats hp usable shard ls ms hidden seq_len n C)
    ∙ after_first floats hp usable shard ls ms seq_len n C C1 C2 _ _ first apart b
