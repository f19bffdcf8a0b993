-- ===== src/Stage/Executor/Lengths.antt =====
-- What the layers return has the length of what they were given: run_layer of
-- src/native/dli_stage_cpp/src/runtimes/llama_cpu_executor.cpp.
use distributed_layer_infere.Common.{
  ℕ, zero, suc, ◌+◌, ◌*◌, ◌≤◌, ◌≡◌, refl, ap, ◌∙◌, arith, List, [], ◌∷◌, ◌++◌, map, length, take,
  drop, Result, ok, err, ◌>>=◌, Bytes, codes, ℤ,
}
use native.Mathlib.Nat.{mul-le-mul_right}
use distributed_layer_infere.Stage.Executor.{
  Floats, LlamaExecutorHyperparams, Shard, counted, rms_norm, matvec,
}
use distributed_layer_infere.Stage.Executor.Layer.{
  Caches, overwritten, attention, Projection, projected, feed_forward, added, gated, layer_prefix,
  transformed, after_attention, after_projection, token_row, after_row, token_loop, norm_weights,
  with_norms, run_layer, after_layer, run_layers,
}
use distributed_layer_infere.Stage.Executor.Stored.{length-overwritten}
use distributed_layer_infere.Stage.Executor.Agree.{After}

length-map-counted {ℓ} :
    {A : Type ℓ} (f : ℕ → A) (n start : ℕ) → length (map f (counted n start)) ≡ n
length-map-counted f zero start = refl
length-map-counted f (suc n) start = ap suc (length-map-counted f n (suc start))

-- A value that was returned has this many elements.
abbrev pub HasLength : {F E : Type 0} → ℕ → Result E (List F) → Type 0
HasLength n (err e) = Unit {0}
HasLength n (ok xs) = length xs ≡ n

pub HasLength-bind :
    {F A : Type 0} (n : ℕ) (o : Result Bytes A) (next : A → Result Bytes (List F))
    → ((a : A) → HasLength n (next a))
    → HasLength n (o >>= next)
HasLength-bind n (err e) next h = tt
HasLength-bind n (ok a) next h = h a

pub suc_times : (n w : ℕ) → suc n * w ≡ n * w + w
suc_times n w = grind arith

pub HasLength-bind_eq :
    {F A : Type 0} (n : ℕ) (o : Result Bytes A) (next : A → Result Bytes (List F))
    → ((a : A) → o ≡ ok a → HasLength n (next a))
    → HasLength n (o >>= next)
HasLength-bind_eq n (err e) next h = tt
HasLength-bind_eq n (ok a) next h = h a refl

module _ {F D : Type 0} (floats : Floats F D) (hp : LlamaExecutorHyperparams F)
    (shard : Shard F) where
  length-added : (a b : List F) → length (added floats hp shard a b) ≡ hp.hidden_size
  length-added a b = length-map-counted _ hp.hidden_size 0

  feed_forward-HasLength :
      (prefix : Bytes) (weight h1 : List F)
      → HasLength hp.hidden_size (feed_forward floats hp shard prefix weight h1)
  feed_forward-HasLength prefix weight h1 =
      let n = hp.hidden_size in
      HasLength-bind n (rms_norm floats hp h1 weight) _ (λ fn.
        HasLength-bind n (matvec shard (prefix ++ codes "ffn_gate.weight") fn) _ (λ gate.
          HasLength-bind n (matvec shard (prefix ++ codes "ffn_up.weight") fn) _ (λ up.
            HasLength-bind n (gated floats hp shard gate up) _ (λ intermediate.
              HasLength-bind n (matvec shard (prefix ++ codes "ffn_down.weight") intermediate) _
                (λ down. length-added h1 down)))))

  transformed-HasLength :
      (l : ℤ) (fn x ctx : List F)
      → HasLength hp.hidden_size (transformed floats hp shard l fn x ctx)
  unfolding transformed
  transformed-HasLength l fn x ctx = HasLength-bind hp.hidden_size _ _ (λ attn_out.
      feed_forward-HasLength (layer_prefix floats hp shard l) fn (added floats hp shard x attn_out))

  after_attention-HasLength :
      (n : ℕ) (next : List F → Result Bytes (List F)) (s : After F)
      → ((x : List F) → HasLength n (next x))
      → HasLength n (after_attention floats hp shard next s).1
  after_attention-HasLength n next (c, err w) h = tt
  after_attention-HasLength n next (c, ok x) h = h x

  after_projection-HasLength :
      (l : ℤ) (fn x : List F) (p : ℕ) (C : Caches F) (o : Result Bytes (Projection floats hp shard))
      → HasLength hp.hidden_size (after_projection floats hp shard l fn x p C o).1
  after_projection-HasLength l fn x p C (err w) = tt
  after_projection-HasLength l fn x p C (ok r) =
      after_attention-HasLength hp.hidden_size (transformed floats hp shard l fn x)
        (attention floats hp l r.q r.k r.v p C) (transformed-HasLength l fn x)

  token_row-HasLength :
      (l : ℤ) (an fn x : List F) (p : ℕ) (C : Caches F)
      → HasLength hp.hidden_size (token_row floats hp shard l an fn x p C).1
  unfolding token_row
  token_row-HasLength l an fn x p C =
      after_projection-HasLength l fn x p C (projected floats hp shard l an x p)

  after_row-HasLength :
      (n t : ℕ) (output : List F) (next : List F → Caches F → After F) (s : After F)
      → length output ≡ n * hp.hidden_size
      → suc t ≤ n
      → HasLength hp.hidden_size s.1
      → ((o : List F) (c : Caches F)
          → length o ≡ n * hp.hidden_size
          → HasLength (n * hp.hidden_size) (next o c).1)
      → HasLength (n * hp.hidden_size) (after_row floats hp shard next t output s).1
  after_row-HasLength n t output next (c, err w) whole room row sound = tt
  after_row-HasLength n t output next (c, ok x) whole room row sound =
      let w = hp.hidden_size in
      let inside = mul-le-mul_right {m = suc t} {n = n} w room in
      let step : suc t * w ≡ t * w + w = suc_times t w in
      sound (overwritten (t * w) x output) c
        (length-overwritten (t * w) x output (omega (arith, inside, step, row, whole)) ∙ whole)

  token_loop-HasLength :
      (l : ℤ) (an fn : List F) (before left t n : ℕ) (output : List F) (C : Caches F)
      → length output ≡ n * hp.hidden_size
      → t + left ≤ n
      → HasLength (n * hp.hidden_size) (token_loop floats hp shard l an fn before left t output C).1
  unfolding token_loop
  token_loop-HasLength l an fn before zero t n output C whole room = whole
  token_loop-HasLength l an fn before (suc left) t n output C whole room =
      after_row-HasLength n t output (token_loop floats hp shard l an fn before left (suc t)) _
        whole (omega arith)
        (token_row-HasLength l an fn (take hp.hidden_size (drop (t * hp.hidden_size) output))
          (before + t) C)
        (λ o c h. token_loop-HasLength l an fn before left (suc t) n o c h (omega arith))

  with_norms-HasLength :
      (l : ℤ) (input : List F) (n before : ℕ) (C : Caches F) (o : Result Bytes (List F × List F))
      → length input ≡ n * hp.hidden_size
      → HasLength (n * hp.hidden_size) (with_norms floats hp shard l input n before C o).1
  with_norms-HasLength l input n before C (err w) whole = tt
  with_norms-HasLength l input n before C (ok (an, fn)) whole =
      token_loop-HasLength l an fn before n 0 n input C whole (omega arith)

  after_layer-HasLength :
      (n : ℕ) (next : List F → Caches F → After F) (s : After F)
      → HasLength n s.1
      → ((h : List F) (c : Caches F) → length h ≡ n → HasLength n (next h c).1)
      → HasLength n (after_layer floats hp shard next s).1
  after_layer-HasLength n next (c, err w) h sound = tt
  after_layer-HasLength n next (c, ok x) h sound = sound x c h

  -- The layers return as many numbers as they were given.
  pub run_layers-HasLength :
      (ls : List ℤ) (hidden : List F) (n before : ℕ) (C : Caches F)
      → length hidden ≡ n * hp.hidden_size
      → HasLength (n * hp.hidden_size) (run_layers floats hp shard ls hidden n before C).1
  unfolding run_layers run_layer
  run_layers-HasLength [] hidden n before C whole = whole
  run_layers-HasLength (l ∷ ls) hidden n before C whole =
      after_layer-HasLength (n * hp.hidden_size) (λ h c. run_layers floats hp shard ls h n before c)
        (run_layer floats hp shard l hidden n before C)
        (with_norms-HasLength l hidden n before C (norm_weights floats hp shard l) whole)
        (λ h c e. run_layers-HasLength ls h n before c e)
