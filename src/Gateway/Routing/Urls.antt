-- ===== src/Gateway/Routing/Urls.antt =====
-- Where a frame goes: generation_loop.cpp.
use distributed_layer_infere.Common.{
  ℕ, suc, ◌+◌, ◌≡◌, refl, ap, ◌∙◌, arith, Bool, true, false, not, if◌then◌else◌, some, List, [],
  ◌∷◌, ◌++◌, get_elem?, Result, ok, err, Bytes, is_empty, ℤ,
}
use mathlib.Core.List.{append_assoc}
use mathlib.Core.Path.{subst}
use distributed_layer_infere.Gateway.Config.{PartitionNodeConfig}
use distributed_layer_infere.Protocol.{DliFrame, ProtocolError, encode_frame}
use distributed_layer_infere.Http.Client.{HttpClientResponse}
use distributed_layer_infere.Gateway.Routing.{
  sent, LoopError, StageClientResult, GenerationStepTrace, Post, Pass, forward_frame, is_success,
  is_terminal_partition, stage_url_for_partition, after_call, after_url, route_from,
  make_step_trace,
}

-- The reference: the first stage, then each next stage, up to the first terminal partition.
abbrev pub route : Bytes → List PartitionNodeConfig → List Bytes
route url [] = []
route url (p ∷ ps) = url ∷ (if is_terminal_partition p then [] else route p.next_stage_url ps)

abbrev pub urls : List GenerationStepTrace → List Bytes
urls [] = []
urls (t ∷ ts) = t.stage_url ∷ urls ts

urls-append : (ts us : List GenerationStepTrace) → urls (ts ++ us) ≡ urls ts ++ urls us
urls-append [] us = refl
urls-append (t ∷ ts) us = ap (λ x. t.stage_url ∷ x) (urls-append ts us)

-- The URL of the next partition is the one that the partition before names.
pub next_url :
    (first_url : Bytes) (ps : List PartitionNodeConfig) (i : ℕ) (p q : PartitionNodeConfig)
    → get_elem? ps i ≡ some p
    → get_elem? ps (suc i) ≡ some q
    → is_terminal_partition p ≡ false
    → stage_url_for_partition first_url ps (suc i) ≡ ok p.next_stage_url
unfolding stage_url_for_partition
next_url first_url ps i p q e f n = rw (e, f, has_next p n) refl
  where
    has_next :
        (p : PartitionNodeConfig)
        → is_terminal_partition p ≡ false
        → is_empty p.next_stage_url ≡ false
    has_next p n = ground arith

-- `rest` is what stands in `ps` from `i` on.
abbrev pub IsFrom : List PartitionNodeConfig → ℕ → List PartitionNodeConfig → Type 0
IsFrom ps i rest = (j : ℕ) → get_elem? ps (i + j) ≡ get_elem? rest j

pub head_at :
    (ps : List PartitionNodeConfig) (i : ℕ) (rest : List PartitionNodeConfig)
    → IsFrom ps i rest
    → get_elem? ps i ≡ get_elem? rest 0
head_at ps i rest f = ap (get_elem? ps) (omega arith) ∙ f 0

pub IsFrom-next :
    (ps : List PartitionNodeConfig) (i : ℕ) (p : PartitionNodeConfig)
    (rest : List PartitionNodeConfig)
    → IsFrom ps i (p ∷ rest)
    → IsFrom ps (suc i) rest
IsFrom-next ps i p rest f = λ j. ap (get_elem? ps) (omega arith) ∙ f (suc j)

module _ {W : Type 0} where
  -- What a pass has left, as `seen` shows it.
  abbrev pub seen_in : (W → List GenerationStepTrace → List Bytes) → Pass W → List Bytes
  seen_in seen pass = seen pass.world pass.steps

  -- The two tests behind a call, one by one.
  tested_urls :
      (seen : Pass W → List Bytes) (good terminal : Bool) (x y z : Pass W) (e : LoopError)
      (r : StageClientResult) (before after : List Bytes) (url : Bytes)
      → x.outcome ≡ err e
      → seen y ≡ before ++ (url ∷ [])
      → (terminal ≡ false → z.outcome ≡ ok r → seen z ≡ (before ++ (url ∷ [])) ++ after)
      → (if not good then x else if terminal then y else z).outcome ≡ ok r
      → seen (if not good then x else if terminal then y else z)
        ≡ before ++ (url ∷ (if terminal then [] else after))
  tested_urls seen false terminal x y z e r before after url hx hy hz o = absurd (cc)
  tested_urls seen true true x y z e r before after url hx hy hz o = hy
  tested_urls seen true false x y z e r before after url hx hy hz o =
      hz refl o ∙ append_assoc before (url ∷ []) after

module _ {W : Type 0} (post : Post W) (first_url : Bytes) (ps : List PartitionNodeConfig)
    (token_index : ℤ) (mode : Bytes) (seen : W → List GenerationStepTrace → List Bytes) where
  -- A call that returns, with its step, shows as one more URL.
  abbrev pub SeesCalls : Type 0
  SeesCalls =
      (p : PartitionNodeConfig) (url : Bytes) (frame : DliFrame) (w : W)
      (steps : List GenerationStepTrace) (a : StageClientResult)
      → (forward_frame post url frame w).1 ≡ ok a
      → seen (forward_frame post url frame w).0
          (steps ++ (make_step_trace token_index mode p url a ∷ []))
        ≡ seen w steps ++ (url ∷ [])

  after_call-urls :
      (p : PartitionNodeConfig) (url : Bytes) (rest : List PartitionNodeConfig)
      (next : DliFrame → W → List GenerationStepTrace → Pass W) (before : List Bytes)
      (steps : List GenerationStepTrace) (call : W × Result LoopError StageClientResult)
      (r : StageClientResult)
      → ((a : StageClientResult)
          → call.1 ≡ ok a
          → seen call.0 (steps ++ (make_step_trace token_index mode p url a ∷ []))
            ≡ before ++ (url ∷ []))
      → ((frame : DliFrame) (w : W) (done : List GenerationStepTrace)
          → is_terminal_partition p ≡ false
          → (next frame w done).outcome ≡ ok r
          → seen_in seen (next frame w done) ≡ seen w done ++ route p.next_stage_url rest)
      → (after_call token_index mode p url next steps call).outcome ≡ ok r
      → seen_in seen (after_call token_index mode p url next steps call)
        ≡ before ++ route url (p ∷ rest)
  after_call-urls p url rest next before steps (w, err e) r one h o = absurd (cc)
  after_call-urls p url rest next before steps (w, ok a) r one h o =
      let trace = make_step_trace token_index mode p url a in
      tested_urls (seen_in seen) (is_success a.http_status) (is_terminal_partition p) _ _ _ _ r
        before (route p.next_stage_url rest) url refl (one a refl)
        (λ n f.
          h a.response_frame w (steps ++ (trace ∷ [])) n f
          ∙ ap (λ t. t ++ route p.next_stage_url rest) (one a refl))
        o

  pub route_from-urls :
      (i : ℕ) (url : Bytes) (rest : List PartitionNodeConfig) (frame : DliFrame) (w : W)
      (steps : List GenerationStepTrace) (r : StageClientResult)
      → SeesCalls
      → IsFrom ps i rest
      → ((p : PartitionNodeConfig)
          → get_elem? rest 0 ≡ some p
          → stage_url_for_partition first_url ps i ≡ ok url)
      → (route_from post first_url ps token_index mode i rest frame w steps).outcome ≡ ok r
      → seen_in seen (route_from post first_url ps token_index mode i rest frame w steps)
        ≡ seen w steps ++ route url rest
  unfolding route_from
  route_from-urls i url [] frame w steps r sees f u o = absurd (cc)
  route_from-urls i url (p ∷ rest) frame w steps r sees f u o = rw (u p refl) (
      after_call-urls p url rest (route_from post first_url ps token_index mode (suc i) rest)
        (seen w steps) steps (forward_frame post url frame w) r (sees p url frame w steps)
        (λ frame' w' done n o'.
          route_from-urls (suc i) p.next_stage_url rest frame' w' done r sees
            (IsFrom-next ps i p rest f)
            (λ q e.
              next_url first_url ps i p q (head_at ps i (p ∷ rest) f)
                (head_at ps (suc i) rest (IsFrom-next ps i p rest f) ∙ e) n)
            o')
        (subst
          (λ x.
            (after_url post token_index mode p
              (route_from post first_url ps token_index mode (suc i) rest) frame w steps x).outcome
            ≡ ok r)
          (u p refl) o))

-- What the steps say.
pub steps-SeesCalls :
    {W : Type 0} (post : Post W) (first_url : Bytes) (ps : List PartitionNodeConfig)
    (token_index : ℤ) (mode : Bytes)
    → SeesCalls post first_url ps token_index mode (λ w steps. urls steps)
steps-SeesCalls post first_url ps token_index mode p url frame w steps a e =
    urls-append steps (make_step_trace token_index mode p url a ∷ [])

module _ {W : Type 0} (post : Post W) where
  -- The transport with a log of the URLs that it is called with.
  abbrev log_to :
      List Bytes
      → Bytes
      → W × Result Bytes HttpClientResponse
      → (W × List Bytes) × Result Bytes HttpClientResponse
  log_to calls url (w, answer) = ((w, calls ++ (url ∷ [])), answer)

  abbrev pub logged : Post (W × List Bytes)
  logged url body (w, calls) = log_to calls url (post url body w)

  sent-logged :
      (url : Bytes) (o : Result ProtocolError Bytes) (w : W × List Bytes) (a : StageClientResult)
      → (sent logged url o w).1 ≡ ok a
      → (sent logged url o w).0.1 ≡ w.1 ++ (url ∷ [])
  sent-logged url (err x) w a e = absurd (cc)
  sent-logged url (ok body) w a e = refl

  pub calls-SeesCalls :
      (first_url : Bytes) (ps : List PartitionNodeConfig) (token_index : ℤ) (mode : Bytes)
      → SeesCalls logged first_url ps token_index mode (λ w steps. w.1)
  unfolding forward_frame
  calls-SeesCalls first_url ps token_index mode p url frame w steps a e =
      sent-logged url (encode_frame frame) w a e
