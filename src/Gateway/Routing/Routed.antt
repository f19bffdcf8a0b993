-- ===== src/Gateway/Routing/Routed.antt =====
-- A valid stage map never breaks the routing: generation_loop.cpp.
use distributed_layer_infere.Common.{
  ℕ, suc, ◌≡◌, ◌⊎◌, inl, inr, refl, ◌∙◌, if_either, Bool, true, false, not, if◌then◌else◌, some,
  List, [], ◌∷◌, get_elem?, Result, ok, err, Bytes, ℤ,
}
use distributed_layer_infere.Protocol.{DliFrame, ProtocolError, encode_frame, decode_frame}
use distributed_layer_infere.Gateway.Config.{PartitionNodeConfig}
use distributed_layer_infere.Http.Client.{HttpClientResponse}
use distributed_layer_infere.Gateway.Routing.{
  LoopError, StageClientResult, GenerationStepTrace, Post, Pass, forward_frame, sent, received,
  decoded, is_success, is_terminal_partition, stage_url_for_partition, after_call, route_from,
  graph_empty, index_out_of_range, no_terminal_partition, empty_next_stage_url, chained_call_failed,
  partition_failed, empty_metadata, invalid_next_token_id, protocol, metadata, transport, tokenizer,
}
use distributed_layer_infere.Gateway.Routing.Urls.{next_url, IsFrom, head_at, IsFrom-next}

-- An outcome that is no routing error.
abbrev pub IsRouted : Result LoopError StageClientResult → Type 0
IsRouted (ok r) = Unit {0}
IsRouted (err graph_empty) = ⊥
IsRouted (err index_out_of_range) = ⊥
IsRouted (err no_terminal_partition) = ⊥
IsRouted (err (empty_next_stage_url id)) = ⊥
IsRouted (err (chained_call_failed status body)) = Unit {0}
IsRouted (err (partition_failed id status body)) = Unit {0}
IsRouted (err empty_metadata) = Unit {0}
IsRouted (err invalid_next_token_id) = Unit {0}
IsRouted (err (protocol e)) = Unit {0}
IsRouted (err (metadata e)) = Unit {0}
IsRouted (err (transport text)) = Unit {0}
IsRouted (err (tokenizer text)) = Unit {0}

-- A terminal partition stands in the list.
abbrev pub HasTerminal : List PartitionNodeConfig → Type 0
HasTerminal [] = ⊥
HasTerminal (p ∷ rest) = (is_terminal_partition p ≡ true) ⊎ HasTerminal rest

module _ {W : Type 0} where
  pub tested-IsRouted :
      (good terminal : Bool) (x y z : Pass W)
      → IsRouted x.outcome
      → IsRouted y.outcome
      → (terminal ≡ false → IsRouted z.outcome)
      → IsRouted (if not good then x else if terminal then y else z).outcome
  tested-IsRouted false terminal x y z hx hy hz = hx
  tested-IsRouted true true x y z hx hy hz = hy
  tested-IsRouted true false x y z hx hy hz = hz refl

module _ {W : Type 0} (post : Post W) (first_url : Bytes) (ps : List PartitionNodeConfig)
    (token_index : ℤ) (mode : Bytes) where
  after_call-IsRouted :
      (p : PartitionNodeConfig) (url : Bytes)
      (next : DliFrame → W → List GenerationStepTrace → Pass W) (steps : List GenerationStepTrace)
      (call : W × Result LoopError StageClientResult)
      → IsRouted call.1
      → ((frame : DliFrame) (w : W) (done : List GenerationStepTrace)
          → is_terminal_partition p ≡ false
          → IsRouted (next frame w done).outcome)
      → IsRouted (after_call token_index mode p url next steps call).outcome
  after_call-IsRouted p url next steps (w, err e) c h = c
  after_call-IsRouted p url next steps (w, ok a) c h =
      tested-IsRouted (is_success a.http_status) (is_terminal_partition p) _ _ _ tt tt
        (λ n. h a.response_frame w _ n)

  decoded-IsRouted :
      (body : Bytes) (response : HttpClientResponse) (d : Result ProtocolError DliFrame)
      → IsRouted (decoded body response d)
  decoded-IsRouted body response (ok frame) = tt
  decoded-IsRouted body response (err e) = tt

  received-IsRouted :
      (body : Bytes) (answer : Result Bytes HttpClientResponse) → IsRouted (received body answer)
  received-IsRouted body (err text) = tt
  received-IsRouted body (ok response) =
      if_either IsRouted (is_success response.status_code) _ _
        (decoded-IsRouted body response (decode_frame response.body)) tt

  sent-IsRouted :
      (url : Bytes) (e : Result ProtocolError Bytes) (w : W) → IsRouted (sent post url e w).1
  sent-IsRouted url (err e) w = tt
  sent-IsRouted url (ok body) w = received-IsRouted body (post url body w).1

  pub forward_frame-IsRouted :
      (url : Bytes) (frame : DliFrame) (w : W) → IsRouted (forward_frame post url frame w).1
  unfolding forward_frame
  forward_frame-IsRouted url frame w = sent-IsRouted url (encode_frame frame) w

  pub route_from-IsRouted :
      (i : ℕ) (url : Bytes) (rest : List PartitionNodeConfig) (frame : DliFrame) (w : W)
      (steps : List GenerationStepTrace)
      → IsFrom ps i rest
      → ((p : PartitionNodeConfig)
          → get_elem? rest 0 ≡ some p
          → stage_url_for_partition first_url ps i ≡ ok url)
      → HasTerminal rest
      → IsRouted (route_from post first_url ps token_index mode i rest frame w steps).outcome
  unfolding route_from
  route_from-IsRouted i url [] frame w steps f u t = absurd t
  route_from-IsRouted i url (p ∷ rest) frame w steps f u t = rw (u p refl) (
      after_call-IsRouted p url (route_from post first_url ps token_index mode (suc i) rest) steps
        (forward_frame post url frame w) (forward_frame-IsRouted url frame w)
        (λ frame' w' done n.
          route_from-IsRouted (suc i) p.next_stage_url rest frame' w' done
            (IsFrom-next ps i p rest f)
            (λ q e.
              next_url first_url ps i p q (head_at ps i (p ∷ rest) f)
                (head_at ps (suc i) rest (IsFrom-next ps i p rest f) ∙ e) n)
            (later p rest t n)))
    where
      later :
          (p : PartitionNodeConfig) (rest : List PartitionNodeConfig)
          → HasTerminal (p ∷ rest)
          → is_terminal_partition p ≡ false
          → HasTerminal rest
      later p rest (inl y) n = absurd (cc)
      later p rest (inr t) n = t
