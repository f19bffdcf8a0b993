-- ===== src/Gateway/Routing/Valid.antt =====
-- The routing of a whole frame: its order, and no routing error on a valid stage map.
use distributed_layer_infere.Common.{
  ◌<◌, ◌≡◌, inl, inr, refl, ap, arith, Bool, true, false, Bool-cases, List, [], ◌∷◌, ◌++◌,
  get_elem?, Result, ok, err, Bytes, is_empty, ℤ,
}
use distributed_layer_infere.Protocol.{DliFrame}
use distributed_layer_infere.Gateway.Config.{PartitionNodeConfig}
use distributed_layer_infere.Gateway.Graph.{validate_partition_graph}
use distributed_layer_infere.Gateway.Graph.Totals.{total, has_no_next}
use distributed_layer_infere.Gateway.Graph.Correct.{validate_partition_graph_iff}
use distributed_layer_infere.Gateway.Routing.{
  Pass, LoopError, StageClientResult, GenerationStepTrace, Post, forward_frame,
  is_terminal_partition, is_success, stage_url_for_partition, after_chained, pass_of,
  forward_through_partition_graph,
}
use distributed_layer_infere.Gateway.Routing.Urls.{
  route, urls, IsFrom, route_from-urls, seen_in, SeesCalls, steps-SeesCalls, logged,
  calls-SeesCalls,
}
use distributed_layer_infere.Gateway.Routing.Routed.{
  IsRouted, HasTerminal, tested-IsRouted, route_from-IsRouted, forward_frame-IsRouted,
}

whole : (ps : List PartitionNodeConfig) → IsFrom ps 0 ps
whole ps = λ j. ap (get_elem? ps) (omega arith)

HasTerminal-total : (ps : List PartitionNodeConfig) → 0 < total has_no_next ps → HasTerminal ps
HasTerminal-total [] h = absurd (omega arith)
HasTerminal-total (p ∷ ps) h = elim (Bool-cases (is_empty p.next_stage_url)) [
  | inl y ↦ inl (ends p y)
  | inr n ↦ inr (HasTerminal-total ps (rest_counts p n h))
]
  where
    ends :
        (p : PartitionNodeConfig)
        → is_empty p.next_stage_url ≡ true
        → is_terminal_partition p ≡ true
    ends p y = ground arith

    rest_counts :
        (p : PartitionNodeConfig)
        → is_empty p.next_stage_url ≡ false
        → 0 < total has_no_next (p ∷ ps)
        → 0 < total has_no_next ps
    rest_counts p n h = ground arith

start_url :
    (first_url : Bytes) (ps : List PartitionNodeConfig)
    → stage_url_for_partition first_url ps 0 ≡ ok first_url
unfolding stage_url_for_partition
start_url first_url ps = refl

module _ {W : Type 0} (post : Post W) (first_url : Bytes) (frame : DliFrame) (token_index : ℤ)
    (mode : Bytes) (w : W) (steps : List GenerationStepTrace) where
  pass_urls :
      (seen : W → List GenerationStepTrace → List Bytes) (ps : List PartitionNodeConfig)
      (r : StageClientResult)
      → SeesCalls post first_url ps token_index mode seen
      → (forward_through_partition_graph post false first_url ps frame token_index mode w
          steps).outcome
        ≡ ok r
      → seen_in seen
          (forward_through_partition_graph post false first_url ps frame token_index mode w steps)
        ≡ seen w steps ++ route first_url ps
  unfolding forward_through_partition_graph
  pass_urls seen [] r sees o = absurd (cc)
  pass_urls seen (p ∷ rest) r sees o =
      route_from-urls post first_url (p ∷ rest) token_index mode seen 0 first_url (p ∷ rest) frame w
        steps r sees (whole (p ∷ rest)) (λ q e. start_url first_url (p ∷ rest)) o

  after_chained-IsRouted :
      (p : PartitionNodeConfig) (call : W × Result LoopError StageClientResult)
      → IsRouted call.1
      → IsRouted (after_chained token_index mode p first_url steps call).outcome
  after_chained-IsRouted p (w', err e) c = c
  after_chained-IsRouted p (w', ok r) c =
      tested-IsRouted (is_success r.http_status) true _ _ (pass_of w' steps (ok r)) tt tt
        (λ n. absurd (cc))

  terminal-IsRouted :
      (chaining : Bool) (ps : List PartitionNodeConfig)
      → HasTerminal ps
      → IsRouted
          (forward_through_partition_graph post chaining first_url ps frame token_index mode w
            steps).outcome
  unfolding forward_through_partition_graph
  terminal-IsRouted chaining [] t = absurd t
  terminal-IsRouted true (p ∷ rest) t =
      after_chained-IsRouted p (forward_frame post first_url frame w)
        (forward_frame-IsRouted post first_url (p ∷ rest) token_index mode first_url frame w)
  terminal-IsRouted false (p ∷ rest) t =
      route_from-IsRouted post first_url (p ∷ rest) token_index mode 0 first_url (p ∷ rest) frame w
        steps (whole (p ∷ rest)) (λ q e. start_url first_url (p ∷ rest)) t

  -- On a stage map that `validate_partition_graph` accepts no pass, chained or orchestrated, throws
  -- an error of the routing: the graph is not empty, every partition that is reached has a URL,
  -- and a terminal partition is reached. What is left is an error of a stage, of its frame or of
  -- the transport.
  pub forward_through_partition_graph-IsRouted :
      (chaining : Bool) (ps : List PartitionNodeConfig) (num_layers : ℤ)
      → (validate_partition_graph ps num_layers).valid ≡ true
      → IsRouted
          (forward_through_partition_graph post chaining first_url ps frame token_index mode w
            steps).outcome
  forward_through_partition_graph-IsRouted chaining ps num_layers v =
      let split = (validate_partition_graph_iff ps num_layers).0 v in
      terminal-IsRouted chaining ps (HasTerminal-total ps (omega (arith, split.one_terminal)))

module _ {W : Type 0} (post : Post W) (first_url : Bytes) (frame : DliFrame) (token_index : ℤ)
    (mode : Bytes) (w : W × List Bytes) (steps : List GenerationStepTrace) where
  abbrev pub logged_pass : List PartitionNodeConfig → Pass (W × List Bytes)
  logged_pass ps =
      forward_through_partition_graph (logged post) false first_url ps frame token_index mode w
        steps

  -- A pass that the gateway orchestrates, over any post_binary with a log of the URLs that it is
  -- called with, and that returns, has called post_binary, in this order, once with the first
  -- stage's URL and once with the next_stage_url of each partition before the first terminal one,
  -- and with nothing else; the steps it recorded name the same URLs.
  pub forward_through_partition_graph-urls :
      (ps : List PartitionNodeConfig) (r : StageClientResult)
      → (logged_pass ps).outcome ≡ ok r
      → ((logged_pass ps).world.1 ≡ w.1 ++ route first_url ps)
        × (urls (logged_pass ps).steps ≡ urls steps ++ route first_url ps)
  forward_through_partition_graph-urls ps r o = (
    pass_urls (logged post) first_url frame token_index mode w steps (λ x done. x.1) ps r
        (calls-SeesCalls post first_url ps token_index mode) o,
    pass_urls (logged post) first_url frame token_index mode w steps (λ x done. urls done) ps r
        (steps-SeesCalls (logged post) first_url ps token_index mode) o,
  )
