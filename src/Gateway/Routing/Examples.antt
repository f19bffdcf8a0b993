-- ===== src/Gateway/Routing/Examples.antt =====
-- Passes over a map of two stages, with a transport that answers every call with an empty frame.
use distributed_layer_infere.Common.{
  ℕ, suc, ◌≡◌, refl, false, List, [], ◌∷◌, ◌++◌, ok, Bytes, codes, pos,
}
use distributed_layer_infere.Protocol.{
  DliFrame, encode_frame, decode_frame, decode_frame_at, frame_bytes, append_u64_rounds,
  read_u64_rounds, magic_matches, read_u32_le, read_u64_le, append_u32_le, append_u64_le,
}
use distributed_layer_infere.Gateway.Graph.Examples.{first, last, stages, stages_valid}
use distributed_layer_infere.Gateway.Routing.{
  StageClientResult, Post, Pass, no_frame, forward_frame, stage_url_for_partition, route_from,
  forward_through_partition_graph,
}
use distributed_layer_infere.Gateway.Routing.Routed.{IsRouted}
use distributed_layer_infere.Gateway.Routing.Urls.{route, urls, logged}
use distributed_layer_infere.Gateway.Routing.Valid.{
  forward_through_partition_graph-urls, forward_through_partition_graph-IsRouted,
}

-- A transport that counts its calls and refuses them with status 503.
abbrev busy : Post ℕ
busy url body n = (
  suc n,
  ok (record {
    status_code = pos 503;
    reason = codes "Service Unavailable";
    headers = [];
    body = [];
  }),
)

forward_through_partition_graph-IsRouted_example :
    IsRouted
      (forward_through_partition_graph busy false
        (codes "http://a:1/")
        stages
        no_frame
        (pos 0)
        (codes "prefill")
        0
        []).outcome
forward_through_partition_graph-IsRouted_example =
    forward_through_partition_graph-IsRouted busy (codes "http://a:1/") no_frame (pos 0)
      (codes "prefill") 0 [] false stages (pos 3) stages_valid

-- A transport that sends every frame back.
abbrev echo : Post ℕ
echo url body n =
    (suc n, ok (record { status_code = pos 200; reason = codes "OK"; headers = []; body = body }))

abbrev frame : DliFrame
frame = record { metadata_json = codes "{}"; tensor_bytes = 7 ∷ [] }

abbrev echoed : StageClientResult
echoed = record {
  http_status = pos 200;
  http_reason = codes "OK";
  response_frame = frame;
  request_body_bytes = 23;
  response_body_bytes = 23;
  transport_payload_bytes = 46;
  error_body = [];
}

forward_frame-echo :
    (n : ℕ) (calls : List Bytes) (url : Bytes)
    → forward_frame (logged echo) url frame (n, calls) ≡ ((suc n, calls ++ (url ∷ [])), ok echoed)
unfolding forward_frame encode_frame decode_frame decode_frame_at frame_bytes append_u32_le
    append_u64_le append_u64_rounds magic_matches read_u32_le read_u64_le read_u64_rounds
forward_frame-echo n calls url = refl

abbrev echo_pass : Pass (ℕ × List Bytes)
echo_pass =
    forward_through_partition_graph (logged echo) false (codes "http://a:1/") stages frame (pos 0)
      (codes "prefill") (0, []) []

both_answered : echo_pass.outcome ≡ ok echoed
unfolding forward_through_partition_graph route_from stage_url_for_partition
both_answered =
    rw
      (
        forward_frame-echo 0 [] (codes "http://a:1/"),
        forward_frame-echo 1 (codes "http://a:1/" ∷ [])
            (codes "http://stage-2:8000/forward-binary"),
      )
      refl

forward_through_partition_graph-urls_example :
    (echo_pass.world.1 ≡ codes "http://a:1/" ∷ codes "http://stage-2:8000/forward-binary" ∷ [])
    × (urls echo_pass.steps ≡ codes "http://a:1/" ∷ codes "http://stage-2:8000/forward-binary" ∷ [])
forward_through_partition_graph-urls_example =
    forward_through_partition_graph-urls echo (codes "http://a:1/") frame (pos 0) (codes "prefill")
      (0, []) [] stages echoed both_answered

-- The terminal stage may stand first in a valid map: a pass calls that stage alone.
misordered_route : route (codes "http://a:1/") (last ∷ first ∷ []) ≡ codes "http://a:1/" ∷ []
misordered_route = refl
