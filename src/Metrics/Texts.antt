-- ===== src/Metrics/Texts.antt =====
-- Chain metrics in the metadata of a frame: how src/native/dli_common_cpp/src/metrics.cpp reads them
-- and puts them in. Its std::regex_replace with an empty text takes the matches out.
use distributed_layer_infere.Common.{
  ℕ, zero, suc, ◌-◌, Bool, false, not, ◌&&◌, if◌then◌else◌, ◌==◌, Option, none, some, List, [], ◌∷◌,
  ◌++◌, length, drop, Bytes, codes, decimal, is_empty, skip_spaces,
}
use distributed_layer_infere.Http.Text.{cut_at_last}
use distributed_layer_infere.Metadata.{or_else, behind_key, after_key}
use distributed_layer_infere.Metadata.Request.{Double, double_at}
use distributed_layer_infere.Metrics.{
  StageMetrics, ChainMetrics, plus_u64, positive_part, extract_number_field, extract_u64_field,
  metadata_has_chain_metrics, merge_chain_metrics_values,
}

-- What stands behind `\{[^{}]*\}` at this position.
abbrev pub behind_brace : Bytes → Option Bytes
behind_brace [] = none
behind_brace (c ∷ cs) =
    let rest = behind_brace cs in if c == b'}' then some cs else if c == b'{' then none else rest

abbrev behind_object : Bytes → Option Bytes
behind_object [] = none
behind_object (c ∷ cs) = if c == b'{' then behind_brace cs else none

abbrev dropped : Bytes → Option Bytes → Option Bytes
dropped s none = none
dropped s (some text) = some (drop (length text) s)

abbrev behind_number : Bytes → Option Bytes
behind_number s = dropped s (double_at s)

-- The three patterns: behind a comma, before a comma, and alone.
abbrev behind_comma : Bytes → Option Bytes
behind_comma [] = none
behind_comma (c ∷ cs) = if c == b',' then some cs else none

abbrev comma_after : Option Bytes → Option Bytes
comma_after none = none
comma_after (some s) = behind_comma (skip_spaces s)

abbrev after_comma : (Bytes → Option Bytes) → Option Bytes → Option Bytes
after_comma pattern none = none
after_comma pattern (some s) = pattern (skip_spaces s)

-- Characters of a match are still to be passed over, or the text is looked at here.
abbrev pub passed_over : ℕ → Option Bytes → Option ℕ
passed_over size none = none
passed_over size (some rest) = some (size - length rest)

unfoldable pub remove_all : (Bytes → Option Bytes) → ℕ → Bytes → Bytes
remove_all pattern skip [] = []
remove_all pattern (suc skip) (c ∷ cs) = remove_all pattern skip cs
remove_all pattern zero (c ∷ cs) = elim (passed_over (length cs) (pattern (c ∷ cs))) [
  | none ↦ c ∷ remove_all pattern 0 cs
  | some skip ↦ remove_all pattern skip cs
]

unfoldable pub remove_field : (Bytes → Option Bytes) → Bytes → Bytes → Bytes
remove_field value key json =
    let field : Bytes → Option Bytes = λ s. behind_key value (after_key key s) in
    let middle = remove_all (λ s. after_comma field (behind_comma s)) 0 json in
    let first = remove_all (λ s. comma_after (field s)) 0 middle in remove_all field 0 first

abbrev remove_object_field : Bytes → Bytes → Bytes
remove_object_field = remove_field behind_object

abbrev remove_number_fields : List Bytes → Bytes → Bytes
remove_number_fields [] json = json
remove_number_fields (key ∷ keys) json =
    remove_number_fields keys (remove_field behind_number key json)

unfoldable pub remove_chain_metric_fields : Bytes → Bytes
remove_chain_metric_fields json =
    remove_number_fields
      (codes "chain_compute_time_ms"
        ∷ codes "chain_rpc_wall_time_ms"
        ∷ codes "chain_true_comm_ms"
        ∷ codes "chain_transport_payload_bytes"
        ∷ codes "chain_stage_count"
        ∷ codes "chain_hops"
        ∷ codes "ccm"
        ∷ codes "crw"
        ∷ codes "ctc"
        ∷ codes "cpb"
        ∷ codes "csc"
        ∷ [])
      (remove_object_field (codes "chain_metrics") json)

abbrev or_initial : {A : Type 0} → A → Option A → A
or_initial a none = a
or_initial a (some b) = b

-- The first alias that is there.
abbrev first_of : {A : Type 0} → (Bytes → Option A) → List Bytes → Option A
first_of extract [] = none
first_of extract (key ∷ keys) = or_else (extract key) (first_of extract keys)

module _ {D : Type 0} (double : Double D) where
  abbrev chain_metrics_json : ChainMetrics D → Bytes
  chain_metrics_json metrics =
      codes "\"chain_metrics\":{\"compute_ms\":"
      ++ double.streamed metrics.compute_ms
      ++ codes ",\"rpc_wall_ms\":"
      ++ double.streamed metrics.rpc_wall_ms
      ++ codes ",\"true_comm_ms\":"
      ++ double.streamed metrics.true_comm_ms
      ++ codes ",\"transport_payload_bytes\":"
      ++ decimal metrics.transport_payload_bytes
      ++ codes ",\"stage_count\":"
      ++ decimal metrics.stage_count
      ++ codes "},\"chain_compute_time_ms\":"
      ++ double.streamed metrics.compute_ms
      ++ codes ",\"chain_rpc_wall_time_ms\":"
      ++ double.streamed metrics.rpc_wall_ms
      ++ codes ",\"chain_true_comm_ms\":"
      ++ double.streamed metrics.true_comm_ms
      ++ codes ",\"chain_transport_payload_bytes\":"
      ++ decimal metrics.transport_payload_bytes
      ++ codes ",\"chain_stage_count\":"
      ++ decimal metrics.stage_count
      ++ codes ",\"chain_hops\":"
      ++ decimal metrics.stage_count

  -- Fields of a terminal stage that has no chain metrics.
  abbrev own_metrics : Bytes → ChainMetrics D → ChainMetrics D
  own_metrics json out = record {
    compute_ms =
        or_initial out.compute_ms (extract_number_field double json (codes "compute_time_ms"));
    rpc_wall_ms =
        or_initial out.rpc_wall_ms (extract_number_field double json (codes "rpc_wall_time_ms"));
    true_comm_ms =
        or_initial out.true_comm_ms (extract_number_field double json (codes "true_comm_ms"));
    transport_payload_bytes =
        plus_u64
          (plus_u64 out.transport_payload_bytes
            (or_initial 0 (extract_u64_field double json (codes "input_tensor_bytes"))))
          (or_initial 0 (extract_u64_field double json (codes "output_tensor_bytes")));
    stage_count = 1;
  }

  -- The corrections at the end.
  abbrev corrected : ChainMetrics D → ChainMetrics D
  corrected out =
      let wall =
        if double.at_most out.rpc_wall_ms double.nought && double.less double.nought out.compute_ms
        then out.compute_ms
        else out.rpc_wall_ms in
      record {
        compute_ms = out.compute_ms;
        rpc_wall_ms = wall;
        true_comm_ms =
            if double.at_most out.true_comm_ms double.nought
            then positive_part double (double.minus wall out.compute_ms)
            else out.true_comm_ms;
        transport_payload_bytes = out.transport_payload_bytes;
        stage_count = if out.stage_count == 0 then 1 else out.stage_count;
      }

  unfoldable pub extract_chain_metrics_from_metadata : Bytes → ChainMetrics D
  extract_chain_metrics_from_metadata json =
      let number : List Bytes → D =
        λ keys. or_initial double.nought (first_of (extract_number_field double json) keys) in
      let counter : List Bytes → ℕ =
        λ keys. or_initial 0 (first_of (extract_u64_field double json) keys) in
      let out : ChainMetrics D = record {
        compute_ms = number (codes "compute_ms" ∷ codes "chain_compute_time_ms" ∷ codes "ccm" ∷ []);
        rpc_wall_ms =
            number (codes "rpc_wall_ms" ∷ codes "chain_rpc_wall_time_ms" ∷ codes "crw" ∷ []);
        true_comm_ms =
            number (codes "true_comm_ms" ∷ codes "chain_true_comm_ms" ∷ codes "ctc" ∷ []);
        transport_payload_bytes = counter (
            codes "transport_payload_bytes"
            ∷ codes "chain_transport_payload_bytes"
            ∷ codes "cpb"
            ∷ []);
        stage_count = counter (
            codes "stage_count"
            ∷ codes "chain_stage_count"
            ∷ codes "chain_hops"
            ∷ codes "csc"
            ∷ []);
      } in
      corrected (if not (metadata_has_chain_metrics json) then own_metrics json out else out)

  abbrev ends_open : Bytes → Bool
  ends_open [] = false
  ends_open (c ∷ []) = c == b'{'
  ends_open (c ∷ d ∷ cs) = ends_open (d ∷ cs)

  -- Before the last brace, with a comma if something other than an opening brace stands there.
  abbrev inserted : Bytes → ChainMetrics D → Option (Bytes × Bytes) → Bytes
  inserted json metrics none = json
  inserted json metrics (some (front, back)) =
      let comma = if not (is_empty front) && not (ends_open front) then codes "," else [] in
      front ++ comma ++ chain_metrics_json metrics ++ (b'}' ∷ back)

  unfoldable pub put_chain_metrics_in_metadata : Bytes → ChainMetrics D → Bytes
  put_chain_metrics_in_metadata json metrics =
      let stripped = remove_chain_metric_fields json in
      inserted stripped metrics (cut_at_last b'}' stripped)

  unfoldable pub merge_chain_metrics : Bytes → StageMetrics D → D → ℕ → ℕ → Bytes
  merge_chain_metrics json local_metrics downstream_rpc_wall_ms request_bytes response_bytes =
      put_chain_metrics_in_metadata json (
        merge_chain_metrics_values double local_metrics (extract_chain_metrics_from_metadata json)
          downstream_rpc_wall_ms request_bytes response_bytes)
