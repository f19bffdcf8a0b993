-- ===== src/Gateway/Config/Loaded.antt =====
-- What a loaded configuration promises: load_gateway_config_from_file of
-- src/native/dli_gateway_cpp/src/config.cpp.
use distributed_layer_infere.Common.{
  ℕ, ◌≡◌, refl, arith, Bool, false, not, ◌&&◌, if◌then◌else◌, if_either, Bool-cases, inl, inr, ◌==◌,
  Option, none, some, List, [], ◌∷◌, All, Result, ok, err, ◌>>=◌, Bytes, codes, starts_with, ℤ,
  stoi_prefix,
}
use mathlib.Core.Path.{subst}
use distributed_layer_infere.Http.Text.{lines}
use distributed_layer_infere.Yaml.{ConfigError, trim_copy, indent_width, value_after_colon, stoi}
use distributed_layer_infere.Gateway.Config.{GatewayConfig}
use distributed_layer_infere.Gateway.Graph.{validate_partition_graph}
use distributed_layer_infere.Gateway.Graph.Correct.{IsSplit, validate_partition_graph_iff}
use distributed_layer_infere.Gateway.Config.Reader.{GatewayReader, finish_partition_if_valid}
use distributed_layer_infere.Gateway.Config.Sections.{
  port_line, gateway_line, gateway_section, stages_section, stages_left, section_line,
  read_gateway_line, read_gateway_lines, initial_gateway, validated, load_gateway_config_from_file,
}
use distributed_layer_infere.Gateway.Config.Kept.{
  IsEntry, IsFrom, IsFromOk, kept, kept_ok, then_ok, then_next, finish-IsFrom, stages-IsFrom,
}

module _ (path : Bytes) where
  port-IsFrom :
      (value : Bytes) (r : GatewayReader) (o : Option ℤ)
      → IsFrom path r
      → IsFromOk path (port_line value r o)
  unfolding IsFromOk
  port-IsFrom value r none h = tt
  port-IsFrom value r (some port) h = kept path r _ refl refl h

  gateway-IsFrom :
      (indent : ℕ) (trimmed : Bytes) (r : GatewayReader)
      → IsFrom path r
      → IsFromOk path (gateway_line indent trimmed r)
  gateway-IsFrom indent trimmed r h =
      let other = stages-IsFrom path indent trimmed r h in
      if_either (IsFromOk path) (not r.inside_gateway) _ _ other (
        if_either (IsFromOk path) (starts_with trimmed (codes "service_name:")) _ _
          (kept_ok path r _ refl refl h)
          (if_either (IsFromOk path) (starts_with trimmed (codes "first_stage_url:")) _ _
            (kept_ok path r _ refl refl h)
            (if_either (IsFromOk path) (starts_with trimmed (codes "port:")) _ _
              (port-IsFrom (value_after_colon trimmed) r (stoi_prefix (value_after_colon trimmed))
                h)
              other)))

  closed-IsFrom :
      (b : Bool) (r : GatewayReader)
      → IsFrom path r
      → IsFrom path (if b then record r { inside_gateway = false } else r)
  closed-IsFrom b r h =
      if_either (IsFrom path) b (record r { inside_gateway = false }) r (kept path r _ refl refl h)
        h

  finished :
      (r : GatewayReader) (next : GatewayReader → GatewayReader)
      → IsFrom path r
      → ((r' : GatewayReader) → IsFrom path r' → IsFrom path (next r'))
      → IsFromOk path (finish_partition_if_valid r >>= λ r'. ok (next r'))
  unfolding IsFromOk
  finished r next h sound =
      then_next path (finish_partition_if_valid r) (λ r'. ok (next r')) (finish-IsFrom path r h)
        sound

  section-IsFrom :
      (indent : ℕ) (trimmed : Bytes) (r : GatewayReader)
      → IsFrom path r
      → IsFromOk path (section_line indent trimmed r)
  unfolding section_line
  section-IsFrom indent trimmed r h =
      let both = if_either (IsFromOk path) in
      let plain : (r' : GatewayReader)
          → r'.config.config_path ≡ r.config.config_path
          → r'.config.partitions ≡ r.config.partitions
          → IsFromOk path (ok r') =
        λ r' e f. kept_ok path r r' e f h in
      both (indent == 0 && starts_with trimmed (codes "model_name:")) _ _ (plain _ refl refl) (
        both (indent == 0 && starts_with trimmed (codes "model_path:")) _ _ (plain _ refl refl) (
          both (indent == 0 && starts_with trimmed (codes "num_layers:")) _ _
            (then_ok path (stoi (value_after_colon trimmed)) _ (λ n. kept path r _ refl refl h))
            (both (indent == 0 && starts_with trimmed (codes "inference_gateway:")) _ _
              (plain (gateway_section indent r) refl refl)
              (both (indent == 0 && starts_with trimmed (codes "inference_stages:")) _ _
                (finished r stages_section h (λ r' h'. kept path r' _ refl refl h'))
                (both _ _ _ (finished r stages_left h (λ r' h'. kept path r' _ refl refl h'))
                  (gateway-IsFrom indent trimmed _ (closed-IsFrom _ r h)))))))

  line-IsFrom :
      (line : Bytes) (r : GatewayReader) → IsFrom path r → IsFromOk path (read_gateway_line line r)
  unfolding read_gateway_line
  line-IsFrom line r h =
      if_either (IsFromOk path) _ _ _ (kept_ok path r r refl refl h)
        (section-IsFrom (indent_width line) (trim_copy line) r h)

  lines-IsFrom :
      (ls : List Bytes) (r : GatewayReader)
      → IsFrom path r
      → IsFromOk path (read_gateway_lines ls r)
  unfolding read_gateway_lines
  lines-IsFrom [] r h = kept_ok path r r refl refl h
  lines-IsFrom (l ∷ ls) r h =
      then_next path (read_gateway_line l r) (read_gateway_lines ls) (line-IsFrom l r h)
        (lines-IsFrom ls)

  pub record IsGatewayConfig (c : GatewayConfig) : Type 0 where
    pub same_path : c.config_path ≡ path
    pub entries : All IsEntry c.partitions
    pub validation : c.partition_validation ≡ validate_partition_graph c.partitions c.num_layers
    pub split : IsSplit c.partitions c.num_layers

  validated-IsGatewayConfig :
      (r : GatewayReader) (c : GatewayConfig)
      → IsFrom path r
      → validated r ≡ ok c
      → IsGatewayConfig c
  validated-IsGatewayConfig r c h e =
      let found = validate_partition_graph r.config.partitions r.config.num_layers in
      elim (Bool-cases found.valid) [
        | inr bad ↦ absurd (ground (arith, bad))
        | inl valid ↦
            let same : record r.config { partition_validation = found } ≡ c =
              ground (arith, valid) in
            subst IsGatewayConfig same (record {
              same_path = h.same_path;
              entries = h.entries;
              validation = refl;
              split =
                  (validate_partition_graph_iff r.config.partitions r.config.num_layers).0 valid;
            })
      ]

  concluded :
      (o : Result ConfigError GatewayReader) (c : GatewayConfig)
      → IsFromOk path o
      → (o >>= validated) ≡ ok c
      → IsGatewayConfig c
  unfolding IsFromOk
  concluded (ok r) c h e = validated-IsGatewayConfig r c h e
  concluded (err x) c h e = absurd (cc)

  -- A configuration that load_gateway_config_from_file returns names this file; each of its
  -- partitions has a positive stage id, a name and a service; its validation is the outcome of
  -- validate_partition_graph on what it holds, and its partitions split its layers: one embedding
  -- owner, one lm_head owner, one terminal partition, no layer twice, none below num_layers missing.
  pub load_gateway_config_from_file-IsGatewayConfig :
      (file : Option Bytes) (c : GatewayConfig)
      → load_gateway_config_from_file path file ≡ ok c
      → IsGatewayConfig c
  unfolding load_gateway_config_from_file
  load_gateway_config_from_file-IsGatewayConfig none c e = absurd (cc)
  load_gateway_config_from_file-IsGatewayConfig (some content) c e =
      let start : IsFrom path (initial_gateway path) = record { same_path = refl; entries = tt } in
      concluded _ c
        (then_next path (read_gateway_lines (lines content) (initial_gateway path))
          finish_partition_if_valid (lines-IsFrom (lines content) (initial_gateway path) start)
          (finish-IsFrom path))
        e
