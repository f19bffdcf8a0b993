-- ===== src/Gateway/Config/Kept.antt =====
-- What the reader of the gateway keeps from line to line: load_gateway_config_from_file of
-- src/native/dli_gateway_cpp/src/config.cpp.
use distributed_layer_infere.Common.{
  ℕ, ◌≡◌, refl, sym, ◌∙◌, arith, Bool, true, false, not, ◌&&◌, if◌then◌else◌, if_either, Bool-cases,
  inl, inr, leb, All, All-snoc, Result, ok, err, ◌>>=◌, Bytes, codes, is_empty, starts_with, drop,
  pos, ltb_ℤ, ◌<ℤ◌,
}
use mathlib.Core.Path.{subst}
use distributed_layer_infere.Yaml.{
  ConfigError, trim_copy, parse_stage_id_from_list_item, is_stage_list_item, stoi,
}
use distributed_layer_infere.Gateway.Config.{PartitionNodeConfig}
use distributed_layer_infere.Gateway.Config.Reader.{
  GatewayReader, default_partition_id, named_partition, pushed, finish_partition_if_valid,
  partition_field, with_layer, listed_layer, partition_component, outside_components, inner_line,
  partition_line, new_partition, begun, stages_line,
}

-- A partition as it is kept: numbered from 1, with a name and a service.
pub record IsEntry (p : PartitionNodeConfig) : Type 0 where
  pub numbered : pos 0 <ℤ p.stage_id
  pub named : is_empty p.partition_id ≡ false
  pub served : is_empty p.service_name ≡ false

named_partition-named :
    (p : PartitionNodeConfig) → is_empty (named_partition p).partition_id ≡ false
unfolding default_partition_id
named_partition-named p = elim (Bool-cases (is_empty p.partition_id)) [
  | inl e ↦ rw e refl
  | inr e ↦ rw (e, e) refl
]

module _ (path : Bytes) where
  pub record IsFrom (r : GatewayReader) : Type 0 where
    pub same_path : r.config.config_path ≡ path
    pub entries : All IsEntry r.config.partitions

  unfoldable pub IsFromOk : Result ConfigError GatewayReader → Type 0
  IsFromOk (ok r) = IsFrom r
  IsFromOk (err e) = Unit {0}

  -- What changes neither the path nor the list of partitions.
  pub kept :
      (r r' : GatewayReader)
      → r'.config.config_path ≡ r.config.config_path
      → r'.config.partitions ≡ r.config.partitions
      → IsFrom r
      → IsFrom r'
  kept r r' e f h = record {
    same_path = e ∙ h.same_path;
    entries = subst (All IsEntry) (sym f) h.entries;
  }

  pub kept_ok :
      (r r' : GatewayReader)
      → r'.config.config_path ≡ r.config.config_path
      → r'.config.partitions ≡ r.config.partitions
      → IsFrom r
      → IsFromOk (ok r')
  unfolding IsFromOk
  kept_ok r r' e f h = kept r r' e f h

  pub then_ok :
      {A : Type 0} (o : Result ConfigError A) (next : A → GatewayReader)
      → ((a : A) → IsFrom (next a))
      → IsFromOk (o >>= λ a. ok (next a))
  unfolding IsFromOk
  then_ok (ok a) next h = h a
  then_ok (err e) next h = tt

  pub then_next :
      (o : Result ConfigError GatewayReader)
      (next : GatewayReader → Result ConfigError GatewayReader)
      → IsFromOk o
      → ((r : GatewayReader) → IsFrom r → IsFromOk (next r))
      → IsFromOk (o >>= next)
  unfolding IsFromOk
  then_next (ok r) next h sound = sound r h
  then_next (err e) next h sound = tt

  finish_named-IsFrom :
      (r : GatewayReader) (p : PartitionNodeConfig) (b : Bool)
      → is_empty p.service_name ≡ b
      → pos 0 <ℤ p.stage_id
      → is_empty p.partition_id ≡ false
      → IsFrom r
      → IsFromOk
          (if b then err (ConfigError.missing_service_name p.partition_id) else ok (pushed r p))
  unfolding IsFromOk
  finish_named-IsFrom r p true e n m h = tt
  finish_named-IsFrom r p false e n m h = record {
    same_path = h.same_path;
    entries =
        All-snoc IsEntry r.config.partitions p h.entries
          (record { numbered = n; named = m; served = e });
  }

  pub finish-IsFrom : (r : GatewayReader) → IsFrom r → IsFromOk (finish_partition_if_valid r)
  unfolding finish_partition_if_valid
  finish-IsFrom r h =
      if_either IsFromOk (not r.inside_current_partition) _ _ (kept_ok r r refl refl h)
        (elim (Bool-cases (ltb_ℤ (pos 0) r.current_partition.stage_id)) [
          | inl y ↦ rw y (
              finish_named-IsFrom r (named_partition r.current_partition) _ refl (ground arith)
                (named_partition-named r.current_partition) h)
          | inr y ↦ rw y (unfold IsFromOk in tt)
        ])

  layer-IsFrom :
      (trimmed : Bytes) (r : GatewayReader) → IsFrom r → IsFromOk (listed_layer trimmed r)
  layer-IsFrom trimmed r h =
      if_either IsFromOk (is_empty (trim_copy (drop 1 trimmed))) _ _ (kept_ok r r refl refl h)
        (then_ok (stoi (trim_copy (drop 1 trimmed))) (with_layer r) (λ n. kept r _ refl refl h))

  component-IsFrom :
      (trimmed : Bytes) (r : GatewayReader) → IsFrom r → IsFromOk (partition_component trimmed r)
  component-IsFrom trimmed r h =
      if_either IsFromOk (starts_with trimmed (codes "embedding:")) _ _ (kept_ok r _ refl refl h) (
        if_either IsFromOk (starts_with trimmed (codes "norm:")) _ _ (kept_ok r _ refl refl h) (
          if_either IsFromOk (starts_with trimmed (codes "lm_head:")) _ _ (kept_ok r _ refl refl h)
            (if_either IsFromOk (starts_with trimmed (codes "layers:")) _ _
              (kept_ok r _ refl refl h)
              (if_either IsFromOk (r.inside_layers && starts_with trimmed (codes "-")) _ _
                (layer-IsFrom trimmed r h) (kept_ok r r refl refl h)))))

  field-IsFrom :
      (trimmed : Bytes) (r : GatewayReader) → IsFrom r → IsFrom (partition_field trimmed r)
  field-IsFrom trimmed r h =
      let both = if_either IsFrom in
      let same : (r' : GatewayReader)
          → r'.config.config_path ≡ r.config.config_path
          → r'.config.partitions ≡ r.config.partitions
          → IsFrom r' =
        λ r' e f. kept r r' e f h in
      both (starts_with trimmed (codes "partition_id:")) _ _ (same _ refl refl) (
        both (starts_with trimmed (codes "service_name:")) _ _ (same _ refl refl) (
          both (starts_with trimmed (codes "physical_node:")) _ _ (same _ refl refl) (
            both (starts_with trimmed (codes "partition_file:")) _ _ (same _ refl refl) (
              both (starts_with trimmed (codes "native_partition_file:")) _ _ (same _ refl refl) (
                both (starts_with trimmed (codes "backend:")) _ _ (same _ refl refl) (
                  both (starts_with trimmed (codes "next_stage_url:")) _ _ (same _ refl refl)
                    h))))))

  inner-IsFrom : (trimmed : Bytes) (r : GatewayReader) → IsFrom r → IsFromOk (inner_line trimmed r)
  inner-IsFrom trimmed r h =
      if_either IsFromOk (not r.inside_components) _ _
        (kept_ok (partition_field trimmed r) _ refl refl (field-IsFrom trimmed r h))
        (component-IsFrom trimmed r h)

  partition-IsFrom :
      (indent : ℕ) (trimmed : Bytes) (r : GatewayReader)
      → IsFrom r
      → IsFromOk (partition_line indent trimmed r)
  partition-IsFrom indent trimmed r h =
      if_either IsFromOk (starts_with trimmed (codes "components:")) _ _ (kept_ok r _ refl refl h) (
        inner-IsFrom trimmed
          (if r.inside_components && leb indent 2 then outside_components r else r)
          (if_either IsFrom (r.inside_components && leb indent 2) (outside_components r) r
            (kept r _ refl refl h) h))

  pub stages-IsFrom :
      (indent : ℕ) (trimmed : Bytes) (r : GatewayReader)
      → IsFrom r
      → IsFromOk (stages_line indent trimmed r)
  stages-IsFrom indent trimmed r h =
      if_either IsFromOk (not r.inside_inference_stages) _ _ (kept_ok r r refl refl h) (
        if_either IsFromOk (is_stage_list_item trimmed) _ _
          (then_next (finish_partition_if_valid r) (begun trimmed) (finish-IsFrom r h) (λ r' h'.
            then_ok (parse_stage_id_from_list_item trimmed) (new_partition r')
              (λ n. kept r' _ refl refl h')))
          (if_either IsFromOk (not r.inside_current_partition) _ _ (kept_ok r r refl refl h)
            (partition-IsFrom indent trimmed r h)))
