-- ===== src/Stage/Config/Kept.antt =====
-- What a line of the wanted stage leaves as it is: src/native/dli_stage_cpp/src/config.cpp.
use distributed_layer_infere.Common.{
  ℕ, ◌≡◌, refl, ◌∙◌, Bool, not, ◌&&◌, if◌then◌else◌, if_either, leb, Result, ok, err, ◌>>=◌, Bytes,
  codes, is_empty, starts_with, drop, ℤ,
}
use distributed_layer_infere.Yaml.{ConfigError, trim_copy, stoi}
use distributed_layer_infere.Stage.Config.Reader.{
  Reader, stage_field, with_layer, component_field, left_components, field_line, target_line,
}

-- The stage's number, the path, and where in the file the reader stands.
abbrev pub core : Reader → ℤ × (Bytes × (Bool × Bool))
core r =
    (r.config.stage_id, (r.config.config_path, (r.inside_inference_stages, r.inside_target_stage)))

abbrev pub Keeps : Reader → Result ConfigError Reader → Type 0
Keeps r (ok r') = core r' ≡ core r
Keeps r (err e) = Unit {0}

stage_field-core : (trimmed : Bytes) (r : Reader) → core (stage_field trimmed r) ≡ core r
stage_field-core trimmed r =
    let Same : Reader → Type 0 = λ r'. core r' ≡ core r in
    if_either Same (starts_with trimmed (codes "service_name:")) _ _ refl (
      if_either Same (starts_with trimmed (codes "physical_node:")) _ _ refl (
        if_either Same (starts_with trimmed (codes "partition_file:")) _ _ refl (
          if_either Same (starts_with trimmed (codes "native_partition_file:")) _ _ refl (
            if_either Same (starts_with trimmed (codes "backend:")) _ _ refl
              (if_either Same (starts_with trimmed (codes "next_stage_url:")) _ _ refl refl)))))

added-Keeps :
    (r : Reader) (o : Result ConfigError ℤ) → Keeps r (o >>= λ layer. ok (with_layer r layer))
added-Keeps r (ok layer) = refl
added-Keeps r (err e) = tt

component_field-Keeps : (trimmed : Bytes) (r : Reader) → Keeps r (component_field trimmed r)
component_field-Keeps trimmed r =
    if_either (Keeps r) (starts_with trimmed (codes "embedding:")) _ _ refl (
      if_either (Keeps r) (starts_with trimmed (codes "norm:")) _ _ refl (
        if_either (Keeps r) (starts_with trimmed (codes "lm_head:")) _ _ refl (
          if_either (Keeps r) (starts_with trimmed (codes "layers:")) _ _ refl (
            if_either (Keeps r) (r.inside_layers && starts_with trimmed (codes "-")) _ _
              (if_either (Keeps r) (is_empty (trim_copy (drop 1 trimmed))) _ _ refl
                (added-Keeps r (stoi (trim_copy (drop 1 trimmed)))))
              refl))))

field_line-Keeps : (trimmed : Bytes) (r : Reader) → Keeps r (field_line trimmed r)
field_line-Keeps trimmed r =
    if_either (Keeps r) (not r.inside_components) _ _ (stage_field-core trimmed r)
      (component_field-Keeps trimmed r)

moved-Keeps :
    (r r' : Reader) (o : Result ConfigError Reader) → core r' ≡ core r → Keeps r' o → Keeps r o
moved-Keeps r r' (ok x) e k = k ∙ e
moved-Keeps r r' (err x) e k = tt

pub target_line-Keeps :
    (indent : ℕ) (trimmed : Bytes) (r : Reader) → Keeps r (target_line indent trimmed r)
target_line-Keeps indent trimmed r =
    let here = if r.inside_components && leb indent 2 then left_components r else r in
    if_either (Keeps r) (starts_with trimmed (codes "components:")) _ _ refl (
      moved-Keeps r here _
        (if_either (λ r'. core r' ≡ core r) (r.inside_components && leb indent 2)
          (left_components r) r refl refl)
        (field_line-Keeps trimmed here))
