-- ===== src/Metadata/Examples.antt =====
-- Fields on which the extractors are run.
use distributed_layer_infere.Common.{◌≡◌, some, ◌∷◌, ◌++◌, codes, arith, inl}
use distributed_layer_infere.Json.{json_escape, quote}
use distributed_layer_infere.Metadata.{extract_string_field}
use distributed_layer_infere.Metadata.Fields.{field, extract_string_field-field}

extract_string_field-field_example :
    extract_string_field
      (codes "{" ++ field (codes "rid") (quote ∷ json_escape (codes "a\"b") ++ (quote ∷ codes "}")))
      (codes "rid")
    ≡ some (codes "a\"b")
extract_string_field-field_example =
    extract_string_field-field (codes "{") (codes "rid") (codes "a\"b") (codes "}")
      (omega arith, tt) (inl (omega arith), (inl (omega arith), (inl (omega arith), tt)))
