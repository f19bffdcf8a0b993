-- ===== src/Yaml.antt =====
-- What both readers of the stage map do with a line: trim_copy, indent_width, value_after_colon,
-- parse_bool_value and the stage list items of src/native/dli_stage_cpp/src/config.cpp, which
-- src/native/dli_gateway_cpp/src/config.cpp repeats word for word.
use distributed_layer_infere.Common.{
  ℕ, suc, Bool, ◌&&◌, ◌||◌, if◌then◌else◌, ◌==◌, Option, none, some, [], ◌∷◌, Result, ok, err,
  Bytes, codes, eqb, is_empty, starts_with, ℤ, stoi_prefix,
}
use distributed_layer_infere.Http.Text.{cut_at}
use distributed_layer_infere.Gateway.Config.{GraphError}

-- The exceptions of either reader, and what std::stoi throws; a file that cannot be opened is
-- `not_opened`.
pub data ConfigError : Type 0 where
  not_opened : Bytes → ConfigError
  missing_stage_id invalid_integer : ConfigError
  stage_not_found : ℤ → Bytes → ConfigError
  invalid_stage_id : ConfigError
  missing_service_name invalid_gateway_port : Bytes → ConfigError
  invalid_partition_graph : Option GraphError → ConfigError

abbrev is_blank : ℕ → Bool
is_blank c = c == 32 || c == 9

unfoldable pub trim_left : Bytes → Bytes
trim_left [] = []
trim_left (c ∷ cs) = let rest = trim_left cs in if is_blank c then rest else c ∷ cs

unfoldable pub trim_right : Bytes → Bytes
trim_right [] = []
trim_right (c ∷ cs) =
    let rest = trim_right cs in if (is_blank c || c == 13) && is_empty rest then [] else c ∷ rest

abbrev pub trim_copy : Bytes → Bytes
trim_copy value = trim_right (trim_left value)

unfoldable pub indent_width : Bytes → ℕ
indent_width [] = 0
indent_width (c ∷ cs) = let rest = indent_width cs in if c == 32 then suc rest else 0

-- What stands between a quote at the front and the same one at the back.
abbrev without_last : ℕ → Bytes → Option Bytes
without_last q [] = none
without_last q (c ∷ []) = if c == q then some [] else none
without_last q (c ∷ d ∷ cs) = elim (without_last q (d ∷ cs)) [
  | none ↦ none
  | some front ↦ some (c ∷ front)
]

abbrev or_whole : Bytes → Option Bytes → Bytes
or_whole value none = value
or_whole value (some inner) = inner

unfoldable pub unquoted : ℕ → Bytes → Bytes
unquoted q [] = []
unquoted q (c ∷ cs) = if c == q then or_whole (c ∷ cs) (without_last q cs) else c ∷ cs

abbrev value_of : Option (Bytes × Bytes) → Bytes
value_of none = []
value_of (some (key, text)) =
    let value = trim_copy text in
    if eqb value (codes "null") then [] else unquoted b'\'' (unquoted b'"' value)

unfoldable pub value_after_colon : Bytes → Bytes
value_after_colon line = value_of (cut_at b':' line)

unfoldable pub parse_bool_value : Bytes → Bool
parse_bool_value value =
    eqb value (codes "true")
    || eqb value (codes "True")
    || eqb value (codes "yes")
    || eqb value (codes "1")

abbrev pub is_stage_list_item : Bytes → Bool
is_stage_list_item trimmed = starts_with trimmed (codes "- stage_id:")

abbrev pub stoi : Bytes → Result ConfigError ℤ
stoi text = elim (stoi_prefix text) [ none ↦ err invalid_integer | some z ↦ ok z ]

unfoldable pub parse_stage_id_from_list_item : Bytes → Result ConfigError ℤ
parse_stage_id_from_list_item trimmed =
    let value = value_after_colon trimmed in
    let number = stoi value in if is_empty value then err missing_stage_id else number
