-- ===== src/Json/Examples.antt =====
-- Texts on which the theorems about JSON strings are applied.
use distributed_layer_infere.Common.{◌≡◌, ◌↔◌, ◌++◌, refl, some, [], ◌∷◌, codes, All, Bytes}
use distributed_layer_infere.Json.{json_escape, escape_byte, hex, quote, unescape_json_string}
use distributed_layer_infere.Json.RoundTrip.{
  IsShort, after_quote, unescape-json_escape_iff, after_quote-json_escape,
}

-- say "hi"\n and the control byte 1
abbrev message : Bytes
message = codes "say \"hi\"\n" ++ (1 ∷ [])

escape-message : json_escape message ≡ codes "say \\\"hi\\\"\\n\\u0001"
unfolding json_escape escape_byte hex
escape-message = refl

unescape-json_escape_iff_example :
    (unescape_json_string (json_escape message) ≡ message) ↔ All IsShort message
unescape-json_escape_iff_example = unescape-json_escape_iff message

after_quote-json_escape_example :
    after_quote (json_escape message ++ (quote ∷ codes ",")) ≡ some (codes ",")
after_quote-json_escape_example = after_quote-json_escape message (codes ",")
