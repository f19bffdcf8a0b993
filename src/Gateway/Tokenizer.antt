-- ===== src/Gateway/Tokenizer.antt =====
-- The stub tokenizer of src/native/dli_gateway_cpp/src/tokenizer.cpp. The other one calls llama.cpp.
use distributed_layer_infere.Common.{
  ℕ, zero, suc, Bool, true, false, if◌then◌else◌, List, [], ◌∷◌, ◌++◌, ok, Bytes, codes, is_space,
  to_string, ℤ, pos,
}
use distributed_layer_infere.Gateway.Generation.Loop.{Tokenizer}

-- How many times `stream >> word` succeeds; `inside` is true within a word.
unfoldable pub word_count : Bool → Bytes → ℕ
word_count inside [] = 0
word_count inside (c ∷ cs) =
    let spaced = word_count false cs in
    let going_on = word_count true cs in
    if is_space c then spaced else if inside then going_on else suc going_on

-- `next_id++` for each word.
unfoldable pub ids_from : ℕ → ℕ → List ℤ
ids_from next_id zero = []
ids_from next_id (suc words) = pos next_id ∷ ids_from (suc next_id) words

abbrev at_least_one : List ℤ → List ℤ
at_least_one [] = pos 100 ∷ []
at_least_one (t ∷ ts) = t ∷ ts

unfoldable pub stub_tokenize : Bytes → List ℤ
stub_tokenize prompt = pos 1 ∷ at_least_one (ids_from 100 (word_count false prompt))

abbrev token_name : ℤ → Bytes
token_name t = codes "<tok_" ++ (to_string t ++ codes ">")

unfoldable pub stub_detokenize : List ℤ → Bytes
stub_detokenize [] = []
stub_detokenize (t ∷ []) = token_name t
stub_detokenize (t ∷ u ∷ ts) = token_name t ++ (b' ' ∷ stub_detokenize (u ∷ ts))

abbrev pub TokenizerStub : Tokenizer
TokenizerStub = record {
  tokenize = λ prompt. ok (stub_tokenize prompt);
  detokenize = λ ids. ok (stub_detokenize ids);
  backend_name = codes "stub";
}
