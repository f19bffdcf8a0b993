-- ===== src/Http/Text.antt =====
-- Texts as HTTP messages use them: lower_copy and trim_copy of src/native/dli_common_cpp/src/http.cpp
-- and http_client.cpp, std::getline, and `>>` on a string stream, in the C locale.
pub mod Cuts
use distributed_layer_infere.Common.{
  ℕ, ◌+◌, ◌-◌, Bool, true, false, not, ◌&&◌, ◌||◌, if◌then◌else◌, leb, ◌==◌, Option, none, some,
  List, [], ◌∷◌, ◌++◌, map, Bytes, is_empty, is_space, skip_spaces,
}

-- `std::tolower`
abbrev pub lower : ℕ → ℕ
lower c = if leb b'A' c && leb c b'Z' then c + 32 else c

unfoldable pub lower_copy : Bytes → Bytes
lower_copy value = map lower value

-- An element is trimmed from the back if nothing is left behind it.
unfoldable pub trim_back : Bytes → Bytes
trim_back [] = []
trim_back (c ∷ cs) = let rest = trim_back cs in if is_space c && is_empty rest then [] else c ∷ rest

unfoldable pub trim_copy : Bytes → Bytes
trim_copy value = trim_back (skip_spaces value)

-- The lines that `std::getline` reads one by one; a line end at the very end starts no line.
abbrev pub onto_first : ℕ → List Bytes → List Bytes
onto_first c [] = (c ∷ []) ∷ []
onto_first c (l ∷ ls) = (c ∷ l) ∷ ls

unfoldable pub lines : Bytes → List Bytes
lines [] = []
lines (c ∷ cs) = let rest = lines cs in if c == 10 then [] ∷ rest else onto_first c rest

-- `if (!line.empty() && line.back() == '\r') line.pop_back();`
unfoldable pub without_cr : Bytes → Bytes
without_cr [] = []
without_cr (c ∷ []) = if c == 13 then [] else c ∷ []
without_cr (c ∷ d ∷ cs) = c ∷ without_cr (d ∷ cs)

-- `stream >> word`: the next word and what follows it; an empty word is a failed read.
unfoldable pub word_of : Bytes → Bytes × Bytes
word_of [] = ([], [])
word_of (c ∷ cs) =
    let (word, rest) = word_of cs in if is_space c then ([], c ∷ cs) else (c ∷ word, rest)

unfoldable pub next_word : Bytes → Bytes × Bytes
next_word s = word_of (skip_spaces s)

-- `line.find(c)`: what stands before and behind it.
abbrev pub onto_front : ℕ → Option (Bytes × Bytes) → Option (Bytes × Bytes)
onto_front c none = none
onto_front c (some (front, back)) = some (c ∷ front, back)

unfoldable pub cut_at : ℕ → Bytes → Option (Bytes × Bytes)
cut_at d [] = none
cut_at d (c ∷ cs) = let rest = cut_at d cs in if c == d then some ([], cs) else onto_front c rest

-- `line.rfind(c)`: what stands before and behind it.
abbrev pub or_here : ℕ → ℕ → Bytes → Option (Bytes × Bytes) → Option (Bytes × Bytes)
or_here d c cs none = if c == d then some ([], cs) else none
or_here d c cs (some cut) = onto_front c (some cut)

unfoldable pub cut_at_last : ℕ → Bytes → Option (Bytes × Bytes)
cut_at_last d [] = none
cut_at_last d (c ∷ cs) = or_here d c cs (cut_at_last d cs)

-- Lines that are written with `<< "\r\n"`.
abbrev pub crlf : Bytes
crlf = 13 ∷ 10 ∷ []

abbrev pub ended_lines : List Bytes → Bytes
ended_lines [] = []
ended_lines (l ∷ ls) = l ++ (crlf ++ ended_lines ls)
