-- ===== src/Http/Read/HeaderEnd.antt =====
-- Where a header ends: more bytes do not move the end, and they bring it only by reaching it.
use distributed_layer_infere.Common.{
  ℕ, ◌+◌, ◌≤◌, ◌<◌, ◌≡◌, inl, inr, refl, arith, true, Bool-cases, none, some, Option-cases, [], ◌∷◌,
  ◌++◌, Bytes, length, starts_with, leb, leb→le,
}
use distributed_layer_infere.Http.Read.{blank_line, find_header_end}

starts_blank-append :
    (b c : Bytes) → starts_with b blank_line ≡ true → starts_with (b ++ c) blank_line ≡ true
unfolding starts_with
starts_blank-append [] c h = absurd (cc)
starts_blank-append (x ∷ []) c h = ground arith
starts_blank-append (x ∷ y ∷ []) c h = ground arith
starts_blank-append (x ∷ y ∷ z ∷ []) c h = ground arith
starts_blank-append (x ∷ y ∷ z ∷ w ∷ b) c h = h

starts_blank_front :
    (b c : Bytes) → 4 ≤ length b → starts_with (b ++ c) blank_line ≡ starts_with b blank_line
unfolding starts_with
starts_blank_front [] c h = absurd (omega arith)
starts_blank_front (x ∷ []) c h = absurd (omega arith)
starts_blank_front (x ∷ y ∷ []) c h = absurd (omega arith)
starts_blank_front (x ∷ y ∷ z ∷ []) c h = absurd (omega arith)
starts_blank_front (x ∷ y ∷ z ∷ w ∷ b) c h = refl

starts_blank-length : (b : Bytes) → starts_with b blank_line ≡ true → 4 ≤ length b
unfolding starts_with
starts_blank-length [] h = absurd (cc)
starts_blank-length (x ∷ []) h = ground arith
starts_blank-length (x ∷ y ∷ []) h = ground arith
starts_blank-length (x ∷ y ∷ z ∷ []) h = ground arith
starts_blank-length (x ∷ y ∷ z ∷ w ∷ b) h = omega arith

pub find_header_end-length : (b : Bytes) (e : ℕ) → find_header_end b ≡ some e → e + 4 ≤ length b
unfolding find_header_end
find_header_end-length [] e h = absurd (cc)
find_header_end-length (x ∷ b) e h = elim (Bool-cases (starts_with (x ∷ b) blank_line)) [
  | inl y ↦ ground (arith, starts_blank-length (x ∷ b) y)
  | inr n ↦ elim (Option-cases (find_header_end b)) [
    | inl absent ↦ absurd (ground arith)
    | inr (i, later) ↦ ground (arith, find_header_end-length b i later)
  ]
]

pub find_header_end-append :
    (b c : Bytes) (e : ℕ) → find_header_end b ≡ some e → find_header_end (b ++ c) ≡ some e
unfolding find_header_end
find_header_end-append [] c e h = absurd (cc)
find_header_end-append (x ∷ b) c e h = elim (Bool-cases (starts_with (x ∷ b) blank_line)) [
  | inl y ↦ ground (arith, starts_blank-append (x ∷ b) c y)
  | inr n ↦ elim (Option-cases (find_header_end b)) [
    | inl absent ↦ absurd (ground arith)
    | inr (i, later) ↦
        let long : 4 ≤ length (x ∷ b) = omega (arith, find_header_end-length b i later) in
        ground (arith, find_header_end-append b c i later, starts_blank_front (x ∷ b) c long)
  ]
]

absent_tail : (x : ℕ) (b : Bytes) → find_header_end (x ∷ b) ≡ none → find_header_end b ≡ none
unfolding find_header_end
absent_tail x b h = elim (Option-cases (find_header_end b)) [
  | inl absent ↦ absent
  | inr (i, later) ↦ absurd (ground arith)
]

-- An end that only more bytes bring lies behind the bytes that were there.
pub find_header_end_late :
    (b c : Bytes) (e : ℕ)
    → find_header_end b ≡ none
    → find_header_end (b ++ c) ≡ some e
    → length b < e + 4
unfolding find_header_end
find_header_end_late [] c e h k = omega arith
find_header_end_late (x ∷ b) c e h k = elim (Bool-cases (starts_with (x ∷ (b ++ c)) blank_line)) [
  | inl y ↦ elim (Bool-cases (leb 4 (length (x ∷ b)))) [
    | inl long ↦ absurd (ground (arith, starts_blank_front (x ∷ b) c (leb→le 4 _ long)))
    | inr short ↦ ground arith
  ]
  | inr n ↦ elim (Option-cases (find_header_end (b ++ c))) [
    | inl absent ↦ absurd (ground arith)
    | inr (i, later) ↦ ground (arith, find_header_end_late b c i (absent_tail x b h) later)
  ]
]
