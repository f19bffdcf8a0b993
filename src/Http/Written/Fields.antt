-- ===== src/Http/Written/Fields.antt =====
-- A header line that was written as `Name: value` is read as that field.
use distributed_layer_infere.Common.{
  ℕ, ◌≡◌, refl, ap, ◌∙◌, arith, Bool, true, false, not, ◌&&◌, ◌==◌, if_false, List, [], ◌∷◌, ◌++◌,
  Bytes, All, is_empty,
}
use distributed_layer_infere.Http.{Headers}
use distributed_layer_infere.Http.Text.{lower_copy, trim_copy, without_cr, cut_at}
use distributed_layer_infere.Http.Text.Cuts.{HasNo, HasNoSpace, All-append, All-map, cut_at-append}
use distributed_layer_infere.Http.Message.{assign, assigned, header_lines}
use distributed_layer_infere.Http.Written.{IsLine, without_cr_stays}

abbrev pub has_no : ℕ → Bytes → Bool
has_no d [] = true
has_no d (c ∷ cs) = not (c == d) && has_no d cs

pub has_no→HasNo : (d : ℕ) (xs : Bytes) → has_no d xs ≡ true → HasNo d xs
has_no→HasNo d [] h = tt
has_no→HasNo d (x ∷ xs) h = (ground arith, has_no→HasNo d xs (ground arith))

pub no_space_no_line_end : (w : Bytes) → HasNoSpace w → HasNo 13 w × HasNo 10 w
no_space_no_line_end w h =
    (All-map _ _ w (λ c k. ground arith) h, All-map _ _ w (λ c k. ground arith) h)

abbrev pub field_line : Bytes → Bytes → Bytes
field_line name value = name ++ (b':' ∷ 32 ∷ value)

-- A line with a literal front, which computes.
pub append-IsLine :
    (front : Bytes) (w : Bytes)
    → is_empty front ≡ false
    → has_no 13 front ≡ true
    → has_no 10 front ≡ true
    → HasNo 13 w × HasNo 10 w
    → IsLine (front ++ w)
append-IsLine [] w h k l free = absurd (cc)
append-IsLine (c ∷ front) w h k l free = (
  refl,
  All-append _ (c ∷ front) w (has_no→HasNo 13 (c ∷ front) k) free.0,
  All-append _ (c ∷ front) w (has_no→HasNo 10 (c ∷ front) l) free.1,
)

nonempty-without_cr : (l : Bytes) → IsLine l → is_empty (without_cr l) ≡ false
nonempty-without_cr l h = ap is_empty (without_cr_stays l h.1) ∙ h.0

pub header_lines-field :
    (name value : Bytes) (ls : List Bytes) (headers : Headers)
    → has_no b':' name ≡ true
    → IsLine (field_line name value)
    → header_lines (field_line name value ∷ ls) headers
      ≡ header_lines ls (assign (lower_copy (trim_copy name)) (trim_copy (32 ∷ value)) headers)
unfolding header_lines
header_lines-field name value ls headers h line =
    let l = field_line name value in
    if_false _ _ (nonempty-without_cr l line)
    ∙ ap (λ t. header_lines ls (assigned headers (cut_at b':' t))) (without_cr_stays l line.1)
    ∙ ap (λ t. header_lines ls (assigned headers t))
        (cut_at-append b':' name (32 ∷ value) (has_no→HasNo b':' name h))

pub literal-IsLine :
    (l : Bytes) → is_empty l ≡ false → has_no 13 l ≡ true → has_no 10 l ≡ true → IsLine l
literal-IsLine l h k m = (h, has_no→HasNo 13 l k, has_no→HasNo 10 l m)

-- Fields that are written one below the other.
abbrev pub field_lines : Headers → List Bytes
field_lines [] = []
field_lines ((name, value) ∷ fields) = field_line name value ∷ field_lines fields

abbrev pub fields_read : Headers → Headers → Headers
fields_read [] headers = headers
fields_read ((name, value) ∷ fields) headers =
    fields_read fields (assign (lower_copy (trim_copy name)) (trim_copy (32 ∷ value)) headers)

abbrev pub IsField : Bytes × Bytes → Type 0
IsField (name, value) = (has_no b':' name ≡ true) × IsLine (field_line name value)

pub header_lines-field_lines :
    (fields headers : Headers)
    → All IsField fields
    → header_lines (field_lines fields) headers ≡ fields_read fields headers
unfolding header_lines
header_lines-field_lines [] headers h = refl
header_lines-field_lines ((name, value) ∷ fields) headers h =
    header_lines-field name value (field_lines fields) headers h.0.0 h.0.1
    ∙ header_lines-field_lines fields
        (assign (lower_copy (trim_copy name)) (trim_copy (32 ∷ value)) headers) h.1

pub field_lines-IsLine : (fields : Headers) → All IsField fields → All IsLine (field_lines fields)
field_lines-IsLine [] h = tt
field_lines-IsLine ((name, value) ∷ fields) h = (h.0.1, field_lines-IsLine fields h.1)
