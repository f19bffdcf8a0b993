-- ===== src/Stage/Config/Own.antt =====
-- Which lines of the file belong to the wanted stage, and what each kind of line does:
-- src/native/dli_stage_cpp/src/config.cpp.
use distributed_layer_infere.Common.{
  ◌≡◌, refl, ◌∙◌, Bool, true, false, not, ◌&&◌, ◌||◌, if◌then◌else◌, if_true, if_false, ◌==◌, List,
  [], ◌∷◌, Result, ok, err, ◌>>=◌, Bytes, codes, is_empty, starts_with, ℤ, eqb_ℤ,
}
use distributed_layer_infere.Yaml.{
  ConfigError, trim_copy, indent_width, parse_stage_id_from_list_item, is_stage_list_item,
}
use distributed_layer_infere.Stage.Config.Reader.{
  Reader, go_on, leave, target_line, started, stage_line, read_line,
}

abbrev pub is_comment : Bytes → Bool
is_comment line = is_empty (trim_copy line) || starts_with (trim_copy line) (codes "#")

abbrev pub opens : Bytes → Bool
opens line = indent_width line == 0 && starts_with (trim_copy line) (codes "inference_stages:")

abbrev pub closes : Bytes → Bool
closes line =
    indent_width line == 0
    && not (is_stage_list_item (trim_copy line))
    && not (starts_with (trim_copy line) (codes "inference_stages:"))

abbrev pub own_item : ℤ → List Bytes → List Bytes → List Bytes → Result ConfigError ℤ → List Bytes
own_item wanted mine other alone (ok current) = if eqb_ℤ current wanted then mine else other
own_item wanted mine other alone (err e) = alone

-- The lines from here on that belong to the wanted stage, if the reader stands in the section
-- inference_stages or not yet, and in the wanted stage or not: the line that opens the section, the
-- list items with the wanted number, and what follows such an item up to the next item, without
-- blank lines and comments, up to the end of the section. A list item without a number is kept.
unfoldable pub own_lines : ℤ → Bool → Bool → List Bytes → List Bytes
own_lines wanted section target [] = []
own_lines wanted section target (l ∷ ls) =
    let same = own_lines wanted section target ls in
    let opened = l ∷ own_lines wanted true target ls in
    let mine = l ∷ own_lines wanted section true ls in
    let other = own_lines wanted section false ls in
    let item = own_item wanted mine other (l ∷ []) (parse_stage_id_from_list_item (trim_copy l)) in
    if is_comment l
    then same
    else if not section
    then (if opens l then opened else same)
    else if closes l
    then []
    else if is_stage_list_item (trim_copy l)
    then item
    else if target
    then l ∷ same
    else same

module _ (wanted : ℤ) where
  -- A line `l`, by what it is.
  module _ (l : Bytes) (r : Reader) where
    pub comment_line : is_comment l ≡ true → read_line wanted l r ≡ ok (go_on r)
    unfolding read_line
    comment_line c = if_true _ _ c

    pub outside_line :
        is_comment l ≡ false
        → r.inside_inference_stages ≡ false
        → read_line wanted l r
          ≡ ok (go_on (if opens l then record r { inside_inference_stages = true } else r))
    unfolding read_line
    outside_line c s = if_false _ _ c ∙ rw s refl

    inside_line :
        is_comment l ≡ false
        → r.inside_inference_stages ≡ true
        → read_line wanted l r ≡ stage_line wanted (indent_width l) (trim_copy l) r
    unfolding read_line
    inside_line c s = if_false _ _ c ∙ rw s refl

    module _ (c : is_comment l ≡ false) (s : r.inside_inference_stages ≡ true) where
      pub closing_line : closes l ≡ true → read_line wanted l r ≡ ok (leave r)
      closing_line h = inside_line c s ∙ if_true _ _ h

      module _ (h : closes l ≡ false) where
        pub item_line :
            is_stage_list_item (trim_copy l) ≡ true
            → read_line wanted l r ≡ started wanted r (parse_stage_id_from_list_item (trim_copy l))
        item_line i = inside_line c s ∙ if_false _ _ h ∙ if_true _ _ i

        pub other_line :
            is_stage_list_item (trim_copy l) ≡ false
            → r.inside_target_stage ≡ false
            → read_line wanted l r ≡ ok (go_on r)
        other_line i t = inside_line c s ∙ if_false _ _ h ∙ if_false _ _ i ∙ rw t refl

        pub own_line :
            is_stage_list_item (trim_copy l) ≡ false
            → r.inside_target_stage ≡ true
            → read_line wanted l r
              ≡ (target_line (indent_width l) (trim_copy l) r >>= λ r'. ok (go_on r'))
        own_line i t = inside_line c s ∙ if_false _ _ h ∙ if_false _ _ i ∙ rw t refl
