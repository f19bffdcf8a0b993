-- ===== src/Stage/Config/Agreed.antt =====
-- No line has a say but those of the wanted stage:
-- src/native/dli_stage_cpp/src/config.cpp.
use distributed_layer_infere.Common.{
  ◌≡◌, refl, sym, ap, ◌∙◌, Bool, true, false, if◌then◌else◌, if_true, if_false, Bool-cases, inl,
  inr, some, List, [], ◌∷◌, Result, ok, err, ◌>>=◌, Bytes, ℤ, eqb_ℤ,
}
use mathlib.Core.Path.{subst}
use distributed_layer_infere.Http.Text.{lines}
use distributed_layer_infere.Stage.Config.{StageConfig}
use distributed_layer_infere.Yaml.{
  ConfigError, trim_copy, indent_width, parse_stage_id_from_list_item, is_stage_list_item,
}
use distributed_layer_infere.Stage.Config.Reader.{
  Reader, go_on, leave, target_line, stage_started, read_line, after_line, read_lines, initial,
  found, load_stage_config_from_file,
}
use distributed_layer_infere.Stage.Config.Kept.{Keeps, target_line-Keeps}
use distributed_layer_infere.Stage.Config.Own.{
  is_comment, opens, closes, own_item, own_lines, comment_line, outside_line, closing_line,
  item_line, other_line, own_line,
}

module _ (path : Bytes) (wanted : ℤ) where
  abbrev outcome : List Bytes → Reader → Result ConfigError StageConfig
  outcome ls r = read_lines wanted ls r >>= found path wanted

  outcome-go_on :
      (l : Bytes) (ls : List Bytes) (r r' : Reader)
      → read_line wanted l r ≡ ok (go_on r')
      → outcome (l ∷ ls) r ≡ outcome ls r'
  unfolding read_lines
  outcome-go_on l ls r r' e = rw e refl

  outcome-leave :
      (l : Bytes) (ls : List Bytes) (r r' : Reader)
      → read_line wanted l r ≡ ok (leave r')
      → outcome (l ∷ ls) r ≡ found path wanted r'
  unfolding read_lines
  outcome-leave l ls r r' e = rw e refl

  outcome-err :
      (l : Bytes) (ls : List Bytes) (r : Reader) (x : ConfigError)
      → read_line wanted l r ≡ err x
      → outcome (l ∷ ls) r ≡ err x
  unfolding read_lines
  outcome-err l ls r x e = rw e refl

  outcome-nil : (r r' : Reader) → r'.config ≡ r.config → found path wanted r ≡ found path wanted r'
  outcome-nil r r' e = rw e refl

  -- `own` reads as the whole file does, from a reader that stands in the same place and, inside the
  -- wanted stage, is the same.
  Agrees : List Bytes → List Bytes → Bool → Bool → Type 0
  Agrees ls own section target =
      (r r' : Reader)
      → r.inside_inference_stages ≡ section
      → r.inside_target_stage ≡ target
      → r'.inside_inference_stages ≡ section
      → r'.config ≡ r.config
      → (target ≡ true → r' ≡ r)
      → outcome ls r ≡ outcome own r'

  started_same :
      (r r' : Reader) (current : ℤ)
      → r'.config ≡ r.config
      → r'.inside_inference_stages ≡ r.inside_inference_stages
      → stage_started wanted r' current ≡ stage_started wanted r current
  started_same r r' current e f = rw (e, f) refl

  module _ (l : Bytes) (ls : List Bytes)
      (rest : (section target : Bool)
        → Agrees ls (own_lines wanted section target ls) section target) where
    item-Agrees :
        (target : Bool) (o : Result ConfigError ℤ)
        → parse_stage_id_from_list_item (trim_copy l) ≡ o
        → is_comment l ≡ false
        → closes l ≡ false
        → is_stage_list_item (trim_copy l) ≡ true
        → Agrees
            (l ∷ ls)
            (own_item wanted
              (l ∷ own_lines wanted true true ls)
              (own_lines wanted true false ls)
              (l ∷ [])
              o)
            true
            target
    unfolding Agrees
    item-Agrees target (err x) p c h i r r' s t s' e same =
        outcome-err l ls r x (item_line wanted l r c s h i ∙ rw p refl)
        ∙ sym (outcome-err l [] r' x (item_line wanted l r' c s' h i ∙ rw p refl))
    item-Agrees target (ok current) p c h i r r' s t s' e same =
        let here =
          outcome-go_on l ls r (stage_started wanted r current)
            (item_line wanted l r c s h i ∙ rw p refl) in
        let there =
          outcome-go_on l (own_lines wanted true true ls) r' (stage_started wanted r' current)
            (item_line wanted l r' c s' h i ∙ rw p refl) in
        elim (Bool-cases (eqb_ℤ current wanted)) [
          | inl y ↦
              here
              ∙ rest true true _ (stage_started wanted r' current) s y s'
                  (ap (λ x. x.config) (started_same r r' current e (s' ∙ sym s)))
                  (λ w. started_same r r' current e (s' ∙ sym s))
              ∙ sym there
              ∙ ap (λ x. outcome x r') (sym (if_true _ _ y))
          | inr n ↦
              here
              ∙ rest true false _ r' s n s' (e ∙ sym (if_false _ _ n)) (λ w. absurd (cc))
              ∙ ap (λ x. outcome x r') (sym (if_false _ _ n))
        ]

    after_target :
        (r : Reader) (o : Result ConfigError Reader)
        → r.inside_inference_stages ≡ true
        → r.inside_target_stage ≡ true
        → Keeps r o
        → (((o >>= λ x. ok (go_on x)) >>= after_line (read_lines wanted ls)) >>= found path wanted)
          ≡ (((o >>= λ x. ok (go_on x))
                >>= after_line (read_lines wanted (own_lines wanted true true ls)))
              >>= found path wanted)
    unfolding Agrees
    after_target r (err x) s t k = refl
    after_target r (ok x) s t k =
        rest true true x x (ap (λ c. c.1.1.0) k ∙ s) (ap (λ c. c.1.1.1) k ∙ t)
          (ap (λ c. c.1.1.0) k ∙ s) refl (λ w. refl)

    own-Agrees :
        is_comment l ≡ false
        → closes l ≡ false
        → is_stage_list_item (trim_copy l) ≡ false
        → Agrees (l ∷ ls) (l ∷ own_lines wanted true true ls) true true
    unfolding Agrees read_lines
    own-Agrees c h i r r' s t s' e same =
        subst (λ x. outcome (l ∷ ls) r ≡ outcome (l ∷ own_lines wanted true true ls) x)
          (sym (same refl))
          (rw (own_line wanted l r c s h i t) (
            after_target r (target_line (indent_width l) (trim_copy l) r) s t
              (target_line-Keeps (indent_width l) (trim_copy l) r)))

    other-Agrees :
        is_comment l ≡ false
        → closes l ≡ false
        → is_stage_list_item (trim_copy l) ≡ false
        → Agrees (l ∷ ls) (own_lines wanted true false ls) true false
    unfolding Agrees
    other-Agrees c h i r r' s t s' e same =
        outcome-go_on l ls r r (other_line wanted l r c s h i t)
        ∙ rest true false r r' s t s' e same

    closing-Agrees :
        (target : Bool) → is_comment l ≡ false → closes l ≡ true → Agrees (l ∷ ls) [] true target
    unfolding Agrees read_lines
    closing-Agrees target c h r r' s t s' e same =
        outcome-leave l ls r r (closing_line wanted l r c s h) ∙ outcome-nil r r' e

    field-Agrees :
        (target : Bool)
        → is_comment l ≡ false
        → closes l ≡ false
        → is_stage_list_item (trim_copy l) ≡ false
        → Agrees
            (l ∷ ls)
            (if target
              then l ∷ own_lines wanted true target ls
              else own_lines wanted true target ls)
            true
            target
    field-Agrees true c h i = own-Agrees c h i
    field-Agrees false c h i = other-Agrees c h i

    inside-Agrees :
        (target : Bool)
        → is_comment l ≡ false
        → Agrees (l ∷ ls) (own_lines wanted true target (l ∷ ls)) true target
    unfolding own_lines
    inside-Agrees target c = elim (Bool-cases (closes l)) [
      | inl h ↦
          subst (λ x. Agrees (l ∷ ls) x true target) (sym (if_false _ _ c ∙ if_true _ _ h))
            (closing-Agrees target c h)
      | inr h ↦ elim (Bool-cases (is_stage_list_item (trim_copy l))) [
        | inl i ↦
            subst (λ x. Agrees (l ∷ ls) x true target)
              (sym (if_false _ _ c ∙ if_false _ _ h ∙ if_true _ _ i))
              (item-Agrees target _ refl c h i)
        | inr i ↦
            subst (λ x. Agrees (l ∷ ls) x true target)
              (sym (if_false _ _ c ∙ if_false _ _ h ∙ if_false _ _ i)) (field-Agrees target c h i)
      ]
    ]

    outside-Agrees :
        (target : Bool)
        → is_comment l ≡ false
        → Agrees (l ∷ ls) (own_lines wanted false target (l ∷ ls)) false target
    unfolding own_lines Agrees
    outside-Agrees target c r r' s t s' e same = elim (Bool-cases (opens l)) [
      | inl o ↦
          outcome-go_on l ls r (record r { inside_inference_stages = true })
            (outside_line wanted l r c s ∙ ap (λ x. ok (go_on x)) (if_true _ _ o))
          ∙ rest true target (record r { inside_inference_stages = true })
              (record r' { inside_inference_stages = true }) refl t refl e
              (λ y. ap {A = Reader} (λ x. record x { inside_inference_stages = true }) (same y))
          ∙ sym (
              outcome-go_on l (own_lines wanted true target ls) r'
                (record r' { inside_inference_stages = true })
                (outside_line wanted l r' c s' ∙ ap (λ x. ok (go_on x)) (if_true _ _ o)))
          ∙ ap (λ x. outcome x r') (sym (if_false _ _ c ∙ if_true _ _ o))
      | inr o ↦
          outcome-go_on l ls r r
            (outside_line wanted l r c s ∙ ap (λ x. ok (go_on x)) (if_false _ _ o))
          ∙ rest false target r r' s t s' e same
          ∙ ap (λ x. outcome x r') (sym (if_false _ _ c ∙ if_false _ _ o))
    ]

    comment-Agrees :
        (section target : Bool)
        → is_comment l ≡ true
        → Agrees (l ∷ ls) (own_lines wanted section target (l ∷ ls)) section target
    unfolding own_lines Agrees
    comment-Agrees section target c r r' s t s' e same =
        outcome-go_on l ls r r (comment_line wanted l r c)
        ∙ rest section target r r' s t s' e same
        ∙ ap (λ x. outcome x r') (sym (if_true _ _ c))

    line-Agrees :
        (section target : Bool)
        → Agrees (l ∷ ls) (own_lines wanted section target (l ∷ ls)) section target
    line-Agrees section target = elim (Bool-cases (is_comment l)) [
      | inl c ↦ comment-Agrees section target c
      | inr c ↦ place section c
    ]
      where
        place :
            (section : Bool)
            → is_comment l ≡ false
            → Agrees (l ∷ ls) (own_lines wanted section target (l ∷ ls)) section target
        place true c = inside-Agrees target c
        place false c = outside-Agrees target c

  own_lines-Agrees :
      (ls : List Bytes) (section target : Bool)
      → Agrees ls (own_lines wanted section target ls) section target
  unfolding own_lines Agrees read_lines
  own_lines-Agrees [] section target = λ r r' s t s' e same. outcome-nil r r' e
  own_lines-Agrees (l ∷ ls) section target = line-Agrees l ls (own_lines-Agrees ls) section target

  -- What load_stage_config_from_file makes of a file, be it a configuration or an exception, is what
  -- its reader makes of the wanted stage's own lines: the line that opens the section
  -- inference_stages, the list items with the wanted stage's number with the lines up to the next
  -- item, and a list item whose number cannot be read, all up to the end of the section. No line of
  -- another stage, no blank line, no comment and nothing outside the section has a say.
  pub load_stage_config_from_file-own_lines :
      (content : Bytes)
      → load_stage_config_from_file path wanted (some content) ≡ (
          read_lines wanted (own_lines wanted false false (lines content)) (initial path wanted)
          >>= found path wanted)
  unfolding load_stage_config_from_file Agrees
  load_stage_config_from_file-own_lines content =
      own_lines-Agrees (lines content) false false (initial path wanted) (initial path wanted) refl
        refl refl refl (λ y. refl)
