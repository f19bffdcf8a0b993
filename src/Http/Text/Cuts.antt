-- ===== src/Http/Text/Cuts.antt =====
-- Where a text is cut, trimmed and split into words.
use distributed_layer_infere.Common.{
  ℕ, ◌≡◌, ◌≢◌, refl, ap, ◌∙◌, arith, true, false, none, some, [], ◌∷◌, ◌++◌, Bytes, All, is_space,
  skip_spaces,
}
use distributed_layer_infere.Http.Text.{cut_at, cut_at_last, or_here, trim_back, trim_copy, word_of}

abbrev pub HasNo : ℕ → Bytes → Type 0
HasNo d = All (λ c. c ≢ d)

abbrev pub HasNoSpace : Bytes → Type 0
HasNoSpace = All (λ c. is_space c ≡ false)

pub All-append : (P : ℕ → Type 0) (xs ys : Bytes) → All P xs → All P ys → All P (xs ++ ys)
All-append P [] ys h k = k
All-append P (x ∷ xs) ys h k = (h.0, All-append P xs ys h.1 k)

pub All-map : (P Q : ℕ → Type 0) (xs : Bytes) → ((c : ℕ) → P c → Q c) → All P xs → All Q xs
All-map P Q [] f h = tt
All-map P Q (x ∷ xs) f h = (f x h.0, All-map P Q xs f h.1)

pub cut_at-append : (d : ℕ) (xs ys : Bytes) → HasNo d xs → cut_at d (xs ++ (d ∷ ys)) ≡ some (xs, ys)
unfolding cut_at
cut_at-append d [] ys h = ground arith
cut_at-append d (x ∷ xs) ys h = ground (arith, cut_at-append d xs ys h.1)

cut_at_last-none : (d : ℕ) (xs : Bytes) → HasNo d xs → cut_at_last d xs ≡ none
unfolding cut_at_last
cut_at_last-none d [] h = refl
cut_at_last-none d (x ∷ xs) h = ground (arith, cut_at_last-none d xs h.1)

pub cut_at_last-append :
    (d : ℕ) (xs ys : Bytes) → HasNo d ys → cut_at_last d (xs ++ (d ∷ ys)) ≡ some (xs, ys)
unfolding cut_at_last
cut_at_last-append d [] ys h = ap (or_here d d ys) (cut_at_last-none d ys h) ∙ ground arith
cut_at_last-append d (x ∷ xs) ys h =
    ap (or_here d x (xs ++ (d ∷ ys))) (cut_at_last-append d xs ys h)

-- A word ends at a space, or with the text.
pub word_of-append :
    (w : Bytes) (c : ℕ) (rest : Bytes)
    → HasNoSpace w
    → is_space c ≡ true
    → word_of (w ++ (c ∷ rest)) ≡ (w, c ∷ rest)
unfolding word_of
word_of-append [] c rest h k = rw k refl
word_of-append (x ∷ w) c rest h k =
    rw h.0 (ap (λ p. (x ∷ p.0, p.1)) (word_of-append w c rest h.1 k))

pub word_of_all : (w : Bytes) → HasNoSpace w → word_of w ≡ (w, [])
unfolding word_of
word_of_all [] h = refl
word_of_all (x ∷ w) h = rw h.0 (ap (λ p. (x ∷ p.0, p.1)) (word_of_all w h.1))

trim_back_stays : (w : Bytes) → HasNoSpace w → trim_back w ≡ w
unfolding trim_back
trim_back_stays [] h = refl
trim_back_stays (x ∷ w) h = rw h.0 (ap (λ t. x ∷ t) (trim_back_stays w h.1))

-- Text without spaces, behind a single one.
pub trim_copy_space : (w : Bytes) → HasNoSpace w → trim_copy (32 ∷ w) ≡ w
unfolding trim_copy skip_spaces
trim_copy_space [] h = trim_back_stays [] h
trim_copy_space (x ∷ w) h = rw h.0 (trim_back_stays (x ∷ w) h)
