-- ===== src/Gateway/Graph/Sorted.antt =====
-- The tests on the sorted layer list: no duplicate, and no layer missing.
use distributed_layer_infere.Common.{
  ℕ, zero, suc, ◌+◌, ◌<◌, ◌≤◌, ◌≡◌, ◌↔◌, refl, ◌∙◌, true, false, List, [], ◌∷◌, ◌++◌, arith, ◌==◌,
  if◌then◌else◌, All, is_empty,
}
use distributed_layer_infere.Gateway.Graph.{
  insert, sort, duplicates_from, duplicates_of, missing_from,
}

-- How often a number stands in a list.
abbrev pub count : ℕ → List ℕ → ℕ
count a [] = 0
count a (x ∷ xs) = if x == a then suc (count a xs) else count a xs

abbrev pub IsSorted : List ℕ → Type 0
IsSorted [] = Unit {0}
IsSorted (x ∷ xs) = All (λ y. x ≤ y) xs × IsSorted xs

abbrev pub IsStrict : List ℕ → Type 0
IsStrict [] = Unit {0}
IsStrict (x ∷ xs) = All (λ y. x < y) xs × IsStrict xs

pub count-append :
    (front back : List ℕ) (l : ℕ) → count l (front ++ back) ≡ count l front + count l back
count-append [] back l = omega arith
count-append (f ∷ front) back l = ground (arith, count-append front back l)

count-insert : (a x : ℕ) (xs : List ℕ) → count a (insert x xs) ≡ count a (x ∷ xs)
unfolding insert
count-insert a x [] = refl
count-insert a x (y ∷ ys) = ground (arith, count-insert a x ys)

-- Sorting keeps every number as often as it was.
pub count-sort : (a : ℕ) (xs : List ℕ) → count a (sort xs) ≡ count a xs
unfolding sort
count-sort a [] = refl
count-sort a (x ∷ xs) = count-insert a x (sort xs) ∙ ground (arith, count-sort a xs)

All-le_trans : (x y : ℕ) (xs : List ℕ) → x ≤ y → All (λ z. y ≤ z) xs → All (λ z. x ≤ z) xs
All-le_trans x y [] h a = tt
All-le_trans x y (z ∷ xs) h a = (omega arith, All-le_trans x y xs h a.1)

All-insert : (b x : ℕ) (xs : List ℕ) → b ≤ x → All (λ z. b ≤ z) xs → All (λ z. b ≤ z) (insert x xs)
unfolding insert
All-insert b x [] h a = (h, tt)
All-insert b x (y ∷ ys) h a = ground (arith, All-insert b x ys)

insert-IsSorted : (x : ℕ) (xs : List ℕ) → IsSorted xs → IsSorted (insert x xs)
unfolding insert
insert-IsSorted x [] s = (tt, tt)
insert-IsSorted x (y ∷ ys) s =
    ground (arith, insert-IsSorted x ys, All-insert y x ys, All-le_trans x y ys)

pub sort-IsSorted : (xs : List ℕ) → IsSorted (sort xs)
unfolding sort
sort-IsSorted [] = tt
sort-IsSorted (x ∷ xs) = insert-IsSorted x (sort xs) (sort-IsSorted xs)

-- A number below all of a list is not in it.
count_below : (a : ℕ) (xs : List ℕ) → All (λ z. a < z) xs → count a xs ≡ 0
count_below a [] h = refl
count_below a (x ∷ xs) h = ground (arith, count_below a xs)

All-lt_trans : (x y : ℕ) (xs : List ℕ) → x < y → All (λ z. y < z) xs → All (λ z. x < z) xs
All-lt_trans x y [] h a = tt
All-lt_trans x y (z ∷ xs) h a = (omega arith, All-lt_trans x y xs h a.1)

All-next : (x lo : ℕ) (xs : List ℕ) → x ≡ lo → All (λ z. x < z) xs → All (λ z. lo + 1 ≤ z) xs
All-next x lo [] e a = tt
All-next x lo (z ∷ xs) e a = (omega arith, All-next x lo xs e a.1)

-- In a sorted list the numbers differ exactly when each stands once at most.
pub IsStrict-count : (xs : List ℕ) → IsStrict xs → (a : ℕ) → count a xs ≤ 1
IsStrict-count [] s a = omega arith
IsStrict-count (x ∷ xs) s a = ground (arith, IsStrict-count xs s.1 a, count_below x xs s.0)

All-lt_of_absent :
    (x : ℕ) (xs : List ℕ) → All (λ z. x ≤ z) xs → count x xs ≡ 0 → All (λ z. x < z) xs
All-lt_of_absent x [] h e = tt
All-lt_of_absent x (y ∷ ys) h e = ground (arith, All-lt_of_absent x ys)

count_tail : (a x : ℕ) (xs : List ℕ) → count a xs ≤ count a (x ∷ xs)
count_tail a x xs = ground arith

count_head : (x : ℕ) (xs : List ℕ) → count x (x ∷ xs) ≡ suc (count x xs)
count_head x xs = ground arith

pub count-IsStrict : (xs : List ℕ) → IsSorted xs → ((a : ℕ) → count a xs ≤ 1) → IsStrict xs
count-IsStrict [] s h = tt
count-IsStrict (x ∷ xs) s h = (
  All-lt_of_absent x xs s.0 (omega (arith, h x, count_head x xs)),
  count-IsStrict xs s.1 (λ a. omega (arith, h a, count_tail a x xs)),
)

-- Once there is a duplicate the list of duplicates stays non-empty.
duplicates_from_kept :
    (p : ℕ) (xs : List ℕ) (d : ℕ) (ds : List ℕ) → is_empty (duplicates_from p xs (d ∷ ds)) ≡ false
unfolding duplicates_from
duplicates_from_kept p [] d ds = refl
duplicates_from_kept p (x ∷ xs) d ds =
    ground (arith, duplicates_from_kept x xs d ds, duplicates_from_kept x xs d (ds ++ (x ∷ [])))

IsStrict-from :
    (p : ℕ) (xs : List ℕ)
    → IsSorted (p ∷ xs)
    → is_empty (duplicates_from p xs []) ≡ true
    → IsStrict (p ∷ xs)
unfolding duplicates_from
IsStrict-from p [] s e = (tt, tt)
IsStrict-from p (x ∷ xs) s e =
    ground (arith, IsStrict-from x xs, duplicates_from_kept x xs x [], All-lt_trans p x xs)

none_from : (p : ℕ) (xs : List ℕ) → IsStrict (p ∷ xs) → is_empty (duplicates_from p xs []) ≡ true
unfolding duplicates_from
none_from p [] s = refl
none_from p (x ∷ xs) s = ground (arith, none_from x xs)

-- On a sorted list the duplicate test passes exactly when every number stands once at most.
pub duplicates_of_iff :
    (xs : List ℕ) → IsSorted xs → (is_empty (duplicates_of xs) ≡ true) ↔ ((a : ℕ) → count a xs ≤ 1)
unfolding duplicates_of
duplicates_of_iff [] s = (λ _ a. omega arith, λ _. refl)
duplicates_of_iff (x ∷ xs) s = (
  λ e. IsStrict-count (x ∷ xs) (IsStrict-from x xs s e),
  λ h. none_from x xs (count-IsStrict (x ∷ xs) s h),
)

-- The cursor loop finds nothing missing exactly when every layer from `lo` on is in the list.
covered_from :
    (rounds lo : ℕ) (xs : List ℕ) (i : ℕ)
    → IsStrict xs
    → is_empty (missing_from rounds lo xs) ≡ true
    → lo ≤ i
    → i < lo + rounds
    → 0 < count i xs
unfolding missing_from
covered_from zero lo xs i s e l u = absurd (omega arith)
covered_from (suc rounds) lo [] i s e l u = cc
covered_from (suc rounds) lo (x ∷ xs) i s e l u = ground (arith, covered_from rounds (lo + 1) xs i)

head_found : (lo x : ℕ) (xs : List ℕ) → IsStrict (x ∷ xs) → lo ≤ x → 0 < count lo (x ∷ xs) → x ≡ lo
head_found lo x xs s b h = ground (arith, count_below lo xs, All-lt_trans lo x xs)

All-found :
    (rounds lo : ℕ) (xs : List ℕ)
    → IsStrict xs
    → All (λ z. lo ≤ z) xs
    → ((i : ℕ) → lo ≤ i → i < lo + rounds → 0 < count i xs)
    → is_empty (missing_from rounds lo xs) ≡ true
unfolding missing_from
All-found zero lo xs s b h = refl
All-found (suc rounds) lo [] s b h = absurd (omega (arith, h lo (omega arith) (omega arith)))
All-found (suc rounds) lo (x ∷ xs) s b h =
    let e = head_found lo x xs s b.0 (h lo (omega arith) (omega arith)) in
    ground (
      arith,
      e,
      All-found rounds (lo + 1) xs s.1 (All-next x lo xs e s.0)
          (λ i l u. ground (arith, e, h i (omega arith) (omega arith))),
    )

All-zero : (xs : List ℕ) → All (λ z. 0 ≤ z) xs
All-zero [] = tt
All-zero (x ∷ xs) = (omega arith, All-zero xs)

-- On a strictly ascending list no layer below `n` is found missing exactly when each is listed.
pub missing_from_iff :
    (n : ℕ) (xs : List ℕ)
    → IsStrict xs
    → (is_empty (missing_from n 0 xs) ≡ true) ↔ ((i : ℕ) → i < n → 0 < count i xs)
missing_from_iff n xs s = (
  λ e i u. covered_from n 0 xs i s e (omega arith) (omega arith),
  λ h. All-found n 0 xs s (All-zero xs) (λ i l u. h i (omega arith)),
)
