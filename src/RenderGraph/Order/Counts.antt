-- ===== src/RenderGraph/Order/Counts.antt =====
-- Lists of passes: how often a pass stands in one, and where it stands first.
use graphics_engine.Common.{
  ltb, ◌==◌, if◌then◌else◌, ==_iff, Bool-cases, length, insert, elem, ℕ, zero, suc, ◌+◌, ◌≤◌, ◌<◌,
  ◌≡◌, refl, sym, subst, inl, inr, Bool, true, false, List, [], ◌∷◌, ◌++◌, arith,
}

abbrev pub one_if : Bool → ℕ
one_if true = 1
one_if false = 0

abbrev pub occurrences : ℕ → List ℕ → ℕ
occurrences a [] = 0
occurrences a (x ∷ xs) = one_if (x == a) + occurrences a xs

-- The length, where the element is not in the list.
abbrev pub position : ℕ → List ℕ → ℕ
position a [] = 0
position a (x ∷ xs) = let rest = suc (position a xs) in if x == a then 0 else rest

pub occurrences-append :
    (a : ℕ) (xs ys : List ℕ) → occurrences a (xs ++ ys) ≡ occurrences a xs + occurrences a ys
occurrences-append a [] ys = omega arith
occurrences-append a (x ∷ xs) ys = omega (arith, occurrences-append a xs ys)

pub occurrences-insert :
    (a x : ℕ) (ys : List ℕ) → occurrences a (insert ltb x ys) ≡ one_if (x == a) + occurrences a ys
unfolding insert
occurrences-insert a x [] = refl
occurrences-insert a x (y ∷ ys) = ground (arith, occurrences-insert a x ys)

pub elem-occurrences : (a : ℕ) (xs : List ℕ) → elem a xs ≡ ltb 0 (occurrences a xs)
elem-occurrences a [] = ground arith
elem-occurrences a (x ∷ xs) = ground (arith, elem-occurrences a xs)

pub position-append :
    (a : ℕ) (xs ys : List ℕ)
    → position a (xs ++ ys) ≡ (if elem a xs then position a xs else length xs + position a ys)
position-append a [] ys = ground arith
position-append a (x ∷ xs) ys = ground (arith, position-append a xs ys)

pub position-lt : (a : ℕ) (xs : List ℕ) → elem a xs ≡ true → position a xs < length xs
position-lt a [] h = cc
position-lt a (x ∷ xs) h = ground (arith, position-lt a xs)

pub elem-of_position : (a c : ℕ) (xs : List ℕ) → position a xs < position c xs → elem a xs ≡ true
elem-of_position a c [] h = absurd (omega arith)
elem-of_position a c (x ∷ xs) h = ground (arith, elem-of_position a c xs)

-- f 0 + ... + f (n - 1)
abbrev pub total : ℕ → (ℕ → ℕ) → ℕ
total zero f = 0
total (suc n) f = f n + total n f

total-add_one :
    (n x : ℕ) (f : ℕ → ℕ) → total n (λ j. one_if (x == j) + f j) ≡ one_if (ltb x n) + total n f
total-add_one zero x f = ground arith
total-add_one (suc n) x f = ground (arith, total-add_one n x f)

total_none : (n : ℕ) → total n (λ j. 0) ≡ 0
total_none zero = refl
total_none (suc n) = omega (arith, total_none n)

abbrev pub Below : ℕ → List ℕ → Type 0
Below n xs = (j : ℕ) → n ≤ j → occurrences j xs ≡ 0

pub total-occurrences :
    (n : ℕ) (xs : List ℕ) → Below n xs → total n (λ j. occurrences j xs) ≡ length xs
total-occurrences n [] below = total_none n
total-occurrences n (x ∷ xs) below =
    let rec = total-occurrences n xs (λ j h. omega (arith, below j h)) in
    let step = total-add_one n x (λ j. occurrences j xs) in
    let here = below x in ground (arith, ==_iff x x)

pub total-le : (n : ℕ) (f : ℕ → ℕ) → ((j : ℕ) → j < n → f j ≤ 1) → total n f ≤ n
total-le zero f h = omega arith
total-le (suc n) f h =
    let rec = total-le n f (λ j l. h j (omega arith)) in omega (arith, h n (omega arith))

-- As many as there can be: each is there.
pub total-full :
    (n : ℕ) (f : ℕ → ℕ) → ((j : ℕ) → j < n → f j ≤ 1) → total n f ≡ n → (j : ℕ) → j < n → f j ≡ 1
total-full zero f h e j l = elim l [ ]
total-full (suc n) f h e j l =
    let le = total-le n f (λ i k. h i (omega arith)) in
    let last = h n (omega arith) in
    elim (Bool-cases (j == n)) [
      | inl y ↦ let same : j ≡ n = (==_iff j n).0 y in subst (λ k. f k ≡ 1) (sym same) (omega arith)
      | inr n' ↦ total-full n f (λ i k. h i (omega arith)) (omega arith) j (ground arith)
    ]

pub total-ones : (n : ℕ) (f : ℕ → ℕ) → ((j : ℕ) → j < n → f j ≡ 1) → total n f ≡ n
total-ones zero f h = refl
total-ones (suc n) f h =
    let rec = total-ones n f (λ j l. h j (omega arith)) in omega (arith, h n (omega arith))
