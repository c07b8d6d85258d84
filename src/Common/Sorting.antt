-- ===== src/Common/Sorting.antt =====
-- `std::ranges::sort`, `std::unique` and `std::ranges::binary_search`, as the code uses them.
use Prim.Native.Nat.{ℕ, ◌≤◌, ◌<◌}
use mathlib.Core.Path.{◌≡◌, refl, ◌∙◌, ap}
use mathlib.Core.Logic.{inl, inr}
use mathlib.Core.Bool.{Bool, true, false, ◌||◌}
use mathlib.Core.List.{List, [], ◌∷◌}
use native.Mathlib.Omega.{arith}
use graphics_engine.Common.Tests.{Bool-cases, ==_iff, ltb, ◌==◌, if◌then◌else◌}
use graphics_engine.Common.Lists.{any}

module _ {ℓ} {A : Type ℓ} (less : A → A → Bool) where
  unfoldable pub insert : A → List A → List A
  insert a [] = a ∷ []
  insert a (x ∷ xs) = if less x a then x ∷ insert a xs else a ∷ x ∷ xs

  unfoldable pub sort_by : List A → List A
  unfolding insert
  sort_by [] = []
  sort_by (x ∷ xs) = insert x (sort_by xs)

  any-insert : (p : A → Bool) (a : A) (xs : List A) → any p (insert a xs) ≡ (p a || any p xs)
  unfolding insert
  any-insert p a [] = refl
  any-insert p a (x ∷ xs) = ground (arith, any-insert p a xs)

  pub any-sort_by : (p : A → Bool) (xs : List A) → any p (sort_by xs) ≡ any p xs
  unfolding sort_by
  any-sort_by p [] = refl
  any-sort_by p (x ∷ xs) = any-insert p x (sort_by xs) ∙ ap (λ b. p x || b) (any-sort_by p xs)

-- Each element that equals the one kept before it is dropped.
module _ {ℓ} {A : Type ℓ} (equal : A → A → Bool) where
  unfoldable pub unique_after : A → List A → List A
  unique_after a [] = []
  unique_after a (x ∷ xs) =
      let dropped = unique_after a xs in
      let kept = unique_after x xs in if equal a x then dropped else x ∷ kept

  unfoldable pub unique_by : List A → List A
  unfolding unique_after
  unique_by [] = []
  unique_by (x ∷ xs) = x ∷ unique_after x xs

  any-unique_after :
      (p : A → Bool)
      → ((x y : A) → equal x y ≡ true → p x ≡ p y)
      → (a : A) (xs : List A) → (p a || any p (unique_after a xs)) ≡ (p a || any p xs)
  unfolding unique_after
  any-unique_after p same a [] = refl
  any-unique_after p same a (x ∷ xs) =
      ground (arith, same a x, any-unique_after p same a xs, any-unique_after p same x xs)

  pub any-unique_by :
      (p : A → Bool)
      → ((x y : A) → equal x y ≡ true → p x ≡ p y)
      → (xs : List A) → any p (unique_by xs) ≡ any p xs
  unfolding unique_by
  any-unique_by p same [] = refl
  any-unique_by p same (x ∷ xs) = any-unique_after p same x xs

-- Membership, as a test.
abbrev pub elem : ℕ → List ℕ → Bool
elem a [] = false
elem a (x ∷ xs) = x == a || elem a xs

abbrev pub sort_unique : List ℕ → List ℕ
sort_unique xs = unique_by ◌==◌ (sort_by ltb xs)

elem-unique_after :
    (a b : ℕ) (xs : List ℕ) → (b == a || elem a (unique_after ◌==◌ b xs)) ≡ (b == a || elem a xs)
unfolding unique_after
elem-unique_after a b [] = refl
elem-unique_after a b (x ∷ xs) = ground (arith, elem-unique_after a b xs, elem-unique_after a x xs)

elem-insert : (a b : ℕ) (xs : List ℕ) → elem a (insert ltb b xs) ≡ (b == a || elem a xs)
unfolding insert
elem-insert a b [] = refl
elem-insert a b (x ∷ xs) = ground (arith, elem-insert a b xs)

elem-sort : (a : ℕ) (xs : List ℕ) → elem a (sort_by ltb xs) ≡ elem a xs
unfolding sort_by
elem-sort a [] = refl
elem-sort a (x ∷ xs) = ground (arith, elem-insert a x (sort_by ltb xs), elem-sort a xs)

elem-unique_by : (a : ℕ) (xs : List ℕ) → elem a (unique_by ◌==◌ xs) ≡ elem a xs
unfolding unique_by
elem-unique_by a [] = refl
elem-unique_by a (x ∷ xs) = elem-unique_after a x xs

-- Sorting and dropping repeats keeps the members.
pub elem-sort_unique : (a : ℕ) (xs : List ℕ) → elem a (sort_unique xs) ≡ elem a xs
elem-sort_unique a xs = elem-unique_by a (sort_by ltb xs) ∙ elem-sort a xs

-- Every element is at least `a`, and the list ascends.
abbrev pub From : ℕ → List ℕ → Type 0
From a [] = Unit {0}
From a (x ∷ xs) = (a ≤ x) × From x xs

abbrev pub IsSorted : List ℕ → Type 0
IsSorted [] = Unit {0}
IsSorted (x ∷ xs) = From x xs

From-insert : (a b : ℕ) (xs : List ℕ) → a ≤ b → From a xs → From a (insert ltb b xs)
unfolding insert
From-insert a b [] l f = (l, tt)
From-insert a b (x ∷ xs) l f = ground (arith, From-insert x b xs)

IsSorted-insert : (b : ℕ) (xs : List ℕ) → IsSorted xs → IsSorted (insert ltb b xs)
unfolding insert
IsSorted-insert b [] s = tt
IsSorted-insert b (x ∷ xs) s = ground (arith, From-insert x b xs)

IsSorted-sort : (xs : List ℕ) → IsSorted (sort_by ltb xs)
unfolding sort_by
IsSorted-sort [] = tt
IsSorted-sort (x ∷ xs) = IsSorted-insert x (sort_by ltb xs) (IsSorted-sort xs)

From-weaken : (a b : ℕ) (xs : List ℕ) → a ≤ b → From b xs → From a xs
From-weaken a b [] l f = tt
From-weaken a b (x ∷ xs) l f = (omega arith, f.1)

From-unique_after : (a b : ℕ) (xs : List ℕ) → a ≤ b → From b xs → From a (unique_after ◌==◌ b xs)
unfolding unique_after
From-unique_after a b [] l f = tt
From-unique_after a b (x ∷ xs) l f =
    ground (arith, From-unique_after a b xs, From-unique_after x x xs, From-weaken b x xs)

pub IsSorted-sort_unique : (xs : List ℕ) → IsSorted (sort_unique xs)
unfolding unique_by
IsSorted-sort_unique xs = unique (sort_by ltb xs) (IsSorted-sort xs)
  where
    unique : (ys : List ℕ) → IsSorted ys → IsSorted (unique_by ◌==◌ ys)
    unique [] s = tt
    unique (y ∷ ys) s = From-unique_after y y ys (omega arith) s

-- The first element that is not less decides.
unfoldable pub binary_search : List ℕ → ℕ → Bool
binary_search [] a = false
binary_search (x ∷ xs) a = if ltb x a then binary_search xs a else x == a

elem_below : (a x : ℕ) (xs : List ℕ) → From x xs → a < x → elem a xs ≡ false
elem_below a x [] f l = refl
elem_below a x (y ∷ ys) f l = ground (arith, elem_below a y ys)

From-binary_search : (a b : ℕ) (xs : List ℕ) → From b xs → binary_search xs a ≡ elem a xs
unfolding binary_search
From-binary_search a b [] f = refl
From-binary_search a b (x ∷ xs) f = ground (arith, From-binary_search a x xs f.1, elem_below a x xs)

pub binary_search-elem : (a : ℕ) (xs : List ℕ) → IsSorted xs → binary_search xs a ≡ elem a xs
unfolding binary_search
binary_search-elem a [] s = refl
binary_search-elem a (x ∷ xs) s = ground (arith, From-binary_search a x xs s, elem_below a x xs)

pub any-elem :
    (p : ℕ → Bool) (xs : List ℕ) → any p xs ≡ true → (e : ℕ) × (elem e xs ≡ true) × (p e ≡ true)
any-elem p [] h = cc
any-elem p (x ∷ xs) h = elim (Bool-cases (p x)) [
  | inl y ↦ (x, ground arith, y)
  | inr n ↦ let (e, m, q) = any-elem p xs (rw n at h) in (e, ground arith, q)
]

pub elem-any :
    (p : ℕ → Bool) (xs : List ℕ) (e : ℕ) → elem e xs ≡ true → p e ≡ true → any p xs ≡ true
elem-any p [] e m q = cc
elem-any p (x ∷ xs) e m q = elim (Bool-cases (x == e)) [
  | inl y ↦ let z : x ≡ e = (==_iff x e).0 y in rw (z, q)
  | inr n ↦ ground (arith, elem-any p xs e (rw n at m) q)
]
