-- ===== src/Prelude/Lists.antt =====
-- Lists measured by native numbers, occurrences, and the pigeonhole principle on them.
use Prim.Native.Nat.{ℕ, zero, suc, ◌+◌, ◌≤◌, ◌<◌}
use mathlib.Core.Path.{◌≡◌, refl}
use mathlib.Core.List.{List, [], ◌∷◌, ◌++◌}
use mathlib.Core.Option.{Option, none, some}
use native.Mathlib.Omega.{arith}
use operating_system_assignm.Prelude.Tests.{◌==◌, if◌then◌else◌}

module _ {ℓ} {A : Type ℓ} where
  abbrev pub length : List A → ℕ
  length [] = 0
  length (x ∷ xs) = suc (length xs)

  abbrev pub get_elem? : List A → ℕ → Option A
  get_elem? [] i = none
  get_elem? (x ∷ xs) zero = some x
  get_elem? (x ∷ xs) (suc i) = get_elem? xs i

  abbrev pub take : ℕ → List A → List A
  take zero xs = []
  take (suc n) [] = []
  take (suc n) (x ∷ xs) = x ∷ take n xs

  pub length-append : (xs ys : List A) → length (xs ++ ys) ≡ length xs + length ys
  length-append [] ys = omega arith
  length-append (x ∷ xs) ys = omega (arith, length-append xs ys)

-- 1 for a test that holds.
abbrev pub one_if : ℕ → ℕ → ℕ
one_if a b = if a == b then 1 else 0

-- How often a number occurs in a list.
abbrev pub count : ℕ → List ℕ → ℕ
count n [] = 0
count n (x ∷ rest) = one_if x n + count n rest

-- The occurrences of all numbers below a bound.
count_below : ℕ → List ℕ → ℕ
count_below zero xs = 0
count_below (suc n) xs = count_below n xs + count n xs

count_below-nil : (n : ℕ) → count_below n [] ≡ 0
unfolding count_below
count_below-nil zero = refl
count_below-nil (suc n) = omega (arith, count_below-nil n)

count_below-cons_ge : (n x : ℕ) (xs : List ℕ) → n ≤ x → count_below n (x ∷ xs) ≡ count_below n xs
unfolding count_below
count_below-cons_ge zero x xs h = refl
count_below-cons_ge (suc n) x xs h = ground (arith, count_below-cons_ge n x xs)

count_below-cons : (n x : ℕ) (xs : List ℕ) → x < n → count_below n (x ∷ xs) ≡ suc (count_below n xs)
unfolding count_below
count_below-cons zero x xs h = elim h [ ]
count_below-cons (suc n) x xs h =
    ground (arith, count_below-cons n x xs, count_below-cons_ge n x xs)

abbrev pub All {ℓ κ} : {A : Type ℓ} → (A → Type κ) → List A → Type κ
All P [] = Unit
All P (x ∷ xs) = P x × All P xs

length-count_below : (n : ℕ) (xs : List ℕ) → All (λ x. x < n) xs → length xs ≡ count_below n xs
length-count_below n [] h = omega (arith, count_below-nil n)
length-count_below n (x ∷ xs) h =
    omega (arith, count_below-cons n x xs h.0, length-count_below n xs h.1)

count_below-le : (n : ℕ) (xs : List ℕ) → ((a : ℕ) → count a xs ≤ 1) → count_below n xs ≤ n
unfolding count_below
count_below-le zero xs h = omega arith
count_below-le (suc n) xs h = omega (arith, count_below-le n xs h, h n)

-- A list of numbers below `n` in which none occurs twice has at most `n` members.
pub pigeonhole :
    (n : ℕ) (xs : List ℕ) → All (λ x. x < n) xs → ((a : ℕ) → count a xs ≤ 1) → length xs ≤ n
pigeonhole n xs below once = omega (arith, length-count_below n xs below, count_below-le n xs once)

All-append {ℓ κ} :
    {A : Type ℓ} (P : A → Type κ) (xs ys : List A) → All P xs → All P ys → All P (xs ++ ys)
All-append P [] ys hx hy = hy
All-append P (x ∷ xs) ys hx hy = (hx.0, All-append P xs ys hx.1 hy)

-- Only numbers below `n` occur.
pub All-of_count : (n : ℕ) (xs : List ℕ) → ((a : ℕ) → n ≤ a → count a xs ≡ 0) → All (λ x. x < n) xs
All-of_count n [] h = tt
All-of_count n (x ∷ xs) h =
    (ground (arith, h x), All-of_count n xs (λ a le. ground (arith, h a le)))

-- Both parts of a list count.
pub count-append :
    (n : ℕ) (front back : List ℕ) → count n (front ++ back) ≡ count n front + count n back
count-append n (x ∷ front) back = ground (arith, count-append n front back)
count-append n [] back = omega arith
