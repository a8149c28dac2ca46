-- ===== src/Fcfs/Members.antt =====
-- The processes of the heap as a multiset, and the sifts.
use operating_system_assignm.Prelude.{
  ℕ, zero, suc, ◌+◌, ◌≤◌, ◌<◌, ◌≡◌, refl, arith, swap, update, ℕ_discrete, one_if, total,
  total-swap, total-update, total-suc, total-zero, ◌∙◌, ◌≢◌, List, [], ◌∷◌, length, count, ap,
  pigeonhole, All-of_count,
}
use operating_system_assignm.Fcfs.{
  parent, leftchild, rightchild, minindex, shiftup_loop, shiftdown_loop,
}

-- How often `p` stands among the first `n` entries.
abbrev pub occurs : ℕ → ℕ → (ℕ → ℕ) → ℕ
occurs p n a = total (λ x. one_if x p) n a

module _ (key : ℕ → ℕ) where
  pub occurs-shiftup_loop :
      (p fuel n : ℕ) (a : ℕ → ℕ) (i : ℕ)
      → i < n
      → occurs p n (shiftup_loop key fuel i a) ≡ occurs p n a
  unfolding shiftup_loop
  occurs-shiftup_loop p zero n a i lt = refl
  occurs-shiftup_loop p (suc fuel) n a i lt = ground (
    arith,
    occurs-shiftup_loop p fuel n (swap a (parent i) i) (parent i) (omega arith),
    total-swap (λ x. one_if x p) n a (parent i) i (omega arith) lt,
  )

  minindex_bound : (n : ℕ) (a : ℕ → ℕ) (i : ℕ) → i < n → minindex key n a i < n
  unfolding minindex
  minindex_bound n a i lt = ground arith

  pub occurs-shiftdown_loop :
      (p fuel n : ℕ) (a : ℕ → ℕ) (i : ℕ)
      → i < n
      → occurs p n (shiftdown_loop key fuel n a i) ≡ occurs p n a
  unfolding shiftdown_loop
  occurs-shiftdown_loop p zero n a i lt = refl
  occurs-shiftdown_loop p (suc fuel) n a i lt =
      elim (ℕ_discrete (minindex key n a i) (leftchild i)) [
        | yes l ↦ ground (
          arith,
          occurs-shiftdown_loop p fuel n (swap a (leftchild i) i) (minindex key n a i)
              (minindex_bound n a i lt),
          total-swap (λ x. one_if x p) n a (leftchild i) i (omega (arith, minindex_bound n a i lt))
              lt,
        )
        | no nl ↦ elim (ℕ_discrete (minindex key n a i) (rightchild i)) [
          | yes r ↦ ground (
            arith,
            occurs-shiftdown_loop p fuel n (swap a (rightchild i) i) (minindex key n a i)
                (minindex_bound n a i lt),
            total-swap (λ x. one_if x p) n a (rightchild i) i
                (omega (arith, minindex_bound n a i lt)) lt,
          )
          | no nr ↦ ground arith
        ]
      ]

-- The first `n` entries as a list.
abbrev entries : ℕ → (ℕ → ℕ) → List ℕ
entries zero a = []
entries (suc n) a = a n ∷ entries n a

length-entries : (n : ℕ) (a : ℕ → ℕ) → length (entries n a) ≡ n
length-entries zero a = refl
length-entries (suc n) a = ap suc (length-entries n a)

count-entries : (x n : ℕ) (a : ℕ → ℕ) → count x (entries n a) ≡ occurs x n a
count-entries x zero a = omega (arith, total-zero (λ y. one_if y x) a)
count-entries x (suc n) a = ground (arith, total-suc (λ y. one_if y x) n a, count-entries x n a)

-- A queue of distinct slots of a table of `m` has at most `m` entries.
pub size-le :
    (m n : ℕ) (a : ℕ → ℕ)
    → ((x : ℕ) → m ≤ x → occurs x n a ≡ 0)
    → ((x : ℕ) → occurs x n a ≤ 1)
    → n ≤ m
size-le m n a out once = omega (
  arith,
  length-entries n a,
  pigeonhole m (entries n a) (All-of_count m (entries n a) (λ x le. count-entries x n a ∙ out x le))
      (λ x. omega (arith, count-entries x n a, once x)),
)

-- What does not occur stands nowhere.
pub occurs-ne : (x n : ℕ) (a : ℕ → ℕ) (j : ℕ) → occurs x n a ≡ 0 → j < n → a j ≢ x
occurs-ne x zero a j z lt e = omega arith
occurs-ne x (suc n) a j z lt e = elim (ℕ_discrete j n) [
  | yes last ↦ ground (arith, total-suc (λ y. one_if y x) n a)
  | no below ↦ occurs-ne x n a j (omega (arith, total-suc (λ y. one_if y x) n a)) (omega arith) e
]

-- What stands somewhere occurs.
pub occurs-pos : (n : ℕ) (a : ℕ → ℕ) (j : ℕ) → j < n → 0 < occurs (a j) n a
occurs-pos zero a j lt = elim lt [ ]
occurs-pos (suc n) a j lt = elim (ℕ_discrete j n) [
  | yes last ↦ ground (arith, total-suc (λ y. one_if y (a j)) n a)
  | no below ↦ omega (arith, total-suc (λ y. one_if y (a j)) n a, occurs-pos n a j (omega arith))
]

-- A queue of distinct slots that lacks one slot has room for it.
pub size-lt :
    (m n : ℕ) (a : ℕ → ℕ) (i : ℕ)
    → i < m
    → occurs i n a ≡ 0
    → ((x : ℕ) → m ≤ x → occurs x n a ≡ 0)
    → ((x : ℕ) → occurs x n a ≤ 1)
    → n < m
size-lt m n a i lt lack out once =
    size-le m (suc n) (update a n i) (λ x le. ground (arith, grown x, out x le))
      (λ x. ground (arith, grown x, once x, lack))
  where
    grown : (x : ℕ) → occurs x (suc n) (update a n i) ≡ occurs x n a + one_if i x
    grown x = ground (
      arith,
      total-update (λ y. one_if y x) (suc n) a n i (omega arith),
      total-suc (λ y. one_if y x) n a,
    )
