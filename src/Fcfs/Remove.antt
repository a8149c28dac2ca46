-- ===== src/Fcfs/Remove.antt =====
-- `insert` and `remove` of the FCFS run queue as operations of a priority queue.
use operating_system_assignm.Prelude.{
  ℕ, zero, suc, ◌+◌, ◌-◌, ◌≤◌, ◌<◌, ◌≡◌, ◌⊎◌, inl, inr, arith, update, dec_lt, one_if, total-update,
  total-suc, total-zero, Option, none, some,
}
use operating_system_assignm.Fcfs.{
  nproc, PQueue, parent, shiftup, shiftdown, shiftdown_loop, insert, remove,
}
use operating_system_assignm.Fcfs.Order.{IsHeap, IsHeapBelow, shiftup_loop-IsHeap}
use operating_system_assignm.Fcfs.Down.{IsHeapAbove, shiftdown_loop-IsHeap}
use operating_system_assignm.Fcfs.Members.{occurs, occurs-shiftup_loop, occurs-shiftdown_loop}

module _ (key : ℕ → ℕ) where
  -- The representation invariant of `pqueue`.
  pub record IsValid (q : PQueue) : Type 0 where
    pub ordered : IsHeap key q.size q.proc
    pub room : q.size ≤ nproc

  appended_IsHeapBelow :
      (p n : ℕ) (a : ℕ → ℕ) → IsHeap key n a → IsHeapBelow key (n + 1) (update a n p) n
  appended_IsHeapBelow p n a h = record {
    others = λ j q r ne. ground (arith, h j q);
    past = λ j pn q r e. absurd (omega arith);
  }

  -- Inserting into a valid heap keeps the heap order and the bound.
  pub insert-IsValid : (p : ℕ) {q : PQueue} → IsValid q → IsValid (insert key p q)
  unfolding insert shiftup
  insert-IsValid p {q} v = record {
    ordered = λ j a b. ground (
      arith,
      v.ordered j a,
      shiftup_loop-IsHeap key q.size (q.size + 1) (update q.proc q.size p) q.size (omega arith)
          (omega arith) (appended_IsHeapBelow p q.size q.proc v.ordered) j a,
    );
    room = ground arith;
  }

  -- While there is room the queue gains exactly one occurrence of the inserted process, and
  -- keeps those of every other.
  pub occurs-insert :
      (x p : ℕ) (q : PQueue)
      → q.size < nproc
      → let q' = insert key p q in
        (q'.size ≡ q.size + 1) × (occurs x q'.size q'.proc ≡ occurs x q.size q.proc + one_if p x)
  unfolding insert shiftup
  occurs-insert x p q lt = ground (
    arith,
    occurs-shiftup_loop key x q.size (q.size + 1) (update q.proc q.size p) q.size (omega arith),
    total-update (λ y. one_if y x) (q.size + 1) q.proc q.size p (omega arith),
    total-suc (λ y. one_if y x) q.size q.proc,
    let e : q.size + 1 ≡ suc q.size = omega arith in e,
  )

  root_IsHeapAbove :
      (p n : ℕ) (a : ℕ → ℕ) → IsHeap key (suc n) a → IsHeapAbove key n (update a 0 p) 0
  root_IsHeapAbove p n a h = record {
    others = λ j q r ne. ground (arith, h j q);
    past = λ j z q r e. absurd (omega arith);
  }

  -- Removing from a valid heap keeps the heap order and the bound.
  pub remove-IsValid : {q : PQueue} → IsValid q → IsValid (remove key q).1
  unfolding remove shiftdown
  remove-IsValid {q} v = record {
    ordered = λ j a b. elim (dec_lt 0 q.size) [
      | no empty ↦ ground (arith, v.ordered j a)
      | yes some_in ↦
          let e : q.size ≡ suc (q.size - 1) = omega arith in
          ground (
            arith,
            v.ordered j a,
            shiftdown_loop-IsHeap key (suc (q.size - 1)) (q.size - 1)
                (update q.proc 0 (q.proc (q.size - 1))) 0 (omega arith)
                (root_IsHeapAbove (q.proc (q.size - 1)) (q.size - 1) q.proc
                  (λ i x y. v.ordered i x (omega arith)))
                j a,
          )
    ];
    room = ground (arith, v.room);
  }

  -- The root of a heap is a least entry: climb from any entry by parents.
  root_least :
      (fuel n : ℕ) (a : ℕ → ℕ) → IsHeap key n a → (j : ℕ) → j ≤ fuel → j < n → key (a 0) ≤ key (a j)
  root_least zero n a h zero le lt = omega arith
  root_least zero n a h (suc j) le lt = absurd (omega arith)
  root_least (suc fuel) n a h zero le lt = omega arith
  root_least (suc fuel) n a h (suc j) le lt = omega (
    arith,
    h (suc j) (omega arith) lt,
    root_least fuel n a h (parent (suc j)) (omega arith) (omega arith),
  )

  occurs_pop :
      (x n : ℕ) (a : ℕ → ℕ) → occurs x n (update a 0 (a n)) + one_if (a 0) x ≡ occurs x (suc n) a
  occurs_pop x zero a = ground (
    arith,
    total-suc (λ y. one_if y x) 0 a,
    total-zero (λ y. one_if y x) a,
    total-zero (λ y. one_if y x) (update a 0 (a 0)),
  )
  occurs_pop x (suc n) a = ground (
    arith,
    total-suc (λ y. one_if y x) (suc n) a,
    total-update (λ y. one_if y x) (suc n) a 0 (a (suc n)) (omega arith),
  )

  removed_occurs :
      (x : ℕ) (q : PQueue)
      → 0 < q.size
      → let q' = (remove key q).1 in
        occurs x q.size q.proc ≡ occurs x q'.size q'.proc + one_if (q.proc 0) x
  unfolding remove shiftdown
  removed_occurs x q h =
      let n : ℕ = q.size - 1 in
      let e : q.size ≡ suc n = omega arith in
      let a : ℕ → ℕ = update q.proc 0 (q.proc n) in
      elim (dec_lt 0 n) [
        | yes more ↦
            ground (arith, e, occurs_pop x n q.proc, occurs-shiftdown_loop key x (suc n) n a 0 more)
        | no last ↦
            let z : n ≡ 0 = omega arith in
            ground (
              arith,
              e,
              occurs_pop x n q.proc,
              z,
              total-zero (λ y. one_if y x) a,
              total-zero (λ y. one_if y x) (shiftdown_loop key (suc n) n a 0),
            )
      ]

  -- What `remove` comes to: null for an empty queue, or one of its oldest processes, and the rest.
  abbrev pub Removes : PQueue → Option ℕ × PQueue → Type 0
  Removes q (out, q') =
      ((q.size ≡ 0) × (out ≡ none) × (q' ≡ q))
      ⊎ ((p : ℕ) × (out ≡ some p)
          × (q.size ≡ suc q'.size)
          × ((j : ℕ) → j < q.size → key p ≤ key (q.proc j))
          × ((x : ℕ) → occurs x q.size q.proc ≡ occurs x q'.size q'.proc + one_if p x))

  -- On a valid heap `remove` returns the null pointer for an empty queue, which it leaves alone,
  -- and otherwise a process that no process of the queue is older than; exactly that one
  -- occurrence is gone.
  pub remove_lem : {q : PQueue} → IsValid q → Removes q (remove key q)
  unfolding remove shiftdown
  remove_lem {q} v = elim (dec_lt 0 q.size) [
    | no empty ↦ inl (ground arith, ground arith, ground arith)
    | yes full ↦
        let e : q.size ≡ suc (q.size - 1) = omega arith in
        inr (
          q.proc 0,
          ground arith,
          ground arith,
          λ j lt. root_least j q.size q.proc v.ordered j (omega arith) lt,
          λ x. removed_occurs x q full,
        )
  ]
