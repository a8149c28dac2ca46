-- ===== src/Fcfs/Down.antt =====
-- The heap order of `pqueue` under `shiftdown`.
use operating_system_assignm.Prelude.{
  ℕ, zero, suc, ◌+◌, ◌≤◌, ◌<◌, ◌≡◌, ◌≢◌, arith, swap, ℕ_discrete,
}
use operating_system_assignm.Fcfs.{parent, leftchild, rightchild, minindex, shiftdown_loop}
use operating_system_assignm.Fcfs.Order.{IsHeap}

module _ (key : ℕ → ℕ) where
  -- The order holds but between `i` and its children, which are above `i`'s parent.
  pub record IsHeapAbove (n : ℕ) (a : ℕ → ℕ) (i : ℕ) : Type 0 where
    pub others : (j : ℕ) → 0 < j → j < n → parent j ≢ i → key (a (parent j)) ≤ key (a j)
    pub past : (j : ℕ) → 0 < i → 0 < j → j < n → parent j ≡ i → key (a (parent i)) ≤ key (a j)

  -- A child `c` of `i` that no entry of the family `i`, `left`, `right` lies above.
  record IsLeast (n : ℕ) (a : ℕ → ℕ) (i c : ℕ) : Type 0 where
    below : c < n
    child : parent c ≡ i
    pos : 0 < c
    least : (j : ℕ) → 0 < j → j < n → parent j ≡ i → key (a c) ≤ key (a j)
    less : key (a c) < key (a i)

  left-IsLeast :
      (n : ℕ) (a : ℕ → ℕ) (i : ℕ) → minindex key n a i ≡ leftchild i → IsLeast n a i (leftchild i)
  unfolding minindex
  left-IsLeast n a i e = record {
    below = ground arith;
    child = omega arith;
    pos = omega arith;
    least = λ j p q pj. elim (ℕ_discrete j (leftchild i)) [
      | yes jl ↦ ground arith
      | no jr ↦ let r : j ≡ rightchild i = omega arith in ground arith
    ];
    less = ground arith;
  }

  right-IsLeast :
      (n : ℕ) (a : ℕ → ℕ) (i : ℕ) → minindex key n a i ≡ rightchild i → IsLeast n a i (rightchild i)
  unfolding minindex
  right-IsLeast n a i e = record {
    below = ground arith;
    child = omega arith;
    pos = omega arith;
    least = λ j p q pj. elim (ℕ_discrete j (leftchild i)) [
      | yes jl ↦ ground arith
      | no jr ↦ let r : j ≡ rightchild i = omega arith in ground arith
    ];
    less = ground arith;
  }

  sink_once :
      (n : ℕ) (a : ℕ → ℕ) (i c : ℕ)
      → IsLeast n a i c
      → IsHeapAbove n a i
      → IsHeapAbove n (swap a c i) c
  sink_once n a i c l h = record {
    others = λ j p q ne. ground (
      arith,
      l.below,
      l.child,
      l.pos,
      l.less,
      l.least j p q,
      h.others j p q,
      h.past j,
      h.past c,
      l.least i,
    );
    past = λ j pc p q e. ground (arith, l.below, l.child, l.pos, l.less, h.others j p q);
  }

  stop_IsHeap :
      (n : ℕ) (a : ℕ → ℕ) (i : ℕ)
      → minindex key n a i ≢ leftchild i
      → minindex key n a i ≢ rightchild i
      → IsHeapAbove n a i
      → IsHeap key n a
  unfolding minindex
  stop_IsHeap n a i nl nr h j p q = elim (ℕ_discrete (parent j) i) [
    | no other ↦ h.others j p q other
    | yes here ↦ elim (ℕ_discrete j (leftchild i)) [
      | yes jl ↦ ground arith
      | no jr ↦ let r : j ≡ rightchild i = omega arith in ground arith
    ]
  ]

  pub shiftdown_loop-IsHeap :
      (fuel n : ℕ) (a : ℕ → ℕ) (i : ℕ)
      → n < fuel + i
      → IsHeapAbove n a i
      → IsHeap key n (shiftdown_loop key fuel n a i)
  unfolding shiftdown_loop
  shiftdown_loop-IsHeap zero n a i le h j p q = h.others j p q (omega arith)
  shiftdown_loop-IsHeap (suc fuel) n a i le h j p q =
      elim (ℕ_discrete (minindex key n a i) (leftchild i)) [
        | yes l ↦ ground (
          arith,
          shiftdown_loop-IsHeap fuel n (swap a (leftchild i) i) (leftchild i) (omega arith)
              (sink_once n a i (leftchild i) (left-IsLeast n a i l) h) j p q,
        )
        | no nl ↦ elim (ℕ_discrete (minindex key n a i) (rightchild i)) [
          | yes r ↦ ground (
            arith,
            shiftdown_loop-IsHeap fuel n (swap a (rightchild i) i) (rightchild i) (omega arith)
                (sink_once n a i (rightchild i) (right-IsLeast n a i r) h) j p q,
          )
          | no nr ↦ ground (arith, stop_IsHeap n a i nl nr h j p q)
        ]
      ]
