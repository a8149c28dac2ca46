-- ===== src/Fcfs/Order.antt =====
-- The heap order of `pqueue`, and `shiftup`.
use operating_system_assignm.Prelude.{ℕ, zero, suc, ◌≤◌, ◌<◌, ◌≡◌, ◌≢◌, arith, swap, dec_lt}
use operating_system_assignm.Fcfs.{parent, shiftup_loop}

module _ (key : ℕ → ℕ) where
  -- Each of the first `n` entries is no younger than its parent's children: keys grow downwards.
  abbrev pub IsHeap : ℕ → (ℕ → ℕ) → Type 0
  IsHeap n a = (j : ℕ) → 0 < j → j < n → key (a (parent j)) ≤ key (a j)

  -- The order holds but between `i` and its parent, and `i`'s parent is below `i`'s children.
  pub record IsHeapBelow (n : ℕ) (a : ℕ → ℕ) (i : ℕ) : Type 0 where
    pub others : (j : ℕ) → 0 < j → j < n → j ≢ i → key (a (parent j)) ≤ key (a j)
    pub past : (j : ℕ) → 0 < i → 0 < j → j < n → parent j ≡ i → key (a (parent i)) ≤ key (a j)

  shift_once :
      (n : ℕ) (a : ℕ → ℕ) (i : ℕ)
      → i < n
      → 0 < i
      → key (a i) < key (a (parent i))
      → IsHeapBelow n a i
      → IsHeapBelow n (swap a (parent i) i) (parent i)
  shift_once n a i lt pos less h = record {
    others = λ j p q ne. ground (arith, h.others j p q, h.past j pos p q);
    past = λ j pi p q e. ground (arith, h.others j p q, h.others (parent i) pi, h.past j pos p q);
  }

  pub shiftup_loop-IsHeap :
      (fuel n : ℕ) (a : ℕ → ℕ) (i : ℕ)
      → i ≤ fuel
      → i < n
      → IsHeapBelow n a i
      → IsHeap n (shiftup_loop key fuel i a)
  unfolding shiftup_loop
  shiftup_loop-IsHeap zero n a i le lt h j p q = h.others j p q (omega arith)
  shiftup_loop-IsHeap (suc fuel) n a i le lt h j p q = elim (dec_lt 0 i) [
    | no zero_i ↦ ground (arith, h.others j p q)
    | yes pos ↦ elim (dec_lt (key (a i)) (key (a (parent i)))) [
      | yes less ↦ ground (
        arith,
        shiftup_loop-IsHeap fuel n (swap a (parent i) i) (parent i) (omega arith) (omega arith)
            (shift_once n a i lt pos less h) j p q,
      )
      | no ge ↦ ground (arith, h.others j p q)
    ]
  ]
