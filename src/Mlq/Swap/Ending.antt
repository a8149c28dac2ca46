-- ===== src/Mlq/Swap/Ending.antt =====
-- The loops of swapque end within their fuel.
use operating_system_assignm.Prelude.{
  ℕ, zero, suc, ◌+◌, ◌-◌, ◌%◌, ◌<◌, ◌≡◌, arith, none, some, ℕ_discrete, update, ◌⊎◌, inl, inr, refl,
}
use operating_system_assignm.Mlq.Level.{Ring, cells, IsValid}
use operating_system_assignm.Mlq.Swap.{
  end_back, out_of_bounds, returns, Taken, find_pid, close_gap, take_pid,
}

-- From an index inside of the row the search comes to `end`, or to the pid before; then it is at
-- an index of the row.
find_pid-ends :
    (pid_of : ℕ → ℕ) (fuel : ℕ) (a : ℕ → ℕ) (end pid i : ℕ)
    → i < cells
    → end < cells
    → (end + cells - i) % cells < fuel
    → (find_pid pid_of fuel a end pid i ≡ returns none)
      ⊎ ((x : ℕ) × (find_pid pid_of fuel a end pid i ≡ returns (some x)) × (x < cells))
unfolding find_pid
find_pid-ends pid_of zero a end pid i lt lt' f = absurd (omega arith)
find_pid-ends pid_of (suc fuel) a end pid i lt lt' f = elim (ℕ_discrete i end) [
  | yes last ↦ inl (ground arith)
  | no more ↦ elim (ℕ_discrete (pid_of (a i)) pid) [
    | yes here ↦ inr (i, ground arith, lt)
    | no on ↦
        elim (find_pid-ends pid_of fuel a end pid ((i + 1) % cells) (omega arith) lt'
          (omega arith)) [
            | inl e ↦ inl (ground (arith, e))
            | inr (x, e, below) ↦ inr (x, ground (arith, e), below)
          ]
  ]
]

close_gap-ends :
    (fuel : ℕ) (a : ℕ → ℕ) (end j : ℕ)
    → j < cells
    → end < cells
    → (end + cells - j) % cells < fuel
    → (close_gap fuel a end j ≡ out_of_bounds)
      ⊎ ((a' : ℕ → ℕ) × (close_gap fuel a end j ≡ returns a'))
unfolding close_gap
close_gap-ends zero a end j lt lt' f = absurd (omega arith)
close_gap-ends (suc fuel) a end j lt lt' f = elim (ℕ_discrete j end) [
  | yes last ↦ inr (a, ground arith)
  | no more ↦ elim (ℕ_discrete j 0) [
    | yes low ↦ inl (ground arith)
    | no inner ↦
        elim (close_gap-ends fuel (update a (j - 1) (a j)) end ((j + 1) % cells) (omega arith) lt'
          (omega arith)) [
            | inl e ↦ inl (ground (arith, e))
            | inr (a', e) ↦ inr (a', ground (arith, e))
          ]
  ]
]

-- On a valid level the loops of swapque end within the fuel.
pub take_pid-ends :
    (pid_of : ℕ → ℕ) (pid : ℕ) (r : Ring)
    → IsValid r
    → (take_pid pid_of pid r ≡ out_of_bounds) ⊎ ((t : Taken) × (take_pid pid_of pid r ≡ returns t))
unfolding take_pid
take_pid-ends pid_of pid r v =
    elim (find_pid-ends pid_of (suc cells) r.proc r.end pid r.start v.start_in v.end_in
      (omega arith)) [
        | inl e ↦
            inr (record { p = none; proc = r.proc; end = end_back r.end }, rw (take_pid, e) refl)
        | inr (i, e, below) ↦
            elim (close_gap-ends (suc cells) r.proc r.end ((i + 1) % cells) (omega arith) v.end_in
              (omega arith)) [
                | inl bad ↦ inl (rw (take_pid, e) (rw bad refl))
                | inr (a, ok) ↦ inr (
                  record { p = some (r.proc i); proc = a; end = end_back r.end },
                  rw (take_pid, e) (rw ok refl),
                )
              ]
      ]
