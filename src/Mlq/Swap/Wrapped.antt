-- ===== src/Mlq/Swap/Wrapped.antt =====
-- swapque on a level whose ring goes round the end of its row.
use operating_system_assignm.Prelude.{
  ℕ, zero, suc, ◌+◌, ◌%◌, ◌≤◌, ◌<◌, ◌≡◌, ◌≢◌, arith, some, ℕ_discrete, inl, inr, ◌⊎◌, negsuc,
}
use operating_system_assignm.Mlq.Level.{Ring, cells, IsValid}
use operating_system_assignm.Mlq.Swap.{
  find_pid, close_gap, take_pid, close_gap-wraps, close_gap-zero, close_gap-last, returns,
  out_of_bounds,
}

module _ (pid_of : ℕ → ℕ) where
  find_upper :
      (fuel : ℕ) (a : ℕ → ℕ) (end pid j i : ℕ)
      → i < fuel + j
      → end < j
      → j ≤ i
      → i < cells
      → pid_of (a i) ≡ pid
      → ((l : ℕ) → j ≤ l → l < i → pid_of (a l) ≢ pid)
      → find_pid pid_of fuel a end pid j ≡ returns (some i)
  unfolding find_pid
  find_upper zero a end pid j i f below le lt here before = absurd (omega arith)
  find_upper (suc fuel) a end pid j i f below le lt here before = elim (ℕ_discrete j i) [
    | yes same ↦ ground arith
    | no more ↦
        let step : (j + 1) % cells ≡ j + 1 = omega arith in
        ground (
          arith,
          step,
          before j,
          find_upper fuel a end pid (j + 1) i (omega arith) (omega arith) (omega arith) lt here
              (λ l x y. before l (omega arith) y),
        )
  ]

  -- Where a valid level goes round the end of its row, and the first process with the pid stands
  -- before that end: if `end` is not 0 the search of swapque writes at index -1, and if `end` is 0
  -- it takes the process out and leaves -1 in `end`.
  pub take_pid-wraps :
      (pid i : ℕ) (r : Ring)
      → IsValid r
      → r.end < r.start
      → r.start ≤ i
      → i < cells
      → pid_of (r.proc i) ≡ pid
      → ((l : ℕ) → r.start ≤ l → l < i → pid_of (r.proc l) ≢ pid)
      → ((0 < r.end) × (take_pid pid_of pid r ≡ out_of_bounds))
        ⊎ ((r.end ≡ 0)
            × ((a : ℕ → ℕ) × (take_pid pid_of pid r
                  ≡ returns (record { p = some (r.proc i); proc = a; end = negsuc 0 }))))
  unfolding take_pid
  take_pid-wraps pid i r v wrapped le lt here before =
      let f : find_pid pid_of (suc cells) r.proc r.end pid r.start ≡ returns (some i) =
        find_upper (suc cells) r.proc r.end pid r.start i (omega arith) wrapped le lt here before in
      elim (ℕ_discrete r.end 0) [
        | yes z ↦
            let (a, e) =
              close_gap-last (suc cells) r.proc r.end ((i + 1) % cells) z (omega arith)
                (inl (omega arith)) in
            inr (z, (a, rw (f, take_pid) (rw e (ground (arith, z)))))
        | no more ↦
            let bad : close_gap (suc cells) r.proc r.end ((i + 1) % cells) ≡ out_of_bounds =
              elim (ℕ_discrete (i + 1) cells) [
                | yes last ↦
                    let e : (i + 1) % cells ≡ 0 = omega arith in
                    rw e (close_gap-zero cells r.proc r.end (omega arith))
                | no inner ↦
                    close_gap-wraps (suc cells) r.proc r.end ((i + 1) % cells) (omega arith)
                      (omega arith) (omega arith) (omega arith)
              ] in
            inl (omega arith, rw (f, take_pid) (rw bad))
      ]
