-- ===== src/Mlq/Swap.antt =====
-- swapque of proc.c (built under MLQ): move a queued process from one level to another. Here: the
-- level that the process leaves.
pub mod Wrapped
pub mod Straight
pub mod Ending
use operating_system_assignm.Prelude.{
  ℕ, zero, suc, ◌+◌, ◌-◌, ◌%◌, ◌≤◌, ◌<◌, ◌≡◌, ◌≢◌, ◌⊎◌, inl, inr, refl, arith, Bool, true, false,
  Option, none, some, ℤ, pos, negsuc, ◌==◌, if◌then◌else◌, update, ==-ne, ==-eq, ℕ_discrete,
  Bool-cases,
}
use operating_system_assignm.Mlq.Level.{Ring, cells, IsValid}

-- How a run ends: with a result, at an index outside of an array, or not within the fuel.
pub data Outcome {ℓ} (A : Type ℓ) : Type ℓ where
  endless : Outcome A
  out_of_bounds : Outcome A
  returns : A → Outcome A

module _ (pid_of : ℕ → ℕ) where
  -- The search from index `i` to `end`, on fuel; a row has `cells` indices. The result is `none`
  -- for a queue without the pid.
  unfoldable pub find_pid : ℕ → (ℕ → ℕ) → ℕ → ℕ → ℕ → Outcome (Option ℕ)
  find_pid zero a end pid i = endless
  find_pid (suc fuel) a end pid i =
      let rest = find_pid fuel a end pid ((i + 1) % cells) in
      if i == end then returns none else if pid_of (a i) == pid then returns (some i) else rest

-- The inner loop, which moves the entries from `j` to `end` down by one. Where `j` is 0 it writes
-- at index -1.
unfoldable pub close_gap : ℕ → (ℕ → ℕ) → ℕ → ℕ → Outcome (ℕ → ℕ)
close_gap zero a end j = endless
close_gap (suc fuel) a end j =
    let rest = close_gap fuel (update a (j - 1) (a j)) end ((j + 1) % cells) in
    if j == end then returns a else if j == 0 then out_of_bounds else rest

-- `(end - 1) % (NPROC + 1)`, which is -1 in C where `end` is 0.
abbrev pub end_back : ℕ → ℤ
end_back end = if end == 0 then negsuc 0 else pos ((end - 1) % cells)

-- The process `p` that `swapque` found, null where the pid is not in the level, and the row and
-- `end` of the level behind the assignment to `end`.
pub record Taken : Type 0 where
  pub p : Option ℕ
  pub proc : ℕ → ℕ
  pub end : ℤ

unfoldable pub take_pid : (ℕ → ℕ) → ℕ → Ring → Outcome Taken
take_pid pid_of pid r = elim (find_pid pid_of (suc cells) r.proc r.end pid r.start) [
  | endless ↦ endless
  | out_of_bounds ↦ out_of_bounds
  | returns none ↦ returns (record { p = none; proc = r.proc; end = end_back r.end })
  | returns (some i) ↦ elim (close_gap (suc cells) r.proc r.end ((i + 1) % cells)) [
    | endless ↦ endless
    | out_of_bounds ↦ out_of_bounds
    | returns a ↦ returns (record { p = some (r.proc i); proc = a; end = end_back r.end })
  ]
]

-- Going up to `end` round the end of the row, the inner loop writes below the row.
close_gap-wraps :
    (fuel : ℕ) (a : ℕ → ℕ) (end j : ℕ)
    → 0 < end
    → end < j
    → j < cells
    → cells < fuel + j
    → close_gap fuel a end j ≡ out_of_bounds
unfolding close_gap
close_gap-wraps zero a end j some_left lt in_row f = absurd (omega arith)
close_gap-wraps (suc zero) a end j some_left lt in_row f = absurd (omega arith)
close_gap-wraps (suc (suc fuel)) a end j some_left lt in_row f = elim (ℕ_discrete (j + 1) cells) [
  | no next ↦ ground (
    arith,
    close_gap-wraps (suc fuel) (update a (j - 1) (a j)) end ((j + 1) % cells) some_left
        (omega arith) (omega arith) (omega arith),
  )
  | yes last ↦ let z : (j + 1) % cells ≡ 0 = omega arith in ground arith
]

close_gap-zero :
    (fuel : ℕ) (a : ℕ → ℕ) (end : ℕ) → 0 < end → close_gap (suc fuel) a end 0 ≡ out_of_bounds
unfolding close_gap
close_gap-zero fuel a end some_left = ground arith

-- Where `end` is 0 the inner loop stops before it comes to index 0.
close_gap-last :
    (fuel : ℕ) (a : ℕ → ℕ) (end j : ℕ)
    → end ≡ 0
    → j < cells
    → cells < fuel + j ⊎ ((j ≡ 0) × (0 < fuel))
    → (a' : ℕ → ℕ) × (close_gap fuel a end j ≡ returns a')
unfolding close_gap
close_gap-last zero a end j null in_row f = absurd (omega (arith, f))
close_gap-last (suc fuel) a end j null in_row f = elim (ℕ_discrete j 0) [
  | yes z ↦ (a, ground arith)
  | no more ↦
      let (a', e) =
        close_gap-last fuel (update a (j - 1) (a j)) end ((j + 1) % cells) null (omega arith)
          (elim (ℕ_discrete (j + 1) cells) [
            | no next ↦ inl (ground (arith, f, more))
            | yes last ↦ inr (omega arith, ground (arith, f, more))
          ]) in
      (a', ground (arith, e))
]
