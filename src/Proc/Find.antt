-- ===== src/Proc/Find.antt =====
-- What the search loops over the process table find.
use operating_system_assignm.Prelude.{
  ℕ, zero, suc, ◌+◌, ◌≤◌, ◌<◌, ◌≡◌, refl, arith, Bool, true, false, none, some, ℕ_discrete,
  Bool-cases, inl, inr,
}
use operating_system_assignm.Proc.Kernel.{Proc, find_slot}

-- The first slot from `i` on that passes the test, or the news that none of the `n` does.
pub data Found (test : Proc → Bool) (procs : ℕ → Proc) (n i : ℕ) : Type 0 where
  nowhere :
      ((j : ℕ) → i ≤ j → j < i + n → test (procs j) ≡ false)
      → find_slot test procs n i ≡ none
      → Found test procs n i
  first :
      (j : ℕ)
      → i ≤ j
      → j < i + n
      → test (procs j) ≡ true
      → ((l : ℕ) → i ≤ l → l < j → test (procs l) ≡ false)
      → find_slot test procs n i ≡ some j
      → Found test procs n i

pub find_slot-Found : (test : Proc → Bool) (procs : ℕ → Proc) (n i : ℕ) → Found test procs n i
unfolding find_slot
find_slot-Found test procs zero i = nowhere (λ j a b. absurd (omega arith)) refl
find_slot-Found test procs (suc n) i = elim (Bool-cases (test (procs i))) [
  | inl here ↦ first i (omega arith) (omega arith) here (λ l a b. absurd (omega arith)) (rw here)
  | inr not_here ↦ elim (find_slot-Found test procs n (i + 1)) [
    | nowhere all e ↦
        nowhere
          (λ j a b. elim (ℕ_discrete i j) [
            | yes same ↦ rw (← same) not_here
            | no other ↦ all j (omega arith) (omega arith)
          ])
          (rw not_here e)
    | first j a b t before e ↦
        first j (omega arith) (omega arith) t
          (λ l x y. elim (ℕ_discrete i l) [
            | yes same ↦ rw (← same) not_here
            | no other ↦ before l (omega arith) y
          ])
          (rw not_here e)
  ]
]
