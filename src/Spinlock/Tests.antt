-- ===== src/Spinlock/Tests.antt =====
-- A free lock and CPUs with interrupts on.
use operating_system_assignm.Prelude.{ℕ, ◌≡◌, refl, true, false, Option, none, some, List, [], ◌∷◌}
use operating_system_assignm.Spinlock.{
  Cpu, Phase, outside, spinning, inside, Machine, step_at, step, run, pushcli, popcli, holding,
  acquire_begin, release_begin,
}
use operating_system_assignm.Spinlock.Nesting.{calls, Same, nothing, pair, calls-Same}
use operating_system_assignm.Spinlock.Owner.{IsOwned, nobody}
use operating_system_assignm.Spinlock.Steps.{run-exclusive}

abbrev open_cpu : Cpu
open_cpu = record { ncli = 0; intena = false; interrupts = true }

abbrev idle : Machine
idle = record {
  lock = record { locked = false; cpu = none };
  cpus = λ i. open_cpu;
  phase = λ i. outside;
}

idle-IsOwned : IsOwned idle
idle-IsOwned = record {
  owner = nobody refl (λ i. refl);
  recorded = λ i. refl;
  off = λ i n. absurd (n refl);
  depth = λ i away. absurd (away refl);
}

-- CPU 1 spins while CPU 0 has the lock, and gets it afterwards.
abbrev phase_after : List ℕ → ℕ → Option Phase
phase_after order i = elim (run order idle) [ none ↦ none | some s ↦ some (s.phase i) ]

spins : phase_after (0 ∷ 1 ∷ 0 ∷ 1 ∷ 0 ∷ 1 ∷ []) 1 ≡ some spinning
unfolding run step step_at acquire_begin release_begin holding pushcli popcli
spins = refl

gets_it : phase_after (0 ∷ 1 ∷ 0 ∷ 1 ∷ 0 ∷ 0 ∷ 0 ∷ 1 ∷ 1 ∷ []) 1 ≡ some inside
unfolding run step step_at acquire_begin release_begin holding pushcli popcli
gets_it = refl

calls-Same_example :
    (c' : Cpu) × (calls (true ∷ true ∷ false ∷ false ∷ []) open_cpu ≡ some c') × Same open_cpu c'
calls-Same_example =
    calls-Same (true ∷ true ∷ false ∷ false ∷ []) open_cpu
      (pair (true ∷ false ∷ []) [] (pair [] [] nothing nothing) nothing) (λ n. absurd (n refl))

run-exclusive_example :
    (s : Machine) × (run (0 ∷ 1 ∷ 0 ∷ 1 ∷ 0 ∷ []) idle ≡ some s)
    × ((i j : ℕ) → s.phase i ≡ inside → s.phase j ≡ inside → i ≡ j)
run-exclusive_example = run-exclusive (0 ∷ 1 ∷ 0 ∷ 1 ∷ 0 ∷ []) idle idle-IsOwned
