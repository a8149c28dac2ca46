-- ===== src/Proc/Tests/Changes.antt =====
-- chpr, kill, wait and the FCFS scheduler at concrete kernels.
use operating_system_assignm.Prelude.{
  ℕ, ◌<◌, ◌≡◌, ◌≢◌, refl, arith, ◌⊎◌, some, Option, update, [], ◌∷◌, ◌==◌, if◌then◌else◌,
}
use operating_system_assignm.Kalloc.{Kmem}
use operating_system_assignm.Mlq
use operating_system_assignm.Mlq.{MultiQueue}
use operating_system_assignm.Mlq.Swap.{
  Outcome, endless, out_of_bounds, returns, take_pid, find_pid, close_gap,
}
use operating_system_assignm.Mlq.Level.{Ring, contents, push}
use operating_system_assignm.Proc.Kernel.{mlq, find_slot, Proc, Kernel, runnable}
use operating_system_assignm.Proc.Change.{chpr, change_slot, swapque, swapped}
use operating_system_assignm.Proc.Changing.{chpr-wraps, promoted}
use operating_system_assignm.Proc.System.{boot, zero_proc}
use operating_system_assignm.Proc.Inv.Defs.{Inv}

-- Slots 1 and 2 are RUNNABLE with priority 2 and the pids 7 and 8; all other slots are free.
abbrev ready_proc : ℕ → Proc
ready_proc pid = record zero_proc { state = runnable; pid = pid; priority = 2 }

-- Their level goes round the end of the row: slot 1 stands before it, slot 2 behind it.
abbrev round_ring : Ring
round_ring = record { start = 64; end = 1; proc = λ j. if j == 64 then 1 else 2 }

-- Slot 1 alone, and the next index is 0.
abbrev last_ring : Ring
last_ring = record { start = 64; end = 0; proc = λ j. 1 }

abbrev empty_ring : Ring
empty_ring = record { start = 0; end = 0; proc = λ j. 0 }

abbrev levels : Ring → MultiQueue
levels r l = if l == 1 then r else empty_ring

abbrev no_pages : Kmem
no_pages = record { freelist = 0; next = λ v. 0 }

abbrev round_kernel : Kernel
round_kernel = record (boot no_pages) {
  procs = update (update (λ i. zero_proc) 1 (ready_proc 7)) 2 (ready_proc 8);
  multiqueue = levels round_ring;
}

abbrev last_kernel : Kernel
last_kernel = record (boot no_pages) {
  procs = update (λ i. zero_proc) 1 (ready_proc 7);
  multiqueue = levels last_ring;
}

round_contents : contents round_ring ≡ 1 ∷ 2 ∷ []
unfolding contents
round_contents = refl

last_contents : contents last_ring ≡ 1 ∷ []
unfolding contents
last_contents = refl

empty_contents : contents empty_ring ≡ []
unfolding contents
empty_contents = refl

round_Inv : Inv mlq round_kernel
round_Inv = record {
  levels = λ l h. ground arith;
  members = λ x l h. ground (arith, round_contents, empty_contents);
  priorities = λ x lt live. ground arith;
}

last_Inv : Inv mlq last_kernel
last_Inv = record {
  levels = λ l h. ground arith;
  members = λ x l h. ground (arith, last_contents, empty_contents);
  priorities = λ x lt live. ground arith;
}

-- With `end` 1 the gap is closed at index -1.
faults : chpr mlq 7 3 round_kernel ≡ out_of_bounds
unfolding chpr change_slot swapque swapped take_pid find_pid close_gap find_slot Mlq.enque push
faults = refl

-- With `end` 0 the row 1 ends with -1, and the next level has the process.
below : Outcome (ℕ × Option ℕ)
unfolding chpr change_slot swapque swapped take_pid find_pid close_gap find_slot Mlq.enque push
below = elim (chpr mlq 7 3 last_kernel) [
  | endless ↦ endless
  | out_of_bounds ↦ out_of_bounds
  | returns (k', level) ↦ returns ((k'.multiqueue 2).end, level)
]

below_one : below ≡ returns (1, some 1)
unfolding below
below_one = refl

round_unique : (l : ℕ) → l < 1 → (round_kernel.procs l).pid ≢ 7
round_unique l lt = ground arith

last_unique : (l : ℕ) → l < 1 → (last_kernel.procs l).pid ≢ 7
last_unique l lt = ground arith

last_wraps :
    ((0 < last_ring.end) × (chpr mlq 7 3 last_kernel ≡ out_of_bounds))
    ⊎ ((last_ring.end ≡ 0)
        × ((k' : Kernel) × (chpr mlq 7 3 last_kernel ≡ returns (k', some 1))
            × (k'.procs ≡ promoted 1 3 last_kernel)))
last_wraps =
    chpr-wraps 1 64 3 last_kernel last_Inv (omega arith) refl (omega arith) refl last_unique
      (omega arith) (omega arith) (omega arith) refl (λ l a b. absurd (omega arith))

chpr-wraps_example :
    ((0 < round_ring.end) × (chpr mlq 7 3 round_kernel ≡ out_of_bounds))
    ⊎ ((round_ring.end ≡ 0)
        × ((k' : Kernel) × (chpr mlq 7 3 round_kernel ≡ returns (k', some 1))
            × (k'.procs ≡ promoted 1 3 round_kernel)))
chpr-wraps_example =
    chpr-wraps 1 64 3 round_kernel round_Inv (omega arith) refl (omega arith) refl round_unique
      (omega arith) (omega arith) (omega arith) refl (λ l a b. absurd (omega arith))
