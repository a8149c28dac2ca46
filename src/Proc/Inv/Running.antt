-- ===== src/Proc/Inv/Running.antt =====
-- The scheduler's round and the clock: the invariant, and which process is chosen.

use operating_system_assignm.Prelude.{
  ℕ, ◌-◌, ◌≤◌, ◌≡◌, ◌⊎◌, inl, inr, refl, arith, true, false, update, none, some, Option, List, ◌∷◌,
}
use operating_system_assignm.Fcfs
use operating_system_assignm.Fcfs.{nproc}
use operating_system_assignm.Mlq.Level.{contents}
use operating_system_assignm.Proc.Kernel.{
  Policy, default, fcfs, mlq, dmlq, Proc, Kernel, running, set_proc,
}
use operating_system_assignm.Proc.Schedule.{schedule, pick_queue}
use operating_system_assignm.Proc.Inv.Defs.{Inv, MlqInv, is_ready}
use operating_system_assignm.Proc.Inv.Heap.{idle, oldest, remove-Removed}
use operating_system_assignm.Proc.Inv.Pick
use operating_system_assignm.Proc.Inv.Pick.{next, pick-Picked}

-- The process that the scheduler starts.
abbrev pub started : Kernel → ℕ → Proc
started k i = record (k.procs i) { state = running; timescheduled = k.ticks }

-- What a round of the FCFS scheduler comes to: it is idle and nothing is RUNNABLE, or it starts a
-- RUNNABLE process that no RUNNABLE process is older than, and the process is off the queue.
abbrev pub ChosenOldest : Kernel → Option (Option ℕ × Kernel) → Type 0
ChosenOldest k out =
    (((x : ℕ) → is_ready k.procs x ≡ false) × (out ≡ some (none, k)))
    ⊎ ((i : ℕ) × (k' : Kernel) × (out ≡ some (some i, k'))
        × (is_ready k.procs i ≡ true)
        × ((x : ℕ) → is_ready k.procs x ≡ true → (k.procs i).timecreated ≤ (k.procs x).timecreated)
        × Inv fcfs k'
        × (k'.procs ≡ update k.procs i (started k i)))

-- Under FCFS, from a state with the invariant: a round of the scheduler is idle only when
-- nothing is RUNNABLE; else it starts a RUNNABLE process that no RUNNABLE process is older than,
-- and takes it off the queue.
pub schedule-fcfs : (from : ℕ) (k : Kernel) → Inv fcfs k → ChosenOldest k (schedule fcfs from k)
unfolding schedule
schedule-fcfs from k inv = elim (remove-Removed inv) [
  | idle all e ↦ inl (all, ground (arith, e))
  | oldest i out lt ready least keeps ↦ inr (
    i,
    set_proc (record k { pqueue = (Fcfs.remove (λ j. (k.procs j).timecreated) k.pqueue).1 }) i
        (started k i),
    ground (arith, out),
    ground arith,
    least,
    keeps (started k i) refl,
    refl,
  )
]

-- MLQ or DMLQ.
abbrev pub HasLevels : Policy → Type 0
HasLevels default = ⊥
HasLevels fcfs = ⊥
HasLevels mlq = Unit
HasLevels dmlq = Unit

pick_queue_lem :
    (k : Kernel)
    → MlqInv k.procs k.multiqueue
    → (((x : ℕ) → is_ready k.procs x ≡ false) × (pick_queue k ≡ some (none, k)))
      ⊎ ((i : ℕ) × (rest : List ℕ) × (k' : Kernel) × (pick_queue k ≡ some (some i, k'))
          × (is_ready k.procs i ≡ true)
          × ((x : ℕ) → is_ready k.procs x ≡ true → (k.procs i).priority ≤ (k.procs x).priority)
          × (contents (k.multiqueue ((k.procs i).priority - 1)) ≡ i ∷ rest)
          × (contents (k'.multiqueue ((k.procs i).priority - 1)) ≡ rest)
          × MlqInv k'.procs k'.multiqueue
          × (k'.procs ≡ update k.procs i (started k i)))
pick_queue_lem k inv = elim (pick-Picked inv) [
  | Pick.idle all e ↦ inl (all, rw (e, pick_queue))
  | next i rest m' e lt ready old new highest keeps ↦ inr (
    i,
    rest,
    set_proc (record k { multiqueue = m' }) i (started k i),
    rw (e, pick_queue),
    ground arith,
    highest,
    old,
    new,
    keeps (started k i) refl (λ live. inv.priorities i lt (ground arith)),
    refl,
  )
]

-- What a round of the scheduler with levels comes to: it is idle and nothing is RUNNABLE, or it
-- starts the first process of its level, no RUNNABLE process is on a higher one, and the process is
-- off the queue.
abbrev pub Chosen : Policy → Kernel → Option (Option ℕ × Kernel) → Type 0
Chosen pol k out =
    (((x : ℕ) → is_ready k.procs x ≡ false) × (out ≡ some (none, k)))
    ⊎ ((i : ℕ) × (rest : List ℕ) × (k' : Kernel) × (out ≡ some (some i, k'))
        × (is_ready k.procs i ≡ true)
        × ((x : ℕ) → is_ready k.procs x ≡ true → (k.procs i).priority ≤ (k.procs x).priority)
        × (contents (k.multiqueue ((k.procs i).priority - 1)) ≡ i ∷ rest)
        × (contents (k'.multiqueue ((k.procs i).priority - 1)) ≡ rest)
        × Inv pol k'
        × (k'.procs ≡ update k.procs i (started k i)))

-- Under MLQ and DMLQ, from a state with the invariant: a round of the scheduler is idle only
-- when nothing is RUNNABLE; else it starts the process that waits longest on the highest level
-- that is not empty, and takes it off the queue.
pub schedule-levels :
    (pol : Policy) (from : ℕ) (k : Kernel)
    → HasLevels pol
    → Inv pol k
    → Chosen pol k (schedule pol from k)
unfolding schedule
schedule-levels default from k h inv = absurd h
schedule-levels fcfs from k h inv = absurd h
schedule-levels mlq from k h inv = pick_queue_lem k inv
schedule-levels dmlq from k h inv = pick_queue_lem k inv
