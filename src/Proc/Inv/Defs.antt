-- ===== src/Proc/Inv/Defs.antt =====
-- The run queues of proc.c against its process table: one entry for each RUNNABLE process.
use operating_system_assignm.Prelude.{
  ℕ, ◌-◌, ◌≤◌, ◌<◌, ◌≡◌, Bool, true, false, ◌&&◌, ltb, ◌==◌, if◌then◌else◌, count,
}
use operating_system_assignm.Fcfs
use operating_system_assignm.Fcfs.{PQueue, nproc}
use operating_system_assignm.Fcfs.Members.{occurs}
use operating_system_assignm.Fcfs.Remove
use operating_system_assignm.Mlq.{MultiQueue, numpr}
use operating_system_assignm.Mlq.Level
use operating_system_assignm.Proc.Kernel.{
  Policy, default, fcfs, mlq, dmlq, Proc, Kernel, ProcState, sleeping, runnable, running, state_eq,
}

-- Slot `x` of the table is RUNNABLE.
abbrev pub is_ready : (ℕ → Proc) → ℕ → Bool
is_ready procs x = ltb x nproc && state_eq (procs x).state runnable

abbrev pub one_of : Bool → ℕ
one_of b = if b then 1 else 0

pub record FcfsInv (procs : ℕ → Proc) (q : PQueue) : Type 0 where
  pub heap : Fcfs.Remove.IsValid (λ i. (procs i).timecreated) q
  pub members : (x : ℕ) → Fcfs.Members.occurs x q.size q.proc ≡ one_of (is_ready procs x)

-- A process in one of these states may be queued with the priority that it has.
abbrev pub is_live : ProcState → Bool
is_live sleeping = true
is_live runnable = true
is_live running = true
is_live _ = false

pub record MlqInv (procs : ℕ → Proc) (m : MultiQueue) : Type 0 where
  pub levels : (l : ℕ) → l < numpr → Level.IsValid (m l)
  pub members :
      (x l : ℕ)
      → l < numpr
      → count x (Level.contents (m l)) ≡ one_of (is_ready procs x && ((procs x).priority - 1 == l))
  pub priorities :
      (x : ℕ)
      → x < nproc
      → is_live (procs x).state ≡ true
      → (1 ≤ (procs x).priority) × ((procs x).priority ≤ numpr)

abbrev pub Inv : Policy → Kernel → Type 0
Inv default k = Unit
Inv fcfs k = FcfsInv k.procs k.pqueue
Inv mlq k = MlqInv k.procs k.multiqueue
Inv dmlq k = MlqInv k.procs k.multiqueue
