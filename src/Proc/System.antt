-- ===== src/Proc/System.antt =====
-- The kernel as a transition system: each step is one operation under `ptable.lock`, by a process
-- that runs, an interrupt, or the scheduler, in any order and on any number of processors.
use operating_system_assignm.Prelude.{ℕ, ◌<◌, ◌≡◌, Bool, Option, none, some, if◌then◌else◌, ◌==◌}
use operating_system_assignm.Fcfs.{nproc}
use operating_system_assignm.Kalloc.{Kmem, pgsize}
use operating_system_assignm.Proc.Kernel.{
  Policy, default, fcfs, mlq, dmlq, Proc, Kernel, Chan, null, unused, embryo, running, mdpr,
  set_proc,
}
use operating_system_assignm.Proc.Ready.{admit, make_runnable}
use operating_system_assignm.Proc.Wake.{yield, sleep, sleep_return, wakeup1, kill}
use operating_system_assignm.Proc.Life.{allocproc, Forked, fork_rest, exit}
use operating_system_assignm.Proc.Wait.{Waited, waitnstats}
use operating_system_assignm.Proc.Schedule.{schedule}
use operating_system_assignm.Proc.Time.{timer, preempt}

-- The table and the queues as the C runtime clears them; `nextpid` is 1.
abbrev pub zero_proc : Proc
zero_proc = record {
  sz = 0;
  pgdir = 0;
  kstack = 0;
  state = unused;
  pid = 0;
  parent = none;
  chan = null;
  killed = Bool.false;
  switchnum = 0;
  timecreated = 0;
  timeready = 0;
  timerun = 0;
  timeslept = 0;
  timescheduled = 0;
  priority = 0;
}

abbrev pub boot : Kmem → Kernel
boot kmem = record {
  procs = λ i. zero_proc;
  pqueue = record { size = 0; proc = λ j. 0 };
  multiqueue = λ l. record { start = 0; end = 0; proc = λ j. 0 };
  nextpid = 1;
  ticks = 0;
  initproc = 0;
  kmem = kmem;
}

-- `p->priority = MDPR` under MLQ and DMLQ.
abbrev pub first_priority : Policy → ℕ → ℕ
first_priority mlq old = mdpr
first_priority dmlq old = mdpr
first_priority default old = old
first_priority fcfs old = old

-- `userinit` after `allocproc` gave slot `i`. `pgdir` is the result of `setupkvm`, 0 where it
-- failed. The trap frame, the name and the directory are left out.
unfoldable pub init_slot : Policy → ℕ → ℕ → Kernel → Option Kernel
init_slot pol pgdir i k =
    let k1 =
      set_proc (record k { initproc = i }) i
        (record (k.procs i) {
          pgdir = pgdir;
          sz = pgsize;
          priority = first_priority pol (k.procs i).priority;
        }) in
    if pgdir == 0 then none else admit pol i (make_runnable i k1)

-- A failing `allocproc` is a null pointer that the code uses, a fault.
unfoldable pub userinit : Policy → ℕ → Kernel → Option Kernel
userinit pol pgdir k = elim ((allocproc k).0) [
  | none ↦ none
  | some i ↦ init_slot pol pgdir i (allocproc k).1
]

pub data Step (pol : Policy) (k : Kernel) : Kernel → Type 0 where
  allocates : (k' : Kernel) → k' ≡ (allocproc k).1 → Step pol k k'
  forks :
      (end pgdir i np : ℕ) (r : Forked) (k' : Kernel)
      → i < nproc
      → (k.procs i).state ≡ running
      → np < nproc
      → (k.procs np).state ≡ embryo
      → fork_rest pol end pgdir i np k ≡ some (r, k')
      → Step pol k k'
  exits :
      (i : ℕ) (k' : Kernel)
      → i < nproc
      → (k.procs i).state ≡ running
      → exit pol i k ≡ some k'
      → Step pol k k'
  waits :
      (freevm : ℕ → Kmem → Option Kmem) (end i : ℕ) (w : Waited) (k' : Kernel)
      → i < nproc
      → (k.procs i).state ≡ running
      → waitnstats freevm end i k ≡ some (w, k')
      → Step pol k k'
  yields :
      (i : ℕ) (k' : Kernel)
      → i < nproc
      → (k.procs i).state ≡ running
      → yield pol i k ≡ some k'
      → Step pol k k'
  sleeps :
      (chan : Chan) (i : ℕ) (k' : Kernel)
      → i < nproc
      → (k.procs i).state ≡ running
      → sleep chan i k ≡ some k'
      → Step pol k k'
  awakes : (i : ℕ) → i < nproc → (k.procs i).state ≡ running → Step pol k (sleep_return i k)
  wakes : (chan : Chan) (k' : Kernel) → wakeup1 pol chan k ≡ some k' → Step pol k k'
  kills : (pid : ℕ) (r : Bool) (k' : Kernel) → kill pol pid k ≡ some (r, k') → Step pol k k'
  schedules :
      (from : ℕ) (out : Option ℕ) (k' : Kernel)
      → schedule pol from k ≡ some (out, k')
      → Step pol k k'
  ticks : (ticks_chan : Chan) (k' : Kernel) → timer pol ticks_chan k ≡ some k' → Step pol k k'
  preempts :
      (i : ℕ) (k' : Kernel)
      → i < nproc
      → (k.procs i).state ≡ running
      → preempt pol i k ≡ some k'
      → Step pol k k'

-- The states that the kernel can come to.
pub data Reach (pol : Policy) : Kernel → Type 0 where
  start :
      (kmem : Kmem) (pgdir : ℕ) (k : Kernel) → userinit pol pgdir (boot kmem) ≡ some k → Reach pol k
  later : {k k' : Kernel} → Reach pol k → Step pol k k' → Reach pol k'
