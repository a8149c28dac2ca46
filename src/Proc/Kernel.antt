-- ===== src/Proc/Kernel.antt =====
-- The state of proc.c: process table, run queues, and the parts of other files that they need.
-- A pointer to a process is its slot in `ptable.proc`. A fault (`none`) is a panic or an index
-- outside of an array.
use operating_system_assignm.Prelude.{
  ℕ, zero, suc, ◌+◌, Bool, true, false, Option, none, some, ◌==◌, if◌then◌else◌, update,
}
use operating_system_assignm.Fcfs.{PQueue}
use operating_system_assignm.Mlq.{MultiQueue}
use operating_system_assignm.Kalloc.{Kmem}

-- The scheduler chosen when the kernel is built: DEFAULT, FCFS, MLQ or DMLQ.
pub data Policy : Type 0 where
  default fcfs mlq dmlq : Policy

-- `enum procstate`
pub data ProcState : Type 0 where
  unused embryo sleeping runnable running zombie : ProcState

abbrev pub state_eq : ProcState → ProcState → Bool
state_eq unused unused = true
state_eq embryo embryo = true
state_eq sleeping sleeping = true
state_eq runnable runnable = true
state_eq running running = true
state_eq zombie zombie = true
state_eq _ _ = false

-- A channel of sleep and wakeup is an address: null, that of a process, or any other.
pub data Chan : Type 0 where
  null : Chan
  at_proc : ℕ → Chan
  at : ℕ → Chan

abbrev pub chan_eq : Chan → Chan → Bool
chan_eq null null = true
chan_eq (at_proc a) (at_proc b) = a == b
chan_eq (at a) (at b) = a == b
chan_eq _ _ = false

-- A pointer to a process read as a channel.
abbrev pub as_chan : Option ℕ → Chan
as_chan none = null
as_chan (some i) = at_proc i

-- `struct proc`, less the trap frame, the context, the open files, the directory and the name.
-- `kstack` and `pgdir` are addresses, 0 where null; `parent` is `none` where null.
pub record Proc : Type 0 where
  pub sz : ℕ
  pub pgdir : ℕ
  pub kstack : ℕ
  pub state : ProcState
  pub pid : ℕ
  pub parent : Option ℕ
  pub chan : Chan
  pub killed : Bool
  pub switchnum : ℕ
  pub timecreated : ℕ
  pub timeready : ℕ
  pub timerun : ℕ
  pub timeslept : ℕ
  pub timescheduled : ℕ
  pub priority : ℕ

-- `ptable.proc`, `pqueue`, `multiqueue`, `nextpid`, `ticks` of trap.c, `initproc`, `kmem` of
-- kalloc.c.
pub record Kernel : Type 0 where
  pub procs : ℕ → Proc
  pub pqueue : PQueue
  pub multiqueue : MultiQueue
  pub nextpid : ℕ
  pub ticks : ℕ
  pub initproc : ℕ
  pub kmem : Kmem

-- HIPR, MDPR, LWPR
abbrev pub hipr : ℕ
hipr = 1

abbrev pub mdpr : ℕ
mdpr = 2

abbrev pub lwpr : ℕ
lwpr = 3

abbrev pub set_proc : Kernel → ℕ → Proc → Kernel
set_proc k i p = record k { procs = update k.procs i p }

-- `for(p = ptable.proc; …; p++) if(test) break`: the first slot that passes, of the `n` from `i`.
unfoldable pub find_slot : (Proc → Bool) → (ℕ → Proc) → ℕ → ℕ → Option ℕ
find_slot test procs zero i = none
find_slot test procs (suc n) i = if test (procs i) then some i else find_slot test procs n (i + 1)
