-- ===== src/Proc/Ready.antt =====
-- Entering a run queue, the preprocessor branches of fork, yield, wakeup1 and kill.
use operating_system_assignm.Prelude.{ℕ, Option, some}
use mathlib.Core.Option
use operating_system_assignm.Fcfs
use operating_system_assignm.Mlq
use operating_system_assignm.Proc.Kernel.{
  Policy, default, fcfs, mlq, dmlq, Kernel, runnable, hipr, set_proc,
}

-- The key by which `pqueue` is ordered.
abbrev pub timecreated : Kernel → ℕ → ℕ
timecreated k i = (k.procs i).timecreated

abbrev pub enque_at : ℕ → Kernel → Option Kernel
enque_at i k =
    Option.map (λ m. record k { multiqueue = m }) (Mlq.enque (k.procs i).priority i k.multiqueue)

-- `#ifdef FCFS insert(p) #endif`, `#if defined(MLQ) || defined(DMLQ) enque(p->priority, p) #endif`
unfoldable pub admit : Policy → ℕ → Kernel → Option Kernel
admit default i k = some k
admit fcfs i k = some (record k { pqueue = Fcfs.insert (timecreated k) i k.pqueue })
admit mlq i k = enque_at i k
admit dmlq i k = enque_at i k

-- `p->state = RUNNABLE`
abbrev pub make_runnable : ℕ → Kernel → Kernel
make_runnable i k = set_proc k i (record (k.procs i) { state = runnable })

-- `#ifdef DMLQ p->priority = HIPR #endif`
abbrev pub boost : Policy → ℕ → Kernel → Kernel
boost dmlq i k = set_proc k i (record (k.procs i) { priority = hipr })
boost default i k = k
boost fcfs i k = k
boost mlq i k = k

-- The block that wakes a sleeping process in wakeup1 and kill.
abbrev pub rouse : Policy → ℕ → Kernel → Option Kernel
rouse pol i k = admit pol i (boost pol i (make_runnable i k))
