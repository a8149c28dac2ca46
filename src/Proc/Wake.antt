-- ===== src/Proc/Wake.antt =====
-- sched, yield, sleep, wakeup1, wakeup and kill of proc.c.
use operating_system_assignm.Prelude.{
  ℕ, zero, suc, ◌+◌, Bool, true, false, ◌&&◌, Option, none, some, ◌==◌, if◌then◌else◌,
}
use operating_system_assignm.Fcfs.{nproc}
use operating_system_assignm.Proc.Kernel.{
  Policy, Kernel, Chan, null, chan_eq, sleeping, running, state_eq, set_proc, find_slot,
}
use operating_system_assignm.Proc.Ready.{admit, make_runnable, rouse}

-- The part of `sched` on process `i` that is not about locks and interrupts: a process that is
-- still RUNNING is a panic, any other counts a switch and gives up the processor.
unfoldable pub sched : ℕ → Kernel → Option Kernel
sched i k =
    if state_eq (k.procs i).state running
    then none
    else some (set_proc k i (record (k.procs i) { switchnum = (k.procs i).switchnum + 1 }))

unfoldable pub yield : Policy → ℕ → Kernel → Option Kernel
unfolding sched
yield pol i k = elim (admit pol i (make_runnable i k)) [ none ↦ none | some k' ↦ sched i k' ]

-- `sleep` up to the switch to the scheduler.
unfoldable pub sleep : Chan → ℕ → Kernel → Option Kernel
unfolding sched
sleep chan i k = sched i (set_proc k i (record (k.procs i) { chan = chan; state = sleeping }))

-- `sleep` after the switch back.
unfoldable pub sleep_return : ℕ → Kernel → Kernel
sleep_return i k = set_proc k i (record (k.procs i) { chan = null })

-- The body of the loop in `wakeup1`.
unfoldable pub wake_slot : Policy → Chan → ℕ → Kernel → Option Kernel
wake_slot pol chan i k =
    if state_eq (k.procs i).state sleeping && chan_eq (k.procs i).chan chan
    then rouse pol i k
    else some k

-- The loop of `wakeup1` over `n` slots from `i`.
unfoldable pub wakeup1_loop : Policy → Chan → ℕ → ℕ → Kernel → Option Kernel
wakeup1_loop pol chan zero i k = some k
wakeup1_loop pol chan (suc n) i k = elim (wake_slot pol chan i k) [
  | none ↦ none
  | some k' ↦ wakeup1_loop pol chan n (i + 1) k'
]

-- Also `wakeup`, which adds the lock.
unfoldable pub wakeup1 : Policy → Chan → Kernel → Option Kernel
wakeup1 pol chan k = wakeup1_loop pol chan nproc 0 k

-- `p->killed = 1`, and a sleeping process is woken.
unfoldable pub kill_slot : Policy → ℕ → Kernel → Option Kernel
kill_slot pol i k =
    let k' = set_proc k i (record (k.procs i) { killed = true }) in
    if state_eq (k.procs i).state sleeping then rouse pol i k' else some k'

-- `true` is the return value 0, `false` is -1.
unfoldable pub kill : Policy → ℕ → Kernel → Option (Bool × Kernel)
unfolding kill_slot
kill pol pid k = elim (find_slot (λ p. p.pid == pid) k.procs nproc 0) [
  | none ↦ some (false, k)
  | some i ↦ elim (kill_slot pol i k) [ none ↦ none | some k' ↦ some (true, k') ]
]
