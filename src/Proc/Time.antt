-- ===== src/Proc/Time.antt =====
-- The clock: updateprocesstimes of proc.c, and the timer's part of `trap` in trap.c.
use operating_system_assignm.Prelude.{
  ℕ, zero, suc, ◌+◌, ◌%◌, ◌^◌, Bool, Option, some, ltb, leb, if◌then◌else◌,
}
use operating_system_assignm.Fcfs.{nproc}
use operating_system_assignm.Proc.Kernel.{
  Policy, default, fcfs, mlq, dmlq, sleeping, runnable, running, Proc, Kernel, Chan, lwpr, state_eq,
  set_proc,
}
use operating_system_assignm.Proc.Wake.{wakeup1, yield}

abbrev pub u32 : ℕ → ℕ
u32 n = n % 2 ^ 32

abbrev pub age : Proc → Proc
age p = elim (p.state) [
  | running ↦ record p { timerun = u32 (p.timerun + 1) }
  | runnable ↦ record p { timeready = u32 (p.timeready + 1) }
  | sleeping ↦ record p { timeslept = u32 (p.timeslept + 1) }
  | _ ↦ p
]

unfoldable pub updateprocesstimes_loop : ℕ → ℕ → Kernel → Kernel
updateprocesstimes_loop zero i k = k
updateprocesstimes_loop (suc n) i k =
    updateprocesstimes_loop n (i + 1) (set_proc k i (age (k.procs i)))

unfoldable pub updateprocesstimes : Kernel → Kernel
unfolding updateprocesstimes_loop
updateprocesstimes k = updateprocesstimes_loop nproc 0 k

-- The timer interrupt on processor 0. `ticks_chan` is the address of `ticks`.
unfoldable pub timer : Policy → Chan → Kernel → Option Kernel
timer pol ticks_chan k =
    wakeup1 pol ticks_chan (updateprocesstimes (record k { ticks = u32 (k.ticks + 1) }))

-- QUANTA
abbrev pub quanta : ℕ
quanta = 5

abbrev pub quantum_over : ℕ → Kernel → Bool
quantum_over i k = leb (u32 ((k.procs i).timescheduled + quanta)) k.ticks

-- The end of `trap` for a timer interrupt that met the running process `i`: FCFS has no preemption,
-- and DMLQ lowers the priority of a process that used up its time.
unfoldable pub preempt : Policy → ℕ → Kernel → Option Kernel
preempt default i k =
    if state_eq (k.procs i).state running
    then if quantum_over i k then yield default i k else some k
    else some k
preempt fcfs i k = some k
preempt mlq i k =
    if state_eq (k.procs i).state running
    then if quantum_over i k then yield mlq i k else some k
    else some k
preempt dmlq i k =
    let priority = (k.procs i).priority in
    let lower =
      set_proc k i
        (record (k.procs i) { priority = if ltb priority lwpr then priority + 1 else priority }) in
    if state_eq (k.procs i).state running
    then if quantum_over i k then yield dmlq i lower else some k
    else some k
