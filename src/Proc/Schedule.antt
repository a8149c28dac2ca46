-- ===== src/Proc/Schedule.antt =====
-- The choice of `scheduler` in proc.c, once round its loop, up to the switch to the process.
use operating_system_assignm.Prelude.{ℕ, zero, suc, ◌+◌, ◌-◌, true, false, Option, none, some}
use operating_system_assignm.Fcfs
use operating_system_assignm.Mlq
use operating_system_assignm.Mlq.{MultiQueue, numpr}
use operating_system_assignm.Proc.Kernel.{
  Policy, default, fcfs, mlq, dmlq, Kernel, runnable, running, state_eq, set_proc, find_slot,
}
use operating_system_assignm.Proc.Ready.{timecreated}

-- The chosen process, or `none` for an idle round.
abbrev pub run : Option ℕ → Kernel → Option ℕ × Kernel
run none k = (none, k)
run (some i) k =
    (some i, set_proc k i (record (k.procs i) { state = running; timescheduled = k.ticks }))

-- `for(int pr = …; pr <= NUMPR; pr++) if(!isempty(pr)){ p = deque(pr); break; }`, `n` rounds from
-- `pr`.
unfoldable pub pick_level : ℕ → ℕ → MultiQueue → Option (Option ℕ × MultiQueue)
pick_level zero pr m = some (none, m)
pick_level (suc n) pr m =
    let rest = pick_level n (pr + 1) m in
    elim (Mlq.isempty pr m) [ none ↦ none | some true ↦ rest | some false ↦ Mlq.deque pr m ]

abbrev pub pick_queue : Kernel → Option (Option ℕ × Kernel)
pick_queue k = elim (pick_level numpr 1 k.multiqueue) [
  | none ↦ none
  | some (out, m) ↦ some (run out (record k { multiqueue = m }))
]

-- Under DEFAULT the scheduler walks the table; the argument `from` is the slot it has come to, and
-- the walk goes on to the end of the table.
unfoldable pub schedule : Policy → ℕ → Kernel → Option (Option ℕ × Kernel)
schedule default from k =
    some (run (find_slot (λ p. state_eq p.state runnable) k.procs (Fcfs.nproc - from) from) k)
schedule fcfs from k =
    let (out, q) = Fcfs.remove (timecreated k) k.pqueue in some (run out (record k { pqueue = q }))
schedule mlq from k = pick_queue k
schedule dmlq from k = pick_queue k
