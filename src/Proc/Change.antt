-- ===== src/Proc/Change.antt =====
-- chpr of proc.c and sys_chpr of sysproc.c: change a process's priority. Only MLQ does anything.
use operating_system_assignm.Prelude.{
  ℕ, ◌-◌, Option, none, some, ◌==◌, if◌then◌else◌, update, pos, negsuc,
}
use operating_system_assignm.Fcfs.{nproc}
use operating_system_assignm.Mlq
use operating_system_assignm.Mlq.{MultiQueue, in_range}
use operating_system_assignm.Mlq.Swap.{Outcome, endless, out_of_bounds, returns, Taken, take_pid}
use operating_system_assignm.Proc.Kernel.{
  Policy, default, fcfs, mlq, dmlq, Kernel, runnable, state_eq, set_proc, find_slot,
}

-- `enque` of `p`, which may be null, at level `priority2`, after `swapque` took it.
abbrev pub enque_taken : ℕ → Option ℕ → MultiQueue → Outcome MultiQueue
enque_taken priority2 none m = returns m
enque_taken priority2 (some p) m = elim (Mlq.enque priority2 p m) [
  | none ↦ out_of_bounds
  | some m' ↦ returns m'
]

-- The rest of `swapque`. The indices of a level are natural numbers here, so an `end` of -1 is
-- reported: the second component of the result names the row whose `end` is -1 in C; the `end`
-- that the level has here then means nothing. A process that is to go into that row itself is
-- dropped where `start` is 0, as `(end + 1) % (NPROC + 1)` is, and else written at index -1.
unfoldable pub swapped : ℕ → ℕ → Taken → MultiQueue → Outcome (MultiQueue × Option ℕ)
swapped priority1 priority2 t m =
    let q = priority1 - 1 in
    let row = record (m q) { proc = t.proc } in
    elim (t.end) [
      | pos end ↦ elim (enque_taken priority2 t.p (update m q (record row { end = end }))) [
        | endless ↦ endless
        | out_of_bounds ↦ out_of_bounds
        | returns m' ↦ returns (m', none)
      ]
      | negsuc _ ↦ elim (t.p) [
        | none ↦ returns (update m q row, some q)
        | some p ↦
            if priority2 == priority1
            then if row.start == 0 then returns (update m q row, some q) else out_of_bounds
            else elim (enque_taken priority2 (some p) (update m q row)) [
              | endless ↦ endless
              | out_of_bounds ↦ out_of_bounds
              | returns m' ↦ returns (m', some q)
            ]
      ]
    ]

unfoldable pub swapque : (ℕ → ℕ) → ℕ → ℕ → ℕ → MultiQueue → Outcome (MultiQueue × Option ℕ)
unfolding swapped
swapque pid_of priority1 priority2 pid m =
    if in_range priority1
    then elim (take_pid pid_of pid (m (priority1 - 1))) [
      | endless ↦ endless
      | out_of_bounds ↦ out_of_bounds
      | returns t ↦ swapped priority1 priority2 t m
    ]
    else out_of_bounds

-- `chpr` on the slot that its loop stopped at. The second component of the result is the row
-- whose `end` is now -1.
unfoldable pub change_slot : ℕ → ℕ → Kernel → Outcome (Kernel × Option ℕ)
change_slot priority i k =
    let p = k.procs i in
    let k' = set_proc k i (record p { priority = priority }) in
    if p.priority == priority
    then returns (k, none)
    else if state_eq p.state runnable
    then elim (swapque (λ j. (k'.procs j).pid) p.priority priority p.pid k'.multiqueue) [
      | endless ↦ endless
      | out_of_bounds ↦ out_of_bounds
      | returns (m, below) ↦ returns (record k' { multiqueue = m }, below)
    ]
    else returns (k', none)

-- A pid that no slot has leaves the loop behind the table, and `p->priority` is out of bounds.
unfoldable pub chpr : Policy → ℕ → ℕ → Kernel → Outcome (Kernel × Option ℕ)
chpr mlq pid priority k = elim (find_slot (λ p. p.pid == pid) k.procs nproc 0) [
  | none ↦ out_of_bounds
  | some i ↦ change_slot priority i k
]
chpr default pid priority k = returns (k, none)
chpr fcfs pid priority k = returns (k, none)
chpr dmlq pid priority k = returns (k, none)
