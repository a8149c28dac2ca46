-- ===== src/Proc/Tests.antt =====
-- Runs of the process table, and the theorems at concrete kernels.
mod Changes
mod Freeing
use operating_system_assignm.Prelude.{
  ℕ, zero, suc, ◌+◌, ◌-◌, ◌*◌, ◌≤◌, ◌<◌, ◌≡◌, ◌≢◌, ◌⊎◌, inl, inr, refl, arith, Bool, true, false,
  none, some, Option, update, List, [], ◌∷◌, ◌==◌, if◌then◌else◌, count, ℕ_discrete,
}
use operating_system_assignm.Fcfs
use operating_system_assignm.Fcfs.{nproc, PQueue}
use operating_system_assignm.Fcfs.Members.{occurs}
use operating_system_assignm.Kalloc
use operating_system_assignm.Kalloc.{Kmem, kernbase}
use operating_system_assignm.Kalloc.FreeList.{IsFree, kfree-accepts}
use operating_system_assignm.Mlq
use operating_system_assignm.Mlq.Level
use operating_system_assignm.Mlq.Level.{Ring, contents}
use operating_system_assignm.Proc.Kernel.{
  Policy, default, fcfs, mlq, dmlq, Proc, ProcState, Kernel, Chan, unused, embryo, running,
  runnable, sleeping, zombie, set_proc, state_eq, find_slot, null, at,
}
use operating_system_assignm.Proc.Ready.{admit}
use operating_system_assignm.Proc.Life.{
  found_slot, allocproc, Forked, child, failed, fork, fork_rest, exit, reparent_loop, reparent_slot,
}
use operating_system_assignm.Proc.Wake.{kill, sched, yield, sleep, wakeup1, wakeup1_loop, wake_slot}
use operating_system_assignm.Proc.Schedule.{schedule, pick_level}
use operating_system_assignm.Proc.System.{
  boot, init_slot, userinit, zero_proc, Reach, start, later, schedules, allocates, forks, sleeps,
  exits,
}
use operating_system_assignm.Proc.Inv.Defs.{Inv, is_ready, is_live}
use operating_system_assignm.Proc.Wait.{waitnstats, reap, reaped, reaped_proc}
use operating_system_assignm.Proc.Inv.Killing.{kill_lem, Kills}
use operating_system_assignm.Proc.Inv.Waiting.{waitnstats_lem, reap_lem, emptied, Waits}
use operating_system_assignm.Proc.Inv.Living.{allocproc_lem, Claims}
use operating_system_assignm.Proc.Time.{u32, timer, preempt, quantum_over}
use operating_system_assignm.Proc.Inv.Reaching.{Reach-Inv}
use operating_system_assignm.Proc.Inv.Steps.{Done}
use operating_system_assignm.Proc.Inv.Waking.{
  wakeup1-Done, yield-Done, sleep-Done, woken_table, switched,
}
use operating_system_assignm.Proc.Inv.Exiting.{exit_lem}
use operating_system_assignm.Proc.Inv.Forking.{fork_rest-child, born}
use operating_system_assignm.Proc.Inv.Undoing.{Undone}
use operating_system_assignm.Proc.Inv.Running.{schedule-levels, schedule-fcfs, Chosen, ChosenOldest}
use operating_system_assignm.Proc.Inv.Clock.{timer_lem, preempt_lem, sliced, ticked}

-- Three free pages above the kernel.
abbrev page : ℕ → ℕ
page i = kernbase + i * 4096

abbrev pages : Kmem
pages = record {
  freelist = page 1;
  next = λ v. if v == page 1 then page 2 else if v == page 2 then page 3 else 0;
}

-- The state after `userinit`.
abbrev or_boot : Option Kernel → Kernel
or_boot none = boot pages
or_boot (some k) = k

-- The kernel that an operation returned.
abbrev after {ℓ} : {A : Type ℓ} → Option (A × Kernel) → Kernel
after none = boot pages
after (some (_, k)) = k

module _ (pol : Policy) where
  -- After `userinit`: init, in slot 0, is RUNNABLE.
  first_kernel : Kernel
  unfolding userinit init_slot allocproc found_slot find_slot Kalloc.kalloc admit Mlq.enque
      Level.push Fcfs.insert Fcfs.shiftup Fcfs.shiftup_loop
  first_kernel = or_boot (userinit pol 4096 (boot pages))

  -- Init runs.
  running_kernel : Kernel
  unfolding first_kernel schedule pick_level Mlq.isempty Mlq.deque Level.is_empty Level.pop
      Fcfs.remove Fcfs.shiftdown Fcfs.shiftdown_loop Fcfs.minindex
  running_kernel = after (schedule pol 0 first_kernel)

  -- Slot 1 is an EMBRYO.
  embryo_kernel : Kernel
  unfolding running_kernel
  embryo_kernel = (allocproc running_kernel).1

  -- Slot 1 is a RUNNABLE child of init.
  forked_kernel : Kernel
  unfolding embryo_kernel fork_rest
  forked_kernel = after (fork_rest pol kernbase 8192 0 1 embryo_kernel)

  -- Init sleeps on address 5.
  sleeping_kernel : Kernel
  unfolding forked_kernel sleep sched
  sleeping_kernel = or_boot (sleep (at 5) 0 forked_kernel)

  -- The child runs.
  child_kernel : Kernel
  unfolding sleeping_kernel
  child_kernel = after (schedule pol 0 sleeping_kernel)

  -- The child is a ZOMBIE.
  zombie_kernel : Kernel
  unfolding child_kernel exit reparent_loop reparent_slot wakeup1 wakeup1_loop wake_slot
  zombie_kernel = or_boot (exit pol 1 child_kernel)

  -- Init runs again, beside the ZOMBIE.
  waiting_kernel : Kernel
  unfolding zombie_kernel
  waiting_kernel = after (schedule pol 0 (or_boot (wakeup1 pol (at 5) zombie_kernel)))

states : Kernel → List ProcState
states k = (k.procs 0).state ∷ (k.procs 1).state ∷ (k.procs 2).state ∷ []

mlq_states : states (waiting_kernel mlq) ≡ running ∷ zombie ∷ unused ∷ []
unfolding states waiting_kernel
mlq_states = refl

fcfs_states : states (waiting_kernel fcfs) ≡ running ∷ zombie ∷ unused ∷ []
unfolding states waiting_kernel
fcfs_states = refl

first-Reach : Reach mlq (first_kernel mlq)
unfolding first_kernel
first-Reach = start pages 4096 (first_kernel mlq) refl

running-Reach : Reach mlq (running_kernel mlq)
unfolding running_kernel
running-Reach = later first-Reach (schedules 0 (some 0) (running_kernel mlq) refl)

embryo-Reach : Reach mlq (embryo_kernel mlq)
unfolding embryo_kernel
embryo-Reach = later running-Reach (allocates (embryo_kernel mlq) refl)

forked-Reach : Reach mlq (forked_kernel mlq)
unfolding forked_kernel
forked-Reach = later embryo-Reach (
    forks kernbase 8192 0 1 (child 2) (forked_kernel mlq) (omega arith) refl (omega arith) refl
      refl)

sleeping-Reach : Reach mlq (sleeping_kernel mlq)
unfolding sleeping_kernel
sleeping-Reach = later forked-Reach (sleeps (at 5) 0 (sleeping_kernel mlq) (omega arith) refl refl)

child-Reach : Reach mlq (child_kernel mlq)
unfolding child_kernel
child-Reach = later sleeping-Reach (schedules 0 (some 1) (child_kernel mlq) refl)

Reach-Inv_example : Inv mlq (child_kernel mlq)
Reach-Inv_example = Reach-Inv mlq child-Reach

running_Inv : Inv mlq (running_kernel mlq)
running_Inv = Reach-Inv mlq running-Reach

child_Inv : Inv mlq (child_kernel mlq)
child_Inv = Reach-Inv mlq child-Reach

running_state : ((running_kernel mlq).procs 0).state ≡ running
unfolding running_kernel
running_state = refl

child_state : ((child_kernel mlq).procs 1).state ≡ running
unfolding child_kernel
child_state = refl

child_not_init : 1 ≢ (child_kernel mlq).initproc
unfolding child_kernel
child_not_init = omega arith

embryo_state : ((embryo_kernel mlq).procs 1).state ≡ embryo
unfolding embryo_kernel
embryo_state = refl

embryo_parent : is_live ((embryo_kernel mlq).procs 0).state ≡ true
unfolding embryo_kernel
embryo_parent = refl

schedule-levels_example : Chosen mlq (forked_kernel mlq) (schedule mlq 0 (forked_kernel mlq))
schedule-levels_example = schedule-levels mlq 0 (forked_kernel mlq) tt (Reach-Inv mlq forked-Reach)

exit_lem_example :
    (k' : Kernel) × (exit mlq 1 (child_kernel mlq) ≡ some k')
    × Inv mlq k'
    × ((k'.procs 1).state ≡ zombie)
    × ((j : ℕ) → j < nproc → (k'.procs j).parent ≢ some 1)
exit_lem_example =
    exit_lem mlq 1 (child_kernel mlq) child_Inv (omega arith) child_state child_not_init

wakeup1-Done_example :
    Done mlq
      (child_kernel mlq)
      (woken_table mlq (at 5) nproc 0 (child_kernel mlq).procs)
      (wakeup1 mlq (at 5) (child_kernel mlq))
wakeup1-Done_example = wakeup1-Done mlq (at 5) (child_kernel mlq) child_Inv

fork_rest-child_example :
    (k' : Kernel) × (fork_rest mlq kernbase 8192 0 1 (embryo_kernel mlq)
      ≡ some (child ((embryo_kernel mlq).procs 1).pid, k'))
    × Inv mlq k'
    × (k'.procs ≡ update (embryo_kernel mlq).procs 1 (born mlq 8192 0 1 (embryo_kernel mlq)))
fork_rest-child_example =
    fork_rest-child mlq kernbase 8192 0 1 (embryo_kernel mlq) (Reach-Inv mlq embryo-Reach)
      (omega arith) (omega arith) embryo_parent (omega arith) embryo_state

preempt_lem_example :
    (k' : Kernel) × (preempt mlq 0 (running_kernel mlq) ≡ some k')
    × Inv mlq k'
    × (k'.procs
        ≡ update
            (running_kernel mlq).procs
            0
            (sliced mlq (quantum_over 0 (running_kernel mlq)) ((running_kernel mlq).procs 0)))
preempt_lem_example = preempt_lem mlq 0 (running_kernel mlq) running_Inv (omega arith) running_state

-- The same start under FCFS.
fcfs-Reach : Reach fcfs (first_kernel fcfs)
unfolding first_kernel
fcfs-Reach = start pages 4096 (first_kernel fcfs) refl

schedule-fcfs_example : ChosenOldest (first_kernel fcfs) (schedule fcfs 0 (first_kernel fcfs))
schedule-fcfs_example = schedule-fcfs 0 (first_kernel fcfs) (Reach-Inv fcfs fcfs-Reach)

kill_lem_example : Kills mlq 1 (child_kernel mlq) (kill mlq 1 (child_kernel mlq))
kill_lem_example = kill_lem mlq 1 (child_kernel mlq) child_Inv

-- A page table whose pages are not given back.
abbrev keep_pages : ℕ → Kmem → Option Kmem
keep_pages pgdir kmem = some kmem

waitnstats_lem_example :
    Waits mlq keep_pages kernbase 1
      (child_kernel mlq)
      (waitnstats keep_pages kernbase 1 (child_kernel mlq))
waitnstats_lem_example =
    waitnstats_lem mlq keep_pages kernbase 1 (child_kernel mlq) child_Inv (omega arith) child_state

zombie-Reach : Reach mlq (zombie_kernel mlq)
unfolding zombie_kernel
zombie-Reach = later child-Reach (exits 1 (zombie_kernel mlq) (omega arith) refl refl)

allocproc_lem_example : Claims mlq (running_kernel mlq)
allocproc_lem_example = allocproc_lem mlq (running_kernel mlq) running_Inv
