-- ===== src/Proc/Inv/Reaching.antt =====
-- The states that the kernel can come to.
use mathlib.Core.Path.{subst, sym}
use operating_system_assignm.Prelude.{
  ℕ, ◌<◌, ◌≡◌, inl, inr, refl, ◌∙◌, arith, Bool, some, Option, ℕ_discrete, Option-cases,
}
use operating_system_assignm.Fcfs.{nproc}
use operating_system_assignm.Kalloc
use operating_system_assignm.Kalloc.{Kmem, pgsize}
use operating_system_assignm.Proc.Kernel.{
  Policy, default, fcfs, mlq, dmlq, Kernel, embryo, running, null,
}
use operating_system_assignm.Proc.Life.{allocproc, Forked, fork_rest}
use operating_system_assignm.Proc.System.{
  boot, Step, allocates, forks, exits, waits, yields, sleeps, awakes, wakes, kills, schedules,
  ticks, preempts, Reach, start, later,
}
use operating_system_assignm.Proc.Inv.Defs.{Inv}
use operating_system_assignm.Proc.Inv.Steps.{set_proc-Inv, live-InRange}
use operating_system_assignm.Proc.Inv.Living.{allocproc_lem}
use operating_system_assignm.Proc.Wake.{sleep_return, kill}
use operating_system_assignm.Proc.Life.{exit}
use operating_system_assignm.Proc.Wait.{Waited, waitnstats}
use operating_system_assignm.Proc.Schedule.{schedule}
use operating_system_assignm.Proc.Inv.Exiting.{exit-init, exit_lem}
use operating_system_assignm.Proc.Inv.Waiting.{reap-Inv, waitnstats_lem}
use operating_system_assignm.Proc.Inv.Waking.{yield-Done, sleep-Done, wakeup1-Done}
use operating_system_assignm.Proc.Inv.Killing.{kill_lem}
use operating_system_assignm.Proc.Inv.Running.{schedule-fcfs, schedule-levels}
use operating_system_assignm.Proc.Inv.Clock.{timer_lem, preempt_lem}
use operating_system_assignm.Proc.Inv.Forking.{fork_rest-child, fork_rest-failed}
use operating_system_assignm.Proc.Inv.Booting.{returned, Done-Inv, boot-Inv, userinit-Inv}

awakes-Inv :
    (pol : Policy) (i : ℕ) (k : Kernel) → Inv pol k → i < nproc → Inv pol (sleep_return i k)
unfolding sleep_return
awakes-Inv pol i k inv lt =
    set_proc-Inv pol k i (record (k.procs i) { chan = null }) inv lt
      (record {
        ready = refl;
        created = λ r. refl;
        level = λ r. refl;
        range = λ live. live-InRange pol k i inv lt live;
      })

allocates-Inv : (pol : Policy) (k : Kernel) → Inv pol k → Inv pol (allocproc k).1
allocates-Inv pol k inv = elim (allocproc_lem pol k inv) [
  | inl (full, e) ↦ rw e inv
  | inr (i, lt, free, inl (page, e, inv')) ↦ rw e inv'
  | inr (i, lt, free, inr (out, e, inv')) ↦ rw e inv'
]

forks-Inv :
    (pol : Policy) (end pgdir i np : ℕ) (k : Kernel) {r : Forked} {k' : Kernel}
    → Inv pol k
    → i < nproc
    → (k.procs i).state ≡ running
    → np < nproc
    → (k.procs np).state ≡ embryo
    → fork_rest pol end pgdir i np k ≡ some (r, k')
    → Inv pol k'
unfolding fork_rest
forks-Inv pol end pgdir i np k {r} {k'} inv lt runs lt' emb e = elim (ℕ_discrete pgdir 0) [
  | no page ↦
      let (k1, e1, inv1, t1) =
        fork_rest-child pol end pgdir i np k inv page lt (ground arith) lt' emb in
      returned pol inv1 e1 e
  | yes null_dir ↦ elim (Option-cases (Kalloc.kfree end (k.procs np).kstack k.kmem)) [
    | inl bad ↦ absurd (ground arith)
    | inr (m, ok) ↦
        let (k1, p1, e1, inv1, m1, t1, u1) = fork_rest-failed pol end i np k inv lt' emb ok in
        returned pol inv1 e1 (subst (λ d. fork_rest pol end d i np k ≡ some (r, k')) null_dir e)
  ]
]

schedules-Inv :
    (pol : Policy) (from : ℕ) (k : Kernel) {out : Option ℕ} {k' : Kernel}
    → Inv pol k
    → schedule pol from k ≡ some (out, k')
    → Inv pol k'
schedules-Inv default from k inv e = tt
schedules-Inv fcfs from k inv e = elim (schedule-fcfs from k inv) [
  | inl (all, e1) ↦ returned fcfs inv e1 e
  | inr (i, k1, e1, r, least, inv1, t) ↦ returned fcfs inv1 e1 e
]
schedules-Inv mlq from k inv e = elim (schedule-levels mlq from k tt inv) [
  | inl (all, e1) ↦ returned mlq inv e1 e
  | inr (i, rest, k1, e1, r, high, old, new, inv1, t) ↦ returned mlq inv1 e1 e
]
schedules-Inv dmlq from k inv e = elim (schedule-levels dmlq from k tt inv) [
  | inl (all, e1) ↦ returned dmlq inv e1 e
  | inr (i, rest, k1, e1, r, high, old, new, inv1, t) ↦ returned dmlq inv1 e1 e
]

exits-Inv :
    (pol : Policy) (i : ℕ) (k : Kernel) {k' : Kernel}
    → Inv pol k
    → i < nproc
    → (k.procs i).state ≡ running
    → exit pol i k ≡ some k'
    → Inv pol k'
exits-Inv pol i k {k'} inv lt runs e = elim (ℕ_discrete i k.initproc) [
  | yes same ↦ absurd (ground (arith, exit-init pol i k same))
  | no other ↦
      let (k1, e1, inv1, z, orphans) = exit_lem pol i k inv lt runs other in
      subst (Inv pol) (let s : k1 ≡ k' = ground (arith, e1) in s) inv1
]

waits-Inv :
    (pol : Policy) (freevm : ℕ → Kmem → Option Kmem) (end i : ℕ) (k : Kernel) {w : Waited}
    {k' : Kernel}
    → Inv pol k
    → i < nproc
    → (k.procs i).state ≡ running
    → waitnstats freevm end i k ≡ some (w, k')
    → Inv pol k'
waits-Inv pol freevm end i k inv lt runs e = elim (waitnstats_lem pol freevm end i k inv lt runs) [
  | inl (j, l, ripe, e1) ↦ reap-Inv pol freevm end j k inv l (ground arith) (sym e1 ∙ e)
  | inr (none_ripe, inl (j, k1, l, c, well, e1, inv1, t)) ↦ returned pol inv1 e1 e
  | inr (none_ripe, inr (why, e1)) ↦ returned pol inv e1 e
]

kills-Inv :
    (pol : Policy) (pid : ℕ) (k : Kernel) {r : Bool} {k' : Kernel}
    → Inv pol k
    → kill pol pid k ≡ some (r, k')
    → Inv pol k'
kills-Inv pol pid k inv e = elim (kill_lem pol pid k inv) [
  | inl (all, e1) ↦ returned pol inv e1 e
  | inr (i, k1, l, p, before, e1, inv1, t) ↦ returned pol inv1 e1 e
]

-- Every step keeps the invariant.
pub Step-Inv : (pol : Policy) {k k' : Kernel} → Inv pol k → Step pol k k' → Inv pol k'
Step-Inv pol {k} inv (allocates k' e) = rw e (allocates-Inv pol k inv)
Step-Inv pol {k} inv (forks end pgdir i np r k' lt runs lt' emb e) =
    forks-Inv pol end pgdir i np k inv lt runs lt' emb e
Step-Inv pol {k} inv (exits i k' lt runs e) = exits-Inv pol i k inv lt runs e
Step-Inv pol {k} inv (waits freevm end i w k' lt runs e) =
    waits-Inv pol freevm end i k inv lt runs e
Step-Inv pol {k} inv (yields i k' lt runs e) = Done-Inv pol (yield-Done pol k i inv lt runs) e
Step-Inv pol {k} inv (sleeps chan i k' lt runs e) =
    Done-Inv pol (sleep-Done pol k i chan inv lt runs) e
Step-Inv pol {k} inv (awakes i lt runs) = awakes-Inv pol i k inv lt
Step-Inv pol {k} inv (wakes chan k' e) = Done-Inv pol (wakeup1-Done pol chan k inv) e
Step-Inv pol {k} inv (kills pid r k' e) = kills-Inv pol pid k inv e
Step-Inv pol {k} inv (schedules from out k' e) = schedules-Inv pol from k inv e
Step-Inv pol {k} inv (ticks chan k' e) =
    let (k1, e1, inv1, t, p) = timer_lem pol chan k inv in
    subst (Inv pol) (let s : k1 ≡ k' = ground (arith, e1) in s) inv1
Step-Inv pol {k} inv (preempts i k' lt runs e) =
    let (k1, e1, inv1, p) = preempt_lem pol i k inv lt runs in
    subst (Inv pol) (let s : k1 ≡ k' = ground (arith, e1) in s) inv1

-- In every state that the kernel comes to from boot, under any scheduler and any order of the
-- steps (the operations on processes, the clock and the scheduler, without chpr), the run queue
-- holds exactly the RUNNABLE processes, each once and, under MLQ and DMLQ, at the level of its
-- priority; the FCFS heap is in order.
pub Reach-Inv : (pol : Policy) {k : Kernel} → Reach pol k → Inv pol k
Reach-Inv pol (start kmem pgdir k e) = userinit-Inv pol pgdir (boot kmem) (boot-Inv pol kmem) e
Reach-Inv pol (later r s) = Step-Inv pol (Reach-Inv pol r) s
