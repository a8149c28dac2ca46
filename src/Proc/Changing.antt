-- ===== src/Proc/Changing.antt =====
-- chpr on processes and priorities that it does not check, and on levels that wrap.
use operating_system_assignm.Prelude.{
  ℕ, ◌-◌, ◌≤◌, ◌<◌, ◌≡◌, ◌≢◌, ap, arith, ◌∙◌, ◌⊎◌, refl, sym, true, negsuc, Option, false, none,
  some, update, ==-ne, Bool-cases, inl, inr, ◌==◌,
}
use operating_system_assignm.Fcfs.{nproc}
use operating_system_assignm.Mlq
use operating_system_assignm.Mlq.{MultiQueue, numpr, in_range}
use operating_system_assignm.Mlq.Level.{push, cells, IsValid}
use operating_system_assignm.Mlq.Swap.{Outcome, endless, out_of_bounds, returns, take_pid}
use operating_system_assignm.Mlq.Swap.Wrapped.{take_pid-wraps}
use operating_system_assignm.Proc.Kernel.{
  mlq, Proc, Kernel, Chan, sleeping, runnable, set_proc, state_eq,
}
use operating_system_assignm.Proc.Ready.{admit}
use operating_system_assignm.Proc.Wake.{wake_slot}
use operating_system_assignm.Proc.Change.{swapped, swapque, change_slot, chpr}
use operating_system_assignm.Proc.Find.{nowhere, first, find_slot-Found}
use operating_system_assignm.Proc.Inv.Defs.{Inv}

-- Under MLQ a pid that no slot has makes `chpr` access the memory behind the table.
pub chpr-unknown :
    (pid priority : ℕ) (k : Kernel)
    → ((j : ℕ) → j < nproc → (k.procs j).pid ≢ pid)
    → chpr mlq pid priority k ≡ out_of_bounds
unfolding chpr
chpr-unknown pid priority k none_has = elim (find_slot-Found (λ p. p.pid == pid) k.procs nproc 0) [
  | nowhere all e ↦ rw (e, chpr)
  | first j a b t before e ↦ absurd (none_has j (omega arith) (ground arith))
]

chpr-change_slot :
    (i priority : ℕ) (k : Kernel)
    → i < nproc
    → ((l : ℕ) → l < i → (k.procs l).pid ≢ (k.procs i).pid)
    → chpr mlq (k.procs i).pid priority k ≡ change_slot priority i k
unfolding chpr
chpr-change_slot i priority k lt unique =
    elim (find_slot-Found (λ p. p.pid == (k.procs i).pid) k.procs nproc 0) [
      | nowhere all e ↦ absurd (ground (arith, all i))
      | first j a b t none_before e ↦
          let same : j ≡ i = ground (arith, unique j, none_before i) in rw (e, chpr) (rw same refl)
    ]

-- The table with a new priority.
abbrev pub promoted : ℕ → ℕ → Kernel → ℕ → Proc
promoted i priority k = update k.procs i (record (k.procs i) { priority = priority })

-- What `chpr` comes to, for a RUNNABLE process and another priority.
abbrev with_levels : Kernel → Outcome (MultiQueue × Option ℕ) → Outcome (Kernel × Option ℕ)
with_levels k endless = endless
with_levels k out_of_bounds = out_of_bounds
with_levels k (returns (m, below)) = returns (record k { multiqueue = m }, below)

change_slot-swapque :
    (i priority : ℕ) (k : Kernel) {out : Outcome (MultiQueue × Option ℕ)}
    → (k.procs i).state ≡ runnable
    → (k.procs i).priority ≢ priority
    → swapque
        (λ j. (promoted i priority k j).pid)
        (k.procs i).priority
        priority
        (k.procs i).pid
        k.multiqueue
      ≡ out
    → change_slot priority i k
      ≡ with_levels (set_proc k i (record (k.procs i) { priority = priority })) out
unfolding change_slot
change_slot-swapque i priority k {out = endless} ready ne e =
    rw (==-ne _ _ ne) (rw (ap (λ s. state_eq s runnable) ready) (rw e))
change_slot-swapque i priority k {out = out_of_bounds} ready ne e =
    rw (==-ne _ _ ne) (rw (ap (λ s. state_eq s runnable) ready) (rw e))
change_slot-swapque i priority k {out = returns (m, below)} ready ne e =
    rw (==-ne _ _ ne) (rw (ap (λ s. state_eq s runnable) ready) (rw e))

swapque-fault :
    (pid_of : ℕ → ℕ) (priority1 priority2 pid : ℕ) (m : MultiQueue)
    → take_pid pid_of pid (m (priority1 - 1)) ≡ out_of_bounds
    → swapque pid_of priority1 priority2 pid m ≡ out_of_bounds
unfolding swapque
swapque-fault pid_of p1 p2 pid m e = elim (Bool-cases (in_range p1)) [
  | inl ok ↦ rw ok (rw e)
  | inr out ↦ rw out
]

-- Where `end` becomes -1 and the process goes to another level.
swapque-below :
    (pid_of : ℕ → ℕ) (priority1 priority2 pid x : ℕ) (m : MultiQueue) (a : ℕ → ℕ)
    → in_range priority1 ≡ true
    → in_range priority2 ≡ true
    → priority1 ≢ priority2
    → take_pid pid_of pid (m (priority1 - 1))
      ≡ returns (record { p = some x; proc = a; end = negsuc 0 })
    → (m' : MultiQueue) × (swapque pid_of priority1 priority2 pid m
        ≡ returns (m', some (priority1 - 1)))
unfolding swapque swapped Mlq.enque
swapque-below pid_of p1 p2 pid x m a ok ok' ne e = (
  update (update m (p1 - 1) (record (m (p1 - 1)) { proc = a })) (p2 - 1)
      (push x (update m (p1 - 1) (record (m (p1 - 1)) { proc = a }) (p2 - 1))),
  rw ok (rw e (rw (==-ne p2 p1 (λ same. ne (sym same))) (rw ok'))),
)

-- Under MLQ, from a state with the invariant, for a RUNNABLE process, the first with its pid,
-- that is to get another priority of 1 to 3, and whose level goes round the end of its row while
-- the process stands before that end: where the level's `end` is not 0 `chpr` ends in a write at
-- index -1; where it is 0 `chpr` gives the process the priority and returns, and the level's
-- `end` is -1.
pub chpr-wraps :
    (i at priority : ℕ) (k : Kernel)
    → let m = k.multiqueue ((k.procs i).priority - 1) in
      Inv mlq k
      → i < nproc
      → (k.procs i).state ≡ runnable
      → (k.procs i).priority ≢ priority
      → in_range priority ≡ true
      → ((l : ℕ) → l < i → (k.procs l).pid ≢ (k.procs i).pid)
      → m.end < m.start
      → m.start ≤ at
      → at < cells
      → m.proc at ≡ i
      → ((l : ℕ) → m.start ≤ l → l < at → (k.procs (m.proc l)).pid ≢ (k.procs i).pid)
      → ((0 < m.end) × (chpr mlq (k.procs i).pid priority k ≡ out_of_bounds))
        ⊎ ((m.end ≡ 0)
            × ((k' : Kernel) × (chpr mlq (k.procs i).pid priority k
                  ≡ returns (k', some ((k.procs i).priority - 1)))
                × (k'.procs ≡ promoted i priority k)))
chpr-wraps i at priority k inv lt ready ne ok unique wrapped lo hi here before =
    elim (take_pid-wraps pid_of (k.procs i).pid at (k.multiqueue ((k.procs i).priority - 1)) valid
      wrapped lo hi (ground (arith, here)) (λ l x y. ground (arith, before l x y))) [
        | inl (some_end, bad) ↦ inl (
          some_end,
          chpr-change_slot i priority k lt unique
              ∙ change_slot-swapque i priority k ready ne (
                  swapque-fault pid_of (k.procs i).priority priority (k.procs i).pid k.multiqueue
                    bad),
        )
        | inr (z, (a, e)) ↦
            let (m', e') =
              swapque-below pid_of (k.procs i).priority priority (k.procs i).pid _ k.multiqueue a
                (ground (arith, inv.priorities i lt)) ok ne e in
            inr (
              z,
              (
                record (set_proc k i (record (k.procs i) { priority = priority })) {
                  multiqueue = m';
                },
                chpr-change_slot i priority k lt unique
                    ∙ change_slot-swapque i priority k ready ne e',
                refl,
              ),
            )
      ]
  where
    pid_of : ℕ → ℕ
    pid_of j = (promoted i priority k j).pid

    valid : IsValid (k.multiqueue ((k.procs i).priority - 1))
    valid = inv.levels ((k.procs i).priority - 1) (ground (arith, inv.priorities i lt))

-- Under MLQ `chpr` gives a priority outside of 1 to 3 to a process that sleeps on an address and
-- is the first with its pid; the wakeup that would queue the process then faults.
pub chpr-out_of_range :
    (i priority chan : ℕ) (k : Kernel)
    → i < nproc
    → (k.procs i).state ≡ sleeping
    → (k.procs i).chan ≡ Chan.at chan
    → (k.procs i).priority ≢ priority
    → in_range priority ≡ false
    → ((l : ℕ) → l < i → (k.procs l).pid ≢ (k.procs i).pid)
    → (k' : Kernel) × (chpr mlq (k.procs i).pid priority k ≡ returns (k', none))
      × (wake_slot mlq (Chan.at chan) i k' ≡ none)
unfolding change_slot wake_slot admit Mlq.enque
chpr-out_of_range i priority chan k lt asleep on ne out unique = (
  set_proc k i (record (k.procs i) { priority = priority }),
  chpr-change_slot i priority k lt unique ∙ ground arith,
  ground arith,
)
