-- ===== src/Proc/Inv/Killing.antt =====
-- kill: which process it marks, and what else it does.
use operating_system_assignm.Prelude.{
  ℕ, ◌<◌, ◌≡◌, ◌≢◌, ◌⊎◌, inl, inr, refl, ap, arith, Bool, true, false, ◌==◌, if◌then◌else◌, update,
  some, Option, Bool-cases,
}
use operating_system_assignm.Fcfs.{nproc}
use operating_system_assignm.Proc.Kernel.{Policy, Proc, Kernel, sleeping, set_proc, state_eq}
use operating_system_assignm.Proc.Wake.{kill_slot, kill}
use operating_system_assignm.Proc.Ready.{rouse}
use operating_system_assignm.Proc.Find.{nowhere, first, find_slot-Found}
use operating_system_assignm.Proc.Inv.Defs.{Inv}
use operating_system_assignm.Proc.Inv.Steps.{
  Done, Done-then, IsQuiet, live-InRange, roused, rouse-Done,
}
use operating_system_assignm.Proc.Inv.Waking.{set_proc-Done, twice}

-- The killed process, and the same one woken where it slept.
abbrev pub marked : Proc → Proc
marked p = record p { killed = true }

abbrev pub killed_proc : Policy → Proc → Proc
killed_proc pol p = if state_eq p.state sleeping then roused pol (marked p) else marked p

kill_slot-Done :
    (pol : Policy) (k : Kernel) (i : ℕ)
    → Inv pol k
    → i < nproc
    → Done pol k (update k.procs i (killed_proc pol (k.procs i))) (kill_slot pol i k)
unfolding kill_slot
kill_slot-Done pol k i inv lt = elim (Bool-cases (state_eq (k.procs i).state sleeping)) [
  | inr awake ↦ rw awake quiet
  | inl asleep ↦ rw asleep (
      Done-then pol quiet (rouse pol i) (λ k' inv' t.
        twice pol k k' i (marked (k.procs i)) (roused pol) t
          (rouse-Done pol k' i inv' lt (ground (arith, ap (λ (f : ℕ → Proc). f i) t)))))
]
  where
    still : IsQuiet pol k.procs i (marked (k.procs i))
    still = record {
      ready = refl;
      created = λ r. refl;
      level = λ r. refl;
      range = λ live. live-InRange pol k i inv lt live;
    }

    quiet :
        Done pol k
          (update k.procs i (marked (k.procs i)))
          (some (set_proc k i (marked (k.procs i))))
    quiet = set_proc-Done pol k i (marked (k.procs i)) inv lt still

-- What `kill` comes to: -1 and no change where no slot has the pid, or 0 with the first slot that
-- has it marked, and woken where it slept.
abbrev pub Kills : Policy → ℕ → Kernel → Option (Bool × Kernel) → Type 0
Kills pol pid k out =
    (((j : ℕ) → j < nproc → (k.procs j).pid ≢ pid) × (out ≡ some (false, k)))
    ⊎ ((i : ℕ) × (k' : Kernel) × (i < nproc)
        × ((k.procs i).pid ≡ pid)
        × ((j : ℕ) → j < i → (k.procs j).pid ≢ pid)
        × (out ≡ some (true, k'))
        × Inv pol k'
        × (k'.procs ≡ update k.procs i (killed_proc pol (k.procs i))))

-- From a state with the invariant: `kill` fails where no slot has the pid, and changes nothing
-- then. Otherwise it marks the first slot that has it, wakes and queues the process if it
-- sleeps, changes no other slot and keeps the invariant.
pub kill_lem : (pol : Policy) (pid : ℕ) (k : Kernel) → Inv pol k → Kills pol pid k (kill pol pid k)
unfolding kill
kill_lem pol pid k inv = elim (find_slot-Found (λ p. p.pid == pid) k.procs nproc 0) [
  | nowhere all e ↦ inl (λ j lt. ground (arith, all j), rw (e, kill))
  | first i a b t before e ↦
      let d : Done pol k (update k.procs i (killed_proc pol (k.procs i))) (kill_slot pol i k) =
        kill_slot-Done pol k i inv (omega arith) in
      inr (
        i,
        d.after,
        omega arith,
        ground arith,
        λ j lt. ground (arith, before j),
        rw (e, kill, d.ends),
        d.inv,
        d.table,
      )
]
