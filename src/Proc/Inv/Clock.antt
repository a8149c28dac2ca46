-- ===== src/Proc/Inv/Clock.antt =====
-- The clock: the times that it counts, the end of a time slice, and the invariant.
use mathlib.Core.Path.{subst, fun_ext}
use operating_system_assignm.Prelude.{
  ℕ, zero, suc, ◌+◌, ◌≤◌, ◌<◌, ◌≡◌, inl, inr, refl, ap, ◌∙◌, arith, Bool, update, some,
  if◌then◌else◌, ltb, leb, ◌&&◌, Bool-cases,
}
use operating_system_assignm.Fcfs.{nproc}
use operating_system_assignm.Proc.Kernel.{
  Policy, default, fcfs, mlq, dmlq, Proc, Kernel, Chan, runnable, running, set_proc, lwpr,
}
use operating_system_assignm.Proc.Time.{
  u32, age, updateprocesstimes_loop, updateprocesstimes, timer, preempt, quantum_over,
}
use operating_system_assignm.Proc.Wake.{wakeup1, yield}
use operating_system_assignm.Proc.Inv.Defs.{Inv, is_live}
use operating_system_assignm.Proc.Inv.Steps.{Done, IsQuiet, InRange, set_proc-Inv, live-InRange}
use operating_system_assignm.Proc.Inv.Living.{others-Inv}
use operating_system_assignm.Proc.Inv.Waking.{
  wakeup1-Done, woken, woken_table, yield-Done, switched, twice,
}

-- The clock changes only times.
age-IsQuiet :
    (pol : Policy) (k : Kernel) (i : ℕ)
    → Inv pol k
    → i < nproc
    → IsQuiet pol k.procs i (age (k.procs i))
age-IsQuiet pol k i inv lt = record {
  ready = ground arith;
  created = λ r. ground arith;
  level = λ r. ground arith;
  range = λ live.
      subst (InRange pol) (age-priority (k.procs i))
        (live-InRange pol k i inv lt (age-live (k.procs i) ∙ live));
}
  where
    age-priority : (p : Proc) → p.priority ≡ (age p).priority
    age-priority p = ground arith

    age-live : (p : Proc) → is_live p.state ≡ is_live (age p).state
    age-live p = ground arith

abbrev pub aged_table : ℕ → ℕ → (ℕ → Proc) → ℕ → Proc
aged_table n i procs j = if leb i j && ltb j (i + n) then age (procs j) else procs j

loop_table : (n i : ℕ) (k : Kernel) → (updateprocesstimes_loop n i k).procs ≡ aged_table n i k.procs
unfolding updateprocesstimes_loop
loop_table zero i k = fun_ext λ j. ground arith
loop_table (suc n) i k =
    loop_table n (i + 1) (set_proc k i (age (k.procs i))) ∙ fun_ext (λ j. ground arith)

loop_Inv :
    (pol : Policy) (n i : ℕ) (k : Kernel)
    → Inv pol k
    → i + n ≤ nproc
    → Inv pol (updateprocesstimes_loop n i k)
unfolding updateprocesstimes_loop
loop_Inv pol zero i k inv le = inv
loop_Inv pol (suc n) i k inv le =
    loop_Inv pol n (i + 1) (set_proc k i (age (k.procs i)))
      (set_proc-Inv pol k i (age (k.procs i)) inv (omega arith)
        (age-IsQuiet pol k i inv (omega arith)))
      (omega arith)

loop_ticks : (n i : ℕ) (k : Kernel) → (updateprocesstimes_loop n i k).ticks ≡ k.ticks
unfolding updateprocesstimes_loop
loop_ticks zero i k = refl
loop_ticks (suc n) i k = loop_ticks n (i + 1) (set_proc k i (age (k.procs i)))

-- What a timer interrupt does to a slot: it ages, and wakes if it sleeps on `ticks`.
abbrev pub ticked : Policy → Chan → (ℕ → Proc) → ℕ → Proc
ticked pol chan procs j = if ltb j nproc then woken pol chan (age (procs j)) else procs j

-- From a state with the invariant, a timer interrupt does not fault: it counts a tick and adds
-- one to the time of each RUNNING, RUNNABLE or SLEEPING process that its state names; it makes
-- RUNNABLE exactly those that sleep on `ticks`, and keeps the invariant.
pub timer_lem :
    (pol : Policy) (chan : Chan) (k : Kernel)
    → Inv pol k
    → (k' : Kernel) × (timer pol chan k ≡ some k')
      × Inv pol k'
      × (k'.ticks ≡ u32 (k.ticks + 1))
      × (k'.procs ≡ ticked pol chan k.procs)
unfolding timer updateprocesstimes
timer_lem pol chan k inv = (
  d.after,
  d.ends,
  d.inv,
  d.same_ticks ∙ loop_ticks nproc 0 k0,
  d.table ∙ fun_ext (λ j. ground (arith, ap (λ (t : ℕ → Proc). t j) (loop_table nproc 0 k0))),
)
  where
    k0 : Kernel
    k0 = record k { ticks = u32 (k.ticks + 1) }

    k1 : Kernel
    k1 = updateprocesstimes_loop nproc 0 k0

    d : Done pol k1 (woken_table pol chan nproc 0 k1.procs) (wakeup1 pol chan k1)
    d = wakeup1-Done pol chan k1 (
        loop_Inv pol nproc 0 k0 (others-Inv pol k k.nextpid (u32 (k.ticks + 1)) k.kmem inv)
          (omega arith))

abbrev pub yielded : Proc → Proc
yielded p = switched (record p { state = runnable })

abbrev pub lowered : Proc → Proc
lowered p = record p { priority = if ltb p.priority lwpr then p.priority + 1 else p.priority }

-- The slot of a running process after the end of `trap`: `over` says that its time slice is over.
abbrev pub sliced : Policy → Bool → Proc → Proc
sliced default over p = if over then yielded p else p
sliced fcfs over p = p
sliced mlq over p = if over then yielded p else p
sliced dmlq over p = if over then yielded (lowered p) else p

-- From a state with the invariant, at the end of `trap` for a running process: under MLQ, DMLQ
-- and the default scheduler a process whose slice is over goes back to its queue, under DMLQ one
-- level lower; FCFS lets it run on, and so do the others before the end of the slice. No other
-- slot changes and the invariant is kept.
pub preempt_lem :
    (pol : Policy) (i : ℕ) (k : Kernel)
    → Inv pol k
    → i < nproc
    → (k.procs i).state ≡ running
    → (k' : Kernel) × (preempt pol i k ≡ some k')
      × Inv pol k'
      × (k'.procs ≡ update k.procs i (sliced pol (quantum_over i k) (k.procs i)))
unfolding preempt
preempt_lem fcfs i k inv lt e = (k, refl, inv, fun_ext λ j. ground arith)
preempt_lem default i k inv lt e = elim (Bool-cases (quantum_over i k)) [
  | inr early ↦ (k, ground arith, inv, fun_ext λ j. ground arith)
  | inl over ↦
      let d : Done default k (update k.procs i (yielded (k.procs i))) (yield default i k) =
        yield-Done default k i inv lt e in
      (d.after, ground (arith, d.ends), d.inv, d.table ∙ rw over refl)
]
preempt_lem mlq i k inv lt e = elim (Bool-cases (quantum_over i k)) [
  | inr early ↦ (k, ground arith, inv, fun_ext λ j. ground arith)
  | inl over ↦
      let d : Done mlq k (update k.procs i (yielded (k.procs i))) (yield mlq i k) =
        yield-Done mlq k i inv lt e in
      (d.after, ground (arith, d.ends), d.inv, d.table ∙ rw over refl)
]
preempt_lem dmlq i k inv lt e = elim (Bool-cases (quantum_over i k)) [
  | inr early ↦ (k, ground arith, inv, fun_ext λ j. ground arith)
  | inl over ↦ (d.after, ground (arith, d.ends), d.inv, d.table ∙ rw over refl)
]
  where
    lower : Kernel
    lower = set_proc k i (lowered (k.procs i))

    lower_Inv : Inv dmlq lower
    lower_Inv = set_proc-Inv dmlq k i (lowered (k.procs i)) inv lt (record {
      ready = refl;
      created = λ r. refl;
      level = λ r. cc;
      range = λ live. ground (arith, inv.priorities i lt);
    })

    d : Done dmlq lower (update k.procs i (yielded (lowered (k.procs i)))) (yield dmlq i lower)
    d =
        twice dmlq k lower i (lowered (k.procs i)) yielded refl
          (yield-Done dmlq lower i lower_Inv lt (ground arith))
