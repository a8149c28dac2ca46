-- ===== src/Proc/Inv/Living.antt =====
-- allocproc, and changes of slots that no queue sees.

use operating_system_assignm.Prelude.{
  ℕ, ◌+◌, ◌<◌, ◌≡◌, ◌≢◌, ◌⊎◌, inl, inr, refl, ap, ◌∙◌, arith, false, update, none, some, Option,
  ℕ_discrete, ==-ne, ==-eq,
}
use operating_system_assignm.Fcfs.{nproc}
use operating_system_assignm.Kalloc
use operating_system_assignm.Kalloc.{Kmem}
use operating_system_assignm.Proc.Kernel.{
  Policy, default, fcfs, mlq, dmlq, Proc, Kernel, unused, embryo, runnable, set_proc, state_eq,
}
use operating_system_assignm.Proc.Life.{fresh, found_slot, allocproc}
use operating_system_assignm.Proc.Find.{nowhere, first, find_slot-Found}
use operating_system_assignm.Proc.Inv.Defs.{Inv, is_live}
use operating_system_assignm.Proc.Inv.Steps.{set_proc-Inv, update_twice}

-- The queues do not depend on the other parts of the kernel.
pub others-Inv :
    (pol : Policy) (k : Kernel) (nextpid ticks : ℕ) (kmem : Kmem)
    → Inv pol k
    → Inv pol (record k { nextpid = nextpid; ticks = ticks; kmem = kmem })
others-Inv default k n t m inv = tt
others-Inv fcfs k n t m inv = inv
others-Inv mlq k n t m inv = inv
others-Inv dmlq k n t m inv = inv

-- A slot that is neither queued nor live may change to another such.
pub dead_update :
    (pol : Policy) (k : Kernel) (i : ℕ) (p : Proc)
    → Inv pol k
    → i < nproc
    → state_eq (k.procs i).state runnable ≡ false
    → is_live p.state ≡ false
    → Inv pol (set_proc k i p)
dead_update pol k i p inv lt idle dead = set_proc-Inv pol k i p inv lt (record {
  ready = ground arith;
  created = λ r. ground arith;
  level = λ r. ground arith;
  range = λ live. cc;
})

-- What `allocproc` is to make of slot `i`: created now, with no times yet, on the page that kalloc hands out.
abbrev pub claimed : Kernel → ℕ → Proc
claimed k i = record {
  sz = (k.procs i).sz;
  pgdir = (k.procs i).pgdir;
  kstack = (Kalloc.kalloc k.kmem).0;
  state = embryo;
  pid = k.nextpid;
  parent = (k.procs i).parent;
  chan = (k.procs i).chan;
  killed = (k.procs i).killed;
  switchnum = 0;
  timecreated = k.ticks;
  timeready = 0;
  timerun = 0;
  timeslept = 0;
  timescheduled = (k.procs i).timescheduled;
  priority = (k.procs i).priority;
}

abbrev pub taken : Kernel → ℕ → Proc → Kernel
taken k i p = record k {
  procs = update k.procs i p;
  nextpid = k.nextpid + 1;
  kmem = (Kalloc.kalloc k.kmem).1;
}

abbrev no_slot : Kernel → Option ℕ × Kernel
no_slot k = (none, k)

found_slot_lem :
    (k : Kernel) (i : ℕ)
    → (((Kalloc.kalloc k.kmem).0 ≢ 0) × (found_slot i k ≡ (some i, taken k i (claimed k i))))
      ⊎ (((Kalloc.kalloc k.kmem).0 ≡ 0)
          × (found_slot i k ≡ (none, taken k i (record (claimed k i) { state = unused }))))
unfolding found_slot
found_slot_lem k i = elim (ℕ_discrete (Kalloc.kalloc k.kmem).0 0) [
  | no page ↦ inl (
    page,
    rw (==-ne _ _ page)
        (ap (λ (t : ℕ → Proc). (some i, record (taken k i (claimed k i)) { procs = t })) once),
  )
  | yes out ↦ inr (
    out,
    rw (==-eq _ _ out) (
        ap
          (λ (t : ℕ → Proc). no_slot (record (taken k i (claimed k i)) {
            procs = update t i (record (t i) { state = unused });
          }))
          once
        ∙ ap (λ (t : ℕ → Proc). no_slot (record (taken k i (claimed k i)) { procs = t }))
            (update_twice k.procs i (claimed k i) (λ x. record x { state = unused }))),
  )
]
  where
    once :
        update
          (update k.procs i (fresh k i))
          i
          (record (update k.procs i (fresh k i) i) { kstack = (Kalloc.kalloc k.kmem).0 })
        ≡ update k.procs i (claimed k i)
    once = update_twice k.procs i (fresh k i) (λ x. record x { kstack = (Kalloc.kalloc k.kmem).0 })

-- What `allocproc` comes to.
abbrev pub Claims : Policy → Kernel → Type 0
Claims pol k =
    (((j : ℕ) → j < nproc → (k.procs j).state ≢ unused) × (allocproc k ≡ (none, k)))
    ⊎ ((i : ℕ) × (i < nproc)
        × ((k.procs i).state ≡ unused)
        × (((Kalloc.kalloc k.kmem).0 ≢ 0)
              × (allocproc k ≡ (some i, taken k i (claimed k i)))
              × Inv pol (taken k i (claimed k i))
            ⊎ ((Kalloc.kalloc k.kmem).0 ≡ 0)
              × (allocproc k ≡ (none, taken k i (record (claimed k i) { state = unused })))
              × Inv pol (taken k i (record (claimed k i) { state = unused }))))

-- From a state with the invariant: `allocproc` returns null with no change where no slot is
-- free. Else it takes a free slot: where a page is left for the stack the slot becomes an EMBRYO
-- with that page, the next pid, the present tick as its creation and no times, and the next pid
-- is one higher; where none is left null is returned and the slot is free again, though it keeps
-- the new pid. No other slot changes and the invariant is kept.
pub allocproc_lem : (pol : Policy) (k : Kernel) → Inv pol k → Claims pol k
unfolding allocproc
allocproc_lem pol k inv = elim (find_slot-Found (λ p. state_eq p.state unused) k.procs nproc 0) [
  | nowhere all e ↦ inl (λ j lt. ground (arith, all j), rw (e, allocproc))
  | first i a b t before e ↦
      let keeps : (p : Proc) → is_live p.state ≡ false → Inv pol (taken k i p) = λ p dead.
        others-Inv pol (set_proc k i p) (k.nextpid + 1) k.ticks (Kalloc.kalloc k.kmem).1
          (dead_update pol k i p inv (omega arith) (ground arith) dead) in
      inr (
        i,
        omega arith,
        ground arith,
        elim (found_slot_lem k i) [
          | inl (page, e') ↦ inl (page, rw (e, allocproc) e', keeps (claimed k i) refl)
          | inr (out, e') ↦
              inr (out, rw (e, allocproc) e', keeps (record (claimed k i) { state = unused }) refl)
        ],
      )
]
