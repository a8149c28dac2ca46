-- ===== src/Proc/Inv/Forking.antt =====
-- fork after allocproc.

use operating_system_assignm.Prelude.{
  ℕ, ◌<◌, ◌≡◌, ◌≢◌, refl, ap, ◌∙◌, arith, Bool, true, false, if◌then◌else◌, update, some,
}
use operating_system_assignm.Fcfs.{nproc}
use operating_system_assignm.Kalloc
use operating_system_assignm.Kalloc.{Kmem, bad_page}
use operating_system_assignm.Proc.Kernel.{
  Policy, default, fcfs, mlq, dmlq, Proc, Kernel, unused, embryo, runnable, set_proc,
}
use operating_system_assignm.Proc.Ready.{admit, make_runnable}
use operating_system_assignm.Proc.Life.{inherit, failed, child, fork_rest}
use operating_system_assignm.Proc.Inv.Defs.{Inv, is_live}
use operating_system_assignm.Proc.Inv.Steps.{
  Done, InRange, live-InRange, admit-Done, set_twice, same_proc,
}
use operating_system_assignm.Proc.Inv.Living.{others-Inv, dead_update}

-- Under MLQ and DMLQ a process has a level.
abbrev pub has_level : Policy → Bool
has_level default = false
has_level fcfs = false
has_level mlq = true
has_level dmlq = true

-- The child that `fork` of process `i` is to make of slot `np`.
abbrev pub born : Policy → ℕ → ℕ → ℕ → Kernel → Proc
born pol pgdir i np k = record (k.procs np) {
  pgdir = pgdir;
  sz = (k.procs i).sz;
  parent = some i;
  priority = if has_level pol then (k.procs i).priority else (k.procs np).priority;
  state = runnable;
}

-- The same with the code's choice of the priority.
abbrev made : Policy → ℕ → ℕ → ℕ → Kernel → Proc
made pol pgdir i np k = record (born pol pgdir i np k) {
  priority = inherit pol (k.procs i).priority (k.procs np);
}

inherit_lem :
    (pol : Policy) (parent_priority : ℕ) (np : Proc)
    → inherit pol parent_priority np ≡ (if has_level pol then parent_priority else np.priority)
inherit_lem default a np = refl
inherit_lem fcfs a np = refl
inherit_lem mlq a np = refl
inherit_lem dmlq a np = refl

made-born :
    (pol : Policy) (pgdir i np : ℕ) (k : Kernel) → made pol pgdir i np k ≡ born pol pgdir i np k
made-born pol pgdir i np k =
    ap (λ x. record (born pol pgdir i np k) { priority = x })
      (inherit_lem pol (k.procs i).priority (k.procs np))

child_range :
    (pol : Policy) (parent_priority : ℕ) (np : Proc)
    → InRange pol parent_priority
    → InRange pol (inherit pol parent_priority np)
child_range default a np r = tt
child_range fcfs a np r = tt
child_range mlq a np r = r
child_range dmlq a np r = r

-- From a state with the invariant, with a copied address space, a live parent and an EMBRYO
-- slot: `fork` makes the child RUNNABLE and queues it, with the parent's address space size, and
-- with its priority under MLQ and DMLQ, where processes have a level, changes no other slot,
-- keeps the invariant and returns the child's pid.
pub fork_rest-child :
    (pol : Policy) (end pgdir i np : ℕ) (k : Kernel)
    → Inv pol k
    → pgdir ≢ 0
    → i < nproc
    → is_live (k.procs i).state ≡ true
    → np < nproc
    → (k.procs np).state ≡ embryo
    → (k' : Kernel) × (fork_rest pol end pgdir i np k ≡ some (child (k.procs np).pid, k'))
      × Inv pol k'
      × (k'.procs ≡ update k.procs np (born pol pgdir i np k))
unfolding fork_rest
fork_rest-child pol end pgdir i np k inv ne lt live lt' emb = (
  d.after,
  ground (arith, moved, same_proc k.procs np before),
  d.inv,
  d.table ∙ ap (update k.procs np) (made-born pol pgdir i np k),
)
  where
    before : Proc
    before = record (made pol pgdir i np k) { state = (k.procs np).state }

    d :
        Done pol k
          (update k.procs np (made pol pgdir i np k))
          (admit pol np (set_proc k np (made pol pgdir i np k)))
    d =
        admit-Done pol k np (made pol pgdir i np k) inv lt' (ground arith) refl
          (child_range pol (k.procs i).priority (k.procs np) (live-InRange pol k i inv lt live))

    moved : admit pol np (make_runnable np (set_proc k np before)) ≡ some d.after
    moved = ap (admit pol np) (set_twice k np before (λ x. record x { state = runnable })) ∙ d.ends

-- Where the address space could not be copied.
pub fork_rest-failed :
    (pol : Policy) (end i np : ℕ) (k : Kernel) {kmem : Kmem}
    → Inv pol k
    → np < nproc
    → (k.procs np).state ≡ embryo
    → Kalloc.kfree end (k.procs np).kstack k.kmem ≡ some kmem
    → (k' : Kernel) × (p : Proc) × (fork_rest pol end 0 i np k ≡ some (failed, k'))
      × Inv pol k'
      × (k'.kmem ≡ kmem)
      × (k'.procs ≡ update k.procs np p)
      × (p.state ≡ unused)
unfolding fork_rest
fork_rest-failed pol end i np k {kmem} inv lt emb e =
    let p : Proc = record (k.procs np) { pgdir = 0; kstack = 0; state = unused } in
    (
      record (set_proc k np p) { kmem = kmem },
      p,
      rw e,
      others-Inv pol (set_proc k np p) k.nextpid k.ticks kmem
          (dead_update pol k np p inv lt (ground arith) refl),
      refl,
      refl,
      refl,
    )
