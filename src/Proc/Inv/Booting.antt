-- ===== src/Proc/Inv/Booting.antt =====
-- The start of the kernel, userinit, and operations that return against the invariant.
use mathlib.Core.Path.{subst, sym}
use operating_system_assignm.Prelude.{
  ℕ, ◌<◌, ◌≡◌, ◌≢◌, inl, inr, refl, ap, ◌∙◌, arith, update, none, some, Option, ℕ_discrete, ==-ne,
  count, total-zero, one_if,
}
use operating_system_assignm.Fcfs.{nproc}
use operating_system_assignm.Kalloc.{Kmem, pgsize}
use operating_system_assignm.Proc.Ready.{admit, make_runnable}
use operating_system_assignm.Mlq.Level
use operating_system_assignm.Proc.Kernel.{
  Policy, default, fcfs, mlq, dmlq, Proc, Kernel, embryo, runnable, set_proc,
}
use operating_system_assignm.Proc.Life.{allocproc}
use operating_system_assignm.Proc.System.{boot, init_slot, userinit, first_priority}
use operating_system_assignm.Proc.Inv.Defs.{Inv, MlqInv}
use operating_system_assignm.Proc.Inv.Steps.{Done, InRange, admit-Done, set_twice}
use operating_system_assignm.Proc.Inv.Living.{allocproc_lem, taken, claimed}

-- An operation that is known to keep the invariant keeps it in the state that it returned.
pub returned :
    (pol : Policy) {A : Type 0} {out : Option (A × Kernel)} {a a' : A} {k k' : Kernel}
    → Inv pol k
    → out ≡ some (a, k)
    → out ≡ some (a', k')
    → Inv pol k'
returned pol {k = k} {k' = k'} inv e e' = subst (Inv pol) (let s : k ≡ k' = cc in s) inv

pub Done-Inv :
    (pol : Policy) {k k' : Kernel} {t : ℕ → Proc} {out : Option Kernel}
    → Done pol k t out
    → out ≡ some k'
    → Inv pol k'
Done-Inv pol {k' = k'} d e =
    subst (Inv pol) (let s : d.after ≡ k' = ground (arith, d.ends) in s) d.inv

empty_level : (x : ℕ) → count x (Level.contents (record { start = 0; end = 0; proc = λ j. 0 })) ≡ 0
unfolding Level.contents
empty_level x = refl

boot_levels : (kmem : Kmem) → MlqInv (boot kmem).procs (boot kmem).multiqueue
boot_levels kmem = record {
  levels = λ l h. record { start_in = omega arith; end_in = omega arith };
  members = λ x l h. ground (arith, empty_level x);
  priorities = λ x lt live. cc;
}

pub boot-Inv : (pol : Policy) (kmem : Kmem) → Inv pol (boot kmem)
boot-Inv default kmem = tt
boot-Inv fcfs kmem = record {
  heap = record { ordered = λ j a b. absurd (omega arith); room = omega arith };
  members = λ x. ground (arith, total-zero (λ y. one_if y x) (λ j. 0));
}
boot-Inv mlq kmem = boot_levels kmem
boot-Inv dmlq kmem = boot_levels kmem

init_range : (pol : Policy) (old : ℕ) → InRange pol (first_priority pol old)
init_range default old = tt
init_range fcfs old = tt
init_range mlq old = omega arith
init_range dmlq old = omega arith

initproc-Inv : (pol : Policy) (k : Kernel) (i : ℕ) → Inv pol k → Inv pol (record k { initproc = i })
initproc-Inv default k i inv = tt
initproc-Inv fcfs k i inv = inv
initproc-Inv mlq k i inv = inv
initproc-Inv dmlq k i inv = inv

-- The slot of init before and after it becomes RUNNABLE.
abbrev init_proc : Policy → ℕ → Proc → Proc
init_proc pol pgdir p = record p {
  pgdir = pgdir;
  sz = pgsize;
  priority = first_priority pol p.priority;
}

-- `userinit` on a slot `i` that `allocproc` returned queues the first process.
started_Inv :
    (pol : Policy) (pgdir i : ℕ) (k1 : Kernel)
    → Inv pol k1
    → i < nproc
    → (k1.procs i).state ≡ embryo
    → let k2 = record k1 { initproc = i } in
      Done pol k2
        (update k1.procs i (record (init_proc pol pgdir (k1.procs i)) { state = runnable }))
        (admit pol i (make_runnable i (set_proc k2 i (init_proc pol pgdir (k1.procs i)))))
started_Inv pol pgdir i k1 inv lt emb =
    subst (λ x. Done pol k2 (update k1.procs i p) (admit pol i x))
      (sym (set_twice k2 i (init_proc pol pgdir (k1.procs i)) (λ x. record x { state = runnable })))
      (admit-Done pol k2 i p (initproc-Inv pol k1 i inv) lt (ground arith) refl
        (init_range pol (k1.procs i).priority))
  where
    k2 : Kernel
    k2 = record k1 { initproc = i }

    p : Proc
    p = record (init_proc pol pgdir (k1.procs i)) { state = runnable }

claimed_embryo : (k : Kernel) (i : ℕ) → ((taken k i (claimed k i)).procs i).state ≡ embryo
claimed_embryo k i = ground arith

userinit_slot :
    (pol : Policy) (pgdir i : ℕ) (k : Kernel) {k1 : Kernel}
    → allocproc k ≡ (some i, k1)
    → userinit pol pgdir k ≡ init_slot pol pgdir i k1
unfolding userinit
userinit_slot pol pgdir i k e = ground (arith, e)

init_slot_dir :
    (pol : Policy) (pgdir i : ℕ) (k : Kernel)
    → pgdir ≢ 0
    → init_slot pol pgdir i k
      ≡ admit pol i (
          make_runnable i
            (set_proc (record k { initproc = i }) i (init_proc pol pgdir (k.procs i))))
unfolding init_slot
init_slot_dir pol pgdir i k ne = rw (==-ne pgdir 0 ne)

userinit_null : (pol : Policy) (k : Kernel) → userinit pol 0 k ≡ none
unfolding userinit init_slot
userinit_null pol k = ground arith

-- Where `userinit` returns it has queued init.
pub userinit-Inv :
    (pol : Policy) (pgdir : ℕ) (k : Kernel) {k' : Kernel}
    → Inv pol k
    → userinit pol pgdir k ≡ some k'
    → Inv pol k'
unfolding userinit
userinit-Inv pol pgdir k {k'} inv e = elim (allocproc_lem pol k inv) [
  | inl (full, a) ↦ absurd (ground (arith, a))
  | inr (i, lt, free, inr (out, a, inv')) ↦ absurd (ground (arith, a))
  | inr (i, lt, free, inl (page, a, inv')) ↦ elim (ℕ_discrete pgdir 0) [
    | yes null_dir ↦
        absurd (ground (arith, userinit_null pol k, ap (λ d. userinit pol d k) null_dir))
    | no dir ↦
        Done-Inv pol
          (started_Inv pol pgdir i (taken k i (claimed k i)) inv' lt (claimed_embryo k i))
          (sym (init_slot_dir pol pgdir i (taken k i (claimed k i)) dir)
            ∙ sym (userinit_slot pol pgdir i k a)
            ∙ e)
  ]
]
