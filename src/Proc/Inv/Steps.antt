-- ===== src/Proc/Inv/Steps.antt =====
-- The operations of proc.c that change one slot, against the invariant of the run queues.
use operating_system_assignm.Prelude.{
  ℕ, ◌≤◌, ◌<◌, ◌≡◌, refl, arith, ap, ◌∙◌, true, false, update, none, some, Option,
}
use mathlib.Core.Path.{subst, sym, fun_ext}
use operating_system_assignm.Fcfs
use operating_system_assignm.Fcfs.{nproc}
use operating_system_assignm.Mlq
use operating_system_assignm.Mlq.{MultiQueue, numpr}
use operating_system_assignm.Proc.Kernel.{
  Policy, default, fcfs, mlq, dmlq, Proc, Kernel, sleeping, runnable, set_proc, state_eq, hipr,
}
use operating_system_assignm.Proc.Ready.{enque_at, admit, make_runnable, boost, rouse}
use operating_system_assignm.Proc.Inv.Defs.{Inv, MlqInv, is_live}
use operating_system_assignm.Proc.Inv.Heap.{update-FcfsInv, insert-FcfsInv}
use operating_system_assignm.Proc.Inv.Levels.{update-MlqInv, enque-MlqInv}

-- The range of the priority is of concern only where priorities are used.
abbrev pub InRange : Policy → ℕ → Type 0
InRange default priority = Unit
InRange fcfs priority = Unit
InRange mlq priority = (1 ≤ priority) × (priority ≤ numpr)
InRange dmlq priority = (1 ≤ priority) × (priority ≤ numpr)

-- A change of slot `i` that the queues do not see.
pub record IsQuiet (pol : Policy) (procs : ℕ → Proc) (i : ℕ) (p : Proc) : Type 0 where
  pub ready : state_eq p.state runnable ≡ state_eq (procs i).state runnable
  pub created : (procs i).state ≡ runnable → p.timecreated ≡ (procs i).timecreated
  pub level : (procs i).state ≡ runnable → p.priority ≡ (procs i).priority
  pub range : is_live p.state ≡ true → InRange pol p.priority

pub set_proc-Inv :
    (pol : Policy) (k : Kernel) (i : ℕ) (p : Proc)
    → Inv pol k
    → i < nproc
    → IsQuiet pol k.procs i p
    → Inv pol (set_proc k i p)
set_proc-Inv default k i p inv lt q = tt
set_proc-Inv fcfs k i p inv lt q = update-FcfsInv inv i p q.ready q.created lt
set_proc-Inv mlq k i p inv lt q = update-MlqInv inv i p q.ready q.level q.range
set_proc-Inv dmlq k i p inv lt q = update-MlqInv inv i p q.ready q.level q.range

-- A live process has a priority in range.
pub live-InRange :
    (pol : Policy) (k : Kernel) (i : ℕ)
    → Inv pol k
    → i < nproc
    → is_live (k.procs i).state ≡ true
    → InRange pol (k.procs i).priority
live-InRange default k i inv lt live = tt
live-InRange fcfs k i inv lt live = tt
live-InRange mlq k i inv lt live = inv.priorities i lt live
live-InRange dmlq k i inv lt live = inv.priorities i lt live

-- An operation came to an end: it left the table `procs`, the invariant holds, and what the queues
-- and the table do not hold is as it was in `k`.
pub record Done (pol : Policy) (k : Kernel) (procs : ℕ → Proc) (out : Option Kernel) : Type 0 where
  pub after : Kernel
  pub ends : out ≡ some after
  pub inv : Inv pol after
  pub table : after.procs ≡ procs
  pub same_nextpid : after.nextpid ≡ k.nextpid
  pub same_ticks : after.ticks ≡ k.ticks
  pub same_initproc : after.initproc ≡ k.initproc
  pub same_kmem : after.kmem ≡ k.kmem

pub same_proc : (procs : ℕ → Proc) (i : ℕ) (p : Proc) → update procs i p i ≡ p
same_proc procs i p = ground arith

enque_at_eq :
    (i : ℕ) (k : Kernel) {m : MultiQueue}
    → Mlq.enque (k.procs i).priority i k.multiqueue ≡ some m
    → enque_at i k ≡ some (record k { multiqueue = m })
enque_at_eq i k e = rw e

enque_at-Done :
    (pol : Policy) (k : Kernel) (i : ℕ) (p : Proc)
    → MlqInv k.procs k.multiqueue
    → ((m : MultiQueue)
        → MlqInv (update k.procs i p) m
        → Inv pol (record (set_proc k i p) { multiqueue = m }))
    → i < nproc
    → state_eq (k.procs i).state runnable ≡ false
    → p.state ≡ runnable
    → (1 ≤ p.priority) × (p.priority ≤ numpr)
    → Done pol k (update k.procs i p) (enque_at i (set_proc k i p))
enque_at-Done pol k i p inv give lt idle ready range =
    let (m, e, inv') = enque-MlqInv inv i p lt idle ready range.0 range.1 in
    record {
      after = record (set_proc k i p) { multiqueue = m };
      ends = enque_at_eq i (set_proc k i p) (
          subst (λ x. Mlq.enque x.priority i k.multiqueue ≡ some m) (sym (same_proc k.procs i p))
            e);
      inv = give m inv';
      table = refl;
      same_nextpid = refl;
      same_ticks = refl;
      same_initproc = refl;
      same_kmem = refl;
    }

-- A slot that becomes RUNNABLE finds room in its queue.
pub admit-Done :
    (pol : Policy) (k : Kernel) (i : ℕ) (p : Proc)
    → Inv pol k
    → i < nproc
    → state_eq (k.procs i).state runnable ≡ false
    → p.state ≡ runnable
    → InRange pol p.priority
    → Done pol k (update k.procs i p) (admit pol i (set_proc k i p))
unfolding admit
admit-Done default k i p inv lt idle ready range = record {
  after = set_proc k i p;
  ends = refl;
  inv = tt;
  table = refl;
  same_nextpid = refl;
  same_ticks = refl;
  same_initproc = refl;
  same_kmem = refl;
}
admit-Done fcfs k i p inv lt idle ready range = record {
  after = record (set_proc k i p) {
    pqueue = Fcfs.insert (λ j. (update k.procs i p j).timecreated) i k.pqueue;
  };
  ends = refl;
  inv = insert-FcfsInv inv i p lt idle ready;
  table = refl;
  same_nextpid = refl;
  same_ticks = refl;
  same_initproc = refl;
  same_kmem = refl;
}
admit-Done mlq k i p inv lt idle ready range =
    enque_at-Done mlq k i p inv (λ m v. v) lt idle ready range
admit-Done dmlq k i p inv lt idle ready range =
    enque_at-Done dmlq k i p inv (λ m v. v) lt idle ready range

update-update :
    (procs : ℕ → Proc) (i : ℕ) (p p' : Proc) → update (update procs i p) i p' ≡ update procs i p'
update-update procs i p p' = fun_ext λ j. ground arith

set_proc-set_proc :
    (k : Kernel) (i : ℕ) (p p' : Proc) → set_proc (set_proc k i p) i p' ≡ set_proc k i p'
set_proc-set_proc k i p p' = λ j. record k { procs = update-update k.procs i p p' j }

-- Two changes of one slot.
pub update_twice :
    (procs : ℕ → Proc) (i : ℕ) (p : Proc) (f : Proc → Proc)
    → update (update procs i p) i (f (update procs i p i)) ≡ update procs i (f p)
update_twice procs i p f =
    ap (λ (x : Proc). update (update procs i p) i (f x)) (same_proc procs i p)
    ∙ update-update procs i p (f p)

pub set_twice :
    (k : Kernel) (i : ℕ) (p : Proc) (f : Proc → Proc)
    → set_proc (set_proc k i p) i (f ((set_proc k i p).procs i)) ≡ set_proc k i (f p)
set_twice k i p f =
    ap (λ (x : Proc). set_proc (set_proc k i p) i (f x)) (same_proc k.procs i p)
    ∙ set_proc-set_proc k i p (f p)

-- One operation after another, on the same slot.
pub Done-then :
    (pol : Policy) {k : Kernel} {t t' : ℕ → Proc} {out : Option Kernel}
    → Done pol k t out
    → (f : Kernel → Option Kernel)
    → ((k' : Kernel) → Inv pol k' → k'.procs ≡ t → Done pol k' t' (f k'))
    → Done pol k t' (elim out [ none ↦ none | some k' ↦ f k' ])
Done-then pol {k} {t' = t'} {out = out} d f next =
    let d' : Done pol d.after t' (f d.after) = next d.after d.inv d.table in
    record {
      after = d'.after;
      ends = ground (arith, d.ends, d'.ends);
      inv = d'.inv;
      table = d'.table;
      same_nextpid = d'.same_nextpid ∙ d.same_nextpid;
      same_ticks = d'.same_ticks ∙ d.same_ticks;
      same_initproc = d'.same_initproc ∙ d.same_initproc;
      same_kmem = d'.same_kmem ∙ d.same_kmem;
    }

-- The process value that `rouse` leaves.
abbrev pub roused : Policy → Proc → Proc
roused dmlq p = record p { state = runnable; priority = hipr }
roused default p = record p { state = runnable }
roused fcfs p = record p { state = runnable }
roused mlq p = record p { state = runnable }

-- Waking a sleeping process puts it into its run queue; DMLQ gives it the highest priority.
pub rouse-Done :
    (pol : Policy) (k : Kernel) (i : ℕ)
    → Inv pol k
    → i < nproc
    → (k.procs i).state ≡ sleeping
    → Done pol k (update k.procs i (roused pol (k.procs i))) (rouse pol i k)
rouse-Done default k i inv lt s =
    admit-Done default k i (roused default (k.procs i)) inv lt (ground arith) refl tt
rouse-Done fcfs k i inv lt s =
    admit-Done fcfs k i (roused fcfs (k.procs i)) inv lt (ground arith) refl tt
rouse-Done mlq k i inv lt s =
    admit-Done mlq k i (roused mlq (k.procs i)) inv lt (ground arith) refl
      (live-InRange mlq k i inv lt (ground arith))
rouse-Done dmlq k i inv lt s =
    subst (λ x. Done dmlq k (update k.procs i (roused dmlq (k.procs i))) (admit dmlq i x)) same
      (admit-Done dmlq k i (roused dmlq (k.procs i)) inv lt (ground arith) refl (omega arith))
  where
    p : Proc
    p = record (k.procs i) { state = runnable }

    same : set_proc k i (record p { priority = hipr }) ≡ boost dmlq i (make_runnable i k)
    same = sym (set_twice k i p (λ x. record x { priority = hipr }))
