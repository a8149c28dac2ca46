-- ===== src/Proc/Inv/Heap.antt =====
-- The FCFS queue against the table: changing a slot, queueing it, running the oldest.
use operating_system_assignm.Prelude.{
  ℕ, ◌≤◌, ◌<◌, ◌≡◌, ◌⊎◌, arith, true, false, update, ℕ_discrete, one_if, some, none, zero, suc, inl,
  inr, total-zero, total-suc,
}
use operating_system_assignm.Fcfs
use operating_system_assignm.Fcfs.{PQueue, nproc, parent}
use operating_system_assignm.Fcfs.Members.{occurs, size-lt, occurs-ne}
use operating_system_assignm.Fcfs.Remove.{
  IsValid, insert-IsValid, occurs-insert, remove-IsValid, remove_lem,
}
use operating_system_assignm.Proc.Kernel.{Proc, runnable, state_eq}
use operating_system_assignm.Proc.Inv.Defs.{is_ready, FcfsInv}

-- A slot may change where it is not queued, or keeps its creation time.
IsHeap-update :
    (procs : ℕ → Proc) {q : PQueue} (i : ℕ) (p : Proc)
    → IsValid (λ j. (procs j).timecreated) q
    → (occurs i q.size q.proc ≡ 0) ⊎ (p.timecreated ≡ (procs i).timecreated)
    → IsValid (λ j. (update procs i p j).timecreated) q
IsHeap-update procs {q} i p heap safe = record {
  ordered = λ j a b. ground (
    arith,
    heap.ordered j a b,
    occurs-ne i q.size q.proc j,
    occurs-ne i q.size q.proc (parent j),
  );
  room = heap.room;
}

module _ {procs : ℕ → Proc} {q : PQueue} (inv : FcfsInv procs q) (i : ℕ) (p : Proc) where
  open inv use {heap, members}

  pub update-FcfsInv :
      state_eq p.state runnable ≡ state_eq (procs i).state runnable
      → ((procs i).state ≡ runnable → p.timecreated ≡ (procs i).timecreated)
      → i < nproc
      → FcfsInv (update procs i p) q
  update-FcfsInv same time lt = record {
    heap = IsHeap-update procs i p heap (ground (arith, members i));
    members = λ x. ground (arith, members x);
  }

  -- A slot that becomes RUNNABLE and is inserted.
  pub insert-FcfsInv :
      i < nproc
      → state_eq (procs i).state runnable ≡ false
      → p.state ≡ runnable
      → FcfsInv (update procs i p) (Fcfs.insert (λ j. (update procs i p j).timecreated) i q)
  insert-FcfsInv lt idle ready = record {
    heap =
        insert-IsValid (λ j. (update procs i p j).timecreated) i
          (IsHeap-update procs i p heap (ground (arith, members i)));
    members = λ x. ground (
      arith,
      members x,
      members i,
      lack,
      occurs-insert (λ j. (update procs i p j).timecreated) x i q,
    );
  }
    where
      lack : q.size < nproc
      lack =
          size-lt nproc q.size q.proc i lt (ground (arith, members i))
            (λ x le. ground (arith, members x)) (λ x. ground (arith, members x))

-- The scheduler takes a process that was created no later than any queued one.
pub data Removed (procs : ℕ → Proc) (q : PQueue) : Type 0 where
  idle :
      ((x : ℕ) → is_ready procs x ≡ false)
      → Fcfs.remove (λ j. (procs j).timecreated) q ≡ (none, q)
      → Removed procs q
  oldest :
      (i : ℕ)
      → (Fcfs.remove (λ j. (procs j).timecreated) q).0 ≡ some i
      → i < nproc
      → (procs i).state ≡ runnable
      → ((x : ℕ) → is_ready procs x ≡ true → (procs i).timecreated ≤ (procs x).timecreated)
      → ((p : Proc)
          → state_eq p.state runnable ≡ false
          → FcfsInv (update procs i p) (Fcfs.remove (λ j. (procs j).timecreated) q).1)
      → Removed procs q

-- Where a queue holds `x`, an entry of it is `x`.
ready_entry : (n : ℕ) (a : ℕ → ℕ) (x : ℕ) → 0 < occurs x n a → (j : ℕ) × (j < n) × (a j ≡ x)
ready_entry zero a x pos = absurd (omega (arith, total-zero (λ y. one_if y x) a))
ready_entry (suc n) a x pos = elim (ℕ_discrete (a n) x) [
  | yes last ↦ (n, omega arith, last)
  | no other ↦
      let (j, lt, e) = ready_entry n a x (ground (arith, total-suc (λ y. one_if y x) n a)) in
      (j, omega arith, e)
]

pub remove-Removed : {procs : ℕ → Proc} {q : PQueue} → FcfsInv procs q → Removed procs q
remove-Removed {procs} {q} inv = elim (remove_lem (λ j. (procs j).timecreated) inv.heap) [
  | inl (z, none_out, same) ↦
      idle (λ x. ground (arith, inv.members x, z, total-zero (λ y. one_if y x) q.proc))
        (ground arith)
  | inr (i, out, smaller, least, gone) ↦
      oldest i out (ground (arith, inv.members i, gone i)) (ground (arith, inv.members i, gone i))
        (λ x r.
          let (j, lt, e) = ready_entry q.size q.proc x (ground (arith, inv.members x)) in
          ground (arith, least j lt))
        (λ p quiet. record {
          heap =
              IsHeap-update procs i p (remove-IsValid (λ j. (procs j).timecreated) inv.heap)
                (inl (ground (arith, inv.members i, gone i)));
          members = λ x. ground (arith, inv.members x, gone x);
        })
]
