-- ===== src/Fcfs.antt =====
-- The FCFS run queue of Assignment1/xv6-public/proc.c (`pqueue`): a binary min-heap of processes by
-- creation time. A process pointer is its slot in the process table; `key` reads `timecreated`.
pub mod Order
pub mod Down
pub mod Members
pub mod Remove
mod Tests
use operating_system_assignm.Prelude.{
  ℕ, zero, suc, ◌+◌, ◌-◌, ◌*◌, ◌/◌, Bool, true, false, ◌&&◌, Option, none, some, ltb, ◌==◌,
  if◌then◌else◌, update, swap,
}

-- NPROC
abbrev pub nproc : ℕ
nproc = 64

-- `struct pqueue`; `proc` is an array of `nproc` pointers.
pub record PQueue : Type 0 where
  pub size : ℕ
  pub proc : ℕ → ℕ

abbrev pub parent : ℕ → ℕ
parent i = (i - 1) / 2

abbrev pub leftchild : ℕ → ℕ
leftchild i = 2 * i + 1

abbrev pub rightchild : ℕ → ℕ
rightchild i = 2 * i + 2

module _ (key : ℕ → ℕ) where
  -- The loop of `shiftup` on fuel; `parent i < i`, so fuel `i` is enough.
  unfoldable pub shiftup_loop : ℕ → ℕ → (ℕ → ℕ) → ℕ → ℕ
  shiftup_loop zero i a = a
  shiftup_loop (suc fuel) i a =
      let rest = shiftup_loop fuel (parent i) (swap a (parent i) i) in
      if ltb 0 i && ltb (key (a i)) (key (a (parent i))) then rest else a

  unfoldable pub shiftup : ℕ → (ℕ → ℕ) → ℕ → ℕ
  shiftup i a = shiftup_loop i i a

  -- `minindex` after the two tests of `shiftdown`.
  unfoldable pub minindex : ℕ → (ℕ → ℕ) → ℕ → ℕ
  minindex size a i =
      let m =
        if ltb (leftchild i) size && ltb (key (a (leftchild i))) (key (a i))
        then leftchild i
        else i in
      if ltb (rightchild i) size && ltb (key (a (rightchild i))) (key (a m))
      then rightchild i
      else m

  -- The recursion of `shiftdown` on fuel: the index grows and stays below `size`.
  unfoldable pub shiftdown_loop : ℕ → ℕ → (ℕ → ℕ) → ℕ → ℕ → ℕ
  shiftdown_loop zero size a i = a
  shiftdown_loop (suc fuel) size a i =
      let m = minindex size a i in
      let left = shiftdown_loop fuel size (swap a (leftchild i) i) m in
      let right = shiftdown_loop fuel size (swap a (rightchild i) i) m in
      if m == leftchild i then left else if m == rightchild i then right else a

  unfoldable pub shiftdown : ℕ → (ℕ → ℕ) → ℕ → ℕ → ℕ
  shiftdown size a i = shiftdown_loop (suc size) size a i

  -- A full queue drops the process.
  unfoldable pub insert : ℕ → PQueue → PQueue
  insert p q =
      if ltb q.size nproc
      then record { size = q.size + 1; proc = shiftup q.size (update q.proc q.size p) }
      else q

  -- `none` is the null pointer.
  unfoldable pub remove : PQueue → Option ℕ × PQueue
  remove q = if q.size == 0 then (none, q) else (
    some (q.proc 0),
    record {
      size = q.size - 1;
      proc = shiftdown (q.size - 1) (update q.proc 0 (q.proc (q.size - 1))) 0;
    },
  )
