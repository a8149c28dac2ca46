-- ===== src/Mlq.antt =====
-- The multilevel run queue of Assignment1/xv6-public/proc.c (`multiqueue`, built under MLQ and
-- DMLQ): one ring of NPROC + 1 process pointers for each priority. A process pointer is its slot in
-- the process table. `none` is a fault: an index outside of the C arrays.
pub mod Level
pub mod Swap
mod Tests
use operating_system_assignm.Prelude.{
  ℕ, zero, suc, ◌+◌, ◌-◌, ◌%◌, Bool, true, false, ◌&&◌, Option, none, some, ltb, leb, ◌==◌,
  if◌then◌else◌, update,
}
use Level.{Ring, cells, is_empty, push, pop}

-- NUMPR
abbrev pub numpr : ℕ
numpr = 3

-- `multiqueue`, a ring for each `qindex`.
abbrev pub MultiQueue : Type 0
MultiQueue = ℕ → Ring

-- `priority - 1` is an index of the three rows.
abbrev pub in_range : ℕ → Bool
in_range priority = leb 1 priority && leb priority numpr

unfoldable pub isempty : ℕ → MultiQueue → Option Bool
isempty priority m = if in_range priority then some (is_empty (m (priority - 1))) else none

unfoldable pub enque : ℕ → ℕ → MultiQueue → Option MultiQueue
enque priority p m =
    if in_range priority then some (update m (priority - 1) (push p (m (priority - 1)))) else none

-- The first component is the returned pointer, null where the level is empty.
unfoldable pub deque : ℕ → MultiQueue → Option (Option ℕ × MultiQueue)
deque priority m =
    let (out, r) = pop (m (priority - 1)) in
    if in_range priority then some (out, update m (priority - 1) r) else none
