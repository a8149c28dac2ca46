-- ===== src/Log/Ops.antt =====
-- begin_op, log_write and end_op of Assignment1/xv6-public/log.c, each up to its release of
-- `log.lock` or its sleep.
use operating_system_assignm.Prelude.{
  ℕ, zero, suc, ◌+◌, ◌-◌, ◌*◌, Bool, true, false, Option, none, some, ◌==◌, ltb, leb, ◌||◌,
  if◌then◌else◌, update,
}
use operating_system_assignm.Log.{LogHeader}

-- MAXOPBLOCKS and LOGSIZE of param.h
abbrev pub maxopblocks : ℕ
maxopblocks = 10

abbrev pub logsize : ℕ
logsize = maxopblocks * 3

-- `struct log`, less the lock, the device and the place on it; `size` is a parameter.
pub record OpLog : Type 0 where
  pub outstanding : ℕ
  pub committing : Bool
  pub lh : LogHeader

-- One round of the loop of `begin_op`: `none` where it sleeps.
unfoldable pub begin_op : OpLog → Option OpLog
begin_op log =
    if log.committing
    then none
    else if ltb logsize (log.lh.n + (log.outstanding + 1) * maxopblocks)
    then none
    else some (record log { outstanding = log.outstanding + 1 })

-- The index that the loop of `log_write` ends with, `k` rounds from `i`.
unfoldable pub find_block : (ℕ → ℕ) → ℕ → ℕ → ℕ → ℕ
find_block block zero i blockno = i
find_block block (suc k) i blockno =
    if block i == blockno then i else find_block block k (i + 1) blockno

-- `dirty` is the flag B_DIRTY of the buffers, by block. `none` is a panic. `log.lh.n >= log.size -
-- 1` is tested without the subtraction.
unfoldable pub log_write : ℕ → ℕ → (ℕ → Bool) → OpLog → Option (OpLog × (ℕ → Bool))
log_write size blockno dirty log =
    if leb logsize log.lh.n || leb size (log.lh.n + 1)
    then none
    else if ltb log.outstanding 1
    then none
    else let i = find_block log.lh.block log.lh.n 0 blockno in
      some (
        record log {
          lh = record {
            n = if i == log.lh.n then log.lh.n + 1 else log.lh.n;
            block = update log.lh.block i blockno;
          };
        },
        update dirty blockno true,
      )

-- `end_op` up to the first release; the first component is `do_commit`. `none` is a panic, or an
-- `outstanding` below 0.
unfoldable pub end_op : OpLog → Option (Bool × OpLog)
end_op log =
    if log.outstanding == 0
    then none
    else if log.committing
    then none
    else if log.outstanding == 1
    then some (true, record log { outstanding = 0; committing = true })
    else some (false, record log { outstanding = log.outstanding - 1 })

-- `end_op` after `commit`, which leaves the header empty.
unfoldable pub committed_op : OpLog → OpLog
committed_op log = record log { committing = false; lh = record (log.lh) { n = 0 } }
