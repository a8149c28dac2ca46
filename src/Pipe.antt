-- ===== src/Pipe.antt =====
-- The pipes of Assignment1/xv6-public/pipe.c: pipewrite and piperead, each up to its return or its
-- sleep. Both run under the pipe's lock; the wakeups that they end with are calls of proc.c.
pub mod Fifo
pub mod Writing
pub mod Reading
pub mod Tests
use operating_system_assignm.Prelude.{
  ℕ, zero, suc, ◌+◌, ◌%◌, Bool, false, not, List, [], ◌∷◌, ◌==◌, ◌&&◌, ◌||◌, if◌then◌else◌, update,
}
use operating_system_assignm.Proc.Time.{u32}

abbrev pub pipesize : ℕ
pipesize = 512

-- `struct pipe`, less the lock; `bytes` is its `data`.
pub record Pipe : Type 0 where
  pub bytes : ℕ → ℕ
  pub nread : ℕ
  pub nwrite : ℕ
  pub readopen : Bool
  pub writeopen : Bool

-- What a round of pipewrite or piperead ends with: -1, a sleep with the bytes that are left to
-- write, or a return with the bytes that were read.
pub data Piped : Type 0 where
  failed : Piped
  asleep : List ℕ → Piped
  finished : List ℕ → Piped

-- The loop of `pipewrite` on the bytes from `addr[i]` on, at the start or after a sleep.
unfoldable pub pipewrite : Bool → List ℕ → Pipe → Piped × Pipe
pipewrite killed [] p = (finished [], p)
pipewrite killed (c ∷ rest) p =
    let next =
      pipewrite killed rest (record p {
        bytes = update p.bytes (p.nwrite % pipesize) c;
        nwrite = u32 (p.nwrite + 1);
      }) in
    if p.nwrite == u32 (p.nread + pipesize)
    then if not p.readopen || killed then (failed, p) else (asleep (c ∷ rest), p)
    else next

-- The second loop of `piperead`, for `n` bytes.
unfoldable pub copy_loop : ℕ → Pipe → List ℕ × Pipe
copy_loop zero p = ([], p)
copy_loop (suc n) p =
    let (rest, p') = copy_loop n (record p { nread = u32 (p.nread + 1) }) in
    if p.nread == p.nwrite then ([], p) else (p.bytes (p.nread % pipesize) ∷ rest, p')

unfoldable pub piperead : Bool → ℕ → Pipe → Piped × Pipe
piperead killed n p =
    let (bytes, p') = copy_loop n p in
    if p.nread == p.nwrite && p.writeopen
    then if killed then (failed, p) else (asleep [], p)
    else (finished bytes, p')

-- The first component says whether the pipe's page is freed.
unfoldable pub pipeclose : Bool → Pipe → Bool × Pipe
pipeclose writable p =
    let p' = if writable then record p { writeopen = false } else record p { readopen = false } in
    (not p'.readopen && not p'.writeopen, p')
