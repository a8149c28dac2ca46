-- ===== src/Bcache.antt =====
-- The buffer cache of Assignment1/xv6-public/bio.c. A buffer is its index in `bcache.buf`, and
-- `bcache.head` is the index NBUF. Sleep locks and the disk driver are not part of the state.
pub mod Links
pub mod Moves
pub mod Lookup
pub mod Recent
pub mod Unique
pub mod Tests
use operating_system_assignm.Prelude.{
  ℕ, zero, suc, ◌+◌, ◌-◌, Bool, true, false, Option, none, some, ltb, ◌==◌, ◌&&◌, not,
  if◌then◌else◌, update,
}

-- NBUF of param.h
abbrev pub nbuf : ℕ
nbuf = 30

-- `struct buf`, less the lock, the disk queue and the content; `valid` and `dirty` are its flags.
pub record Buf : Type 0 where
  pub dev : ℕ
  pub blockno : ℕ
  pub refcnt : ℕ
  pub valid : Bool
  pub dirty : Bool

pub record Bcache : Type 0 where
  pub buf : ℕ → Buf
  pub next : ℕ → ℕ
  pub prev : ℕ → ℕ

-- Put `b` behind the head: the last four assignments of brelse, and those of a round of binit.
unfoldable pub link : ℕ → Bcache → Bcache
link b c =
    let first = c.next nbuf in
    record c {
      next = update (update c.next b first) nbuf b;
      prev = update (update c.prev b nbuf) first b;
    }

-- The first two assignments of brelse.
unfoldable pub unlink : ℕ → Bcache → Bcache
unlink b c =
    let prev = update c.prev (c.next b) (c.prev b) in
    record c { next = update c.next (prev b) (c.next b); prev = prev }

-- The loop of `binit` on the buffers from `i` on.
unfoldable pub binit_loop : ℕ → ℕ → Bcache → Bcache
binit_loop zero i c = c
binit_loop (suc k) i c = binit_loop k (i + 1) (link i c)

unfoldable pub binit : Bcache → Bcache
binit c =
    binit_loop nbuf 0 (record c { next = update c.next nbuf nbuf; prev = update c.prev nbuf nbuf })

-- The loops of `bget` from `b` on along `step`, on fuel: the first buffer that passes the test.
unfoldable pub scan : (Buf → Bool) → (ℕ → ℕ) → (ℕ → Buf) → ℕ → ℕ → Option ℕ
scan test step buf zero b = none
scan test step buf (suc fuel) b =
    let rest = scan test step buf fuel (step b) in
    if b == nbuf then none else if test (buf b) then some b else rest

abbrev pub is_block : ℕ → ℕ → Buf → Bool
is_block dev blockno b = b.dev == dev && b.blockno == blockno

abbrev pub is_unused : Buf → Bool
is_unused b = b.refcnt == 0 && not b.dirty

-- The list has NBUF buffers, so NBUF + 1 rounds are enough. `none` is the panic.
unfoldable pub bget : ℕ → ℕ → Bcache → Option (ℕ × Bcache)
bget dev blockno c = elim (scan (is_block dev blockno) c.next c.buf (nbuf + 1) (c.next nbuf)) [
  | some b ↦
      some
        (b, record c { buf = update c.buf b (record (c.buf b) { refcnt = (c.buf b).refcnt + 1 }) })
  | none ↦ elim (scan is_unused c.prev c.buf (nbuf + 1) (c.prev nbuf)) [
    | none ↦ none
    | some b ↦ some (
      b,
      record c {
        buf =
            update c.buf b
              (record { dev = dev; blockno = blockno; refcnt = 1; valid = false; dirty = false });
      },
    )
  ]
]

-- `iderw` reads the block and sets B_VALID.
unfoldable pub bread : ℕ → ℕ → Bcache → Option (ℕ × Bcache)
bread dev blockno c = elim (bget dev blockno c) [
  | none ↦ none
  | some (b, c') ↦
      let read = record c' { buf = update c'.buf b (record (c'.buf b) { valid = true }) } in
      some (b, if (c'.buf b).valid then c' else read)
]

-- The caller holds a reference, so that `refcnt` is not 0.
unfoldable pub brelse : ℕ → Bcache → Bcache
brelse b c =
    let n = (c.buf b).refcnt - 1 in
    let c' = record c { buf = update c.buf b (record (c.buf b) { refcnt = n }) } in
    let moved = link b (unlink b c') in if n == 0 then moved else c'
