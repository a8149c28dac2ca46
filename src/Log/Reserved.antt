-- ===== src/Log/Reserved.antt =====
-- The space in the log that begin_op reserves, and what log_write and end_op make of it.
use operating_system_assignm.Prelude.{
  ℕ, zero, suc, ◌+◌, ◌*◌, ◌≤◌, ◌<◌, ◌≡◌, ◌≢◌, ◌⊎◌, inl, inr, arith, Bool, true, false, Option, some,
  ◌==◌, if◌then◌else◌, update, ℕ_discrete, refl, Bool-cases, ltb, none, update_here, update_there,
}
use operating_system_assignm.Log.Ops.{
  maxopblocks, logsize, OpLog, begin_op, find_block, log_write, end_op, committed_op,
}

-- No block stands twice in the log; the operations that run may still write `left` blocks, and
-- there is room for them.
pub record IsReserved (left : ℕ) (log : OpLog) : Type 0 where
  pub room : log.lh.n + left ≤ logsize
  pub allowed : left ≤ log.outstanding * maxopblocks
  pub once : (i j : ℕ) → i < log.lh.n → j < log.lh.n → log.lh.block i ≡ log.lh.block j → i ≡ j
  pub calm : log.committing ≡ true → log.outstanding ≡ 0

-- Where `begin_op` does not sleep, the log has room for MAXOPBLOCKS blocks more than were
-- reserved before.
pub begin_op-IsReserved :
    (left : ℕ) {log log' : OpLog}
    → IsReserved left log
    → begin_op log ≡ some log'
    → IsReserved (left + maxopblocks) log'
unfolding begin_op
begin_op-IsReserved left {log} {log'} r e =
    let s : (log.lh ≡ log'.lh)
        × (log'.outstanding ≡ log.outstanding + 1)
        × (log'.committing ≡ false)
        × (log.lh.n + (log.outstanding + 1) * maxopblocks ≤ logsize) =
      ground arith in
    record {
      room = ground (arith, s, r.allowed);
      allowed = ground (arith, s, r.allowed);
      once = λ i j a b q. ground (arith, s, r.once i j);
      calm = λ q. ground (arith, s);
    }

-- Where the loop of `log_write` ends.
record FoundBlock (block : ℕ → ℕ) (k i blockno at : ℕ) : Type 0 where
  low : i ≤ at
  high : at ≤ i + k
  hit : at < i + k → block at ≡ blockno
  before : (j : ℕ) → i ≤ j → j < at → block j ≢ blockno

find_block-FoundBlock :
    (block : ℕ → ℕ) (k i blockno : ℕ) → FoundBlock block k i blockno (find_block block k i blockno)
unfolding find_block
find_block-FoundBlock block zero i blockno = record {
  low = omega arith;
  high = omega arith;
  hit = λ p. absurd (omega arith);
  before = λ j a b. absurd (omega arith);
}
find_block-FoundBlock block (suc k) i blockno =
    let rest = find_block-FoundBlock block k (i + 1) blockno in
    record {
      low = ground (arith, rest.low);
      high = ground (arith, rest.high);
      hit = λ p. ground (arith, rest.hit);
      before = λ j a b. elim (ℕ_discrete i j) [
        | yes same ↦ ground (arith, same)
        | no later ↦ ground (arith, rest.before j)
      ];
    }

-- The block is in the log and its buffer stays in the cache; there may still be `left` blocks.
pub record Logged (left blockno : ℕ) (dirty dirty' : ℕ → Bool) (log log' : OpLog) : Type 0 where
  pub kept : IsReserved left log'
  pub older : (i : ℕ) → i < log.lh.n → log'.lh.block i ≡ log.lh.block i
  pub entry : (i : ℕ) × (i < log'.lh.n) × (log'.lh.block i ≡ blockno)
  pub grown :
      (log'.lh.n ≡ log.lh.n)
      ⊎ ((log'.lh.n ≡ log.lh.n + 1) × ((i : ℕ) → i < log.lh.n → log.lh.block i ≢ blockno))
  pub operations : (log'.outstanding ≡ log.outstanding) × (log'.committing ≡ log.committing)
  pub pinned : dirty' blockno ≡ true
  pub flags : (b : ℕ) → blockno ≢ b → dirty' b ≡ dirty b

-- What `log_write` comes to on a log of `size` blocks, its header's included.
abbrev pub Writes : ℕ → ℕ → ℕ → (ℕ → Bool) → OpLog → Option (OpLog × (ℕ → Bool)) → Type 0
Writes size left blockno dirty log out =
    ((log.lh.n + 1 < size)
      × ((log' : OpLog) × (dirty' : ℕ → Bool) × (out ≡ some (log', dirty'))
          × Logged left blockno dirty dirty' log log'))
    ⊎ ((size ≤ log.lh.n + 1) × (out ≡ none))

log_write-fits :
    (size blockno left : ℕ) (dirty : ℕ → Bool) (log : OpLog)
    → log.lh.n + 1 < size
    → IsReserved (left + 1) log
    → (log' : OpLog) × (dirty' : ℕ → Bool) × (log_write size blockno dirty log
        ≡ some (log', dirty'))
      × Logged left blockno dirty dirty' log log'
unfolding log_write
log_write-fits size blockno left dirty log fits r =
    let at = find_block log.lh.block log.lh.n 0 blockno in
    let f = find_block-FoundBlock log.lh.block log.lh.n 0 blockno in
    let log' = record log {
      lh = record {
        n = if at == log.lh.n then log.lh.n + 1 else log.lh.n;
        block = update log.lh.block at blockno;
      };
    } in
    (
      log',
      update dirty blockno true,
      ground (arith, r.room, r.allowed),
      record {
        kept = record {
          room = ground (arith, r.room);
          allowed = omega (arith, r.allowed);
          once = λ i j a b q. elim (ℕ_discrete at log.lh.n) [
            | yes new ↦
                ground (arith, new, f.before i (omega arith), f.before j (omega arith), r.once i j)
            | no old ↦ ground (arith, f.hit, f.high, r.once i j)
          ];
          calm = r.calm;
        };
        older = λ i lt. ground (arith, f.hit);
        entry = (at, ground (arith, f.high), ground arith);
        grown = elim (ℕ_discrete at log.lh.n) [
          | yes new ↦
              inr (ground (arith, new), λ i lt. f.before i (omega arith) (omega (arith, new)))
          | no old ↦ inl (ground (arith, old))
        ];
        operations = (refl, refl);
        pinned = update_here dirty blockno blockno true refl;
        flags = λ b ne. update_there dirty blockno b true ne;
      },
    )

-- Where an operation has space left that was reserved for it: `log_write` panics where the log
-- on the disk has no block left behind its header and its entries, be the block in the log
-- already or not. Else the block is in the log and its buffer is marked B_DIRTY, the older
-- entries and the other buffers' marks stay, a new entry is made only for a block that was not
-- in the log, no block stands twice, and what is left of the space shrinks by one.
pub log_write_lem :
    (size blockno left : ℕ) (dirty : ℕ → Bool) (log : OpLog)
    → IsReserved (left + 1) log
    → Writes size left blockno dirty log (log_write size blockno dirty log)
unfolding log_write
log_write_lem size blockno left dirty log r = elim (Bool-cases (ltb (log.lh.n + 1) size)) [
  | inl fits ↦
      inl
        (ground (arith, fits), log_write-fits size blockno left dirty log (ground (arith, fits)) r)
  | inr full ↦ inr (ground (arith, full), ground (arith, full))
]

-- Where `end_op` returns and the operations that go on need at most `left'` blocks, no more than
-- were reserved and at most MAXOPBLOCKS for each, that space stays reserved; it is committing
-- exactly if it reports that it commits.
pub end_op-IsReserved :
    (left left' : ℕ) {log log' : OpLog} {do_commit : Bool}
    → IsReserved left log
    → end_op log ≡ some (do_commit, log')
    → left' ≤ left
    → left' ≤ log'.outstanding * maxopblocks
    → IsReserved left' log' × (log'.committing ≡ do_commit)
unfolding end_op
end_op-IsReserved left left' {log} {log'} {do_commit} r e le fits =
    let s : (log.lh ≡ log'.lh)
        × (log'.committing ≡ do_commit)
        × (do_commit ≡ true → log'.outstanding ≡ 0) =
      ground arith in
    (
      record {
        room = ground (arith, s, r.room);
        allowed = fits;
        once = λ i j a b q. ground (arith, s, r.once i j);
        calm = λ q. ground (arith, s);
      },
      s.1,
    )

-- After a commit with no operation outstanding `begin_op` does not sleep.
pub begin_op-committed_op :
    (log : OpLog) → log.outstanding ≡ 0 → (log' : OpLog) × (begin_op (committed_op log) ≡ some log')
unfolding begin_op committed_op
begin_op-committed_op log none_left =
    (record (committed_op log) { outstanding = log.outstanding + 1 }, ground arith)
