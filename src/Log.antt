-- ===== src/Log.antt =====
-- The write-ahead log of the file system, Assignment1/xv6-public/log.c, on a disk that may lose its
-- power before any write.
-- A block is a function from word index to word. In the header block word 0 is `n` and word
-- `i + 1` is `block[i]`. A buffer is the cached content of its block, so `bread` reads `cache`, and
-- `brelse` does nothing; the cache holds on to what differs from the disk, as bio.c promises for
-- buffers with B_DIRTY.
pub mod Replay
pub mod Installing
pub mod Writing
pub mod Crash
pub mod Committing
pub mod Ops
pub mod Reserved
pub mod Tests
use operating_system_assignm.Prelude.{ℕ, zero, suc, ◌+◌, ◌-◌, ◌==◌, ltb, leb, if◌then◌else◌, update}

abbrev pub Block : Type 0
Block = ℕ → ℕ

-- `struct logheader`
pub record LogHeader : Type 0 where
  pub n : ℕ
  pub block : ℕ → ℕ

-- The disk, the buffers, and how many writes the disk does before it loses power; what the kernel
-- does after that changes the disk no more.
pub record Machine : Type 0 where
  pub disk : ℕ → Block
  pub cache : ℕ → Block
  pub power : ℕ

-- `memmove(buf->data, data, BSIZE)`
abbrev pub fill : ℕ → Block → Machine → Machine
fill b content m = record m { cache = update m.cache b content }

-- `bwrite`
unfoldable pub bwrite : ℕ → Machine → Machine
bwrite b m = record m {
  disk = if m.power == 0 then m.disk else update m.disk b (m.cache b);
  power = m.power - 1;
}

-- The content of the header block after the two assignments of `write_head`.
abbrev pub header_words : LogHeader → Block → Block
header_words lh old w = if w == 0 then lh.n else if leb w lh.n then lh.block (w - 1) else old w

-- `log.start` is the block of the header; the blocks of the log follow it.
module _ (start : ℕ) where
  -- The loop of `install_trans`, `k` rounds from `tail`.
  unfoldable pub install_loop : LogHeader → ℕ → ℕ → Machine → Machine
  install_loop lh zero tail m = m
  install_loop lh (suc k) tail m =
      install_loop lh k (tail + 1)
        (bwrite (lh.block tail) (fill (lh.block tail) (m.cache (start + tail + 1)) m))

  unfoldable pub install_trans : LogHeader → Machine → Machine
  install_trans lh m = install_loop lh lh.n 0 m

  unfoldable pub read_head : Machine → LogHeader
  read_head m = record { n = m.cache start 0; block = λ i. m.cache start (i + 1) }

  unfoldable pub write_head : LogHeader → Machine → Machine
  write_head lh m = bwrite start (fill start (header_words lh (m.cache start)) m)

  unfoldable pub recover_from_log : Machine → Machine
  recover_from_log m = let lh = read_head m in write_head (record lh { n = 0 }) (install_trans lh m)

  -- The loop of `write_log`, `k` rounds from `tail`.
  unfoldable pub write_loop : LogHeader → ℕ → ℕ → Machine → Machine
  write_loop lh zero tail m = m
  write_loop lh (suc k) tail m =
      write_loop lh k (tail + 1)
        (bwrite (start + tail + 1) (fill (start + tail + 1) (m.cache (lh.block tail)) m))

  unfoldable pub write_log : LogHeader → Machine → Machine
  write_log lh m = write_loop lh lh.n 0 m

  -- The log is empty afterwards.
  unfoldable pub commit : LogHeader → Machine → Machine
  commit lh m =
      if ltb 0 lh.n
      then write_head (record lh { n = 0 }) (install_trans lh (write_head lh (write_log lh m)))
      else m
