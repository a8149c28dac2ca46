-- ===== src/Fs/Bitmap.antt =====
-- The block allocator of Assignment1/xv6-public/fs.c: bzero, balloc and bfree. `none` is a panic.
use operating_system_assignm.Prelude.{
  ℕ, zero, suc, ◌+◌, ◌/◌, ◌%◌, Bool, true, Option, none, some, ltb, if◌then◌else◌, update,
}
use operating_system_assignm.Fs.Bits.{is_clear, set_bit, clear_bit}

-- BSIZE and BPB of fs.h
abbrev pub bsize : ℕ
bsize = 512

abbrev pub bpb : ℕ
bpb = 4096

-- The buffers of the blocks, byte by byte, and the blocks that log_write was called for. A buffer
-- that a call leaves is the block that the next `bread` sees.
pub record Buffers : Type 0 where
  pub bytes : ℕ → ℕ → ℕ
  pub logged : ℕ → Bool

-- `log_write` of block `b` with new content
abbrev pub put_block : ℕ → (ℕ → ℕ) → Buffers → Buffers
put_block b content d = record { bytes = update d.bytes b content; logged = update d.logged b true }

-- `memset` of the first `n` bytes to 0
abbrev pub zero_below : ℕ → (ℕ → ℕ) → ℕ → ℕ
zero_below n content i = if ltb i n then 0 else content i

unfoldable pub bzero : ℕ → Buffers → Buffers
bzero b d = put_block b (zero_below bsize (d.bytes b)) d

-- `sb.size` and `sb.bmapstart`
module _ (size bmapstart : ℕ) where
  -- BBLOCK
  abbrev pub bblock : ℕ → ℕ
  bblock b = b / bpb + bmapstart

  -- The inner loop of `balloc` on the bits from `bi` on, `k` rounds: a bit that is 0.
  unfoldable pub find_bit : ℕ → ℕ → ℕ → (ℕ → ℕ) → Option ℕ
  find_bit zero b bi content = none
  find_bit (suc k) b bi content =
      let rest = find_bit k b (bi + 1) content in
      if ltb (b + bi) size
      then if is_clear (content (bi / 8)) (bi % 8) then some bi else rest
      else none

  -- The outer loop, on fuel.
  unfoldable pub find_free : ℕ → ℕ → Buffers → Option ℕ
  find_free zero b d = none
  find_free (suc fuel) b d =
      let rest = find_free fuel (b + bpb) d in
      let here = find_bit bpb b 0 (d.bytes (bblock b)) in
      if ltb b size then elim here [ none ↦ rest | some bi ↦ some (b + bi) ] else none

  -- The mark of block `b` in the map.
  unfoldable pub mark : (ℕ → ℕ → ℕ) → ℕ → Buffers → Buffers
  mark change b d =
      let content = d.bytes (bblock b) in
      let at = b % bpb / 8 in
      put_block (bblock b) (update content at (change (content at) (b % bpb % 8))) d

  -- `b` rises by BPB in each round, so `size` rounds are enough.
  unfoldable pub balloc : Buffers → Option (ℕ × Buffers)
  balloc d = elim (find_free size 0 d) [
    | none ↦ none
    | some b ↦ some (b, bzero b (mark set_bit b d))
  ]

  unfoldable pub bfree : ℕ → Buffers → Option Buffers
  bfree b d =
      if is_clear (d.bytes (bblock b) (b % bpb / 8)) (b % bpb % 8)
      then none
      else some (mark clear_bit b d)
