-- ===== src/Fs/Content.antt =====
-- The blocks of an inode: bmap of Assignment1/xv6-public/fs.c on the block allocator.
pub mod Words
pub mod Growing
pub mod Mapped
pub mod Indirect
use operating_system_assignm.Prelude.{
  ℕ, ◌+◌, ◌-◌, ◌*◌, ◌/◌, ◌%◌, Option, none, some, ltb, ◌==◌, if◌then◌else◌, update,
}
use operating_system_assignm.Fs.Bitmap.{Buffers, put_block, balloc}

-- NDIRECT and NINDIRECT of fs.h
abbrev pub ndirect : ℕ
ndirect = 12

abbrev pub nindirect : ℕ
nindirect = 128

-- `a[j]` for the content of a block read as an array of 32-bit words
abbrev pub entry : (ℕ → ℕ) → ℕ → ℕ
entry content j =
    content (4 * j)
    + 256 * content (4 * j + 1)
    + 65536 * content (4 * j + 2)
    + 16777216 * content (4 * j + 3)

-- `a[j] = v`
abbrev pub put_entry : (ℕ → ℕ) → ℕ → ℕ → ℕ → ℕ
put_entry content j v k =
    if k == 4 * j
    then v % 256
    else if k == 4 * j + 1
    then v / 256 % 256
    else if k == 4 * j + 2
    then v / 65536 % 256
    else if k == 4 * j + 3
    then v / 16777216 % 256
    else content k

-- `ip->addrs`, and the buffers of the device.
pub record Content : Type 0 where
  pub addrs : ℕ → ℕ
  pub disk : Buffers

module _ (size bmapstart : ℕ) where
  -- `if((addr = ip->addrs[i]) == 0) ip->addrs[i] = addr = balloc(ip->dev);`
  unfoldable pub fetch_addr : ℕ → Content → Option (ℕ × Content)
  fetch_addr i s =
      if s.addrs i == 0
      then elim (balloc size bmapstart s.disk) [
        | none ↦ none
        | some (b, d) ↦ some (b, record { addrs = update s.addrs i b; disk = d })
      ]
      else some (s.addrs i, s)

  -- The same for entry `j` of the indirect block `at`.
  unfoldable pub fetch_entry : ℕ → ℕ → Content → Option (ℕ × Content)
  fetch_entry at j s =
      let old = entry (s.disk.bytes at) j in
      if old == 0
      then elim (balloc size bmapstart s.disk) [
        | none ↦ none
        | some (b, d) ↦ some (b, record s { disk = put_block at (put_entry (d.bytes at) j b) d })
      ]
      else some (old, s)

  -- `none` is a panic.
  unfoldable pub bmap : ℕ → Content → Option (ℕ × Content)
  bmap bn s =
      let far = bn - ndirect in
      if ltb bn ndirect
      then fetch_addr bn s
      else if ltb far nindirect
      then elim (fetch_addr ndirect s) [ none ↦ none | some (at, s') ↦ fetch_entry at far s' ]
      else none
