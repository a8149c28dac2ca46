-- ===== src/Fs/Inodes.antt =====
-- The inode cache of Assignment1/xv6-public/fs.c: iget and idup. A `struct inode *` is its index in
-- `icache.inode`; the lock and the fields that ilock reads from the disk are not part of the state.
pub mod Getting
use operating_system_assignm.Prelude.{
  ℕ, zero, suc, ◌+◌, Bool, true, false, Option, none, some, ltb, ◌==◌, ◌&&◌, if◌then◌else◌, update,
}

-- NINODE of param.h
abbrev pub ninode : ℕ
ninode = 50

pub record Inode : Type 0 where
  pub dev : ℕ
  pub inum : ℕ
  pub ref : ℕ
  pub valid : Bool

-- The test for a cached inode
abbrev pub is_cached : ℕ → ℕ → Inode → Bool
is_cached dev inum ip = ltb 0 ip.ref && ip.dev == dev && ip.inum == inum

-- Where the loop of `iget` ends: at the inode, or behind the cache with `empty`.
pub data Search : Type 0 where
  cached : ℕ → Search
  behind : Option ℕ → Search

-- `if(empty == 0 && ip->ref == 0) empty = ip;`
abbrev pub remember : ℕ → Inode → Option ℕ → Option ℕ
remember i ip (some e) = some e
remember i ip none = if ip.ref == 0 then some i else none

-- The loop of `iget` over `k` entries from `i` on.
unfoldable pub iget_loop : ℕ → ℕ → (ℕ → Inode) → ℕ → ℕ → Option ℕ → Search
iget_loop dev inum cache zero i empty = behind empty
iget_loop dev inum cache (suc k) i empty =
    let rest = iget_loop dev inum cache k (i + 1) (remember i (cache i) empty) in
    if is_cached dev inum (cache i) then cached i else rest

-- `none` is the panic.
unfoldable pub iget : ℕ → ℕ → (ℕ → Inode) → Option (ℕ × (ℕ → Inode))
iget dev inum cache = elim (iget_loop dev inum cache ninode 0 none) [
  | cached i ↦ some (i, update cache i (record (cache i) { ref = (cache i).ref + 1 }))
  | behind none ↦ none
  | behind (some e) ↦
      some (e, update cache e (record { dev = dev; inum = inum; ref = 1; valid = false }))
]

unfoldable pub idup : ℕ → (ℕ → Inode) → ℕ → Inode
idup i cache = update cache i (record (cache i) { ref = (cache i).ref + 1 })
