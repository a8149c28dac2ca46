-- ===== src/Kalloc.antt =====
-- The physical page allocator, Assignment1/xv6-public/kalloc.c: a free list threaded through the
-- free pages. An address is a number, 0 the null pointer. `none` is a panic of `kfree`.
-- The spin lock makes each operation atomic and is not part of the state; `end`, the first address
-- after the kernel, is the linker's and a parameter.
pub mod FreeList
pub mod Range
mod Tests
use operating_system_assignm.Prelude.{
  ℕ, zero, suc, ◌+◌, ◌-◌, ◌*◌, ◌/◌, ◌%◌, ◌^◌, Bool, true, false, ◌||◌, not, Option, none, some, ltb,
  leb, ◌==◌, if◌then◌else◌, update,
}

-- PGSIZE, KERNBASE, PHYSTOP of mmu.h and memlayout.h
abbrev pub pgsize : ℕ
pgsize = 4096

abbrev pub kernbase : ℕ
kernbase = 0x80000000

abbrev pub phystop : ℕ
phystop = 0xE000000

-- V2P, a subtraction of 32-bit words
abbrev pub v2p : ℕ → ℕ
v2p v = (v + 2 ^ 32 - kernbase) % 2 ^ 32

-- `kmem`; `next v` is the first word of the page at `v`.
pub record Kmem : Type 0 where
  pub freelist : ℕ
  pub next : ℕ → ℕ

-- The test of `kfree` that panics.
abbrev pub bad_page : ℕ → ℕ → Bool
bad_page end v = not ((v % pgsize) == 0) || (ltb v end || leb phystop (v2p v))

unfoldable pub kfree : ℕ → ℕ → Kmem → Option Kmem
kfree end v k =
    if bad_page end v
    then none
    else some (record { freelist = v; next = update k.next v k.freelist })

-- The returned address, 0 where no page is left.
unfoldable pub kalloc : Kmem → ℕ × Kmem
kalloc k = let r = k.freelist in if r == 0 then (r, k) else (r, record k { freelist = k.next r })

-- The loop of `freerange` from page `p`, on fuel.
pub freerange_loop : ℕ → ℕ → ℕ → ℕ → Kmem → Option Kmem
freerange_loop end zero p vend k = some k
freerange_loop end (suc fuel) p vend k = elim (leb (p + pgsize) vend) [
  | false ↦ some k
  | true ↦ elim (kfree end p k) [
    | none ↦ none
    | some k' ↦ freerange_loop end fuel (p + pgsize) vend k'
  ]
]

-- PGROUNDUP
abbrev pub pgroundup : ℕ → ℕ
pgroundup v = (v + pgsize - 1) / pgsize * pgsize

-- `p` rises by `pgsize` in each round, so `vend` rounds are enough. The addresses stay below
-- 2 ^ 32, where pointer arithmetic does not wrap.
pub freerange : ℕ → ℕ → ℕ → Kmem → Option Kmem
freerange end vstart vend k = freerange_loop end (suc vend) (pgroundup vstart) vend k

-- `count` after the loop of `kmemtop` that starts at `r`, on fuel; `none` is a loop that goes on.
pub kmemtop_loop : ℕ → (ℕ → ℕ) → ℕ → ℕ → Option ℕ
kmemtop_loop zero next r count = none
kmemtop_loop (suc fuel) next r count = elim (r == 0) [
  | true ↦ some count
  | false ↦ kmemtop_loop fuel next (next r) (count + 1)
]

pub kmemtop : ℕ → Kmem → Option ℕ
kmemtop fuel k = elim (kmemtop_loop fuel k.next k.freelist 0) [
  | none ↦ none
  | some count ↦ some (count * pgsize)
]
