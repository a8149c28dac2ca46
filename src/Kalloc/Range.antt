-- ===== src/Kalloc/Range.antt =====
-- `freerange`: which pages it puts on the free list.
use operating_system_assignm.Prelude.{
  ℕ, zero, suc, ◌+◌, ◌-◌, ◌/◌, ◌%◌, ◌≤◌, ◌<◌, ◌≡◌, refl, arith, some, List, [], ◌∷◌, All, count,
  dec_le, update,
}
use mathlib.Core.Path.{subst, sym}
use operating_system_assignm.Kalloc.{
  pgsize, pgroundup, kernbase, phystop, Kmem, kfree, freerange, freerange_loop,
}
use operating_system_assignm.Kalloc.FreeList.{IsFree, kfree-IsFree}

-- `n` pages from `p` up, on top of a free list.
abbrev pub pages_from : ℕ → ℕ → List ℕ → List ℕ
pages_from zero p pages = pages
pages_from (suc n) p pages = pages_from n (p + pgsize) (p ∷ pages)

All-count : (p : ℕ) (pages : List ℕ) → All (λ x. x < p) pages → count p pages ≡ 0
All-count p [] h = refl
All-count p (x ∷ xs) h = ground (arith, All-count p xs h.1)

All-mono : (p q : ℕ) (pages : List ℕ) → p ≤ q → All (λ x. x < p) pages → All (λ x. x < q) pages
All-mono p q [] le h = tt
All-mono p q (x ∷ xs) le h = (omega arith, All-mono p q xs le h.1)

-- A page-aligned address between the kernel's end and the top of memory is accepted.
kfree-accepts :
    (end p : ℕ) (k : Kmem)
    → p % pgsize ≡ 0
    → end ≤ p
    → kernbase ≤ p
    → p + pgsize ≤ kernbase + phystop
    → (k' : Kmem) × (kfree end p k ≡ some k')
unfolding kfree
kfree-accepts end p k al le lo hi =
    (record { freelist = p; next = update k.next p k.freelist }, ground arith)

pub freerange_loop-IsFree :
    (end fuel p vend : ℕ) (k : Kmem) (pages : List ℕ)
    → 0 < end
    → p % pgsize ≡ 0
    → end ≤ p
    → kernbase ≤ p
    → vend ≤ kernbase + phystop
    → vend < fuel + p
    → All (λ x. x < p) pages
    → IsFree k pages
    → (k' : Kmem) × (freerange_loop end fuel p vend k ≡ some k')
      × IsFree k' (pages_from ((vend - p) / pgsize) p pages)
unfolding freerange_loop
freerange_loop-IsFree end zero p vend k pages pos al le lo hi fu ab f =
    let z : (vend - p) / pgsize ≡ 0 = omega arith in
    (k, refl, subst (λ n. IsFree k (pages_from n p pages)) (sym z) f)
freerange_loop-IsFree end (suc fuel) p vend k pages pos al le lo hi fu ab f =
    elim (dec_le (p + pgsize) vend) [
      | no stop ↦
          let z : (vend - p) / pgsize ≡ 0 = omega arith in
          (k, ground arith, subst (λ n. IsFree k (pages_from n p pages)) (sym z) f)
      | yes go ↦
          let (k1, e1) = kfree-accepts end p k al le lo (omega arith) in
          let f1 : IsFree k1 (p ∷ pages) = kfree-IsFree end p pos f (All-count p pages ab) e1 in
          let (k2, e2, f2) =
            freerange_loop-IsFree end fuel (p + pgsize) vend k1 (p ∷ pages) pos (omega arith)
              (omega arith) (omega arith) hi (omega arith)
              (omega arith, All-mono p (p + pgsize) pages (omega arith) ab) f1 in
          let s : suc ((vend - (p + pgsize)) / pgsize) ≡ (vend - p) / pgsize = omega arith in
          (k2, ground (arith, e1, e2), subst (λ n. IsFree k2 (pages_from n p pages)) s f2)
    ]

-- Between the kernel's end and the top of memory, and above all free pages, `freerange` never
-- panics, and puts exactly the whole pages between its arguments on the free list.
pub freerange-IsFree :
    (end vstart vend : ℕ) (k : Kmem) (pages : List ℕ)
    → 0 < end
    → end ≤ vstart
    → kernbase ≤ vstart
    → vend ≤ kernbase + phystop
    → All (λ x. x < pgroundup vstart) pages
    → IsFree k pages
    → (k' : Kmem) × (freerange end vstart vend k ≡ some k')
      × IsFree k' (pages_from ((vend - pgroundup vstart) / pgsize) (pgroundup vstart) pages)
unfolding freerange
freerange-IsFree end vstart vend k pages pos le lo hi ab f =
    freerange_loop-IsFree end (suc vend) (pgroundup vstart) vend k pages pos (omega arith)
      (omega arith) (omega arith) hi (omega arith) ab f
