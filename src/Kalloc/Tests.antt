-- ===== src/Kalloc/Tests.antt =====
-- The page allocator on three pages.
use operating_system_assignm.Prelude.{ℕ, ◌+◌, ◌*◌, ◌≡◌, refl, arith, none, some, [], ◌∷◌, update}
use operating_system_assignm.Kalloc.{pgsize, kernbase, Kmem, kfree, freerange, kmemtop}
use operating_system_assignm.Kalloc.FreeList.{IsFree, kfree-IsFree, kmemtop_lem}
use operating_system_assignm.Kalloc.Range.{freerange-IsFree}

abbrev no_pages : Kmem
no_pages = record { freelist = 0; next = λ v. 0 }

no_pages-IsFree : IsFree no_pages []
no_pages-IsFree = record { chain = refl; once = λ p. omega arith }

abbrev page : ℕ
page = kernbase + 4096

abbrev one_page : Kmem
one_page = record { freelist = page; next = update (λ v. 0) page 0 }

kfree_runs : kfree kernbase page no_pages ≡ some one_page
unfolding kfree
kfree_runs = refl

kfree_unaligned : kfree kernbase (page + 1) no_pages ≡ none
unfolding kfree
kfree_unaligned = refl

one_page-IsFree : IsFree one_page (page ∷ [])
one_page-IsFree = kfree-IsFree kernbase page (omega arith) no_pages-IsFree refl kfree_runs

kmemtop_lem_example : kmemtop 2 one_page ≡ some (1 * pgsize)
kmemtop_lem_example = kmemtop_lem 2 (omega arith) one_page-IsFree

freerange-IsFree_example :
    (k' : Kmem) × (freerange kernbase (kernbase + 1) (kernbase + 3 * 4096) no_pages ≡ some k')
    × IsFree k' ((kernbase + 8192) ∷ (kernbase + 4096) ∷ [])
freerange-IsFree_example =
    freerange-IsFree kernbase (kernbase + 1) (kernbase + 3 * 4096) no_pages [] (omega arith)
      (omega arith) (omega arith) (omega arith) tt no_pages-IsFree
