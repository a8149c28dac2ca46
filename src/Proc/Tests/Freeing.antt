-- ===== src/Proc/Tests/Freeing.antt =====
-- Pages that come back: a fork that fails, and an exited child.
use operating_system_assignm.Prelude.{
  ℕ, ◌≡◌, ◌≢◌, refl, arith, some, Option, update, List, [], ◌∷◌, count,
}
use operating_system_assignm.Kalloc
use operating_system_assignm.Kalloc.{Kmem, kernbase}
use operating_system_assignm.Kalloc.FreeList.{IsFree, kfree-accepts}
use operating_system_assignm.Proc.Kernel.{mlq, Kernel, zombie}
use operating_system_assignm.Proc.Inv.Defs.{Inv}
use operating_system_assignm.Proc.Wait.{reap, reaped}
use operating_system_assignm.Proc.Inv.Waiting.{reap_lem, emptied}
use operating_system_assignm.Proc.Inv.Reaching.{Reach-Inv}
use operating_system_assignm.Proc.Tests.{page, zombie_kernel, zombie-Reach}

-- Init runs on the first page; two are free.
abbrev two_free : List ℕ
two_free = page 2 ∷ page 3 ∷ []

zombie_state : ((zombie_kernel mlq).procs 1).state ≡ zombie
unfolding zombie_kernel
zombie_state = refl

zombie_stack : ((zombie_kernel mlq).procs 1).kstack ≡ page 2
unfolding zombie_kernel
zombie_stack = refl

one-IsFree : IsFree (zombie_kernel mlq).kmem (page 3 ∷ [])
unfolding zombie_kernel
one-IsFree = record { chain = (refl, omega arith, refl); once = λ x. ground arith }

-- A page table of one page, `page 4`.
abbrev free_table : ℕ → Kmem → Option Kmem
free_table pgdir kmem = Kalloc.kfree kernbase (page 4) kmem

free_table_lem :
    (m : Kmem) (ps : List ℕ)
    → IsFree m ps
    → ((p : ℕ) → count p (page 4 ∷ []) ≢ 0 → count p ps ≡ 0)
    → (m' : Kmem) × (free_table ((zombie_kernel mlq).procs 1).pgdir m ≡ some m')
      × IsFree m' (page 4 ∷ ps)
free_table_lem m ps f apart =
    kfree-accepts kernbase (page 4) m ps (omega arith) f (apart (page 4) (ground arith)) refl

reap_lem_example :
    (k' : Kernel) × (reap free_table kernbase 1 (zombie_kernel mlq)
      ≡ some (
        reaped
            ((zombie_kernel mlq).procs 1).pid
            ((zombie_kernel mlq).procs 1).timerun
            ((zombie_kernel mlq).procs 1).timeready
            ((zombie_kernel mlq).procs 1).timeslept,
        k',
      ))
    × Inv mlq k'
    × IsFree k'.kmem (page 4 ∷ ((zombie_kernel mlq).procs 1).kstack ∷ page 3 ∷ [])
    × (k'.procs ≡ update (zombie_kernel mlq).procs 1 (emptied ((zombie_kernel mlq).procs 1)))
reap_lem_example =
    reap_lem free_table kernbase 1 (zombie_kernel mlq) (page 3 ∷ []) (page 4 ∷ []) mlq
      (Reach-Inv mlq zombie-Reach) (omega arith) zombie_state (omega arith) one-IsFree
      (rw zombie_stack refl) (rw zombie_stack refl) (λ p there. ground (arith, zombie_stack, there))
      free_table_lem
