-- ===== src/Proc/Inv/Undoing.antt =====
-- fork where it fails.
use operating_system_assignm.Prelude.{ℕ, ◌≡◌, ◌≢◌, List}
use operating_system_assignm.Kalloc
use operating_system_assignm.Kalloc.FreeList.{IsFree}
use operating_system_assignm.Proc.Kernel.{Policy, Proc, Kernel, unused}
use operating_system_assignm.Proc.Inv.Defs.{Inv}

-- `fork` failed and left nothing behind: the free pages are `pages`, no process changed, and the
-- free slots are still free.
pub record Undone (pol : Policy) (pages : List ℕ) (k k' : Kernel) : Type 0 where
  pub kept : Inv pol k'
  pub memory : IsFree k'.kmem pages
  pub others : (j : ℕ) → (k.procs j).state ≢ unused → k'.procs j ≡ k.procs j
  pub free : (j : ℕ) → (k.procs j).state ≡ unused → (k'.procs j).state ≡ unused
