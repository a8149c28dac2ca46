-- ===== src/Proc/Wait.antt =====
-- wait and waitnstats of proc.c: one round of their loop, up to the return or the sleep.
use operating_system_assignm.Prelude.{
  ℕ, zero, suc, ◌+◌, Bool, false, ◌&&◌, ◌||◌, not, Option, none, some, ◌==◌, if◌then◌else◌, update,
}
use operating_system_assignm.Fcfs.{nproc}
use operating_system_assignm.Kalloc
use operating_system_assignm.Kalloc.{Kmem}
use operating_system_assignm.Proc.Kernel.{Proc, Kernel, at_proc, unused, zombie, state_eq}
use operating_system_assignm.Proc.Wake.{sleep}

abbrev pub is_child : ℕ → Proc → Bool
is_child i p = elim (p.parent) [ none ↦ false | some q ↦ q == i ]

-- What the scan of the table ends with.
pub data Scan : Type 0 where
  found : ℕ → Scan
  finished : (havekids : Bool) → Scan

-- The scan of `n` slots from `j` for an exited child of process `i`.
unfoldable pub scan : ℕ → (ℕ → Proc) → Bool → ℕ → ℕ → Scan
scan i procs havekids zero j = finished havekids
scan i procs havekids (suc n) j =
    let rest = scan i procs (havekids || is_child i (procs j)) n (j + 1) in
    if is_child i (procs j) && state_eq (procs j).state zombie then found j else rest

-- The fields that `wait` resets in the slot of an exited child. Its name is left out.
abbrev pub reaped_proc : Proc → Proc
reaped_proc p = record p { kstack = 0; pid = 0; parent = none; killed = false; state = unused }

-- A return of the child's pid and statistics, a return of -1, or a sleep.
pub data Waited : Type 0 where
  reaped : (pid timerun timeready timeslept : ℕ) → Waited
  no_children : Waited
  asleep : Waited

-- `freevm` of vm.c gives a page table's pages back and may panic.
unfoldable pub reap : (ℕ → Kmem → Option Kmem) → ℕ → ℕ → Kernel → Option (Waited × Kernel)
reap freevm end j k =
    let p = k.procs j in
    elim (Kalloc.kfree end p.kstack k.kmem) [
      | none ↦ none
      | some kmem ↦ elim (freevm p.pgdir kmem) [
        | none ↦ none
        | some kmem' ↦ some (
          reaped p.pid p.timerun p.timeready p.timeslept,
          record k { procs = update k.procs j (reaped_proc p); kmem = kmem' },
        )
      ]
    ]

-- `wait` has the same body, and hands out the pid alone.
unfoldable pub waitnstats : (ℕ → Kmem → Option Kmem) → ℕ → ℕ → Kernel → Option (Waited × Kernel)
waitnstats freevm end i k = elim (scan i k.procs false nproc 0) [
  | found j ↦ reap freevm end j k
  | finished havekids ↦
      if not havekids || (k.procs i).killed
      then some (no_children, k)
      else elim (sleep (at_proc i) i k) [ none ↦ none | some k' ↦ some (asleep, k') ]
]
