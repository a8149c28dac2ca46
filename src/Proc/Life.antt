-- ===== src/Proc/Life.antt =====
-- allocproc, fork, exit and wait of proc.c.
use operating_system_assignm.Prelude.{
  ℕ, zero, suc, ◌+◌, Option, none, some, ◌==◌, if◌then◌else◌, update,
}
use operating_system_assignm.Fcfs.{nproc}
use operating_system_assignm.Kalloc
use operating_system_assignm.Proc.Kernel.{
  Policy, default, fcfs, mlq, dmlq, Proc, Kernel, at_proc, as_chan, unused, embryo, zombie,
  state_eq, set_proc, find_slot,
}
use operating_system_assignm.Proc.Ready.{admit, make_runnable}
use operating_system_assignm.Proc.Wake.{wakeup1, sched}

-- The assignments at `found:`.
abbrev pub fresh : Kernel → ℕ → Proc
fresh k i = record (k.procs i) {
  state = embryo;
  pid = k.nextpid;
  timecreated = k.ticks;
  timeready = 0;
  timerun = 0;
  timeslept = 0;
  switchnum = 0;
}

-- `allocproc` from `found:` on, with slot `i`. The trap frame and the context that it lays out on
-- the new stack are left out.
unfoldable pub found_slot : ℕ → Kernel → Option ℕ × Kernel
found_slot i k =
    let procs : ℕ → Proc = update k.procs i (fresh k i) in
    let (page, kmem) = Kalloc.kalloc k.kmem in
    let k' = record k {
      procs = update procs i (record (procs i) { kstack = page });
      nextpid = k.nextpid + 1;
      kmem = kmem;
    } in
    if page == 0
    then (none, set_proc k' i (record (k'.procs i) { state = unused }))
    else (some i, k')

-- The slot that `allocproc` returns, `none` for null.
unfoldable pub allocproc : Kernel → Option ℕ × Kernel
unfolding found_slot
allocproc k = elim (find_slot (λ p. state_eq p.state unused) k.procs nproc 0) [
  | none ↦ (none, k)
  | some i ↦ found_slot i k
]

-- Under MLQ and DMLQ a child has its parent's priority.
abbrev pub inherit : Policy → ℕ → Proc → ℕ
inherit mlq parent_priority np = parent_priority
inherit dmlq parent_priority np = parent_priority
inherit default parent_priority np = np.priority
inherit fcfs parent_priority np = np.priority

-- What `fork` did: it failed with -1, or returned a child's pid.
pub data Forked : Type 0 where
  failed : Forked
  child : ℕ → Forked

-- `fork` of process `i` after `allocproc` gave slot `np`. `pgdir` is the result of `copyuvm` in
-- vm.c, 0 where it failed; `end` is the linker's symbol that `kfree` tests. The copies of the trap
-- frame, the open files, the directory and the name are left out.
unfoldable pub fork_rest : Policy → ℕ → ℕ → ℕ → ℕ → Kernel → Option (Forked × Kernel)
fork_rest pol end pgdir i np k =
    if pgdir == 0
    then elim (Kalloc.kfree end (k.procs np).kstack k.kmem) [
      | none ↦ none
      | some kmem ↦ some (
        failed,
        record k {
          procs = update k.procs np (record (k.procs np) { pgdir = 0; kstack = 0; state = unused });
          kmem = kmem;
        },
      )
    ]
    else let k1 = set_proc k np (record (k.procs np) {
      pgdir = pgdir;
      sz = (k.procs i).sz;
      parent = some i;
      priority = inherit pol (k.procs i).priority (k.procs np);
    }) in
      elim (admit pol np (make_runnable np k1)) [
        | none ↦ none
        | some k2 ↦ some (child (k1.procs np).pid, k2)
      ]

unfoldable pub fork : Policy → ℕ → ℕ → ℕ → Kernel → Option (Forked × Kernel)
unfolding fork_rest allocproc
fork pol end pgdir i k = elim ((allocproc k).0) [
  | none ↦ some (failed, (allocproc k).1)
  | some np ↦ fork_rest pol end pgdir i np (allocproc k).1
]

-- The body of the loop in `exit` that passes children to init.
unfoldable pub reparent_slot : Policy → ℕ → ℕ → Kernel → Option Kernel
reparent_slot pol i j k = elim ((k.procs j).parent) [
  | none ↦ some k
  | some q ↦
      let k1 = set_proc k j (record (k.procs j) { parent = some k.initproc }) in
      if q == i
      then if state_eq (k.procs j).state zombie
        then wakeup1 pol (at_proc k.initproc) k1
        else some k1
      else some k
]

unfoldable pub reparent_loop : Policy → ℕ → ℕ → ℕ → Kernel → Option Kernel
reparent_loop pol i zero j k = some k
reparent_loop pol i (suc n) j k = elim (reparent_slot pol i j k) [
  | none ↦ none
  | some k' ↦ reparent_loop pol i n (j + 1) k'
]

-- `exit` of process `i` from `acquire(&ptable.lock)` on; init's exit is a panic. Closing the files
-- and the directory before that is left out.
unfoldable pub exit : Policy → ℕ → Kernel → Option Kernel
exit pol i k = if i == k.initproc then none else elim (wakeup1 pol (as_chan (k.procs i).parent) k) [
  | none ↦ none
  | some k1 ↦ elim (reparent_loop pol i nproc 0 k1) [
    | none ↦ none
    | some k2 ↦ sched i (set_proc k2 i (record (k2.procs i) { state = zombie }))
  ]
]
