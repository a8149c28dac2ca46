-- ===== src/Proc/Inv/Waiting.antt =====
-- wait and waitnstats: what one round of their loop ends with.
use mathlib.Core.Path.{subst}
use operating_system_assignm.Prelude.{
  ℕ, zero, suc, ◌+◌, ◌≤◌, ◌<◌, ◌≡◌, ◌⊎◌, inl, inr, refl, arith, Bool, true, false, ◌&&◌, ◌||◌,
  update, none, some, Option, Option-cases, Bool-cases, ℕ_discrete, sym, List, ◌∷◌, ◌++◌, count,
  ◌≢◌,
}
use operating_system_assignm.Fcfs.{nproc}
use operating_system_assignm.Kalloc
use operating_system_assignm.Kalloc.{Kmem, bad_page}
use operating_system_assignm.Kalloc.FreeList.{IsFree, kfree-accepts}
use operating_system_assignm.Proc.Kernel.{
  Policy, Proc, Kernel, at_proc, sleeping, running, zombie, unused, set_proc, state_eq,
}
use operating_system_assignm.Proc.Wake.{sleep}
use operating_system_assignm.Proc.Wait.{
  is_child, found, finished, scan, reaped_proc, Waited, reaped, no_children, asleep, reap,
  waitnstats,
}
use operating_system_assignm.Proc.Inv.Defs.{Inv}
use operating_system_assignm.Proc.Inv.Steps.{Done}
use operating_system_assignm.Proc.Inv.Living.{others-Inv, dead_update}
use operating_system_assignm.Proc.Inv.Waking.{sleep-Done, switched}

-- An exited child.
abbrev pub is_ripe : ℕ → Proc → Bool
is_ripe i p = is_child i p && state_eq p.state zombie

data Scanned (i : ℕ) (procs : ℕ → Proc) (kids : Bool) (n j : ℕ) : Type 0 where
  ripe :
      (l : ℕ)
      → j ≤ l
      → l < j + n
      → is_ripe i (procs l) ≡ true
      → scan i procs kids n j ≡ found l
      → Scanned i procs kids n j
  barren :
      ((l : ℕ) → j ≤ l → l < j + n → is_child i (procs l) ≡ false)
      → scan i procs kids n j ≡ finished kids
      → Scanned i procs kids n j
  kept :
      (l : ℕ)
      → j ≤ l
      → l < j + n
      → is_child i (procs l) ≡ true
      → ((m : ℕ) → j ≤ m → m < j + n → is_ripe i (procs m) ≡ false)
      → scan i procs kids n j ≡ finished true
      → Scanned i procs kids n j

scan-Scanned : (i : ℕ) (procs : ℕ → Proc) (kids : Bool) (n j : ℕ) → Scanned i procs kids n j
unfolding scan
scan-Scanned i procs kids zero j = barren (λ l a b. absurd (omega arith)) refl
scan-Scanned i procs kids (suc n) j = elim (Bool-cases (is_child i (procs j))) [
  | inr other ↦ elim (scan-Scanned i procs (kids || is_child i (procs j)) n (j + 1)) [
    | ripe l a b t e ↦ ripe l (omega arith) (omega arith) t (ground (arith, e))
    | barren all e ↦
        barren
          (λ l a b. elim (ℕ_discrete l j) [
            | yes same ↦ rw same other
            | no below ↦ all l (omega arith) (omega arith)
          ])
          (ground (arith, e))
    | kept l a b c all e ↦
        kept l (omega arith) (omega arith) c
          (λ m x y. elim (ℕ_discrete m j) [
            | yes same ↦ rw same (ground arith)
            | no below ↦ all m (omega arith) (omega arith)
          ])
          (ground (arith, e))
  ]
  | inl child ↦ elim (Bool-cases (state_eq (procs j).state zombie)) [
    | inl dead ↦ ripe j (omega arith) (omega arith) (ground arith) (ground arith)
    | inr lives ↦ elim (scan-Scanned i procs (kids || is_child i (procs j)) n (j + 1)) [
      | ripe l a b t e ↦ ripe l (omega arith) (omega arith) t (ground (arith, e))
      | barren all e ↦
          kept j (omega arith) (omega arith) child
            (λ m x y. elim (ℕ_discrete m j) [
              | yes same ↦ rw same (ground arith)
              | no below ↦ ground (arith, all m)
            ])
            (ground (arith, e))
      | kept l a b c all e ↦
          kept l (omega arith) (omega arith) c
            (λ m x y. elim (ℕ_discrete m j) [
              | yes same ↦ rw same (ground arith)
              | no below ↦ all m (omega arith) (omega arith)
            ])
            (ground (arith, e))
    ]
  ]
]

-- What one round of `waitnstats` by process `i` comes to: an exited child is reaped; or there is
-- none, and it sleeps on its own slot since it has a child and was not killed, or it returns -1.
abbrev pub Waits :
    Policy → (ℕ → Kmem → Option Kmem) → ℕ → ℕ → Kernel → Option (Waited × Kernel) → Type 0
Waits pol freevm end i k out =
    ((j : ℕ) × (j < nproc) × (is_ripe i (k.procs j) ≡ true) × (out ≡ reap freevm end j k))
    ⊎ (((j : ℕ) → j < nproc → is_ripe i (k.procs j) ≡ false)
        × (((j : ℕ) × (k' : Kernel) × (j < nproc)
              × (is_child i (k.procs j) ≡ true)
              × ((k.procs i).killed ≡ false)
              × (out ≡ some (asleep, k'))
              × Inv pol k'
              × (k'.procs
                  ≡ update k.procs i
                      (switched (record (k.procs i) { chan = at_proc i; state = sleeping }))))
            ⊎ ((((j : ℕ) → j < nproc → is_child i (k.procs j) ≡ false)
                  ⊎ ((k.procs i).killed ≡ true))
                × (out ≡ some (no_children, k)))))

-- From a state with the invariant, one round of `waitnstats` by a running process: an exited
-- child is reaped; without one, but with a child, the process sleeps on its own slot unless it
-- was killed; else the round returns -1 and changes nothing.
pub waitnstats_lem :
    (pol : Policy) (freevm : ℕ → Kmem → Option Kmem) (end i : ℕ) (k : Kernel)
    → Inv pol k
    → i < nproc
    → (k.procs i).state ≡ running
    → Waits pol freevm end i k (waitnstats freevm end i k)
unfolding waitnstats
waitnstats_lem pol freevm end i k inv lt e = elim (scan-Scanned i k.procs false nproc 0) [
  | ripe j a b t s ↦ inl (j, omega arith, t, rw (s, waitnstats))
  | barren all s ↦ inr (
    λ j l. ground (arith, all j),
    inr (inl (λ j l. all j (omega arith) (omega arith)), rw (s, waitnstats)),
  )
  | kept j a b c all s ↦ inr (
    λ m l. all m (omega arith) (omega arith),
    elim (Bool-cases (k.procs i).killed) [
      | inl dead ↦ inr (inr dead, rw (s, waitnstats) (rw dead))
      | inr well ↦
          let d : Done pol k
              (update k.procs i
                (switched (record (k.procs i) { chan = at_proc i; state = sleeping })))
              (sleep (at_proc i) i k) =
            sleep-Done pol k i (at_proc i) inv lt e in
          inl (
            j,
            d.after,
            omega arith,
            c,
            well,
            rw (s, waitnstats) (rw well (rw d.ends)),
            d.inv,
            d.table,
          )
    ],
  )
]

reap_ends :
    (pol : Policy) (freevm : ℕ → Kmem → Option Kmem) (end j : ℕ) (k : Kernel) {m m' : Kmem}
    → Inv pol k
    → j < nproc
    → (k.procs j).state ≡ zombie
    → Kalloc.kfree end (k.procs j).kstack k.kmem ≡ some m
    → freevm (k.procs j).pgdir m ≡ some m'
    → (k' : Kernel) × (reap freevm end j k
        ≡ some (
          reaped (k.procs j).pid (k.procs j).timerun (k.procs j).timeready (k.procs j).timeslept,
          k',
        ))
      × Inv pol k'
      × (k'.kmem ≡ m')
      × (k'.procs ≡ update k.procs j (reaped_proc (k.procs j)))
unfolding reap
reap_ends pol freevm end j k {m} {m'} inv lt z e f = (
  record (set_proc k j (reaped_proc (k.procs j))) { kmem = m' },
  rw (e, reap) (rw f),
  others-Inv pol (set_proc k j (reaped_proc (k.procs j))) k.nextpid k.ticks m'
      (dead_update pol k j (reaped_proc (k.procs j)) inv lt (ground arith) refl),
  refl,
  refl,
)

-- Where reaping ends without a panic the invariant is kept.
pub reap-Inv :
    (pol : Policy) (freevm : ℕ → Kmem → Option Kmem) (end j : ℕ) (k : Kernel) {w : Waited}
    {k' : Kernel}
    → Inv pol k
    → j < nproc
    → (k.procs j).state ≡ zombie
    → reap freevm end j k ≡ some (w, k')
    → Inv pol k'
unfolding reap
reap-Inv pol freevm end j k {w} {k'} inv lt z e =
    elim (Option-cases (Kalloc.kfree end (k.procs j).kstack k.kmem)) [
      | inl bad ↦ absurd (no_result (rw (bad, reap)))
      | inr (m, ok) ↦ elim (Option-cases (freevm (k.procs j).pgdir m)) [
        | inl bad ↦ absurd (no_result (rw (ok, reap) (rw bad)))
        | inr (m', ok') ↦
            let (k1, e1, inv1, m1, t1) = reap_ends pol freevm end j k inv lt z ok ok' in
            subst (Inv pol) (let s : k1 ≡ k' = ground (arith, e1) in s) inv1
      ]
    ]
  where
    no_result : reap freevm end j k ≡ none → ⊥
    no_result n = ground arith

-- The free slot that an exited child is to leave.
abbrev pub emptied : Proc → Proc
emptied p = record {
  sz = p.sz;
  pgdir = p.pgdir;
  kstack = 0;
  state = unused;
  pid = 0;
  parent = none;
  chan = p.chan;
  killed = false;
  switchnum = p.switchnum;
  timecreated = p.timecreated;
  timeready = p.timeready;
  timerun = p.timerun;
  timeslept = p.timeslept;
  timescheduled = p.timescheduled;
  priority = p.priority;
}

module _ (freevm : ℕ → Kmem → Option Kmem) (end j : ℕ) (k : Kernel) (pages table : List ℕ) where
  -- From a state with the invariant, for a ZOMBIE whose stack is a page that is not free, and
  -- where `freevm` gives the pages of its page table back, which are neither the stack nor free:
  -- reaping returns the child's pid and times; its slot is UNUSED, without pid, parent, stack
  -- and kill mark; the page table's pages and the stack are on the free list before the pages
  -- that were there; no other slot changes and the invariant is kept.
  pub reap_lem :
      (pol : Policy)
      → Inv pol k
      → j < nproc
      → (k.procs j).state ≡ zombie
      → 0 < end
      → IsFree k.kmem pages
      → bad_page end (k.procs j).kstack ≡ false
      → count (k.procs j).kstack pages ≡ 0
      → ((p : ℕ) → count p table ≢ 0 → count p ((k.procs j).kstack ∷ pages) ≡ 0)
      → ((m : Kmem) (ps : List ℕ)
          → IsFree m ps
          → ((p : ℕ) → count p table ≢ 0 → count p ps ≡ 0)
          → (m' : Kmem) × (freevm (k.procs j).pgdir m ≡ some m') × IsFree m' (table ++ ps))
      → (k' : Kernel) × (reap freevm end j k
          ≡ some (
            reaped (k.procs j).pid (k.procs j).timerun (k.procs j).timeready (k.procs j).timeslept,
            k',
          ))
        × Inv pol k'
        × IsFree k'.kmem (table ++ ((k.procs j).kstack ∷ pages))
        × (k'.procs ≡ update k.procs j (emptied (k.procs j)))
  reap_lem pol inv lt z pos f good fresh apart gives =
      let (m, e, f') = kfree-accepts end (k.procs j).kstack k.kmem pages pos f fresh good in
      let (m', e', f'') = gives m ((k.procs j).kstack ∷ pages) f' apart in
      let (k', ends, inv', mem, procs) = reap_ends pol freevm end j k inv lt z e e' in
      (
        k',
        ends,
        inv',
        subst (λ t. IsFree t (table ++ ((k.procs j).kstack ∷ pages))) (sym mem) f'',
        procs,
      )
