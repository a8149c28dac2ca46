-- ===== src/Proc/Inv/Exiting.antt =====
-- exit: the zombie, its orphans, and the invariant.

use operating_system_assignm.Prelude.{
  ℕ, zero, suc, ◌+◌, ◌<◌, ◌≡◌, ◌≢◌, refl, ap, ◌∙◌, arith, update, none, some, Option, if◌then◌else◌,
  ℕ_discrete, Bool-cases, Option-cases, ==-ne, ==-eq, inl, inr,
}
use operating_system_assignm.Fcfs.{nproc}
use operating_system_assignm.Proc.Kernel.{
  Policy, default, fcfs, mlq, dmlq, Proc, Kernel, Chan, at_proc, as_chan, running, zombie, set_proc,
  state_eq,
}
use operating_system_assignm.Proc.Wake.{wakeup1, sched}
use operating_system_assignm.Proc.Life.{reparent_slot, reparent_loop, exit}
use operating_system_assignm.Proc.Inv.Defs.{Inv}
use operating_system_assignm.Proc.Inv.Steps.{Done, Done-then, set_proc-Inv, live-InRange}
use operating_system_assignm.Proc.Inv.Waking.{
  set_proc-Done, sched-Done, wakeup1-Done, woken, woken_table, switched, twice,
}

-- Waking changes neither parents nor running processes.
woken-parent : (pol : Policy) (chan : Chan) (p : Proc) → (woken pol chan p).parent ≡ p.parent
woken-parent default chan p = ground arith
woken-parent fcfs chan p = ground arith
woken-parent mlq chan p = ground arith
woken-parent dmlq chan p = ground arith

woken-running : (pol : Policy) (chan : Chan) (p : Proc) → p.state ≡ running → woken pol chan p ≡ p
woken-running pol chan p e = ground arith

-- The slots below `j` have no parent `i`, and `i` still runs.
record Reparented (pol : Policy) (i j : ℕ) (k : Kernel) (out : Option Kernel) : Type 0 where
  after : Kernel
  ends : out ≡ some after
  inv : Inv pol after
  runs : (after.procs i).state ≡ running
  init : after.initproc ≡ k.initproc
  orphans : (l : ℕ) → l < j → (after.procs l).parent ≢ some i

module _ (pol : Policy) (i : ℕ) where
  wakeup1-Reparented :
      (chan : Chan) (j : ℕ) (k : Kernel)
      → Inv pol k
      → (k.procs i).state ≡ running
      → ((l : ℕ) → l < j → (k.procs l).parent ≢ some i)
      → Reparented pol i j k (wakeup1 pol chan k)
  wakeup1-Reparented chan j k inv runs orphans = record {
    after = d.after;
    ends = d.ends;
    inv = d.inv;
    runs = ground (arith, entry i, woken-running pol chan (k.procs i));
    init = d.same_initproc;
    orphans = λ l lt. ground (arith, orphans l lt, entry l, woken-parent pol chan (k.procs l));
  }
    where
      d : Done pol k (woken_table pol chan nproc 0 k.procs) (wakeup1 pol chan k)
      d = wakeup1-Done pol chan k inv

      entry : (l : ℕ) → d.after.procs l ≡ woken_table pol chan nproc 0 k.procs l
      entry l = ap (λ (t : ℕ → Proc). t l) d.table

  adopted_Inv :
      (j : ℕ) (k : Kernel)
      → Inv pol k
      → j < nproc
      → Inv pol (set_proc k j (record (k.procs j) { parent = some k.initproc }))
  adopted_Inv j k inv lt =
      set_proc-Inv pol k j (record (k.procs j) { parent = some k.initproc }) inv lt
        (record {
          ready = refl;
          created = λ r. refl;
          level = λ r. refl;
          range = λ live. live-InRange pol k j inv lt live;
        })

  stays :
      (j : ℕ) (k : Kernel)
      → Inv pol k
      → (k.procs i).state ≡ running
      → ((l : ℕ) → l < j → (k.procs l).parent ≢ some i)
      → (k.procs j).parent ≢ some i
      → Reparented pol i (j + 1) k (some k)
  stays j k inv runs orphans last = record {
    after = k;
    ends = refl;
    inv = inv;
    runs = runs;
    init = refl;
    orphans = λ l lt. elim (ℕ_discrete l j) [
      | yes same ↦ rw same last
      | no below ↦ orphans l (omega arith)
    ];
  }

  adopted :
      (j : ℕ) (k : Kernel)
      → Inv pol k
      → i ≢ k.initproc
      → j < nproc
      → (k.procs i).state ≡ running
      → ((l : ℕ) → l < j → (k.procs l).parent ≢ some i)
      → let k1 = set_proc k j (record (k.procs j) { parent = some k.initproc }) in
        Reparented pol i (j + 1) k (
          if state_eq (k.procs j).state zombie
          then wakeup1 pol (at_proc k.initproc) k1
          else some k1)
  adopted j k inv ne lt runs orphans = elim (Bool-cases (state_eq (k.procs j).state zombie)) [
    | inr no_zombie ↦ rw no_zombie (record {
      after = k1;
      ends = refl;
      inv = adopted_Inv j k inv lt;
      runs = k1_runs;
      init = refl;
      orphans = k1_orphans;
    })
    | inl is_zombie ↦
        let r : Reparented pol i (j + 1) k1 (wakeup1 pol (at_proc k.initproc) k1) =
          wakeup1-Reparented (at_proc k.initproc) (j + 1) k1 (adopted_Inv j k inv lt) k1_runs
            k1_orphans in
        rw is_zombie (record {
          after = r.after;
          ends = r.ends;
          inv = r.inv;
          runs = r.runs;
          init = r.init;
          orphans = r.orphans;
        })
  ]
    where
      k1 : Kernel
      k1 = set_proc k j (record (k.procs j) { parent = some k.initproc })

      k1_runs : (k1.procs i).state ≡ running
      k1_runs = ground arith

      k1_orphans : (l : ℕ) → l < j + 1 → (k1.procs l).parent ≢ some i
      k1_orphans l q = ground (arith, orphans l)

  reparent_slot-Reparented :
      (j : ℕ) (k : Kernel)
      → Inv pol k
      → i ≢ k.initproc
      → j < nproc
      → (k.procs i).state ≡ running
      → ((l : ℕ) → l < j → (k.procs l).parent ≢ some i)
      → Reparented pol i (j + 1) k (reparent_slot pol i j k)
  unfolding reparent_slot
  reparent_slot-Reparented j k inv ne lt runs orphans = elim (Option-cases (k.procs j).parent) [
    | inl orphan ↦ rw (orphan, reparent_slot) (stays j k inv runs orphans (λ e. cc))
    | inr (q, has) ↦ elim (ℕ_discrete q i) [
      | no other ↦
          rw (has, reparent_slot)
            (rw (==-ne q i other) (stays j k inv runs orphans (λ e. ground arith)))
      | yes mine ↦
          rw (has, reparent_slot) (rw (==-eq q i mine) (adopted j k inv ne lt runs orphans))
    ]
  ]

  reparent_loop-Reparented :
      (n j : ℕ) (k : Kernel)
      → Inv pol k
      → i ≢ k.initproc
      → j + n ≡ nproc
      → (k.procs i).state ≡ running
      → ((l : ℕ) → l < j → (k.procs l).parent ≢ some i)
      → Reparented pol i nproc k (reparent_loop pol i n j k)
  unfolding reparent_loop
  reparent_loop-Reparented zero j k inv ne e runs orphans = record {
    after = k;
    ends = refl;
    inv = inv;
    runs = runs;
    init = refl;
    orphans = λ l lt. orphans l (omega arith);
  }
  reparent_loop-Reparented (suc n) j k inv ne e runs orphans =
      let r : Reparented pol i (j + 1) k (reparent_slot pol i j k) =
        reparent_slot-Reparented j k inv ne (omega arith) runs orphans in
      let ne' : i ≢ r.after.initproc = λ q. ne (q ∙ r.init) in
      let r' : Reparented pol i nproc r.after (reparent_loop pol i n (j + 1) r.after) =
        reparent_loop-Reparented n (j + 1) r.after r.inv ne' (omega arith) r.runs r.orphans in
      record {
        after = r'.after;
        ends = rw (r.ends, reparent_loop) r'.ends;
        inv = r'.inv;
        runs = r'.runs;
        init = r'.init ∙ r.init;
        orphans = r'.orphans;
      }

  -- From a state with the invariant `exit` of a running process other than init does not fault
  -- and keeps the invariant; it leaves a ZOMBIE that is no process's parent.
  pub exit_lem :
      (k : Kernel)
      → Inv pol k
      → i < nproc
      → (k.procs i).state ≡ running
      → i ≢ k.initproc
      → (k' : Kernel) × (exit pol i k ≡ some k')
        × Inv pol k'
        × ((k'.procs i).state ≡ zombie)
        × ((j : ℕ) → j < nproc → (k'.procs j).parent ≢ some i)
  unfolding exit
  exit_lem k inv lt runs ne = (
    d.after,
    rw (==-ne i k.initproc ne) (rw (w.ends, exit) (rw (r.ends, exit) d.ends)),
    d.inv,
    ground (arith, ap (λ (t : ℕ → Proc). t i) d.table),
    λ j l. ground (arith, ap (λ (t : ℕ → Proc). t j) d.table, r.orphans j l),
  )
    where
      w : Reparented pol i 0 k (wakeup1 pol (as_chan (k.procs i).parent) k)
      w = wakeup1-Reparented (as_chan (k.procs i).parent) 0 k inv runs (λ l q. absurd (omega arith))

      r : Reparented pol i nproc w.after (reparent_loop pol i nproc 0 w.after)
      r =
          reparent_loop-Reparented nproc 0 w.after w.inv (λ q. ne (q ∙ w.init)) refl w.runs
            (λ l q. absurd (omega arith))

      p : Proc
      p = record (r.after.procs i) { state = zombie }

      d : Done pol r.after (update r.after.procs i (switched p)) (sched i (set_proc r.after i p))
      d =
          Done-then pol
            (set_proc-Done pol r.after i p r.inv lt (record {
              ready = ground (arith, r.runs);
              created = λ q. refl;
              level = λ q. refl;
              range = λ live. cc;
            }))
            (sched i)
            (λ k' inv' t.
              twice pol r.after k' i p switched t
                (sched-Done pol k' i inv' lt (ground (arith, ap (λ (t : ℕ → Proc). t i) t))))

  -- Init's exit is a panic.
  pub exit-init : (k : Kernel) → i ≡ k.initproc → exit pol i k ≡ none
  unfolding exit
  exit-init k e = rw (==-eq i k.initproc e)
