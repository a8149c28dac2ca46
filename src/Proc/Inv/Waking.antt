-- ===== src/Proc/Inv/Waking.antt =====
-- sched, yield, sleep, wakeup1 against the invariant: the table after each.
use mathlib.Core.Path.{subst, fun_ext}
use operating_system_assignm.Prelude.{
  ℕ, zero, suc, ◌+◌, ◌≤◌, ◌<◌, ◌≡◌, refl, ap, arith, Bool, false, ◌&&◌, ltb, leb, if◌then◌else◌,
  update, some, Option, Bool-cases, inl, inr,
}
use operating_system_assignm.Fcfs.{nproc}
use operating_system_assignm.Proc.Kernel.{
  Policy, default, fcfs, mlq, dmlq, Proc, Kernel, Chan, sleeping, runnable, running, set_proc,
  state_eq, chan_eq,
}
use operating_system_assignm.Proc.Wake.{sched, yield, sleep, wake_slot, wakeup1_loop, wakeup1}
use operating_system_assignm.Proc.Inv.Defs.{Inv}
use operating_system_assignm.Proc.Inv.Steps.{
  Done, Done-then, IsQuiet, set_proc-Inv, live-InRange, admit-Done, roused, rouse-Done,
}

pub set_proc-Done :
    (pol : Policy) (k : Kernel) (i : ℕ) (p : Proc)
    → Inv pol k
    → i < nproc
    → IsQuiet pol k.procs i p
    → Done pol k (update k.procs i p) (some (set_proc k i p))
set_proc-Done pol k i p inv lt q = record {
  after = set_proc k i p;
  ends = refl;
  inv = set_proc-Inv pol k i p inv lt q;
  table = refl;
  same_nextpid = refl;
  same_ticks = refl;
  same_initproc = refl;
  same_kmem = refl;
}

abbrev pub switched : Proc → Proc
switched p = record p { switchnum = p.switchnum + 1 }

pub sched-Done :
    (pol : Policy) (k : Kernel) (i : ℕ)
    → Inv pol k
    → i < nproc
    → state_eq (k.procs i).state running ≡ false
    → Done pol k (update k.procs i (switched (k.procs i))) (sched i k)
unfolding sched
sched-Done pol k i inv lt e = rw e (
    set_proc-Done pol k i (switched (k.procs i)) inv lt (record {
      ready = refl;
      created = λ r. refl;
      level = λ r. refl;
      range = λ live. live-InRange pol k i inv lt live;
    }))

-- The table where only slot `i` changed, twice.
pub twice :
    (pol : Policy) (k k' : Kernel) (i : ℕ) (p : Proc) (f : Proc → Proc) {out : Option Kernel}
    → k'.procs ≡ update k.procs i p
    → Done pol k' (update k'.procs i (f (k'.procs i))) out
    → Done pol k' (update k.procs i (f p)) out
twice pol k k' i p f {out} e d =
    subst (λ t. Done pol k' t out)
      (fun_ext λ j. ground (arith, ap (λ (t : ℕ → Proc). t j) e, ap (λ (t : ℕ → Proc). t i) e)) d

-- From a state with the invariant, `yield` of a running process does not fault: the process is
-- RUNNABLE and its switch is counted, no other slot changes, and the invariant is kept.
pub yield-Done :
    (pol : Policy) (k : Kernel) (i : ℕ)
    → Inv pol k
    → i < nproc
    → (k.procs i).state ≡ running
    → Done pol k
        (update k.procs i (switched (record (k.procs i) { state = runnable })))
        (yield pol i k)
unfolding yield
yield-Done pol k i inv lt e =
    Done-then pol
      (admit-Done pol k i (record (k.procs i) { state = runnable }) inv lt (ground arith) refl
        (live-InRange pol k i inv lt (ground arith)))
      (sched i)
      (λ k' inv' t.
        twice pol k k' i (record (k.procs i) { state = runnable }) switched t
          (sched-Done pol k' i inv' lt (ground (arith, ap (λ (t : ℕ → Proc). t i) t))))

-- From a state with the invariant, `sleep` of a running process does not fault: the process
-- sleeps on the channel and its switch is counted, no other slot changes, and the invariant is
-- kept.
pub sleep-Done :
    (pol : Policy) (k : Kernel) (i : ℕ) (chan : Chan)
    → Inv pol k
    → i < nproc
    → (k.procs i).state ≡ running
    → Done pol k
        (update k.procs i (switched (record (k.procs i) { chan = chan; state = sleeping })))
        (sleep chan i k)
unfolding sleep
sleep-Done pol k i chan inv lt e =
    let p : Proc = record (k.procs i) { chan = chan; state = sleeping } in
    Done-then pol
      (set_proc-Done pol k i p inv lt (record {
        ready = ground arith;
        created = λ r. refl;
        level = λ r. refl;
        range = λ live. live-InRange pol k i inv lt (ground arith);
      }))
      (sched i)
      (λ k' inv' t.
        twice pol k k' i p switched t
          (sched-Done pol k' i inv' lt (ground (arith, ap (λ (t : ℕ → Proc). t i) t))))

-- What `wakeup1` does to a slot.
abbrev pub is_waiting : Chan → Proc → Bool
is_waiting chan p = state_eq p.state sleeping && chan_eq p.chan chan

abbrev pub woken : Policy → Chan → Proc → Proc
woken pol chan p = if is_waiting chan p then roused pol p else p

roused_ready : (pol : Policy) (chan : Chan) (p : Proc) → is_waiting chan (roused pol p) ≡ false
roused_ready default chan p = refl
roused_ready fcfs chan p = refl
roused_ready mlq chan p = refl
roused_ready dmlq chan p = refl

pub unchanged :
    (pol : Policy) (k : Kernel) (i : ℕ) (p : Proc)
    → Inv pol k
    → p ≡ k.procs i
    → Done pol k (update k.procs i p) (some k)
unchanged pol k i p inv e = record {
  after = k;
  ends = refl;
  inv = inv;
  table = fun_ext λ j. ground arith;
  same_nextpid = refl;
  same_ticks = refl;
  same_initproc = refl;
  same_kmem = refl;
}

wake_slot-Done :
    (pol : Policy) (chan : Chan) (k : Kernel) (i : ℕ)
    → Inv pol k
    → i < nproc
    → Done pol k (update k.procs i (woken pol chan (k.procs i))) (wake_slot pol chan i k)
unfolding wake_slot
wake_slot-Done pol chan k i inv lt = elim (Bool-cases (is_waiting chan (k.procs i))) [
  | inl waits ↦ rw waits (rouse-Done pol k i inv lt (ground arith))
  | inr stays ↦ rw stays (unchanged pol k i (k.procs i) inv refl)
]

-- The table after the loop over `n` slots from `i`.
abbrev pub woken_table : Policy → Chan → ℕ → ℕ → (ℕ → Proc) → ℕ → Proc
woken_table pol chan n i procs j =
    if leb i j && ltb j (i + n) then woken pol chan (procs j) else procs j

wakeup1_loop-Done :
    (pol : Policy) (chan : Chan) (n i : ℕ) (k : Kernel)
    → Inv pol k
    → i + n ≤ nproc
    → Done pol k (woken_table pol chan n i k.procs) (wakeup1_loop pol chan n i k)
unfolding wakeup1_loop
wakeup1_loop-Done pol chan zero i k inv le =
    subst (λ t. Done pol k t (some k)) (fun_ext λ j. ground arith)
      (unchanged pol k i (k.procs i) inv refl)
wakeup1_loop-Done pol chan (suc n) i k inv le =
    Done-then pol (wake_slot-Done pol chan k i inv (omega arith)) (wakeup1_loop pol chan n (i + 1))
      (λ k' inv' t.
        subst (λ t'. Done pol k' t' (wakeup1_loop pol chan n (i + 1) k'))
          (fun_ext λ j. ground (arith, ap (λ (f : ℕ → Proc). f j) t))
          (wakeup1_loop-Done pol chan n (i + 1) k' inv' (omega arith)))

-- From a state with the invariant `wakeup1` ends without a fault: it makes RUNNABLE exactly the
-- processes that sleep on the channel, under DMLQ with the highest priority, changes no other
-- slot, and keeps the invariant.
pub wakeup1-Done :
    (pol : Policy) (chan : Chan) (k : Kernel)
    → Inv pol k
    → Done pol k (woken_table pol chan nproc 0 k.procs) (wakeup1 pol chan k)
unfolding wakeup1
wakeup1-Done pol chan k inv = wakeup1_loop-Done pol chan nproc 0 k inv (omega arith)
