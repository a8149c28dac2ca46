-- ===== src/Spinlock.antt =====
-- Spin locks of Assignment1/xv6-public/spinlock.c on several CPUs. `none` is a panic. The call
-- stack that getcallerpcs records is not part of the state.
pub mod Nesting
pub mod Owner
pub mod Steps
pub mod Tests
use operating_system_assignm.Prelude.{
  ℕ, zero, suc, ◌+◌, ◌-◌, Bool, true, false, Option, none, some, ◌==◌, ◌&&◌, not, if◌then◌else◌,
  update, List, [], ◌∷◌,
}

-- The fields of `struct cpu` for interrupts, and the CPU's interrupt flag.
pub record Cpu : Type 0 where
  pub ncli : ℕ
  pub intena : Bool
  pub interrupts : Bool

-- `struct spinlock`; `cpu` is `none` for the null pointer.
pub record Spinlock : Type 0 where
  pub locked : Bool
  pub cpu : Option ℕ

-- `ncli` is not negative: the decrement of 0 is the panic.
unfoldable pub pushcli : Cpu → Cpu
pushcli c = record {
  ncli = c.ncli + 1;
  intena = if c.ncli == 0 then c.interrupts else c.intena;
  interrupts = false;
}

unfoldable pub popcli : Cpu → Option Cpu
popcli c =
    let n = c.ncli - 1 in
    if c.interrupts
    then none
    else if c.ncli == 0
    then none
    else some (record c { ncli = n; interrupts = n == 0 && c.intena })

abbrev pub owns : ℕ → Option ℕ → Bool
owns i none = false
owns i (some j) = i == j

-- On CPU `i`.
unfoldable pub holding : ℕ → Spinlock → Cpu → Option (Bool × Cpu)
holding i lk c = elim (popcli (pushcli c)) [
  | none ↦ none
  | some c' ↦ some (lk.locked && owns i lk.cpu, c')
]

-- `acquire` before its loop.
unfoldable pub acquire_begin : ℕ → Spinlock → Cpu → Option Cpu
acquire_begin i lk c = elim (holding i lk (pushcli c)) [
  | none ↦ none
  | some (r, c') ↦ if r then none else some c'
]

-- `release` up to the reset of `cpu`.
unfoldable pub release_begin : ℕ → Spinlock → Cpu → Option (Spinlock × Cpu)
release_begin i lk c = elim (holding i lk c) [
  | none ↦ none
  | some (r, c') ↦ if r then some (record lk { cpu = none }, c') else none
]

-- Where a CPU is: in no call, in the loop of `acquire`, behind it, between `acquire` and `release`,
-- or before the last two statements of `release`.
pub data Phase : Type 0 where
  outside spinning won inside leaving : Phase

pub record Machine : Type 0 where
  pub lock : Spinlock
  pub cpus : ℕ → Cpu
  pub phase : ℕ → Phase

abbrev pub go : ℕ → Phase → Spinlock → Cpu → Machine → Machine
go i p lk c s = record { lock = lk; cpus = update s.cpus i c; phase = update s.phase i p }

-- One step of CPU `i`. The loop's `xchg` is atomic, and so is each other part on its CPU's view.
unfoldable pub step_at : Phase → ℕ → Machine → Option Machine
step_at outside i s = elim (acquire_begin i s.lock (s.cpus i)) [
  | none ↦ none
  | some c ↦ some (go i spinning s.lock c s)
]
step_at spinning i s =
    let next = if s.lock.locked then spinning else won in
    some (go i next (record s.lock { locked = true }) (s.cpus i) s)
step_at won i s = some (go i inside (record s.lock { cpu = some i }) (s.cpus i) s)
step_at inside i s = elim (release_begin i s.lock (s.cpus i)) [
  | none ↦ none
  | some (lk, c) ↦ some (go i leaving lk c s)
]
step_at leaving i s = elim (popcli (s.cpus i)) [
  | none ↦ none
  | some c ↦ some (go i outside (record s.lock { locked = false }) c s)
]

unfoldable pub step : ℕ → Machine → Option Machine
step i s = step_at (s.phase i) i s

-- The CPUs in the order in which they step.
unfoldable pub run : List ℕ → Machine → Option Machine
run [] s = some s
run (i ∷ rest) s = elim (step i s) [ none ↦ none | some s' ↦ run rest s' ]
