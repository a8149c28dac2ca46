-- ===== src/Sleeplock.antt =====
-- Sleep locks of Assignment1/xv6-public/sleeplock.c. A process is its pid. The spin lock inside
-- makes each round one step: a process that sleeps gives it up together with going to sleep.
pub mod Holder
pub mod Tests
use operating_system_assignm.Prelude.{
  ℕ, Bool, true, false, List, [], ◌∷◌, ◌==◌, ◌&&◌, if◌then◌else◌, update,
}

-- `struct sleeplock`, less the spin lock and the name
pub record Sleeplock : Type 0 where
  pub locked : Bool
  pub pid : ℕ

-- Where a process is: in no call, before the test of the loop of `acquiresleep`, asleep on the lock,
-- or between `acquiresleep` and `releasesleep`.
pub data Phase : Type 0 where
  outside trying asleep inside : Phase

pub record Machine : Type 0 where
  pub lock : Sleeplock
  pub phase : ℕ → Phase

-- `wakeup` of the lock
abbrev pub woken : Phase → Phase
woken outside = outside
woken trying = trying
woken asleep = trying
woken inside = inside

-- A round of the loop of `acquiresleep`, and what follows the loop.
unfoldable pub acquiresleep : ℕ → Machine → Machine
acquiresleep p s =
    if s.lock.locked
    then record s { phase = update s.phase p asleep }
    else record { lock = record { locked = true; pid = p }; phase = update s.phase p inside }

unfoldable pub releasesleep : ℕ → Machine → Machine
releasesleep p s = record {
  lock = record { locked = false; pid = 0 };
  phase = λ q. woken (update s.phase p outside q);
}

unfoldable pub holdingsleep : ℕ → Sleeplock → Bool
holdingsleep p lk = lk.locked && lk.pid == p

-- One step of process `p`; one that is asleep waits for a wakeup.
unfoldable pub step_at : Phase → ℕ → Machine → Machine
step_at outside p s = record s { phase = update s.phase p trying }
step_at trying p s = acquiresleep p s
step_at asleep p s = s
step_at inside p s = releasesleep p s

-- The processes in the order in which they step.
unfoldable pub run : List ℕ → Machine → Machine
run [] s = s
run (p ∷ rest) s = run rest (step_at (s.phase p) p s)
