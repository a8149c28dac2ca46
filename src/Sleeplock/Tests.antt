-- ===== src/Sleeplock/Tests.antt =====
-- Two processes and a free lock.
use operating_system_assignm.Prelude.{ℕ, ◌≡◌, refl, false, List, [], ◌∷◌}
use operating_system_assignm.Sleeplock.{
  outside, asleep, inside, Machine, acquiresleep, releasesleep, step_at, run,
}
use operating_system_assignm.Sleeplock.Holder.{IsHeld, free, run-IsHeld}

abbrev idle : Machine
idle = record { lock = record { locked = false; pid = 0 }; phase = λ p. outside }

idle-IsHeld : IsHeld idle
idle-IsHeld = free refl (λ q. (refl, refl))

-- Process 4 sleeps while process 3 has the lock, and gets it afterwards.
abbrev order : List ℕ
order = 3 ∷ 3 ∷ 4 ∷ 4 ∷ []

sleeps : (run order idle).phase 4 ≡ asleep
unfolding run step_at acquiresleep
sleeps = refl

gets_it : (run (3 ∷ 3 ∷ 4 ∷ 4 ∷ 3 ∷ 4 ∷ []) idle).phase 4 ≡ inside
unfolding run step_at acquiresleep releasesleep
gets_it = refl

run-IsHeld_example : IsHeld (run order idle)
run-IsHeld_example = run-IsHeld order idle idle-IsHeld
