-- ===== src/Sleeplock/Holder.antt =====
-- The holder of a sleep lock, whatever the order of the steps.
use mathlib.Core.Path.{subst}
use operating_system_assignm.Prelude.{
  ℕ, ◌≡◌, ◌≢◌, refl, sym, ap, ◌∙◌, arith, Bool, true, false, List, [], ◌∷◌, update, update_here,
  update_there, update_same, ℕ_discrete,
}
use operating_system_assignm.Sleeplock.{
  Phase, outside, trying, asleep, inside, Machine, woken, acquiresleep, releasesleep, holdingsleep,
  step_at, run,
}

abbrev pub is_inside : Phase → Bool
is_inside inside = true
is_inside _ = false

abbrev pub is_asleep : Phase → Bool
is_asleep asleep = true
is_asleep _ = false

-- Who holds the lock.
pub data IsHeld (s : Machine) : Type 0 where
  free :
      s.lock.locked ≡ false
      → ((q : ℕ) → (is_inside (s.phase q) ≡ false) × (is_asleep (s.phase q) ≡ false))
      → IsHeld s
  held :
      (p : ℕ)
      → s.lock.locked ≡ true
      → s.lock.pid ≡ p
      → is_inside (s.phase p) ≡ true
      → ((q : ℕ) → q ≢ p → is_inside (s.phase q) ≡ false)
      → IsHeld s

-- A process that starts a call.
outside-IsHeld :
    (p : ℕ) (s : Machine) → s.phase p ≡ outside → IsHeld s → IsHeld (step_at outside p s)
unfolding step_at
outside-IsHeld p s here (free unlocked nobody) = free unlocked (λ q. (
  update_same is_inside s.phase p trying (sym (ap is_inside here)) q ∙ (nobody q).0,
  update_same is_asleep s.phase p trying (sym (ap is_asleep here)) q ∙ (nobody q).1,
))
outside-IsHeld p s here (held h locked pid has others) =
    held h locked pid (update_same is_inside s.phase p trying (sym (ap is_inside here)) h ∙ has)
      (λ q ne. update_same is_inside s.phase p trying (sym (ap is_inside here)) q ∙ others q ne)

taken :
    (p : ℕ) (s : Machine)
    → s.lock.locked ≡ false
    → acquiresleep p s
      ≡ record { lock = record { locked = true; pid = p }; phase = update s.phase p inside }
unfolding acquiresleep
taken p s unlocked = rw (acquiresleep, unlocked) refl

waits :
    (p : ℕ) (s : Machine)
    → s.lock.locked ≡ true
    → acquiresleep p s ≡ record s { phase = update s.phase p asleep }
unfolding acquiresleep
waits p s locked = rw (acquiresleep, locked) refl

trying-IsHeld : (p : ℕ) (s : Machine) → s.phase p ≡ trying → IsHeld s → IsHeld (step_at trying p s)
unfolding step_at
trying-IsHeld p s here (free unlocked nobody) = rw (taken p s unlocked) (
    held p refl refl (ap is_inside (update_here s.phase p p inside refl))
      (λ q ne. ap is_inside (update_there s.phase p q inside (λ e. ne (sym e))) ∙ (nobody q).0))
trying-IsHeld p s here (held h locked pid has others) = rw (waits p s locked) (
    held h locked pid (update_same is_inside s.phase p asleep (sym (ap is_inside here)) h ∙ has)
      (λ q ne. update_same is_inside s.phase p asleep (sym (ap is_inside here)) q ∙ others q ne))

woken_awake : (x : Phase) → is_asleep (woken x) ≡ false
woken_awake outside = refl
woken_awake trying = refl
woken_awake asleep = refl
woken_awake inside = refl

woken-is_inside : (x : Phase) → is_inside (woken x) ≡ is_inside x
woken-is_inside outside = refl
woken-is_inside trying = refl
woken-is_inside asleep = refl
woken-is_inside inside = refl

inside-IsHeld : (p : ℕ) (s : Machine) → s.phase p ≡ inside → IsHeld s → IsHeld (step_at inside p s)
unfolding step_at releasesleep
inside-IsHeld p s here (free unlocked nobody) =
    absurd (ground (arith, (nobody p).0, ap is_inside here))
inside-IsHeld p s here (held h locked pid has others) = free refl (λ q. (
  woken-is_inside (update s.phase p outside q) ∙ (elim (ℕ_discrete p q) [
    | yes e ↦ ap is_inside (update_here s.phase p q outside e)
    | no ne ↦ ap is_inside (update_there s.phase p q outside ne) ∙ others q (λ e. ne (mine ∙ sym e))
  ]),
  woken_awake (update s.phase p outside q),
))
  where
    mine : p ≡ h
    mine = elim (ℕ_discrete p h) [
      | yes e ↦ e
      | no ne ↦ absurd (ground (arith, others p ne, ap is_inside here))
    ]

step_at-IsHeld :
    (x : Phase) (p : ℕ) (s : Machine) → s.phase p ≡ x → IsHeld s → IsHeld (step_at x p s)
unfolding step_at
step_at-IsHeld outside p s here h = outside-IsHeld p s here h
step_at-IsHeld trying p s here h = trying-IsHeld p s here h
step_at-IsHeld asleep p s here h = h
step_at-IsHeld inside p s here h = inside-IsHeld p s here h

-- From a state in order, whatever the order in which the processes step: the lock is free, and
-- then no process is between acquiresleep and releasesleep and none is asleep on it, so that no
-- wakeup was lost; or the process whose pid it has, and no other, is between the two.
pub run-IsHeld : (order : List ℕ) (s : Machine) → IsHeld s → IsHeld (run order s)
unfolding run
run-IsHeld [] s h = h
run-IsHeld (p ∷ rest) s h =
    run-IsHeld rest (step_at (s.phase p) p s) (step_at-IsHeld (s.phase p) p s refl h)

pub holdingsleep_lem :
    (p : ℕ) (s : Machine) → IsHeld s → holdingsleep p s.lock ≡ is_inside (s.phase p)
unfolding holdingsleep
holdingsleep_lem p s (free unlocked nobody) = ground (arith, unlocked, (nobody p).0)
holdingsleep_lem p s (held h locked pid has others) = elim (ℕ_discrete h p) [
  | yes e ↦
      let mine : is_inside (s.phase p) ≡ true = subst (λ t. is_inside (s.phase t) ≡ true) e has in
      ground (arith, locked, pid, e, mine)
  | no ne ↦ ground (arith, locked, pid, ne, others p (λ e. ne (sym e)))
]
