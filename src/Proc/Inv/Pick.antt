-- ===== src/Proc/Inv/Pick.antt =====
-- The scheduler's choice from the multilevel queue: the first process of the highest level that
-- has one.
use operating_system_assignm.Prelude.{
  ℕ, zero, suc, ◌+◌, ◌-◌, ◌≤◌, ◌<◌, ◌≡◌, refl, arith, true, false, update, dec_lt, ℕ_discrete,
  Option, none, some, List, [], ◌∷◌,
}
use mathlib.Core.Path.{subst, sym}
use operating_system_assignm.Fcfs.{nproc}
use operating_system_assignm.Mlq
use operating_system_assignm.Mlq.{MultiQueue, numpr}
use operating_system_assignm.Mlq.Level
use operating_system_assignm.Mlq.Level.{
  Ring, contents, is_empty, Popped, empty, first, pop-Popped, pop-IsValid,
}
use operating_system_assignm.Proc.Kernel.{Proc, runnable, state_eq}
use operating_system_assignm.Proc.Schedule.{pick_level}
use operating_system_assignm.Proc.Inv.Defs.{is_ready, is_live, MlqInv}

-- What a walk over the levels `lo`, …, `hi - 1` ends with.
data Walk (m : MultiQueue) (lo hi : ℕ) (out : Option (Option ℕ × MultiQueue)) : Type 0 where
  all_empty :
      ((l : ℕ) → lo ≤ l → l < hi → contents (m l) ≡ []) → out ≡ some (none, m) → Walk m lo hi out
  taken :
      (l i : ℕ) (rest : List ℕ) (r : Ring)
      → lo ≤ l
      → l < hi
      → ((l' : ℕ) → lo ≤ l' → l' < l → contents (m l') ≡ [])
      → contents (m l) ≡ i ∷ rest
      → out ≡ some (some i, update m l r)
      → contents r ≡ rest
      → Level.IsValid r
      → Walk m lo hi out

-- One round of the walk.
level_empty :
    (n l : ℕ) (m : MultiQueue)
    → l < numpr
    → Level.pop (m l) ≡ (none, m l)
    → pick_level (suc n) (suc l) m ≡ pick_level n (suc l + 1) m
unfolding pick_level Mlq.isempty is_empty Level.pop
level_empty n l m lt e = ground arith

level_taken :
    (n l i : ℕ) (m : MultiQueue)
    → l < numpr
    → (Level.pop (m l)).0 ≡ some i
    → pick_level (suc n) (suc l) m ≡ some (some i, update m l (Level.pop (m l)).1)
unfolding pick_level Mlq.isempty Mlq.deque is_empty Level.pop
level_taken n l i m lt e = ground arith

-- An empty level above does not change the choice.
Walk-below :
    (m : MultiQueue) (l hi : ℕ) (out : Option (Option ℕ × MultiQueue))
    → contents (m l) ≡ []
    → Walk m (l + 1) hi out
    → Walk m l hi out
Walk-below m l hi out none_here (all_empty all e) =
    all_empty
      (λ j a b. elim (ℕ_discrete j l) [
        | yes here ↦ ground arith
        | no below ↦ all j (omega arith) b
      ])
      e
Walk-below m l hi out none_here (taken t i rest r a b before c e d v) =
    taken t i rest r (omega arith) b
      (λ j x y. elim (ℕ_discrete j l) [
        | yes here ↦ ground arith
        | no below ↦ before j (omega arith) y
      ])
      c e d v

walk :
    (n l : ℕ) (m : MultiQueue)
    → l + n ≡ numpr
    → ((j : ℕ) → j < numpr → Level.IsValid (m j))
    → Walk m l numpr (pick_level n (suc l) m)
unfolding pick_level
walk zero l m e v = all_empty (λ j a b. absurd (omega arith)) refl
walk (suc n) l m e v = elim (pop-Popped (v l (omega arith))) [
  | empty none_here no_pop ↦
      Walk-below m l numpr _ none_here
        (subst (λ o. Walk m (l + 1) numpr o) (next_round no_pop) (walk n (l + 1) m (omega arith) v))
  | first i rest c out left ↦
      taken l i rest (Level.pop (m l)).1 (omega arith) (omega arith) (λ j a b. absurd (omega arith))
        c (level_taken n l i m (omega arith) out) left (pop-IsValid (v l (omega arith)))
]
  where
    next_round :
        Level.pop (m l) ≡ (none, m l) → pick_level n (suc (l + 1)) m ≡ pick_level (suc n) (suc l) m
    next_round p =
        let s : suc (l + 1) ≡ suc l + 1 = omega arith in
        rw s (sym (level_empty n l m (omega arith) p))

-- A queued process is ready, at the level of its priority; a ready process is queued there.
pub data Picked (procs : ℕ → Proc) (m : MultiQueue) : Type 0 where
  idle :
      ((x : ℕ) → is_ready procs x ≡ false) → pick_level numpr 1 m ≡ some (none, m) → Picked procs m
  next :
      (i : ℕ) (rest : List ℕ) (m' : MultiQueue)
      → pick_level numpr 1 m ≡ some (some i, m')
      → i < nproc
      → (procs i).state ≡ runnable
      → contents (m ((procs i).priority - 1)) ≡ i ∷ rest
      → contents (m' ((procs i).priority - 1)) ≡ rest
      → ((x : ℕ) → is_ready procs x ≡ true → (procs i).priority ≤ (procs x).priority)
      → ((p : Proc)
          → state_eq p.state runnable ≡ false
          → (is_live p.state ≡ true → (1 ≤ p.priority) × (p.priority ≤ numpr))
          → MlqInv (update procs i p) m')
      → Picked procs m

pub pick-Picked : {procs : ℕ → Proc} {m : MultiQueue} → MlqInv procs m → Picked procs m
pick-Picked {procs} {m} inv = elim (walk numpr 0 m (omega arith) inv.levels) [
  | all_empty all e ↦
      idle
        (λ x. elim (dec_lt x nproc) [
          | no out ↦ ground arith
          | yes lt ↦ ground (
            arith,
            inv.priorities x lt,
            all ((procs x).priority - 1),
            inv.members x ((procs x).priority - 1),
          )
        ])
        e
  | taken l i rest r a b before c e d v ↦
      next i rest (update m l r) e (ground (arith, inv.members i l b, c))
        (ground (arith, inv.members i l b, c)) (ground (arith, inv.members i l b, c))
        (ground (arith, inv.members i l b, c))
        (λ x ready. ground (
          arith,
          inv.members i l b,
          c,
          before ((procs x).priority - 1),
          inv.members x ((procs x).priority - 1),
          inv.priorities x,
          inv.priorities i,
        ))
        (λ p quiet range. record {
          levels = λ j h. ground (arith, inv.levels j h);
          members = λ x j h.
              ground (arith, inv.members x j h, inv.members i j h, inv.members i l b, c, d);
          priorities = λ x h live. ground (arith, inv.priorities x h);
        })
]
