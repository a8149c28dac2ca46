-- ===== src/Proc/Inv/Levels.antt =====
-- The multilevel queue against the table: changing a slot, queueing it, running the next.
use operating_system_assignm.Prelude.{
  ℕ, ◌-◌, ◌≤◌, ◌<◌, ◌≡◌, arith, true, false, update, some, count-append, length, pigeonhole,
  All-of_count, [], ◌∷◌,
}
use operating_system_assignm.Fcfs.{nproc}
use operating_system_assignm.Mlq
use operating_system_assignm.Mlq.{MultiQueue, numpr}
use operating_system_assignm.Mlq.Level.{contents, push, push-IsValid, contents-push}
use operating_system_assignm.Proc.Kernel.{Proc, runnable, state_eq}
use operating_system_assignm.Proc.Inv.Defs.{is_live, MlqInv}

module _ {procs : ℕ → Proc} {m : MultiQueue} (inv : MlqInv procs m) (i : ℕ) (p : Proc) where
  open inv use {levels, members, priorities}

  pub update-MlqInv :
      state_eq p.state runnable ≡ state_eq (procs i).state runnable
      → ((procs i).state ≡ runnable → p.priority ≡ (procs i).priority)
      → (is_live p.state ≡ true → (1 ≤ p.priority) × (p.priority ≤ numpr))
      → MlqInv (update procs i p) m
  update-MlqInv same keep range = record {
    levels = levels;
    members = λ x l h. ground (arith, members x l h);
    priorities = λ x lt live. ground (arith, priorities x lt);
  }

  -- A slot that is not queued finds room.
  room :
      (l : ℕ)
      → l < numpr
      → i < nproc
      → state_eq (procs i).state runnable ≡ false
      → length (contents (m l)) < nproc
  room l h lt idle =
      pigeonhole nproc (i ∷ contents (m l))
        (lt, All-of_count nproc (contents (m l)) (λ x le. ground (arith, members x l h)))
        (λ x. ground (arith, members x l h))

  pub enque-MlqInv :
      i < nproc
      → state_eq (procs i).state runnable ≡ false
      → p.state ≡ runnable
      → 1 ≤ p.priority
      → p.priority ≤ numpr
      → (m' : MultiQueue) × (Mlq.enque p.priority i m ≡ some m') × MlqInv (update procs i p) m'
  unfolding Mlq.enque
  enque-MlqInv lt idle ready lo hi = (
    update m l (push i (m l)),
    ground arith,
    record {
      levels = λ j h. ground (arith, levels j h, push-IsValid i (levels l below));
      members = λ x j h. ground (
        arith,
        members x j h,
        members i j h,
        count-append x (contents (m l)) (i ∷ []),
        contents-push i (levels l below) (room l below lt idle),
      );
      priorities = λ x h live. ground (arith, priorities x h);
    },
  )
    where
      l : ℕ
      l = p.priority - 1

      below : l < numpr
      below = omega arith
