-- ===== src/Log/Replay.antt =====
-- What installing the entries of a log makes of a block.
use operating_system_assignm.Prelude.{
  ℕ, zero, suc, ◌+◌, ◌≤◌, ◌<◌, ◌≡◌, refl, arith, ◌==◌, if◌then◌else◌, ℕ_discrete, Bool, false, ◌||◌,
}

-- Block `b` is one of the `k` blocks from `tail` on.
unfoldable pub among : (ℕ → ℕ) → ℕ → ℕ → ℕ → Bool
among block zero tail b = false
among block (suc k) tail b = block tail == b || among block k (tail + 1) b

module _ {ℓ} {A : Type ℓ} where
  -- The content of block `b`, once `old`, after `k` entries from `tail` on are copied to it: entry
  -- `i` puts `content i` into block `block i`.
  unfoldable pub replay : (ℕ → ℕ) → (ℕ → A) → ℕ → ℕ → ℕ → A → A
  replay block content zero tail b old = old
  replay block content (suc k) tail b old =
      replay block content k (tail + 1) b (if block tail == b then content tail else old)

  pub replay-zero :
      (block : ℕ → ℕ) (content : ℕ → A) (tail b : ℕ) (old : A)
      → replay block content zero tail b old ≡ old
  unfolding replay
  replay-zero block content tail b old = refl

  -- Copying the first entries beforehand changes nothing.
  pub replay-replay :
      (block : ℕ → ℕ) (content : ℕ → A) (j k tail b : ℕ) (old : A)
      → j ≤ k
      → replay block content k tail b (replay block content j tail b old)
        ≡ replay block content k tail b old
  unfolding replay
  replay-replay block content zero k tail b old le = refl
  replay-replay block content (suc j) zero tail b old le = absurd (omega arith)
  replay-replay block content (suc j) (suc k) tail b old le = elim (ℕ_discrete (block tail) b) [
    | yes same ↦ ground (arith, same)
    | no other ↦ ground (arith, replay-replay block content j k (tail + 1) b old (omega arith))
  ]

  -- Only the entries that are copied count.
  pub replay-cong :
      (block block' : ℕ → ℕ) (content content' : ℕ → A) (k tail b : ℕ) (old : A)
      → ((i : ℕ) → i < tail + k → block i ≡ block' i)
      → ((i : ℕ) → i < tail + k → content i ≡ content' i)
      → replay block content k tail b old ≡ replay block' content' k tail b old
  unfolding replay
  replay-cong block block' content content' zero tail b old eb ed = refl
  replay-cong block block' content content' (suc k) tail b old eb ed = ground (
    arith,
    eb tail (omega arith),
    ed tail (omega arith),
    replay-cong block block' content content' k (tail + 1) b
        (if block' tail == b then content' tail else old) (λ i lt. eb i (omega arith))
        (λ i lt. ed i (omega arith)),
  )

  -- Copies of the blocks themselves.
  pub replay-among :
      (block : ℕ → ℕ) (cache : ℕ → A) (k tail b : ℕ) (old : A)
      → replay block (λ i. cache (block i)) k tail b old
        ≡ (if among block k tail b then cache b else old)
  unfolding replay among
  replay-among block cache zero tail b old = refl
  replay-among block cache (suc k) tail b old = elim (ℕ_discrete (block tail) b) [
    | yes same ↦ ground (arith, replay-among block cache k (tail + 1) b (cache (block tail)), same)
    | no other ↦ ground (arith, replay-among block cache k (tail + 1) b old)
  ]
