-- ===== src/Log/Writing.antt =====
-- The loop of write_log, with any number of writes before power is lost.
use operating_system_assignm.Prelude.{
  ℕ, zero, suc, ◌+◌, ◌-◌, ◌≤◌, ◌<◌, ◌≡◌, refl, arith, ℕ_discrete,
}
use operating_system_assignm.Log.{LogHeader, Machine, fill, bwrite, write_loop}
use operating_system_assignm.Log.Installing.{IsHome}

module _ (start size : ℕ) where
  -- `k` cached blocks from entry `tail` on are copied to the log.
  pub record Written (block : ℕ → ℕ) (k tail : ℕ) (m m' : Machine) : Type 0 where
    pub left : m'.power ≡ m.power - k
    pub below_disk : (b : ℕ) → b ≤ start + tail → m'.disk b ≡ m.disk b
    pub below_cache : (b : ℕ) → b ≤ start + tail → m'.cache b ≡ m.cache b
    pub above_disk : (b : ℕ) → start + size ≤ b → m'.disk b ≡ m.disk b
    pub above_cache : (b : ℕ) → start + size ≤ b → m'.cache b ≡ m.cache b
    pub entries : (i : ℕ) → tail ≤ i → i < tail + k → m'.cache (start + i + 1) ≡ m.cache (block i)
    pub stored :
        k ≤ m.power
        → (i : ℕ) → tail ≤ i
        → i < tail + k
        → m'.disk (start + i + 1) ≡ m.cache (block i)

  pub write_loop-Written :
      (lh : LogHeader) (k tail : ℕ) (m : Machine)
      → tail + k < size
      → ((i : ℕ) → i < tail + k → IsHome start size (lh.block i))
      → Written lh.block k tail m (write_loop start lh k tail m)
  unfolding write_loop bwrite
  write_loop-Written lh zero tail m fits homes = record {
    left = omega arith;
    below_disk = λ b h. refl;
    below_cache = λ b h. refl;
    above_disk = λ b h. refl;
    above_cache = λ b h. refl;
    entries = λ i a b. absurd (omega arith);
    stored = λ p i a b. absurd (omega arith);
  }
  write_loop-Written lh (suc k) tail m fits homes =
      let m1 = bwrite (start + tail + 1) (fill (start + tail + 1) (m.cache (lh.block tail)) m) in
      let rest =
        write_loop-Written lh k (tail + 1) m1 (omega arith) (λ i lt. homes i (omega arith)) in
      record {
        left = ground (arith, rest.left);
        below_disk = λ b h. ground (arith, rest.below_disk b (omega arith));
        below_cache = λ b h. ground (arith, rest.below_cache b (omega arith));
        above_disk = λ b h. ground (arith, rest.above_disk b h);
        above_cache = λ b h. ground (arith, rest.above_cache b h);
        entries = λ i a b. elim (ℕ_discrete tail i) [
          | yes here ↦ ground (arith, rest.below_cache (start + i + 1) (omega arith))
          | no later ↦ ground (arith, rest.entries i (omega arith) (omega arith), homes i b)
        ];
        stored = λ p i a b. elim (ℕ_discrete tail i) [
          | yes here ↦ ground (arith, rest.below_disk (start + i + 1) (omega arith))
          | no later ↦
              ground (arith, rest.stored (omega arith) i (omega arith) (omega arith), homes i b)
        ];
      }
