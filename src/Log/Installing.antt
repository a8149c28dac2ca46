-- ===== src/Log/Installing.antt =====
-- What the loops of the log do to disk and buffers, with any number of writes before power is lost.
use operating_system_assignm.Prelude.{ℕ, zero, suc, ◌+◌, ◌-◌, ◌≤◌, ◌<◌, ◌≡◌, ◌⊎◌, refl, arith}
use operating_system_assignm.Log.{Block, LogHeader, Machine, fill, bwrite, install_loop}
use operating_system_assignm.Log.Replay.{replay}

-- The log has the blocks `start`, …, `start + size - 1`.
module _ (start size : ℕ) where
  abbrev pub IsHome : ℕ → Type 0
  IsHome b = (b < start) ⊎ (start + size ≤ b)

  abbrev pub IsLog : ℕ → Type 0
  IsLog b = (start ≤ b) × (b < start + size)

  -- `j` of the `k` writes reach the disk.
  pub record Reached (j k power : ℕ) : Type 0 where
    pub some_of : j ≤ k
    pub powered : j ≤ power
    pub most : (k ≤ j) ⊎ (power ≤ j)

  -- `j` entries from `tail` on are copied to their home blocks.
  pub record Installed (block : ℕ → ℕ) (content : ℕ → Block) (j k tail : ℕ) (m m' : Machine)
      : Type 0 where
    pub left : m'.power ≡ m.power - k
    pub home : (b : ℕ) → IsHome b → m'.disk b ≡ replay block content j tail b (m.disk b)
    pub log_disk : (b : ℕ) → IsLog b → m'.disk b ≡ m.disk b
    pub log_cache : (b : ℕ) → IsLog b → m'.cache b ≡ m.cache b

  pub install_loop-Installed :
      (lh : LogHeader) (content : ℕ → Block) (j k tail : ℕ) (m : Machine)
      → tail + k < size
      → ((i : ℕ) → i < tail + k → IsHome (lh.block i))
      → ((i : ℕ) → i < tail + k → m.cache (start + i + 1) ≡ content i)
      → Reached j k m.power
      → Installed lh.block content j k tail m (install_loop start lh k tail m)
  unfolding install_loop bwrite replay
  install_loop-Installed lh content zero zero tail m fits homes same r = record {
    left = omega arith;
    home = λ b h. refl;
    log_disk = λ b h. refl;
    log_cache = λ b h. refl;
  }
  install_loop-Installed lh content (suc j) zero tail m fits homes same r =
      absurd (omega (arith, r.some_of))
  install_loop-Installed lh content zero (suc k) tail m fits homes same r =
      let m1 = bwrite (lh.block tail) (fill (lh.block tail) (m.cache (start + tail + 1)) m) in
      let q = homes tail (omega arith) in
      let dead : m.power ≡ 0 = ground (arith, r.most) in
      let rest =
        install_loop-Installed lh content zero k (tail + 1) m1 (omega arith)
          (λ i lt. homes i (omega arith)) (λ i lt. ground (arith, same i (omega arith)))
          (record { some_of = omega arith; powered = omega arith; most = ground arith }) in
      record {
        left = ground (arith, rest.left);
        home = λ b h. ground (arith, rest.home b h);
        log_disk = λ b h. ground (arith, rest.log_disk b h);
        log_cache = λ b h. ground (arith, rest.log_cache b h);
      }
  install_loop-Installed lh content (suc j) (suc k) tail m fits homes same r =
      let m1 = bwrite (lh.block tail) (fill (lh.block tail) (m.cache (start + tail + 1)) m) in
      let q = homes tail (omega arith) in
      let alive : 0 < m.power = omega (arith, r.powered) in
      let rest =
        install_loop-Installed lh content j k (tail + 1) m1 (omega arith)
          (λ i lt. homes i (omega arith)) (λ i lt. ground (arith, same i (omega arith)))
          (record {
            some_of = omega (arith, r.some_of);
            powered = omega (arith, r.powered);
            most = ground (arith, r.most);
          }) in
      record {
        left = ground (arith, rest.left);
        home = λ b h. ground (arith, rest.home b h, same tail (omega arith));
        log_disk = λ b h. ground (arith, rest.log_disk b h);
        log_cache = λ b h. ground (arith, rest.log_cache b h);
      }
