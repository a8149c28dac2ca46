-- ===== src/Prelude/Family.antt =====
-- C arrays as families `ℕ → A`: a write at one index, and sums over the first `n` members.
use Prim.Native.Nat.{ℕ, zero, suc, ◌+◌, ◌<◌}
use mathlib.Core.Path.{◌≡◌, refl, ap, ◌∙◌}
use mathlib.Core.Logic.{◌≢◌}
use mathlib.Core.Bool.{Bool}
use native.Mathlib.Decide.{ℕ_discrete}
use native.Mathlib.Omega.{arith}
use operating_system_assignm.Prelude.Tests.{◌==◌, ltb, if◌then◌else◌}

abbrev pub update {ℓ} : {A : Type ℓ} → (ℕ → A) → ℕ → A → ℕ → A
update arr at x j = if at == j then x else arr j

-- Exchange two members.
abbrev pub swap {ℓ} : {A : Type ℓ} → (ℕ → A) → ℕ → ℕ → ℕ → A
swap arr i j = update (update arr i (arr j)) j (arr i)

module _ {ℓ} {A : Type ℓ} (weight : A → ℕ) where
  pub total : ℕ → (ℕ → A) → ℕ
  total zero arr = 0
  total (suc n) arr = weight (arr n) + total n arr

  -- What a write at `at` changes in the sum of the first `n`: nothing where `at` is not among them.
  total_write :
      (n at : ℕ) (x : A) (arr : ℕ → A)
      → total n (update arr at x) + (if ltb at n then weight (arr at) else 0)
        ≡ (if ltb at n then weight x else 0) + total n arr
  unfolding total
  total_write zero at x arr = ground arith
  total_write (suc n) at x arr = ground (arith, total_write n at x arr)

  pub total-update :
      (n : ℕ) (arr : ℕ → A) (at : ℕ) (x : A)
      → at < n
      → total n (update arr at x) + weight (arr at) ≡ total n arr + weight x
  total-update n arr at x inside = ground (arith, total_write n at x arr)

  -- An exchange keeps every sum.
  pub total-swap :
      (n : ℕ) (arr : ℕ → A) (i j : ℕ) → i < n → j < n → total n (swap arr i j) ≡ total n arr
  total-swap n arr i j hi hj =
      ground
        (arith, total-update n arr i (arr j) hi, total-update n (update arr i (arr j)) j (arr i) hj)

  pub total-suc : (n : ℕ) (arr : ℕ → A) → total (suc n) arr ≡ total n arr + weight (arr n)
  unfolding total
  total-suc n arr = omega arith

  pub total-zero : (arr : ℕ → A) → total zero arr ≡ 0
  unfolding total
  total-zero arr = refl

-- A write read back, at its index and at another.
pub update_here {ℓ} : {A : Type ℓ} (f : ℕ → A) (i j : ℕ) (x : A) → i ≡ j → update f i x j ≡ x
update_here f i j x e = ground (arith, e)

pub update_there {ℓ} : {A : Type ℓ} (f : ℕ → A) (i j : ℕ) (x : A) → i ≢ j → update f i x j ≡ f j
update_there f i j x ne = ground (arith, ne)

-- A write that a test does not see.
pub update_same {ℓ} :
    {A : Type ℓ} (test : A → Bool) (f : ℕ → A) (i : ℕ) (x : A)
    → test x ≡ test (f i)
    → (j : ℕ) → test (update f i x j) ≡ test (f j)
update_same test f i x same j = elim (ℕ_discrete i j) [
  | yes e ↦ ap test (update_here f i j x e) ∙ same ∙ ap (λ t. test (f t)) e
  | no ne ↦ ap test (update_there f i j x ne)
]
