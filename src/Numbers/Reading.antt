-- ===== src/Numbers/Reading.antt =====
-- atoi on what printint writes.
use operating_system_assignm.Prelude.{
  ℕ, zero, suc, ◌+◌, ◌-◌, ◌*◌, ◌/◌, ◌%◌, ◌^◌, ◌<◌, ◌≡◌, refl, sym, ap, ◌∙◌, arith, Bool, true,
  false, List, [], ◌∷◌, leb, ℕ_discrete,
}
use operating_system_assignm.Numbers.{digit, digits_loop, printint, atoi_loop, atoi}

-- 2 ^ n
abbrev limit : ℕ → ℕ
limit zero = 1
limit (suc n) = 2 * limit n

-- One more digit.
atoi_loop-digit :
    (n x : ℕ) (s : List ℕ)
    → x < 2 ^ 32
    → n ≡ x / 10
    → atoi_loop n (digit (x % 10) ∷ s) ≡ atoi_loop x s
unfolding atoi_loop
atoi_loop-digit n x s fits e =
    let d : digit (x % 10) ≡ b'0' + x % 10 = ground arith in
    let low : x % 10 < 10 = omega arith in
    let next : (n * 10 + digit (x % 10) - b'0') % 2 ^ 32 ≡ x = omega (arith, d) in
    ground (arith, d, low, ap (λ t. atoi_loop t s) next)

digits_loop-atoi :
    (fuel x : ℕ) (buf : List ℕ)
    → x < limit fuel
    → x < 2 ^ 32
    → atoi_loop 0 (digits_loop fuel 10 x buf) ≡ atoi_loop x buf
unfolding digits_loop
digits_loop-atoi zero x buf enough fits = let e : 0 ≡ x = omega arith in ap (λ t. atoi_loop t buf) e
digits_loop-atoi (suc fuel) x buf enough fits = elim (ℕ_discrete (x / 10) 0) [
  | yes last ↦ ground (arith, last, atoi_loop-digit 0 x buf fits (sym last))
  | no more ↦
      let less : x / 10 < limit fuel = omega arith in
      let rest = digits_loop-atoi fuel (x / 10) (digit (x % 10) ∷ buf) less (omega arith) in
      ground (arith, more, rest ∙ atoi_loop-digit (x / 10) x buf fits refl)
]

-- `atoi` reads back the number below 2 ^ 31 that `printint` wrote in base 10, as a signed or an
-- unsigned one.
pub atoi-printint : (x : ℕ) → x < 2 ^ 31 → (sgn : Bool) → atoi (printint x 10 sgn) ≡ x
unfolding atoi printint atoi_loop
atoi-printint x fits false = digits_loop-atoi 32 x [] (omega arith) (omega arith)
atoi-printint x fits true =
    let positive : leb (2 ^ 31) x ≡ false = ground (arith, fits) in
    rw positive (digits_loop-atoi 32 x [] (omega arith) (omega arith))
