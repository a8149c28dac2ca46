-- ===== src/Spinlock/Nesting.antt =====
-- pushcli and popcli: the nesting.
use operating_system_assignm.Prelude.{
  ◌+◌, ◌-◌, ◌≡◌, ◌≢◌, refl, sym, arith, Bool, true, false, Option, none, some, ◌==◌, ◌&&◌, ap, ◌∙◌,
  inl, inr, Option-cases, List, [], ◌∷◌, ◌++◌, if◌then◌else◌,
}
use operating_system_assignm.Spinlock.{Cpu, pushcli, popcli}

-- Inside a pushcli the interrupts are off.
abbrev pub IsOff : Cpu → Type 0
IsOff c = c.ncli ≢ 0 → c.interrupts ≡ false

-- The same depth, and the interrupts to be as they were once it is left.
pub record Same (c c' : Cpu) : Type 0 where
  pub depth : c'.ncli ≡ c.ncli
  pub flag : c'.interrupts ≡ c.interrupts
  pub saved : c.ncli ≢ 0 → c'.intena ≡ c.intena

pub pushcli-IsOff : (c : Cpu) → IsOff (pushcli c)
unfolding pushcli
pushcli-IsOff c inside = refl

pub pushcli_lem :
    (c : Cpu)
    → ((pushcli c).ncli ≡ c.ncli + 1)
      × ((pushcli c).interrupts ≡ false)
      × ((pushcli c).intena ≡ (if c.ncli == 0 then c.interrupts else c.intena))
unfolding pushcli
pushcli_lem c = (refl, refl, refl)

-- A `popcli` at the depth of a `pushcli`.
pub popcli-pushcli :
    (c c' : Cpu) → IsOff c → Same (pushcli c) c' → (c'' : Cpu) × (popcli c' ≡ some c'') × Same c c''
unfolding popcli
popcli-pushcli c c' off same =
    let (depth, dark, kept) = pushcli_lem c in
    let n : c'.ncli ≡ c.ncli + 1 = same.depth ∙ depth in
    let i : c'.interrupts ≡ false = same.flag ∙ dark in
    let k : c'.intena ≡ (if c.ncli == 0 then c.interrupts else c.intena) =
      same.saved (omega arith) ∙ kept in
    (
      record c' { ncli = c'.ncli - 1; interrupts = (c'.ncli - 1 == 0) && c'.intena },
      ground (arith, n, i),
      record {
        depth = omega arith;
        flag = ground (arith, n, k, off);
        saved = λ inside. ground (arith, k, inside);
      },
    )

-- `pushcli` (true) and `popcli` (false), one after the other.
unfoldable pub calls : List Bool → Cpu → Option Cpu
calls [] c = some c
calls (true ∷ rest) c = calls rest (pushcli c)
calls (false ∷ rest) c = elim (popcli c) [ none ↦ none | some c' ↦ calls rest c' ]

calls_pop : (ws : List Bool) (c d : Cpu) → popcli c ≡ some d → calls (false ∷ ws) c ≡ calls ws d
unfolding calls
calls_pop ws c d e = ap (λ o. elim o [ none ↦ none | some x ↦ calls ws x ]) e

calls-append :
    (ws vs : List Bool) (c c' : Cpu) → calls ws c ≡ some c' → calls (ws ++ vs) c ≡ calls vs c'
unfolding calls
calls-append [] vs c c' e = ap (λ o. elim o [ none ↦ none | some x ↦ calls vs x ]) e
calls-append (true ∷ ws) vs c c' e = calls-append ws vs (pushcli c) c' e
calls-append (false ∷ ws) vs c c' e = elim (Option-cases (popcli c)) [
  | inl stop ↦ absurd (ground (arith, stop, e))
  | inr (d, goes) ↦
      calls_pop (ws ++ vs) c d goes ∙ calls-append ws vs d c' (sym (calls_pop ws c d goes) ∙ e)
]

-- Matched calls: each `popcli` undoes a `pushcli`.
pub data IsMatched : List Bool → Type 0 where
  nothing : IsMatched []
  pair : (ws vs : List Bool) → IsMatched ws → IsMatched vs → IsMatched (true ∷ (ws ++ (false ∷ vs)))

-- Where interrupts are off inside of a pushcli: matched calls of pushcli and popcli do not
-- panic, and restore the depth and the interrupt flag, and inside of a pushcli also what its end
-- restores.
pub calls-Same :
    (ws : List Bool) (c : Cpu)
    → IsMatched ws
    → IsOff c
    → (c' : Cpu) × (calls ws c ≡ some c') × Same c c'
unfolding calls
calls-Same _ c nothing off = (c, refl, record { depth = refl; flag = refl; saved = λ inside. refl })
calls-Same _ c (pair ws vs inner after) off =
    let (c1, e1, same1) = calls-Same ws (pushcli c) inner (pushcli-IsOff c) in
    let (c2, e2, same2) = popcli-pushcli c c1 off same1 in
    let (c3, e3, same3) =
      calls-Same vs c2 after (λ n. same2.flag ∙ off (λ z. n (same2.depth ∙ z))) in
    (
      c3,
      calls-append ws (false ∷ vs) (pushcli c) c1 e1 ∙ calls_pop vs c1 c2 e2 ∙ e3,
      record {
        depth = same3.depth ∙ same2.depth;
        flag = same3.flag ∙ same2.flag;
        saved = λ n. same3.saved (λ z. n (sym same2.depth ∙ z)) ∙ same2.saved n;
      },
    )
