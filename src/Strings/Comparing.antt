-- ===== src/Strings/Comparing.antt =====
-- strncmp as a test.
use operating_system_assignm.Prelude.{
  ℤ, pos, negsuc, ℕ, zero, suc, ◌+◌, ◌-◌, ◌<◌, ◌≡◌, ◌≢◌, ◌↔◌, ◌⊎◌, inl, inr, refl, sym, ap, ◌∙◌,
  arith, dec_lt, dec_le, ℕ_discrete,
}
use operating_system_assignm.Strings.{minus, strncmp}

abbrev abs : ℤ → ℕ
abs (pos n) = n
abs (negsuc n) = suc n

minus_zero : (a b : ℕ) → minus a b ≡ pos 0 → a ≡ b
minus_zero a b e =
    let z : abs (minus a b) ≡ 0 = ap abs e in
    elim (dec_le a b) [
      | yes le ↦ elim (dec_lt a b) [ yes lt ↦ absurd (ground (arith, z)) | no ge ↦ omega arith ]
      | no gt ↦ ground (arith, z)
    ]

minus_self : (a b : ℕ) → a ≡ b → minus a b ≡ pos 0
minus_self a b e = rw e (ground arith)

-- The strings at `p` and `q` agree up to the end of the first, or over `n` bytes.
abbrev pub Agree : ℕ → ℕ → ℕ → (ℕ → ℕ) → Type 0
Agree n p q mem = (i : ℕ) → i < n → ((j : ℕ) → j < i → mem (p + j) ≢ 0) → mem (p + i) ≡ mem (q + i)

Agree-tail :
    (n p q : ℕ) (mem : ℕ → ℕ) → mem p ≢ 0 → Agree (suc n) p q mem → Agree n (p + 1) (q + 1) mem
Agree-tail n p q mem more agree i below nonzero =
    let agree_before : (j : ℕ) → j < suc i → mem (p + j) ≢ 0 = λ j lt. elim (ℕ_discrete j 0) [
      | yes e ↦ λ z. more (ap mem (omega arith) ∙ z)
      | no ne ↦ λ z. nonzero (j - 1) (omega arith) (ap mem (omega arith) ∙ z)
    ] in
    ap mem (omega arith)
    ∙ agree (suc i) (omega arith) (λ j lt. agree_before j lt)
    ∙ ap mem (omega arith)

Agree-cons :
    (n p q : ℕ) (mem : ℕ → ℕ) → mem p ≡ mem q → Agree n (p + 1) (q + 1) mem → Agree (suc n) p q mem
Agree-cons n p q mem same agree i below nonzero = elim (ℕ_discrete i 0) [
  | yes e ↦ ap (λ t. mem (p + t)) e ∙ ap mem (omega arith) ∙ same ∙ ap mem (omega arith)
  | no ne ↦
      ap mem (omega arith)
      ∙ agree (i - 1) (omega arith)
          (λ j lt z. nonzero (suc j) (omega arith) (ap mem (omega arith) ∙ z))
      ∙ ap mem (omega arith)
]

-- An end of the first string, or a difference, ends the loop.
Agree-stop : (n p q : ℕ) (mem : ℕ → ℕ) → mem p ≡ 0 → mem p ≡ mem q → Agree (suc n) p q mem
Agree-stop n p q mem last same i below nonzero = elim (ℕ_discrete i 0) [
  | yes e ↦ ap (λ t. mem (p + t)) e ∙ ap mem (omega arith) ∙ same ∙ ap mem (omega arith)
  | no ne ↦ absurd (nonzero 0 (omega arith) (ap mem (omega arith) ∙ last))
]

Agree-first : (n p q : ℕ) (mem : ℕ → ℕ) → Agree (suc n) p q mem → mem p ≡ mem q
Agree-first n p q mem agree =
    ap mem (omega arith)
    ∙ agree 0 (omega arith) (λ j lt. absurd (omega arith))
    ∙ ap mem (omega arith)

strncmp_stop :
    (n p q : ℕ) (mem : ℕ → ℕ)
    → (mem p ≡ 0) ⊎ (mem p ≢ mem q)
    → strncmp (suc n) p q mem ≡ minus (mem p) (mem q)
unfolding strncmp
strncmp_stop n p q mem (inl e) = ground (arith, e)
strncmp_stop n p q mem (inr ne) = ground (arith, ne)

strncmp_more :
    (n p q : ℕ) (mem : ℕ → ℕ)
    → mem p ≢ 0
    → mem p ≡ mem q
    → strncmp (suc n) p q mem ≡ strncmp n (p + 1) (q + 1) mem
unfolding strncmp
strncmp_more n p q mem more same = ground (arith, more, same)

strncmp-zero : (p q : ℕ) (mem : ℕ → ℕ) → strncmp zero p q mem ≡ pos 0
unfolding strncmp
strncmp-zero p q mem = refl

-- `strncmp` returns 0 exactly where the strings agree over `n` bytes or up to the end of the
-- first.
pub strncmp_iff : (n p q : ℕ) (mem : ℕ → ℕ) → (strncmp n p q mem ≡ pos 0) ↔ Agree n p q mem
strncmp_iff zero p q mem = (λ e i below. absurd (omega arith), λ agree. strncmp-zero p q mem)
strncmp_iff (suc n) p q mem = elim (ℕ_discrete (mem p) 0) [
  | yes last ↦
      let stop = strncmp_stop n p q mem (inl last) in
      (
        λ e. Agree-stop n p q mem last (minus_zero (mem p) (mem q) (sym stop ∙ e)),
        λ agree. stop ∙ minus_self (mem p) (mem q) (Agree-first n p q mem agree),
      )
  | no more ↦ elim (ℕ_discrete (mem p) (mem q)) [
    | yes same ↦
        let next = strncmp_more n p q mem more same in
        let (to, from) = strncmp_iff n (p + 1) (q + 1) mem in
        (
          λ e. Agree-cons n p q mem same (to (sym next ∙ e)),
          λ agree. next ∙ from (Agree-tail n p q mem more agree),
        )
    | no differ ↦
        let stop = strncmp_stop n p q mem (inr differ) in
        (
          λ e. absurd (differ (minus_zero (mem p) (mem q) (sym stop ∙ e))),
          λ agree. absurd (differ (Agree-first n p q mem agree)),
        )
  ]
]
