-- ===== src/Syscall/Bounds.antt =====
-- argptr and fetchstr against the memory of the process.
use operating_system_assignm.Prelude.{
  ℕ, zero, suc, ◌+◌, ◌-◌, ◌*◌, ◌%◌, ◌^◌, ◌≤◌, ◌<◌, ◌≡◌, ◌≢◌, ◌⊎◌, inl, inr, refl, ap, ◌∙◌, arith,
  true, false, Option, none, some, ltb, leb, ◌||◌, if◌then◌else◌, dec_lt, dec_le, ℕ_discrete,
}
use operating_system_assignm.Syscall.{word, fetchint, find_end, fetchstr, argint, argptr}

-- The address of argument `n`.
abbrev pub slot : ℕ → ℕ → ℕ
slot esp n = (esp + 4 + 4 * n) % 2 ^ 32

module _ (sz : ℕ) (mem : ℕ → ℕ) where
  -- What `argptr` comes to.
  pub data Pointer (esp n size : ℕ) (out : Option ℕ) : Type 0 where
    outside : sz < slot esp n + 4 → out ≡ none → Pointer esp n size out
    refused :
        slot esp n + 4 ≤ sz
        → (2 ^ 31 ≤ size) ⊎ ((sz ≤ word mem (slot esp n)) ⊎ (sz < word mem (slot esp n) + size))
        → out ≡ none
        → Pointer esp n size out
    accepted :
        slot esp n + 4 ≤ sz
        → size < 2 ^ 31
        → word mem (slot esp n) < sz
        → word mem (slot esp n) + size ≤ sz
        → out ≡ some (word mem (slot esp n))
        → Pointer esp n size out

  module _ (user : sz ≤ 2 ^ 31) where
    fetchint_in : (addr : ℕ) → addr + 4 ≤ sz → fetchint sz mem addr ≡ some (word mem addr)
    unfolding fetchint
    fetchint_in addr inside =
        let low : (addr + 4) % 2 ^ 32 ≡ addr + 4 = omega arith in ground (arith, low)

    fetchint_out : (addr : ℕ) → sz < addr + 4 → fetchint sz mem addr ≡ none
    unfolding fetchint
    fetchint_out addr past = elim (dec_lt addr sz) [
      | no over ↦ ground arith
      | yes under ↦ let low : (addr + 4) % 2 ^ 32 ≡ addr + 4 = omega arith in ground (arith, low)
    ]

    -- The three tests of `argptr` with no wrap-around.
    checks_out :
        (i size : ℕ)
        → (2 ^ 31 ≤ size) ⊎ ((sz ≤ i) ⊎ (sz < i + size))
        → (leb (2 ^ 31) size || leb sz i || ltb sz ((i + size) % 2 ^ 32)) ≡ true
    checks_out i size out = elim (dec_le (2 ^ 31) size) [
      | yes large ↦ ground arith
      | no small ↦ elim (dec_le sz i) [
        | yes past ↦ ground arith
        | no inside ↦
            let low : (i + size) % 2 ^ 32 ≡ i + size = omega arith in
            let over : sz < i + size = elim out [
              | inl a ↦ absurd (omega arith)
              | inr b ↦ elim b [ inl c ↦ absurd (omega arith) | inr d ↦ d ]
            ] in
            ground (arith, low, over)
      ]
    ]

    checks_in :
        (i size : ℕ)
        → size < 2 ^ 31
        → i < sz
        → i + size ≤ sz
        → (leb (2 ^ 31) size || leb sz i || ltb sz ((i + size) % 2 ^ 32)) ≡ false
    checks_in i size small inside fits =
        let low : (i + size) % 2 ^ 32 ≡ i + size = omega arith in
        ground (arith, low, small, inside, fits)

    argptr_at :
        (esp n size : ℕ)
        → slot esp n + 4 ≤ sz
        → argptr sz mem esp n size ≡ (
            if leb (2 ^ 31) size
              || leb sz (word mem (slot esp n))
              || ltb sz ((word mem (slot esp n) + size) % 2 ^ 32)
            then none
            else some (word mem (slot esp n)))
    unfolding argptr argint
    argptr_at esp n size inside = rw (argptr, argint, fetchint_in (slot esp n) inside) refl

    -- In a process of at most 2 ^ 31 bytes: `argptr` refuses exactly the arguments that lie
    -- outside of its memory, a negative size, and a block that does not lie in its memory, with
    -- the sums taken without wrap-around; else it returns the argument.
    pub argptr-Pointer : (esp n size : ℕ) → Pointer esp n size (argptr sz mem esp n size)
    unfolding argptr argint
    argptr-Pointer esp n size = elim (dec_lt sz (slot esp n + 4)) [
      | yes past ↦ outside past (rw (argptr, argint, fetchint_out (slot esp n) past) refl)
      | no inside ↦
          let seen : slot esp n + 4 ≤ sz = omega arith in
          let w = word mem (slot esp n) in
          let at = argptr_at esp n size seen in
          let bad : (2 ^ 31 ≤ size) ⊎ ((sz ≤ w) ⊎ (sz < w + size))
              → Pointer esp n size (argptr sz mem esp n size) =
            λ out.
              refused seen out
                (at ∙ ap (λ b. if b then none else some w) (checks_out w size out)) in
          elim (dec_le (2 ^ 31) size) [
            | yes large ↦ bad (inl large)
            | no small ↦ elim (dec_le sz w) [
              | yes past ↦ bad (inr (inl past))
              | no below ↦ elim (dec_lt sz (w + size)) [
                | yes over ↦ bad (inr (inr over))
                | no fits ↦ accepted seen (omega arith) (omega arith) (omega arith) (
                    at
                    ∙ ap (λ b. if b then none else some w)
                        (checks_in w size (omega arith) (omega arith) (omega arith)))
              ]
            ]
          ]
    ]

  -- What `fetchstr` comes to.
  pub data Fetched (addr : ℕ) (out : Option ℕ) : Type 0 where
    unended : ((x : ℕ) → addr ≤ x → x < sz → mem x ≢ 0) → out ≡ none → Fetched addr out
    string :
        (n : ℕ)
        → addr + n < sz
        → mem (addr + n) ≡ 0
        → ((x : ℕ) → addr ≤ x → x < addr + n → mem x ≢ 0)
        → out ≡ some n
        → Fetched addr out

  data End (s : ℕ) (out : Option ℕ) : Type 0 where
    nowhere : ((x : ℕ) → s ≤ x → x < sz → mem x ≢ 0) → out ≡ none → End s out
    at :
        (e : ℕ)
        → s ≤ e
        → e < sz
        → mem e ≡ 0
        → ((x : ℕ) → s ≤ x → x < e → mem x ≢ 0)
        → out ≡ some e
        → End s out

  find_end-End : (fuel s : ℕ) → sz ≤ s + fuel → End s (find_end sz mem fuel s)
  unfolding find_end
  find_end-End zero s enough = nowhere (λ x lo hi. absurd (omega arith)) refl
  find_end-End (suc fuel) s enough = elim (dec_lt s sz) [
    | no past ↦ nowhere (λ x lo hi. absurd (omega arith)) (ground arith)
    | yes inside ↦ elim (ℕ_discrete (mem s) 0) [
      | yes last ↦
          at s (omega arith) inside last (λ x lo hi. absurd (omega arith)) (ground (arith, last))
      | no more ↦ elim (find_end-End fuel (s + 1) (omega arith)) [
        | nowhere all e ↦
            nowhere (λ x lo hi. first s x more (λ h. all x h hi) lo) (ground (arith, more, e))
        | at e lo hi last before eq ↦
            at e (omega arith) hi last (λ x lo' hi'. first s x more (λ h. before x h hi') lo')
              (ground (arith, more, eq))
      ]
    ]
  ]
    where
      first : (s x : ℕ) → mem s ≢ 0 → (s + 1 ≤ x → mem x ≢ 0) → s ≤ x → mem x ≢ 0
      first s x more rest lo = elim (ℕ_discrete s x) [
        | yes e ↦ λ z. more (ap mem e ∙ z)
        | no ne ↦ rest (omega arith)
      ]

  pub fetchstr-Fetched : (addr : ℕ) → Fetched addr (fetchstr sz mem addr)
  unfolding fetchstr
  fetchstr-Fetched addr = elim (dec_lt addr sz) [
    | no past ↦ unended (λ x lo hi. absurd (omega arith)) (ground arith)
    | yes inside ↦ elim (find_end-End sz addr (omega arith)) [
      | nowhere all e ↦ unended all (ground (arith, e))
      | at s lo hi last before e ↦
          let len : addr + (s - addr) ≡ s = omega arith in
          string (s - addr) (rw len hi) (rw len last) (λ x lo' hi'. before x lo' (omega arith))
            (ground (arith, e))
    ]
  ]
