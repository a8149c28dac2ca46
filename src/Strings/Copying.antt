-- ===== src/Strings/Copying.antt =====
-- safestrcpy on strings that a zero byte ends.
use mathlib.Core.Path.{subst}
use operating_system_assignm.Prelude.{
  ℕ, zero, suc, ◌+◌, ◌-◌, ◌≤◌, ◌<◌, ◌≡◌, ◌≢◌, ◌⊎◌, inl, inr, refl, sym, ◌∙◌, arith, update, List,
  [], ◌∷◌, length, take,
}
use operating_system_assignm.Strings.{safestrcpy_loop, safestrcpy}

-- The string at `t` is `xs`.
abbrev pub Cstr : (ℕ → ℕ) → ℕ → List ℕ → Type 0
Cstr mem t [] = mem t ≡ 0
Cstr mem t (c ∷ xs) = (mem t ≡ c) × (c ≢ 0) × Cstr mem (t + 1) xs

Cstr-frame :
    (mem mem' : ℕ → ℕ) (t : ℕ) (xs : List ℕ)
    → ((x : ℕ) → t ≤ x → x ≤ t + length xs → mem' x ≡ mem x)
    → Cstr mem t xs
    → Cstr mem' t xs
Cstr-frame mem mem' t [] same h = same t (omega arith) (omega arith) ∙ h
Cstr-frame mem mem' t (c ∷ xs) same h = (
  same t (omega arith) (omega arith) ∙ h.0,
  h.1,
  Cstr-frame mem mem' (t + 1) xs (λ x lo hi. same x (omega arith) (omega arith)) h.2,
)

-- The loop and the write of the last byte, where `n` bytes and the last fit.
abbrev finish : ℕ → ℕ → ℕ → (ℕ → ℕ) → ℕ → ℕ
finish n s t mem = let (s', mem') = safestrcpy_loop (suc n) s t mem in update mem' s' 0

finish-zero : (s t : ℕ) (mem : ℕ → ℕ) → finish zero s t mem ≡ update mem s 0
unfolding safestrcpy_loop
finish-zero s t mem = refl

finish_end :
    (n s t : ℕ) (mem : ℕ → ℕ)
    → mem t ≡ 0
    → finish (suc n) s t mem ≡ update (update mem s (mem t)) (s + 1) 0
unfolding safestrcpy_loop
finish_end n s t mem last = ground (arith, last)

finish_next :
    (n s t : ℕ) (mem : ℕ → ℕ)
    → mem t ≢ 0
    → finish (suc n) s t mem ≡ finish n (s + 1) (t + 1) (update mem s (mem t))
unfolding safestrcpy_loop
finish_next n s t mem more = ground (arith, more)

-- The destination holds `xs`, and the bytes outside of its `n` are as they were.
pub record IsCopied (s n : ℕ) (xs : List ℕ) (mem mem' : ℕ → ℕ) : Type 0 where
  pub string : Cstr mem' s xs
  pub frame : (x : ℕ) → (x < s) ⊎ (s + n ≤ x) → mem' x ≡ mem x

finish-IsCopied :
    (n s t : ℕ) (mem : ℕ → ℕ) (xs : List ℕ)
    → Cstr mem t xs
    → (s + suc n ≤ t) ⊎ (t + length xs < s)
    → IsCopied s (suc n) (take n xs) mem (finish n s t mem)
finish-IsCopied zero s t mem xs h apart = rw (finish-zero s t mem) (record {
  string = ground arith;
  frame = λ x out. elim out [ inl a ↦ ground (arith, a) | inr b ↦ ground (arith, b) ];
})
finish-IsCopied (suc n) s t mem [] h apart = rw (finish_end n s t mem h) (record {
  string = ground (arith, h);
  frame = λ x out. elim out [ inl a ↦ ground (arith, a) | inr b ↦ ground (arith, b) ];
})
finish-IsCopied (suc n) s t mem (c ∷ xs) h apart =
    let more : mem t ≢ 0 = λ z. h.1 (sym h.0 ∙ z) in
    let mem1 = update mem s (mem t) in
    let away : (x : ℕ) → t + 1 ≤ x → x ≤ t + 1 + length xs → s ≢ x =
      λ x lo hi e. (elim apart [ inl a ↦ absurd (omega arith) | inr b ↦ absurd (omega arith) ]) in
    let rest =
      finish-IsCopied n (s + 1) (t + 1) mem1 xs
        (Cstr-frame mem mem1 (t + 1) xs (λ x lo hi. ground (arith, away x lo hi)) h.2)
        (elim apart [ inl a ↦ inl (omega arith) | inr b ↦ inr (omega arith) ]) in
    rw (finish_next n s t mem more) (record {
      string = (rest.frame s (inl (omega arith)) ∙ ground (arith, h.0), h.1, rest.string);
      frame = λ x out. elim out [
        | inl a ↦ rest.frame x (inl (omega arith)) ∙ ground (arith, a)
        | inr b ↦ rest.frame x (inr (omega arith)) ∙ ground (arith, b)
      ];
    })

-- With room for a byte at least and apart from the source string: `safestrcpy` leaves at the
-- destination as much of the string as fits, ended by a zero byte, and changes nothing outside
-- of the room it was given.
pub safestrcpy-IsCopied :
    (n s t : ℕ) (mem : ℕ → ℕ) (xs : List ℕ)
    → 0 < n
    → Cstr mem t xs
    → (s + n ≤ t) ⊎ (t + length xs < s)
    → IsCopied s n (take (n - 1) xs) mem (safestrcpy s t n mem)
unfolding safestrcpy
safestrcpy-IsCopied zero s t mem xs some_room h apart = absurd (omega arith)
safestrcpy-IsCopied (suc n) s t mem xs some_room h apart =
    subst (λ m. IsCopied s (suc n) (take m xs) mem (finish n s t mem)) (omega arith)
      (finish-IsCopied n s t mem xs h apart)
