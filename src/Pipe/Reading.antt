-- ===== src/Pipe/Reading.antt =====
-- piperead, up to its return or its sleep.
use mathlib.Core.Path.{sym, subst}
use operating_system_assignm.Prelude.{
  ℕ, zero, suc, ◌%◌, ◌≤◌, ◌≡◌, ◌≢◌, ◌⊎◌, inl, inr, refl, ap, ◌∙◌, arith, Bool, true, false, List,
  [], ◌∷◌, ◌++◌, length, if◌then◌else◌, ℕ_discrete, Bool-cases,
}
use operating_system_assignm.Pipe.{
  Pipe, pipesize, Piped, failed, asleep, finished, copy_loop, piperead,
}
use operating_system_assignm.Pipe.Fifo.{
  IsValid, window, size, contents, got, got-IsValid, contents-got,
}

contents-nil : (p : Pipe) → IsValid p → p.nread ≡ p.nwrite → contents p ≡ []
unfolding contents
contents-nil p v e =
    let w = v.write_word in ap (window p.bytes p.nread) (let s : size p ≡ 0 = omega arith in s)

cons-ne : (x : ℕ) (xs : List ℕ) → (x ∷ xs) ≢ []
cons-ne x xs e = absurd (let s : suc (length xs) ≡ 0 = ap length e in omega arith)

-- What `copy_loop` comes to.
record Copied (n : ℕ) (p : Pipe) (out : List ℕ × Pipe) : Type 0 where
  valid : IsValid out.1
  parts : contents p ≡ out.0 ++ contents out.1
  some_of : length out.0 ≤ n
  most : (length out.0 ≡ n) ⊎ (contents out.1 ≡ [])

copy_loop-Copied : (n : ℕ) (p : Pipe) → IsValid p → Copied n p (copy_loop n p)
unfolding copy_loop
copy_loop-Copied zero p v = record {
  valid = v;
  parts = refl;
  some_of = omega arith;
  most = inl refl;
}
copy_loop-Copied (suc n) p v = elim (ℕ_discrete p.nread p.nwrite) [
  | yes empty ↦
      let e : copy_loop (suc n) p ≡ ([], p) = ground arith in
      subst (Copied (suc n) p) (sym e) (record {
        valid = v;
        parts = refl;
        some_of = omega arith;
        most = inr (contents-nil p v empty);
      })
  | no some_in ↦
      let byte = p.bytes (p.nread % pipesize) in
      let rest = copy_loop n (got p) in
      let e : copy_loop (suc n) p ≡ (byte ∷ rest.0, rest.1) = ground arith in
      let c = copy_loop-Copied n (got p) (got-IsValid p v some_in) in
      subst (Copied (suc n) p) (sym e) (record {
        valid = c.valid;
        parts = contents-got p v some_in ∙ ap (λ t. byte ∷ t) c.parts;
        some_of = omega (arith, c.some_of);
        most = elim (c.most) [ inl all ↦ inl (omega (arith, all)) | inr none_left ↦ inr none_left ];
      })
]

-- What `piperead` comes to.
pub data Took (killed : Bool) (n : ℕ) (p : Pipe) (out : Piped × Pipe) : Type 0 where
  waits :
      contents p ≡ []
      → p.writeopen ≡ true
      → out ≡ (if killed then failed else asleep [], p)
      → Took killed n p out
  takes :
      (bytes : List ℕ)
      → out.0 ≡ finished bytes
      → IsValid out.1
      → contents p ≡ bytes ++ contents out.1
      → length bytes ≤ n
      → (length bytes ≡ n) ⊎ (contents out.1 ≡ [])
      → (contents p ≢ []) ⊎ (p.writeopen ≡ false)
      → Took killed n p out

-- On a valid pipe, also where the 32-bit counters wrap around: on an empty pipe with a writer
-- `piperead` changes nothing, and returns -1 or sleeps as the process was killed or not; else it
-- returns the oldest bytes in order, `n` of them or all that there are, and leaves the others.
pub piperead_lem :
    (killed : Bool) (n : ℕ) (p : Pipe) → IsValid p → Took killed n p (piperead killed n p)
unfolding piperead
piperead_lem killed n p v =
    let c = copy_loop-Copied n p v in
    let through : (contents p ≢ []) ⊎ (p.writeopen ≡ false)
        → Took killed n p (finished (copy_loop n p).0, (copy_loop n p).1) =
      λ why. takes (copy_loop n p).0 refl c.valid c.parts c.some_of c.most why in
    elim (ℕ_discrete p.nread p.nwrite) [
      | no some_in ↦
          let e : piperead killed n p ≡ (finished (copy_loop n p).0, (copy_loop n p).1) =
            ground arith in
          subst (Took killed n p) (sym e)
            (through (inl (λ none_in. cons-ne _ _ (sym (contents-got p v some_in) ∙ none_in))))
      | yes empty ↦ elim (Bool-cases p.writeopen) [
        | inl open_still ↦ waits (contents-nil p v empty) open_still (ground arith)
        | inr closed ↦
            let e : piperead killed n p ≡ (finished (copy_loop n p).0, (copy_loop n p).1) =
              ground arith in
            subst (Took killed n p) (sym e) (through (inr closed))
      ]
    ]
