-- ===== src/Pipe/Writing.antt =====
-- pipewrite, up to its return or its sleep.
use mathlib.Core.Path.{sym, subst}
use operating_system_assignm.Prelude.{
  ℕ, ◌+◌, ◌≡◌, refl, ap, ◌∙◌, arith, Bool, not, List, [], ◌∷◌, ◌++◌, length, ◌||◌, if◌then◌else◌,
  ℕ_discrete,
}
use operating_system_assignm.Proc.Time.{u32}
use operating_system_assignm.Pipe.{Pipe, pipesize, Piped, failed, asleep, finished, pipewrite}
use operating_system_assignm.Pipe.Fifo.{
  IsValid, size, contents, put, put-IsValid, contents-put, length-window, append_nil, append_assoc,
}

-- Why `pipewrite` stops before its last byte: the pipe is full.
abbrev pub stopped : Bool → Pipe → List ℕ → Piped
stopped killed p left = if not p.readopen || killed then failed else asleep left

-- What `pipewrite` comes to: the bytes that it wrote are behind those of the pipe.
pub data Wrote (killed : Bool) (cs : List ℕ) (p : Pipe) (out : Piped × Pipe) : Type 0 where
  whole :
      IsValid out.1
      → contents out.1 ≡ contents p ++ cs
      → out.0 ≡ finished []
      → Wrote killed cs p out
  partial :
      (written left : List ℕ)
      → cs ≡ written ++ left
      → IsValid out.1
      → contents out.1 ≡ contents p ++ written
      → length (contents out.1) ≡ pipesize
      → out.0 ≡ stopped killed p left
      → Wrote killed cs p out

full_length :
    (p : Pipe) → IsValid p → p.nwrite ≡ u32 (p.nread + pipesize) → length (contents p) ≡ pipesize
unfolding contents
full_length p v e =
    let r = v.read_word in
    let w = v.write_word in
    length-window p.bytes p.nread (size p) ∙ (let s : size p ≡ pipesize = omega arith in s)

-- On a valid pipe, also where the 32-bit counters wrap around, one round of `pipewrite` puts
-- bytes behind those of the pipe, in order and none lost: all of them and it returns, or the
-- first ones until 512 bytes are unread; then it returns -1 if the reader is gone or the process
-- was killed, and else sleeps with the others left to write.
pub pipewrite_lem :
    (killed : Bool) (cs : List ℕ) (p : Pipe) → IsValid p → Wrote killed cs p (pipewrite killed cs p)
unfolding pipewrite
pipewrite_lem killed [] p v = whole v (sym (append_nil (contents p))) refl
pipewrite_lem killed (c ∷ rest) p v = elim (ℕ_discrete p.nwrite (u32 (p.nread + pipesize))) [
  | yes full ↦
      let e : pipewrite killed (c ∷ rest) p ≡ (stopped killed p (c ∷ rest), p) = ground arith in
      subst (Wrote killed (c ∷ rest) p) (sym e)
        (partial [] (c ∷ rest) refl v (sym (append_nil (contents p))) (full_length p v full) refl)
  | no free ↦
      let e : pipewrite killed (c ∷ rest) p ≡ pipewrite killed rest (put p c) = ground arith in
      let grown = contents-put p c v free in
      subst (Wrote killed (c ∷ rest) p) (sym e)
        (elim (pipewrite_lem killed rest (put p c) (put-IsValid p c v free)) [
          | whole v' all done ↦
              whole v' (all ∙ ap (λ t. t ++ rest) grown ∙ append_assoc (contents p) (c ∷ []) rest)
                done
          | partial written left parts v' all full done ↦
              partial (c ∷ written) left (ap (λ t. c ∷ t) parts) v'
                (all ∙ ap (λ t. t ++ written) grown ∙ append_assoc (contents p) (c ∷ []) written)
                full done
        ])
]
