-- ===== src/Fs/Inodes/Getting.antt =====
-- iget and the entry of an inode in use.
use mathlib.Core.Path.{subst}
use operating_system_assignm.Prelude.{
  ℕ, zero, suc, ◌+◌, ◌<◌, ◌≡◌, ◌≢◌, inl, inr, refl, sym, ap, ◌∙◌, arith, true, false, Option, none,
  some, update, ℕ_discrete, Bool-cases, ==-eq, ==-ne,
}
use operating_system_assignm.Fs.Inodes.{
  ninode, Inode, is_cached, Search, cached, behind, remember, iget_loop, iget, idup,
}

-- An inode in use has one entry.
pub record IsUnique (cache : ℕ → Inode) : Type 0 where
  pub one_entry :
      (x y : ℕ)
      → x < ninode
      → y < ninode
      → (cache x).ref ≢ 0
      → (cache y).ref ≢ 0
      → (cache x).dev ≡ (cache y).dev
      → (cache x).inum ≡ (cache y).inum
      → x ≡ y

module _ (dev inum : ℕ) (cache : ℕ → Inode) where
  -- What `iget` comes to.
  pub data Got (out : Option (ℕ × (ℕ → Inode))) : Type 0 where
    hit :
        (i : ℕ)
        → i < ninode
        → is_cached dev inum (cache i) ≡ true
        → out ≡ some (i, idup i cache)
        → IsUnique (idup i cache)
        → Got out
    reused :
        (e : ℕ) (cache' : ℕ → Inode)
        → ((x : ℕ) → x < ninode → is_cached dev inum (cache x) ≡ false)
        → e < ninode
        → (cache e).ref ≡ 0
        → ((x : ℕ) → x < e → (cache x).ref ≢ 0)
        → out ≡ some (e, cache')
        → cache' ≡ update cache e (record { dev = dev; inum = inum; ref = 1; valid = false })
        → IsUnique cache'
        → Got out
    panics :
        ((x : ℕ) → x < ninode → is_cached dev inum (cache x) ≡ false)
        → ((x : ℕ) → x < ninode → (cache x).ref ≢ 0)
        → out ≡ none
        → Got out

  -- What `empty` stands for, before entry `i`.
  data Empty (i : ℕ) : Option ℕ → Type 0 where
    first :
        (e : ℕ)
        → e < i
        → (cache e).ref ≡ 0
        → ((x : ℕ) → x < e → (cache x).ref ≢ 0)
        → Empty i (some e)
    no_empty : ((x : ℕ) → x < i → (cache x).ref ≢ 0) → Empty i none

  -- Where the loop ends.
  data Ended (n : ℕ) : Search → Type 0 where
    found : (i : ℕ) → i < n → is_cached dev inum (cache i) ≡ true → Ended n (cached i)
    missed :
        (empty : Option ℕ)
        → ((x : ℕ) → x < n → is_cached dev inum (cache x) ≡ false)
        → Empty n empty
        → Ended n (behind empty)

  extend {κ} : (i : ℕ) (P : ℕ → Type κ) → ((x : ℕ) → x < i → P x) → P i → (x : ℕ) → x < i + 1 → P x
  extend i P before here x lt = elim (ℕ_discrete i x) [
    | yes e ↦ rw (← e) here
    | no ne ↦ before x (omega arith)
  ]

  remember-Empty :
      (i : ℕ) (empty : Option ℕ) → Empty i empty → Empty (i + 1) (remember i (cache i) empty)
  remember-Empty i _ (first e lt free before) = first e (omega arith) free before
  remember-Empty i _ (no_empty before) = elim (ℕ_discrete (cache i).ref 0) [
    | yes free ↦ rw (==-eq (cache i).ref 0 free) (first i (omega arith) free before)
    | no used ↦
        rw (==-ne (cache i).ref 0 used) (no_empty (extend i (λ x. (cache x).ref ≢ 0) before used))
  ]

  iget_loop-Ended :
      (k i n : ℕ) (empty : Option ℕ)
      → i + k ≡ n
      → ((x : ℕ) → x < i → is_cached dev inum (cache x) ≡ false)
      → Empty i empty
      → Ended n (iget_loop dev inum cache k i empty)
  unfolding iget_loop
  iget_loop-Ended zero i n empty size none_before so_far =
      let same : i ≡ n = omega arith in
      missed empty (λ x lt. none_before x (omega arith)) (subst (λ t. Empty t empty) same so_far)
  iget_loop-Ended (suc k) i n empty size none_before so_far =
      let rest = iget_loop-Ended k (i + 1) n (remember i (cache i) empty) in
      elim (Bool-cases (is_cached dev inum (cache i))) [
        | inl good ↦ rw good (found i (omega arith) good)
        | inr bad ↦ rw bad (
            rest (omega arith)
              (extend i (λ x. is_cached dev inum (cache x) ≡ false) none_before bad)
              (remember-Empty i empty so_far))
      ]

  module _ (one : IsUnique cache) where
    idup-IsUnique : (i : ℕ) → (cache i).ref ≢ 0 → IsUnique (idup i cache)
    unfolding idup
    idup-IsUnique i used = record {
      one_entry = λ x y hx hy rx ry d n.
          one.one_entry x y hx hy (busy x rx) (busy y ry) (sym (same_dev x) ∙ d ∙ same_dev y)
            (sym (same_inum x) ∙ n ∙ same_inum y);
    }
      where
        busy : (x : ℕ) → (idup i cache x).ref ≢ 0 → (cache x).ref ≢ 0
        busy x r z = ground (arith, r, z, used)

        same_dev : (x : ℕ) → (idup i cache x).dev ≡ (cache x).dev
        same_dev x = ground arith

        same_inum : (x : ℕ) → (idup i cache x).inum ≡ (cache x).inum
        same_inum x = ground arith

    abbrev taken : ℕ → ℕ → Inode
    taken e = update cache e (record { dev = dev; inum = inum; ref = 1; valid = false })

    taken_here : (e x : ℕ) → e ≡ x → ((taken e x).dev ≡ dev) × ((taken e x).inum ≡ inum)
    taken_here e x same = (ground (arith, same), ground (arith, same))

    taken_there : (e x : ℕ) → e ≢ x → taken e x ≡ cache x
    taken_there e x other = ground (arith, other)

    -- An entry other than `e` is of another inode.
    no_other :
        (e x y : ℕ)
        → ((x : ℕ) → x < ninode → is_cached dev inum (cache x) ≡ false)
        → y < ninode
        → e ≡ x
        → e ≢ y
        → (taken e y).ref ≢ 0
        → (taken e x).dev ≡ (taken e y).dev
        → (taken e x).inum ≢ (taken e y).inum
    no_other e x y none_cached hy ex ny ry d n =
        let off = taken_there e y ny in
        let d' : dev ≡ (cache y).dev = sym (taken_here e x ex).0 ∙ d ∙ ap (λ t. t.dev) off in
        let n' : inum ≡ (cache y).inum = sym (taken_here e x ex).1 ∙ n ∙ ap (λ t. t.inum) off in
        let r' : (cache y).ref ≢ 0 = λ z. ry (ap (λ t. t.ref) off ∙ z) in
        absurd (ground (arith, none_cached y hy, d', n', r'))

    taken-IsUnique :
        (e : ℕ) → ((x : ℕ) → x < ninode → is_cached dev inum (cache x) ≡ false) → IsUnique (taken e)
    taken-IsUnique e none_cached = record {
      one_entry = λ x y hx hy rx ry d n. elim (ℕ_discrete e x) [
        | yes ex ↦ elim (ℕ_discrete e y) [
          | yes ey ↦ sym ex ∙ ey
          | no ny ↦ absurd (no_other e x y none_cached hy ex ny ry d n)
        ]
        | no nx ↦ elim (ℕ_discrete e y) [
          | yes ey ↦ absurd (no_other e y x none_cached hx ey nx rx (sym d) (sym n))
          | no ny ↦
              let ox = taken_there e x nx in
              let oy = taken_there e y ny in
              one.one_entry x y hx hy (λ z. rx (ap (λ t. t.ref) ox ∙ z))
                (λ z. ry (ap (λ t. t.ref) oy ∙ z))
                (sym (ap (λ t. t.dev) ox) ∙ d ∙ ap (λ t. t.dev) oy)
                (sym (ap (λ t. t.inum) ox) ∙ n ∙ ap (λ t. t.inum) oy)
        ]
      ];
    }

    Got-of :
        (r : Search)
        → Ended ninode r
        → iget_loop dev inum cache ninode 0 none ≡ r
        → Got (iget dev inum cache)
    unfolding iget idup
    Got-of _ (found i lt good) e =
        hit i lt good (rw (iget, e) refl) (idup-IsUnique i (ground (arith, good)))
    Got-of _ (missed _ none_cached (first e lt free before)) eq =
        reused e (taken e) none_cached lt free before (rw (iget, eq) refl) refl
          (taken-IsUnique e none_cached)
    Got-of _ (missed _ none_cached (no_empty all)) e = panics none_cached all (rw (iget, e) refl)

    -- On a cache in which an inode in use has one entry: `iget` takes the entry of the inode and
    -- adds a reference, or, where none has it, the first entry without references, or panics
    -- where there is none; afterwards an inode in use still has one entry.
    pub iget-Got : Got (iget dev inum cache)
    iget-Got =
        Got-of (iget_loop dev inum cache ninode 0 none)
          (iget_loop-Ended ninode 0 ninode none (omega arith) (λ x lt. absurd (omega arith))
            (no_empty (λ x lt. absurd (omega arith))))
          refl
