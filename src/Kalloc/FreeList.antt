-- ===== src/Kalloc/FreeList.antt =====
-- The free list as a list of pages: what `kfree`, `kalloc` and `kmemtop` do to it.
use operating_system_assignm.Prelude.{
  ℕ, zero, suc, ◌+◌, ◌*◌, ◌≤◌, ◌<◌, ◌≡◌, ◌≢◌, ◌⊎◌, inl, inr, refl, arith, false, some, List, [],
  ◌∷◌, update, length, count,
}
use mathlib.Core.Path.{subst, sym}
use operating_system_assignm.Kalloc.{pgsize, bad_page, Kmem, kfree, kalloc, kmemtop, kmemtop_loop}

-- From `r` the pointers run through `pages`, in order, and end in null.
abbrev pub Chain : (ℕ → ℕ) → ℕ → List ℕ → Type 0
Chain next r [] = r ≡ 0
Chain next r (p ∷ ps) = (r ≡ p) × (p ≢ 0) × Chain next (next p) ps

-- The free pages are `pages`, none twice.
pub record IsFree (k : Kmem) (pages : List ℕ) : Type 0 where
  pub chain : Chain k.next k.freelist pages
  pub once : (p : ℕ) → count p pages ≤ 1

-- A write to a page that is not in the chain leaves the chain alone.
Chain-update :
    (next : ℕ → ℕ) (v w r : ℕ) (pages : List ℕ)
    → count v pages ≡ 0
    → Chain next r pages
    → Chain (update next v w) r pages
Chain-update next v w r [] h c = c
Chain-update next v w r (p ∷ ps) h c = (
  c.0,
  c.1,
  subst (λ x. Chain (update next v w) x ps) same
      (Chain-update next v w (next p) ps (ground arith) c.2),
)
  where
    same : next p ≡ update next v w p
    same = ground arith

-- Where `kfree` accepts a page that is not free already, the page comes to the front of the free
-- list, and no page is on it twice.
pub kfree-IsFree :
    (end v : ℕ) {k k' : Kmem} {pages : List ℕ}
    → 0 < end
    → IsFree k pages
    → count v pages ≡ 0
    → kfree end v k ≡ some k'
    → IsFree k' (v ∷ pages)
unfolding kfree
kfree-IsFree end v {k} {k'} {pages} pos f fresh e =
    subst (λ s. IsFree s (v ∷ pages)) state
      (record {
        chain = (
          refl,
          ground arith,
          subst (λ x. Chain (update k.next v k.freelist) x pages) here
              (Chain-update k.next v k.freelist k.freelist pages fresh f.chain),
        );
        once = λ p. ground (arith, f.once p, fresh);
      })
  where
    state : record { freelist = v; next = update k.next v k.freelist } ≡ k'
    state = ground arith

    here : k.freelist ≡ update k.next v k.freelist v
    here = ground arith

-- A good page that is not free already is accepted.
pub kfree-accepts :
    (end v : ℕ) (k : Kmem) (pages : List ℕ)
    → 0 < end
    → IsFree k pages
    → count v pages ≡ 0
    → bad_page end v ≡ false
    → (k' : Kmem) × (kfree end v k ≡ some k') × IsFree k' (v ∷ pages)
unfolding kfree
kfree-accepts end v k pages pos f fresh good =
    let e : kfree end v k ≡ some (record { freelist = v; next = update k.next v k.freelist }) =
      rw good refl in
    (
      record { freelist = v; next = update k.next v k.freelist },
      e,
      kfree-IsFree end v pos f fresh e,
    )

-- What `kalloc` comes to: null and no change where no page is free, or the first free page, which
-- is then no longer free.
abbrev pub Allocates : Kmem → List ℕ → Type 0
Allocates k pages =
    ((pages ≡ []) × (kalloc k ≡ (0, k)))
    ⊎ ((p : ℕ) × (rest : List ℕ) × (pages ≡ p ∷ rest)
        × ((kalloc k).0 ≡ p)
        × (p ≢ 0)
        × (count p rest ≡ 0)
        × IsFree (kalloc k).1 rest)

-- On a free list with no page twice `kalloc` returns null and changes nothing where no page is
-- free; otherwise it hands out the first free page, which is not null and is then no longer
-- free.
pub kalloc_lem : {k : Kmem} {pages : List ℕ} → IsFree k pages → Allocates k pages
unfolding kalloc
kalloc_lem {k} {pages = []} f = inl (refl, ground (arith, f.chain))
kalloc_lem {k} {pages = p ∷ rest} f = inr (
  p,
  rest,
  refl,
  ground (arith, f.chain.0),
  f.chain.1,
  ground (arith, f.once p),
  subst (λ s. IsFree s rest) popped
      (record {
        chain = subst (λ x. Chain k.next (k.next x) rest) (sym f.chain.0) f.chain.2;
        once = λ x. ground (arith, f.once x);
      }),
)
  where
    popped : record k { freelist = k.next k.freelist } ≡ (kalloc k).1
    popped = ground (arith, f.chain.0, f.chain.1)

-- The page that `kfree` accepted the next `kalloc` hands out, and the head of the free list is
-- as before.
pub kalloc-kfree :
    (end v : ℕ) (k : Kmem) {k' : Kmem}
    → 0 < end
    → kfree end v k ≡ some k'
    → ((kalloc k').0 ≡ v) × ((kalloc k').1.freelist ≡ k.freelist)
unfolding kalloc kfree
kalloc-kfree end v k pos e = ground arith

kmemtop_loop_lem :
    (fuel : ℕ) (next : ℕ → ℕ) (r count : ℕ) (pages : List ℕ)
    → length pages < fuel
    → Chain next r pages
    → kmemtop_loop fuel next r count ≡ some (count + length pages)
unfolding kmemtop_loop
kmemtop_loop_lem zero next r n pages h c = elim h [ ]
kmemtop_loop_lem (suc fuel) next r n [] h c = ground arith
kmemtop_loop_lem (suc fuel) next r n (p ∷ ps) h c =
    ground (arith, c.0, c.1, kmemtop_loop_lem fuel next (next p) (n + 1) ps (omega arith) c.2)

-- On a free list with fewer pages than the fuel `kmemtop` ends, and returns the number of bytes
-- in the free pages.
pub kmemtop_lem :
    (fuel : ℕ) {k : Kmem} {pages : List ℕ}
    → length pages < fuel
    → IsFree k pages
    → kmemtop fuel k ≡ some (length pages * pgsize)
unfolding kmemtop
kmemtop_lem fuel {k} {pages} h f =
    ground (arith, kmemtop_loop_lem fuel k.next k.freelist 0 pages h f.chain)
