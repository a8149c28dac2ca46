-- ===== src/Bcache/Lookup.antt =====
-- bget and bread: the loops as a search of the list, and what they return.
use operating_system_assignm.Prelude.{
  ℕ, zero, suc, ◌+◌, ◌<◌, ◌≡◌, ◌≢◌, inl, inr, refl, ap, ◌∙◌, arith, List, [], ◌∷◌, ◌++◌, Bool, true,
  false, Option, none, some, count, count-append, if◌then◌else◌, update, length, length-append,
  Bool-cases,
}
use operating_system_assignm.Bcache.{nbuf, Buf, Bcache, scan, is_block, is_unused, bget}
use operating_system_assignm.Bcache.Links.{
  Chain, back, Links→Chain, Links→back, IsRing, ring_no_head, ring_length,
}

-- The first member that passes the test.
abbrev pub first : (ℕ → Bool) → List ℕ → Option ℕ
first test [] = none
first test (x ∷ xs) = if test x then some x else first test xs

scan-first :
    (test : Buf → Bool) (step : ℕ → ℕ) (buf : ℕ → Buf) (fuel a : ℕ) (xs : List ℕ)
    → Chain step a xs nbuf
    → count nbuf xs ≡ 0
    → length xs < fuel
    → scan test step buf fuel (step a) ≡ first (λ x. test (buf x)) xs
unfolding scan
scan-first test step buf zero a xs h apart enough = absurd (omega arith)
scan-first test step buf (suc fuel) a [] h apart enough = rw h refl
scan-first test step buf (suc fuel) a (x ∷ xs) h apart enough =
    rw h.0 (ground (arith, scan-first test step buf fuel x xs h.1 (ground arith) (omega arith)))

-- What `first` finds.
pub data Found (test : ℕ → Bool) (xs : List ℕ) (out : Option ℕ) : Type 0 where
  nowhere : ((x : ℕ) → count x xs ≢ 0 → test x ≡ false) → out ≡ none → Found test xs out
  at :
      (x : ℕ) (us vs : List ℕ)
      → xs ≡ us ++ (x ∷ vs)
      → test x ≡ true
      → ((y : ℕ) → count y us ≢ 0 → test y ≡ false)
      → out ≡ some x
      → Found test xs out

first-Found : (test : ℕ → Bool) (xs : List ℕ) → Found test xs (first test xs)
first-Found test [] = nowhere (λ x h. absurd (ground arith)) refl
first-Found test (x ∷ xs) = elim (Bool-cases (test x)) [
  | inl good ↦ at x [] xs refl good (λ y h. absurd (ground arith)) (rw good refl)
  | inr bad ↦ elim (first-Found test xs) [
    | nowhere all e ↦ nowhere (λ y h. ground (arith, bad, all y)) (ground (arith, bad, e))
    | at y us vs e good before e' ↦
        at y (x ∷ us) vs (ap (λ t. x ∷ t) e) good (λ z h. ground (arith, bad, before z))
          (ground (arith, bad, e'))
  ]
]

count-back : (x : ℕ) (xs : List ℕ) → count x (back xs) ≡ count x xs
count-back x [] = refl
count-back x (y ∷ ys) = ground (arith, count-append x (back ys) (y ∷ []), count-back x ys)

length-back : (xs : List ℕ) → length (back xs) ≡ length xs
length-back [] = refl
length-back (y ∷ ys) = ground (arith, length-append (back ys) (y ∷ []), length-back ys)

-- One holder more.
abbrev pub held : ℕ → Bcache → Bcache
held b c = record c { buf = update c.buf b (record (c.buf b) { refcnt = (c.buf b).refcnt + 1 }) }

-- Buffer `b` stands for another block, its content not read yet.
abbrev pub recycled : ℕ → ℕ → ℕ → Bcache → Bcache
recycled dev blockno b c = record c {
  buf =
      update c.buf b
        (record { dev = dev; blockno = blockno; refcnt = 1; valid = false; dirty = false });
}

-- What `bget` comes to. The list behind the reused buffer is `older`, the least recently used last.
pub data Got (dev blockno : ℕ) (c : Bcache) (xs : List ℕ) (out : Option (ℕ × Bcache)) : Type 0 where
  cached :
      (b : ℕ)
      → b < nbuf
      → is_block dev blockno (c.buf b) ≡ true
      → out ≡ some (b, held b c)
      → Got dev blockno c xs out
  reused :
      (b : ℕ) (older newer : List ℕ)
      → ((x : ℕ) → x < nbuf → is_block dev blockno (c.buf x) ≡ false)
      → b < nbuf
      → back xs ≡ older ++ (b ∷ newer)
      → is_unused (c.buf b) ≡ true
      → ((x : ℕ) → count x older ≢ 0 → is_unused (c.buf x) ≡ false)
      → out ≡ some (b, recycled dev blockno b c)
      → Got dev blockno c xs out
  panics :
      ((x : ℕ) → x < nbuf → is_block dev blockno (c.buf x) ≡ false)
      → ((x : ℕ) → x < nbuf → is_unused (c.buf x) ≡ false)
      → out ≡ none
      → Got dev blockno c xs out

module _ (dev blockno : ℕ) (c : Bcache) (xs : List ℕ) (ring : IsRing c xs) where
  forward :
      scan (is_block dev blockno) c.next c.buf (nbuf + 1) (c.next nbuf)
      ≡ first (λ x. is_block dev blockno (c.buf x)) xs
  forward =
      scan-first (is_block dev blockno) c.next c.buf (nbuf + 1) nbuf xs
        (Links→Chain c.next c.prev nbuf nbuf xs ring.links) (ring_no_head ring)
        (omega (arith, ring_length ring))

  backward :
      scan is_unused c.prev c.buf (nbuf + 1) (c.prev nbuf)
      ≡ first (λ x. is_unused (c.buf x)) (back xs)
  backward =
      scan-first is_unused c.prev c.buf (nbuf + 1) nbuf (back xs)
        (Links→back c.next c.prev nbuf nbuf xs ring.links) (count-back nbuf xs ∙ ring_no_head ring)
        (omega (arith, ring_length ring, length-back xs))

  inside :
      (b : ℕ) (ys us vs : List ℕ)
      → ((y : ℕ) → count y ys ≡ count y xs)
      → ys ≡ us ++ (b ∷ vs)
      → b < nbuf
  inside b ys us vs same e =
      ground (arith, ring.each b, same b, count-append b us (b ∷ vs), ap (λ t. count b t) e)

  -- On a cache whose list is in order: `bget` returns a buffer that has the block with one
  -- holder more; or, where none has it, the unused buffer that was released longest ago, now the
  -- block's; or it panics where there is none.
  pub bget-Got : Got dev blockno c xs (bget dev blockno c)
  unfolding bget
  bget-Got = elim (first-Found (λ x. is_block dev blockno (c.buf x)) xs) [
    | at b us vs e good before e' ↦
        cached b (inside b xs us vs (λ y. refl) e) good (rw (bget, forward, e') refl)
    | nowhere all e ↦
        let none_holds : (x : ℕ) → x < nbuf → is_block dev blockno (c.buf x) ≡ false =
          λ x below. all x (ground (arith, ring.each x)) in
        elim (first-Found (λ x. is_unused (c.buf x)) (back xs)) [
          | at b us vs e'' good before e' ↦
              reused b us vs none_holds (inside b (back xs) us vs (λ y. count-back y xs) e'') e''
                good before (rw (bget, forward, e, backward, e') refl)
          | nowhere all' e' ↦
              panics none_holds (λ x below. all' x (ground (arith, ring.each x, count-back x xs)))
                (rw (bget, forward, e, backward, e') refl)
        ]
  ]
