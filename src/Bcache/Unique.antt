-- ===== src/Bcache/Unique.antt =====
-- bread and the buffer of a block.
use operating_system_assignm.Prelude.{
  ℕ, ◌+◌, ◌<◌, ◌≡◌, ◌≢◌, inl, inr, refl, ap, ◌∙◌, sym, arith, List, true, false, Option, none, some,
  update, ℕ_discrete, Bool-cases,
}
use operating_system_assignm.Bcache.{nbuf, Bcache, is_block, is_unused, bget, bread}
use operating_system_assignm.Bcache.Links.{IsRing}
use operating_system_assignm.Bcache.Lookup.{cached, reused, panics, held, recycled, bget-Got}

-- No block of a real device has two buffers; the buffers that were never used have device 0.
pub record IsUnique (c : Bcache) : Type 0 where
  pub one_buffer :
      (x y : ℕ)
      → x < nbuf
      → y < nbuf
      → (c.buf x).dev ≢ 0
      → (c.buf x).dev ≡ (c.buf y).dev
      → (c.buf x).blockno ≡ (c.buf y).blockno
      → x ≡ y

-- What `bread` comes to with no panic: buffer `b` is the block's.
pub record Read (dev blockno : ℕ) (c : Bcache) (xs : List ℕ) (b : ℕ) (c' : Bcache) : Type 0 where
  pub inside : b < nbuf
  pub block : is_block dev blockno (c'.buf b) ≡ true
  pub valid : (c'.buf b).valid ≡ true
  pub used : (c'.buf b).refcnt ≢ 0
  pub order : IsRing c' xs
  pub unique : IsUnique c'
  pub others : (x : ℕ) → x ≢ b → c'.buf x ≡ c.buf x
  pub in_use :
      (c.buf b).refcnt ≢ 0
      → (is_block dev blockno (c.buf b) ≡ true) × ((c'.buf b).refcnt ≡ (c.buf b).refcnt + 1)

pub data Reading (dev blockno : ℕ) (c : Bcache) (xs : List ℕ) (out : Option (ℕ × Bcache))
    : Type 0 where
  read :
      (b : ℕ) (c' : Bcache)
      → out ≡ some (b, c')
      → Read dev blockno c xs b c'
      → Reading dev blockno c xs out
  no_buffer :
      ((x : ℕ)
        → x < nbuf
        → (is_block dev blockno (c.buf x) ≡ false) × (is_unused (c.buf x) ≡ false))
      → out ≡ none
      → Reading dev blockno c xs out

module _ (dev blockno : ℕ) (c : Bcache) (xs : List ℕ) (ring : IsRing c xs) (one : IsUnique c) where
  -- The buffer that `bread` returns, once its content is read.
  abbrev loaded : ℕ → Bcache → Bcache
  loaded b c' = record c' { buf = update c'.buf b (record (c'.buf b) { valid = true }) }

  -- Buffer `b` alone differs, and it is the only one for the block.
  record Changed (b : ℕ) (c' : Bcache) : Type 0 where
    inside : b < nbuf
    next : c'.next ≡ c.next
    prev : c'.prev ≡ c.prev
    others : (x : ℕ) → x ≢ b → c'.buf x ≡ c.buf x
    dev_is : (c'.buf b).dev ≡ dev
    block_is : (c'.buf b).blockno ≡ blockno
    used : (c'.buf b).refcnt ≢ 0
    alone : (x : ℕ) → x < nbuf → dev ≢ 0 → dev ≡ (c.buf x).dev → blockno ≡ (c.buf x).blockno → x ≡ b
    in_use :
        (c.buf b).refcnt ≢ 0
        → (is_block dev blockno (c.buf b) ≡ true) × ((c'.buf b).refcnt ≡ (c.buf b).refcnt + 1)

  loaded-Changed : (b : ℕ) (c' : Bcache) → Changed b c' → Changed b (loaded b c')
  loaded-Changed b c' h = record {
    inside = h.inside;
    next = h.next;
    prev = h.prev;
    others = λ x off. ground (arith, h.others x off, off);
    dev_is = ground (arith, h.dev_is);
    block_is = ground (arith, h.block_is);
    used = ground (arith, h.used);
    alone = h.alone;
    in_use = λ busy. ((h.in_use busy).0, ground (arith, (h.in_use busy).1));
  }

  module _ (b : ℕ) (c' : Bcache) (h : Changed b c') where
    -- The device and the number of the block of a buffer.
    at_b : (x : ℕ) → x ≡ b → ((c'.buf x).dev ≡ dev) × ((c'.buf x).blockno ≡ blockno)
    at_b x e = (ap (λ t. (c'.buf t).dev) e ∙ h.dev_is, ap (λ t. (c'.buf t).blockno) e ∙ h.block_is)

    off_b :
        (x : ℕ)
        → x ≢ b
        → ((c'.buf x).dev ≡ (c.buf x).dev) × ((c'.buf x).blockno ≡ (c.buf x).blockno)
    off_b x off = (ap (λ t. t.dev) (h.others x off), ap (λ t. t.blockno) (h.others x off))

    -- No other buffer has the block of `b`.
    no_other :
        (x y : ℕ)
        → y < nbuf
        → (c'.buf x).dev ≢ 0
        → (c'.buf x).dev ≡ (c'.buf y).dev
        → (c'.buf x).blockno ≡ (c'.buf y).blockno
        → x ≡ b
        → y ≡ b
    no_other x y hy real e e' here = elim (ℕ_discrete y b) [
      | yes same ↦ same
      | no off ↦
          h.alone y hy (λ z. real ((at_b x here).0 ∙ z)) (sym (at_b x here).0 ∙ e ∙ (off_b y off).0)
            (sym (at_b x here).1 ∙ e' ∙ (off_b y off).1)
    ]

    Changed-IsUnique : IsUnique c'
    Changed-IsUnique = record {
      one_buffer = λ x y hx hy real e e'. elim (ℕ_discrete x b) [
        | yes ex ↦ ex ∙ sym (no_other x y hy real e e' ex)
        | no nx ↦ elim (ℕ_discrete y b) [
          | yes ey ↦ no_other y x hx (λ z. real (e ∙ z)) (sym e) (sym e') ey ∙ sym ey
          | no ny ↦
              one.one_buffer x y hx hy (λ z. real ((off_b x nx).0 ∙ z))
                (sym (off_b x nx).0 ∙ e ∙ (off_b y ny).0) (sym (off_b x nx).1 ∙ e' ∙ (off_b y ny).1)
        ]
      ];
    }

  Changed-Read :
      (b : ℕ) (c' : Bcache) → Changed b c' → (c'.buf b).valid ≡ true → Read dev blockno c xs b c'
  Changed-Read b c' h full = record {
    inside = h.inside;
    block = ground (arith, h.dev_is, h.block_is);
    valid = full;
    used = h.used;
    order = record { links = rw (h.next, h.prev) ring.links; each = ring.each };
    unique = Changed-IsUnique b c' h;
    others = h.others;
    in_use = h.in_use;
  }

  held-Changed : (b : ℕ) → b < nbuf → is_block dev blockno (c.buf b) ≡ true → Changed b (held b c)
  held-Changed b below good = record {
    inside = below;
    next = refl;
    prev = refl;
    others = λ x off. ground (arith, off);
    dev_is = ground (arith, good);
    block_is = ground (arith, good);
    used = ground arith;
    alone = λ x hx real e e'.
        one.one_buffer x b hx below (ground (arith, e, real)) (ground (arith, good, e))
          (ground (arith, good, e'));
    in_use = λ busy. (good, ground arith);
  }

  recycled-Changed :
      (b : ℕ)
      → b < nbuf
      → is_unused (c.buf b) ≡ true
      → ((x : ℕ) → x < nbuf → is_block dev blockno (c.buf x) ≡ false)
      → Changed b (recycled dev blockno b c)
  recycled-Changed b below spare none_holds = record {
    inside = below;
    next = refl;
    prev = refl;
    others = λ x off. ground (arith, off);
    dev_is = ground arith;
    block_is = ground arith;
    used = ground arith;
    alone = λ x hx real e e'. absurd (ground (arith, none_holds x hx, e, e'));
    in_use = λ busy. absurd (ground (arith, spare, busy));
  }

  bread_valid :
      (b : ℕ) (c' : Bcache)
      → bget dev blockno c ≡ some (b, c')
      → (c'.buf b).valid ≡ true
      → bread dev blockno c ≡ some (b, c')
  unfolding bread
  bread_valid b c' e full = rw (bread, e, full) refl

  bread_loads :
      (b : ℕ) (c' : Bcache)
      → bget dev blockno c ≡ some (b, c')
      → (c'.buf b).valid ≡ false
      → bread dev blockno c ≡ some (b, loaded b c')
  unfolding bread
  bread_loads b c' e empty = rw (bread, e, empty) refl

  Changed-Reading :
      (b : ℕ) (c' : Bcache)
      → bget dev blockno c ≡ some (b, c')
      → Changed b c'
      → Reading dev blockno c xs (bread dev blockno c)
  Changed-Reading b c' e h = elim (Bool-cases (c'.buf b).valid) [
    | inl v ↦ read b c' (bread_valid b c' e v) (Changed-Read b c' h v)
    | inr nv ↦
        read b (loaded b c') (bread_loads b c' e nv)
          (Changed-Read b (loaded b c') (loaded-Changed b c' h) (ground arith))
  ]

  bread-none : bget dev blockno c ≡ none → bread dev blockno c ≡ none
  unfolding bread
  bread-none e = rw (bread, e) refl

  -- On a cache whose list is in order and in which no block of a device other than 0 has two
  -- buffers: `bread` finds no buffer, and then none has the block and none is unused; or it
  -- returns a valid buffer of the block that is in use, changes no other buffer, keeps the list
  -- and the one buffer for each block, and if the buffer was in use already it was the block's
  -- and has one holder more.
  pub bread-Reading : Reading dev blockno c xs (bread dev blockno c)
  bread-Reading = elim (bget-Got dev blockno c xs ring) [
    | cached b below good e ↦ Changed-Reading b (held b c) e (held-Changed b below good)
    | reused b older newer none_holds below split spare before e ↦
        Changed-Reading b (recycled dev blockno b c) e (recycled-Changed b below spare none_holds)
    | panics none_holds busy e ↦
        no_buffer (λ x below. (none_holds x below, busy x below)) (bread-none e)
  ]
