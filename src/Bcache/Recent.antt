-- ===== src/Bcache/Recent.antt =====
-- binit and brelse: the order of the list.

use operating_system_assignm.Prelude.{
  ℕ, zero, suc, ◌+◌, ◌-◌, ◌≤◌, ◌<◌, ◌≡◌, ◌≢◌, refl, ◌∙◌, arith, List, [], ◌∷◌, ◌++◌, count,
  count-append, if◌then◌else◌, update, one_if, ltb, ℕ_discrete,
}
use operating_system_assignm.Bcache.{nbuf, Bcache, link, unlink, binit_loop, binit, brelse}
use operating_system_assignm.Bcache.Links.{Links, IsRing, ring_once, ring_no_head}
use operating_system_assignm.Bcache.Moves.{unlink-Links, link-Links}

-- The loop puts each of the remaining buffers at the front of the list.
binit_loop-Links :
    (k i : ℕ) (c : Bcache) (zs : List ℕ)
    → i + k ≤ nbuf
    → Links c.next c.prev nbuf zs nbuf
    → ((x : ℕ) → count x zs ≡ (if ltb x i then 1 else 0))
    → (xs : List ℕ) × Links (binit_loop k i c).next (binit_loop k i c).prev nbuf xs nbuf
      × ((x : ℕ) → count x xs ≡ (if ltb x (i + k) then 1 else 0))
unfolding binit_loop
binit_loop-Links zero i c zs fits l each = (zs, l, λ x. ground (arith, each x))
binit_loop-Links (suc k) i c zs fits l each =
    let step =
      link-Links c i zs l (ground (arith, each i)) (ground (arith, each nbuf))
        (λ e. absurd (omega arith)) (λ y. ground (arith, each y)) in
    let (xs, l', each') =
      binit_loop-Links k (i + 1) (link i c) (i ∷ zs) (omega arith) step
        (λ x. ground (arith, each x)) in
    (xs, l', λ x. each' x ∙ ground arith)

pub binit-IsRing : (c : Bcache) → (xs : List ℕ) × IsRing (binit c) xs
unfolding binit
binit-IsRing c =
    let (xs, l, each) =
      binit_loop-Links nbuf 0
        (record c { next = update c.next nbuf nbuf; prev = update c.prev nbuf nbuf }) []
        (omega arith) (ground arith, ground arith) (λ x. ground arith) in
    (xs, record { links = l; each = each })

-- What `brelse` comes to.
pub data Released (b : ℕ) (c c' : Bcache) (us vs : List ℕ) : Type 0 where
  stays : (c.buf b).refcnt ≢ 1 → IsRing c' (us ++ (b ∷ vs)) → Released b c c' us vs
  front : (c.buf b).refcnt ≡ 1 → IsRing c' (b ∷ (us ++ vs)) → Released b c c' us vs

front-IsRing :
    (b : ℕ) (c : Bcache) (us vs : List ℕ)
    → IsRing c (us ++ (b ∷ vs))
    → IsRing (link b (unlink b c)) (b ∷ (us ++ vs))
front-IsRing b c us vs ring =
    let split : (y : ℕ) → count y (us ++ (b ∷ vs)) ≡ one_if b y + count y (us ++ vs) =
      λ y. ground (arith, count-append y us (b ∷ vs), count-append y us vs) in
    record {
      links =
          link-Links (unlink b c) b (us ++ vs) (unlink-Links c b us vs ring)
            (ground (arith, ring_once ring b, split b))
            (ground (arith, ring_no_head ring, split nbuf))
            (λ e. ground (arith, ring_no_head ring, split nbuf))
            (λ y. omega (arith, ring_once ring y, split y));
      each = λ y. omega (arith, ring.each y, split y);
    }

-- One holder less.
abbrev pub dropped : ℕ → Bcache → Bcache
dropped b c = record c { buf = update c.buf b (record (c.buf b) { refcnt = (c.buf b).refcnt - 1 }) }

brelse_last :
    (b : ℕ) (c : Bcache) → (c.buf b).refcnt ≡ 1 → brelse b c ≡ link b (unlink b (dropped b c))
unfolding brelse
brelse_last b c e = ground arith

brelse_shared : (b : ℕ) (c : Bcache) → 1 < (c.buf b).refcnt → brelse b c ≡ dropped b c
unfolding brelse
brelse_shared b c many = ground arith

link-buf : (b x : ℕ) (c : Bcache) → (link b (unlink x c)).buf ≡ c.buf
unfolding link unlink
link-buf b x c = refl

-- On a cache whose list is in order, for a buffer in use: `brelse` takes one holder away and
-- changes no other buffer; if it was the last one the buffer moves to the front of the list, and
-- the others keep their order; if not, the list stays as it is.
pub brelse-Released :
    (b : ℕ) (c : Bcache) (us vs : List ℕ)
    → IsRing c (us ++ (b ∷ vs))
    → 0 < (c.buf b).refcnt
    → Released b c (brelse b c) us vs × ((brelse b c).buf ≡ (dropped b c).buf)
brelse-Released b c us vs ring held =
    let ring' : IsRing (dropped b c) (us ++ (b ∷ vs)) = record {
      links = ring.links;
      each = ring.each;
    } in
    elim (ℕ_discrete (c.buf b).refcnt 1) [
      | yes e ↦
          rw (brelse_last b c e)
            (front e (front-IsRing b (dropped b c) us vs ring'), link-buf b b (dropped b c))
      | no ne ↦ rw (brelse_shared b c (omega arith)) (stays ne ring', refl)
    ]
