-- ===== src/Bcache/Tests.antt =====
-- A cache in which buffer 28 holds block 7 of device 1, and the others are unused.
use operating_system_assignm.Prelude.{
  ℕ, zero, suc, ◌+◌, ◌-◌, ◌≤◌, ◌≡◌, arith, List, [], ◌∷◌, ◌==◌, true, false, count, if◌then◌else◌,
  ltb,
}
use operating_system_assignm.Bcache.{nbuf, Bcache, bget, bread, brelse}
use operating_system_assignm.Bcache.Links.{Links, IsRing}
use operating_system_assignm.Bcache.Recent.{Released, dropped, brelse-Released}
use operating_system_assignm.Bcache.Lookup.{Got, bget-Got}
use operating_system_assignm.Bcache.Unique.{IsUnique, Reading, bread-Reading}

abbrev cache : Bcache
cache = record {
  buf = λ x.
      if x == 28
      then record { dev = 1; blockno = 7; refcnt = 1; valid = true; dirty = false }
      else record { dev = 0; blockno = 0; refcnt = 0; valid = false; dirty = false };
  next = λ x. if x == 0 then nbuf else x - 1;
  prev = λ x. if x == nbuf then 0 else x + 1;
}

-- `n - 1`, …, 0
abbrev down : ℕ → List ℕ
down zero = []
down (suc n) = n ∷ down n

count-down : (x n : ℕ) → count x (down n) ≡ (if ltb x n then 1 else 0)
count-down x zero = ground arith
count-down x (suc n) = ground (arith, count-down x n)

down-Links : (n : ℕ) → n ≤ nbuf → Links cache.next cache.prev n (down n) nbuf
down-Links zero fits = (ground arith, ground arith)
down-Links (suc n) fits = (ground arith, ground arith, down-Links n (omega arith))

cache-IsRing : IsRing cache (29 ∷ 28 ∷ down 28)
cache-IsRing = record { links = down-Links 30 (omega arith); each = λ x. count-down x 30 }

cache-IsUnique : IsUnique cache
cache-IsUnique = record { one_buffer = λ x y hx hy real e e'. ground arith }

bget-Got_example : Got 1 8 cache (29 ∷ 28 ∷ down 28) (bget 1 8 cache)
bget-Got_example = bget-Got 1 8 cache (29 ∷ 28 ∷ down 28) cache-IsRing

bread-Reading_example : Reading 1 7 cache (29 ∷ 28 ∷ down 28) (bread 1 7 cache)
bread-Reading_example = bread-Reading 1 7 cache (29 ∷ 28 ∷ down 28) cache-IsRing cache-IsUnique

brelse-Released_example :
    Released 28 cache (brelse 28 cache) (29 ∷ []) (down 28)
    × ((brelse 28 cache).buf ≡ (dropped 28 cache).buf)
brelse-Released_example = brelse-Released 28 cache (29 ∷ []) (down 28) cache-IsRing (ground arith)
