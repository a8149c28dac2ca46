-- ===== src/Bcache/Moves.antt =====
-- Taking a buffer out of the list, and putting it at the front.
use mathlib.Core.Path.{sym}
use operating_system_assignm.Prelude.{
  ℕ, ◌≤◌, ◌≡◌, ◌≢◌, ap, ◌∙◌, arith, List, [], ◌∷◌, ◌++◌, count, count-append,
}
use operating_system_assignm.Bcache.{nbuf, Bcache, link, unlink}
use operating_system_assignm.Bcache.Links.{Links, Links-frame, IsRing, ring_once, ring_no_head}

module _ (next prev : ℕ → ℕ) where
  Links-split :
      (a b x : ℕ) (us vs : List ℕ)
      → Links next prev a (us ++ (x ∷ vs)) b
      → Links next prev a us x × Links next prev x vs b
  Links-split a b x [] vs l = ((l.0, l.1), l.2)
  Links-split a b x (u ∷ us) vs l =
      let (front, rest) = Links-split u b x us vs l.2 in ((l.0, l.1, front), rest)

  -- The neighbours of a buffer in the list.
  next_in : (x b : ℕ) (vs : List ℕ) → Links next prev x vs b → count (next x) (vs ++ (b ∷ [])) ≢ 0
  next_in x b [] l = ground arith
  next_in x b (v ∷ vs) l = ground arith

  prev_in : (a u x : ℕ) (us : List ℕ) → Links next prev a (u ∷ us) x → count (prev x) (u ∷ us) ≢ 0
  prev_in a u x [] l = ground arith
  prev_in a u x (u' ∷ us) l = ground (arith, prev_in u u' x us l.2)

  -- Each buffer once, and neither end among them.
  record IsOnce (a b : ℕ) (xs : List ℕ) : Type 0 where
    once : (y : ℕ) → count y xs ≤ 1
    no_start : count a xs ≡ 0
    no_end : count b xs ≡ 0

  -- The list without `x`, where its neighbours point to each other.
  module _ (next' prev' : ℕ → ℕ) (x : ℕ) (over : next' (prev x) ≡ next x)
      (under : prev' (next x) ≡ prev x) (en : (y : ℕ) → y ≢ prev x → next' y ≡ next y)
      (ep : (y : ℕ) → y ≢ next x → prev' y ≡ prev y) where
    Links-bypass :
        (a b : ℕ) (us vs : List ℕ)
        → IsOnce a b (us ++ (x ∷ vs))
        → Links next prev a us x
        → Links next prev x vs b
        → Links next' prev' a (us ++ vs) b
    Links-bypass a b [] [] o l r = (ground arith, ground arith)
    Links-bypass a b [] (v ∷ vs) o l r = (
      ground arith,
      ground arith,
      Links-frame next prev next' prev' v b vs (λ y h. en y (λ e. h (rw (e ∙ l.1) (ground arith))))
          (λ y h.
            ep y (λ e. h (rw (e ∙ r.0) (ground (arith, o.once v, count-append v vs (b ∷ []))))))
          r.2,
    )
    Links-bypass a b (u ∷ us) vs o l r = (
      en a (λ e.
            prev_in a u x us l
              (ap (λ t. count t (u ∷ us)) (sym e) ∙ ground (arith, count-append a us (x ∷ vs))))
          ∙ l.0,
      ep u (λ e. next_in x b vs r (
            ap (λ t. count t (vs ++ (b ∷ []))) (sym e)
            ∙ ground (arith, o.once u, count-append u us (x ∷ vs), count-append u vs (b ∷ []))))
          ∙ l.1,
      Links-bypass u b us vs
          (record {
            once = λ y. omega (arith, o.once y);
            no_start = ground (arith, o.once u);
            no_end = omega arith;
          })
          l.2 r,
    )

-- Out of the list.
pub unlink-Links :
    (c : Bcache) (x : ℕ) (us vs : List ℕ)
    → IsRing c (us ++ (x ∷ vs))
    → Links (unlink x c).next (unlink x c).prev nbuf (us ++ vs) nbuf
unfolding unlink
unlink-Links c x us vs ring =
    let (front, rest) = Links-split c.next c.prev nbuf nbuf x us vs ring.links in
    let apart : c.next x ≢ x = λ e. next_in c.next c.prev x nbuf vs rest (
      ap (λ t. count t (vs ++ (nbuf ∷ []))) e
      ∙ ground (
        arith,
        ring_no_head ring,
        ring_once ring x,
        count-append x us (x ∷ vs),
        count-append nbuf us (x ∷ vs),
        count-append x vs (nbuf ∷ []),
      )) in
    Links-bypass c.next c.prev (unlink x c).next (unlink x c).prev x (ground (arith, apart))
      (ground arith) (λ y h. ground (arith, apart, h)) (λ y h. ground (arith, h)) nbuf nbuf us vs
      (record { once = ring_once ring; no_start = ring_no_head ring; no_end = ring_no_head ring })
      front rest

-- To the front.
pub link-Links :
    (c : Bcache) (x : ℕ) (zs : List ℕ)
    → Links c.next c.prev nbuf zs nbuf
    → count x zs ≡ 0
    → count nbuf zs ≡ 0
    → x ≢ nbuf
    → ((y : ℕ) → count y zs ≤ 1)
    → Links (link x c).next (link x c).prev nbuf (x ∷ zs) nbuf
unfolding link
link-Links c x [] l new no_head other once =
    (ground arith, ground arith, (ground arith, ground arith))
link-Links c x (z ∷ zs) l new no_head other once = (
  ground arith,
  ground arith,
  (
    ground arith,
    ground arith,
    Links-frame c.next c.prev (link x c).next (link x c).prev z nbuf zs
        (λ y h.
          let off : y ≢ x = λ e. h (ap (λ t. count t (z ∷ zs)) e ∙ new) in
          let low : y ≢ nbuf = λ e. h (ap (λ t. count t (z ∷ zs)) e ∙ no_head) in
          ground (arith, off, low))
        (λ y h.
          let off : y ≢ x = λ e. h (
            ap (λ t. count t (zs ++ (nbuf ∷ []))) e
            ∙ ground (arith, count-append x zs (nbuf ∷ []))) in
          let past : y ≢ z = λ e. h (
            ap (λ t. count t (zs ++ (nbuf ∷ []))) e
            ∙ ground (arith, once z, count-append z zs (nbuf ∷ []))) in
          ground (arith, off, past))
        l.2,
  ),
)
