-- ===== src/Bcache/Links.antt =====
-- The circular list of buffers through `next` and `prev`.

use operating_system_assignm.Prelude.{
  ℕ, ◌≤◌, ◌≡◌, ◌≢◌, ◌∙◌, arith, List, [], ◌∷◌, ◌++◌, count, if◌then◌else◌, ltb, length, pigeonhole,
  All-of_count,
}
use operating_system_assignm.Bcache.{nbuf, Bcache}

-- From `a` the list runs through `xs`, in both directions, and ends at `b`.
abbrev pub Links : (ℕ → ℕ) → (ℕ → ℕ) → ℕ → List ℕ → ℕ → Type 0
Links next prev a [] b = (next a ≡ b) × (prev b ≡ a)
Links next prev a (x ∷ xs) b = (next a ≡ x) × (prev x ≡ a) × Links next prev x xs b

-- In one direction.
abbrev pub Chain : (ℕ → ℕ) → ℕ → List ℕ → ℕ → Type 0
Chain step a [] b = step a ≡ b
Chain step a (x ∷ xs) b = (step a ≡ x) × Chain step x xs b

-- The buffers in the order of the list, the most recently released first, each once.
pub record IsRing (c : Bcache) (xs : List ℕ) : Type 0 where
  pub links : Links c.next c.prev nbuf xs nbuf
  pub each : (x : ℕ) → count x xs ≡ (if ltb x nbuf then 1 else 0)

module _ {c : Bcache} {xs : List ℕ} (ring : IsRing c xs) where
  pub ring_once : (x : ℕ) → count x xs ≤ 1
  ring_once x = ground (arith, ring.each x)

  pub ring_no_head : count nbuf xs ≡ 0
  ring_no_head = ground (arith, ring.each nbuf)

  pub ring_length : length xs ≤ nbuf
  ring_length =
      pigeonhole nbuf xs (All-of_count nbuf xs (λ x past. ground (arith, ring.each x))) ring_once

pub Links→Chain :
    (next prev : ℕ → ℕ) (a b : ℕ) (xs : List ℕ) → Links next prev a xs b → Chain next a xs b
Links→Chain next prev a b [] l = l.0
Links→Chain next prev a b (x ∷ xs) l = (l.0, Links→Chain next prev x b xs l.2)

Chain-snoc :
    (step : ℕ → ℕ) (a b c : ℕ) (xs : List ℕ)
    → Chain step a xs b
    → step b ≡ c
    → Chain step a (xs ++ (b ∷ [])) c
Chain-snoc step a b c [] h e = (h, e)
Chain-snoc step a b c (x ∷ xs) h e = (h.0, Chain-snoc step x b c xs h.1 e)

-- The other direction.
abbrev pub back : List ℕ → List ℕ
back [] = []
back (x ∷ xs) = back xs ++ (x ∷ [])

pub Links→back :
    (next prev : ℕ → ℕ) (a b : ℕ) (xs : List ℕ) → Links next prev a xs b → Chain prev b (back xs) a
Links→back next prev a b [] l = l.1
Links→back next prev a b (x ∷ xs) l =
    Chain-snoc prev b x a (back xs) (Links→back next prev x b xs l.2) l.1

-- A part of the list does not change where the writes are outside of it.
pub Links-frame :
    (next prev next' prev' : ℕ → ℕ) (a b : ℕ) (xs : List ℕ)
    → ((x : ℕ) → count x (a ∷ xs) ≢ 0 → next' x ≡ next x)
    → ((x : ℕ) → count x (xs ++ (b ∷ [])) ≢ 0 → prev' x ≡ prev x)
    → Links next prev a xs b
    → Links next' prev' a xs b
Links-frame next prev next' prev' a b [] en ep l =
    (en a (ground arith) ∙ l.0, ep b (ground arith) ∙ l.1)
Links-frame next prev next' prev' a b (x ∷ xs) en ep l = (
  en a (ground arith) ∙ l.0,
  ep x (ground arith) ∙ l.1,
  Links-frame next prev next' prev' x b xs (λ y h. en y (ground arith)) (λ y h. ep y (ground arith))
      l.2,
)
