-- ===== src/Fs/Blocks.antt =====
-- The free blocks of the block map: what balloc takes and bfree gives back.

use operating_system_assignm.Prelude.{
  ℕ, zero, suc, ◌+◌, ◌-◌, ◌/◌, ◌%◌, ◌≤◌, ◌<◌, ◌≡◌, inl, inr, refl, ◌∙◌, arith, Bool, true, false,
  Option, none, some, ℕ_discrete, dec_lt, Bool-cases,
}
use operating_system_assignm.Fs.Bits.{is_clear}
use operating_system_assignm.Fs.Bitmap.{bpb, Buffers, bblock, find_bit, find_free}

module _ (size bmapstart : ℕ) where
  -- The bit of block `x` is 0.
  abbrev pub is_free : Buffers → ℕ → Bool
  is_free d x = is_clear (d.bytes (bblock size bmapstart x) (x % bpb / 8)) (x % bpb % 8)

  -- The map has bytes, and counts itself and all before it as used.
  pub record IsMap (d : Buffers) : Type 0 where
    pub byte : (x i : ℕ) → x < size → d.bytes (bblock size bmapstart x) i < 256
    pub above : (x : ℕ) → x < size → is_free d x ≡ true → bmapstart + size / bpb < x

  -- What the search for a bit finds.
  data BitFound (k b bi : ℕ) (content : ℕ → ℕ) (out : Option ℕ) : Type 0 where
    taken :
        ((j : ℕ) → bi ≤ j → j < bi + k → b + j < size → is_clear (content (j / 8)) (j % 8) ≡ false)
        → out ≡ none
        → BitFound k b bi content out
    at :
        (r : ℕ)
        → bi ≤ r
        → r < bi + k
        → b + r < size
        → is_clear (content (r / 8)) (r % 8) ≡ true
        → ((j : ℕ) → bi ≤ j → j < r → is_clear (content (j / 8)) (j % 8) ≡ false)
        → out ≡ some r
        → BitFound k b bi content out

  find_bit-BitFound :
      (k b bi : ℕ) (content : ℕ → ℕ)
      → BitFound k b bi content (find_bit size bmapstart k b bi content)
  unfolding find_bit
  find_bit-BitFound zero b bi content = taken (λ j lo hi below. absurd (omega arith)) refl
  find_bit-BitFound (suc k) b bi content = elim (dec_lt (b + bi) size) [
    | no past ↦ taken (λ j lo hi inside. absurd (omega arith)) (ground arith)
    | yes inside ↦ elim (Bool-cases (is_clear (content (bi / 8)) (bi % 8))) [
      | inl clear ↦
          at bi (omega arith) (omega arith) inside clear (λ j lo hi. absurd (omega arith))
            (ground arith)
      | inr used ↦ elim (find_bit-BitFound k b (bi + 1) content) [
        | taken all e ↦
            taken
              (λ j lo hi below. elim (ℕ_discrete bi j) [
                | yes same ↦ rw (← same) used
                | no later ↦ all j (omega arith) (omega arith) below
              ])
              (ground arith)
        | at r lo hi below clear all e ↦
            at r (omega arith) (omega arith) below clear
              (λ j jlo jhi. elim (ℕ_discrete bi j) [
                | yes same ↦ rw (← same) used
                | no later ↦ all j (omega arith) jhi
              ])
              (ground arith)
      ]
    ]
  ]

  -- What the search for a block finds, from `b` on.
  pub data BlockFound (b : ℕ) (d : Buffers) (out : Option ℕ) : Type 0 where
    full : ((x : ℕ) → b ≤ x → x < size → is_free d x ≡ false) → out ≡ none → BlockFound b d out
    least :
        (x : ℕ)
        → x < size
        → is_free d x ≡ true
        → ((y : ℕ) → b ≤ y → y < x → is_free d y ≡ false)
        → out ≡ some x
        → BlockFound b d out

  -- The bit of a block, seen from the base of its map block.
  bit_of :
      (d : Buffers) (b j : ℕ)
      → b % bpb ≡ 0
      → j < bpb
      → is_free d (b + j) ≡ is_clear (d.bytes (bblock size bmapstart b) (j / 8)) (j % 8)
  bit_of d b j base inside =
      let block : (b + j) / bpb ≡ b / bpb = omega arith in
      let rest : (b + j) % bpb ≡ j = omega arith in rw (block, rest)

  module _ (fuel b : ℕ) (d : Buffers) (inside : b < size) where
    find_free_next :
        find_bit size bmapstart bpb b 0 (d.bytes (bblock size bmapstart b)) ≡ none
        → find_free size bmapstart (suc fuel) b d ≡ find_free size bmapstart fuel (b + bpb) d
    unfolding find_free
    find_free_next e = ground arith

    find_free_here :
        (r : ℕ)
        → find_bit size bmapstart bpb b 0 (d.bytes (bblock size bmapstart b)) ≡ some r
        → find_free size bmapstart (suc fuel) b d ≡ some (b + r)
    unfolding find_free
    find_free_here r e = ground arith

  pub find_free-BlockFound :
      (fuel b : ℕ) (d : Buffers)
      → b % bpb ≡ 0
      → size ≤ b + fuel
      → BlockFound b d (find_free size bmapstart fuel b d)
  unfolding find_free
  find_free-BlockFound zero b d base enough = full (λ x lo hi. absurd (omega arith)) refl
  find_free-BlockFound (suc fuel) b d base enough = elim (dec_lt b size) [
    | no past ↦ full (λ x lo hi. absurd (omega arith)) (ground arith)
    | yes inside ↦ elim (find_bit-BitFound bpb b 0 (d.bytes (bblock size bmapstart b))) [
      | at r lo hi below clear all e ↦
          least (b + r) below (bit_of d b r base (omega arith) ∙ clear)
            (λ y ylo yhi.
              let j : ℕ = y - b in
              let s : y ≡ b + j = omega arith in
              rw s (bit_of d b j base (omega arith) ∙ all j (omega arith) (omega arith)))
            (find_free_here fuel b d inside r e)
      | taken all e ↦
          let used : (y : ℕ) → b ≤ y → y < b + bpb → y < size → is_free d y ≡ false =
            λ y ylo yhi below.
              let j : ℕ = y - b in
              let s : y ≡ b + j = omega arith in
              rw s (
                bit_of d b j base (omega arith)
                ∙ all j (omega arith) (omega arith) (omega arith)) in
          elim (find_free-BlockFound fuel (b + bpb) d (omega arith) (omega arith)) [
            | full rest e' ↦
                full
                  (λ y ylo below. elim (dec_lt y (b + bpb)) [
                    | yes near ↦ used y ylo near below
                    | no far ↦ rest y (omega arith) below
                  ])
                  (find_free_next fuel b d inside e ∙ e')
            | least x below clear rest e' ↦
                least x below clear
                  (λ y ylo yhi. elim (dec_lt y (b + bpb)) [
                    | yes near ↦ used y ylo near (omega arith)
                    | no far ↦ rest y (omega arith) yhi
                  ])
                  (find_free_next fuel b d inside e ∙ e')
          ]
    ]
  ]
