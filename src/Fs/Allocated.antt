-- ===== src/Fs/Allocated.antt =====
-- balloc and bfree on the free blocks of a valid map.

use operating_system_assignm.Prelude.{
  ℕ, ◌+◌, ◌/◌, ◌<◌, ◌≡◌, ◌≢◌, inl, inr, refl, ◌∙◌, sym, arith, true, false, Option, none, some,
  ◌==◌, if◌then◌else◌, ℕ_discrete, Bool-cases, ==-ne,
}
use operating_system_assignm.Fs.Bits.{set_bit, clear_bit, set_bit_lem, clear_bit_lem}
use operating_system_assignm.Fs.Bitmap.{bsize, bpb, Buffers, bzero, bblock, mark, balloc, bfree}
use operating_system_assignm.Fs.Blocks.{is_free, IsMap, full, least, find_free-BlockFound}
use operating_system_assignm.Fs.Marks.{free-mark, mark-byte, mark_rest, mark_logged}

module _ (size bmapstart : ℕ) where
  -- Block `b` and its map block alone changed, and both are logged.
  pub record Touches (b : ℕ) (d d' : Buffers) : Type 0 where
    pub elsewhere :
        (x : ℕ)
        → x ≢ b
        → x ≢ bblock size bmapstart b
        → (d'.bytes x ≡ d.bytes x) × (d'.logged x ≡ d.logged x)
    pub map_logged : d'.logged (bblock size bmapstart b) ≡ true

  -- What `balloc` comes to.
  pub data Allocated (d : Buffers) (out : Option (ℕ × Buffers)) : Type 0 where
    exhausted :
        ((x : ℕ) → x < size → is_free size bmapstart d x ≡ false) → out ≡ none → Allocated d out
    block :
        (b : ℕ) (d' : Buffers)
        → out ≡ some (b, d')
        → b < size
        → is_free size bmapstart d b ≡ true
        → ((x : ℕ) → x < b → is_free size bmapstart d x ≡ false)
        → IsMap size bmapstart d'
        → ((x : ℕ)
            → x < size
            → is_free size bmapstart d' x ≡ (if b == x then false else is_free size bmapstart d x))
        → ((i : ℕ) → i < bsize → d'.bytes b i ≡ 0)
        → d'.logged b ≡ true
        → Touches b d d'
        → Allocated d out

  module _ (d : Buffers) (v : IsMap size bmapstart d) where
    abbrev taken : ℕ → Buffers
    taken b = bzero b (mark size bmapstart set_bit b d)

    -- Zeroing a block above the map leaves the map as it is.
    free-taken :
        (b x : ℕ)
        → b < size
        → is_free size bmapstart d b ≡ true
        → x < size
        → is_free size bmapstart (taken b) x
          ≡ (if b == x then false else is_free size bmapstart d x)
    unfolding bzero
    free-taken b x inside clear below =
        let high = v.above b inside clear in
        let m = free-mark size bmapstart set_bit false set_bit_lem d b v inside x in
        let away : b ≢ bblock size bmapstart x = λ e. absurd (omega arith) in
        ground (arith, away, m)

    taken-byte :
        (b x i : ℕ)
        → b < size
        → is_free size bmapstart d b ≡ true
        → x < size
        → (taken b).bytes (bblock size bmapstart x) i < 256
    unfolding bzero
    taken-byte b x i inside clear below =
        let high = v.above b inside clear in
        let away : b ≢ bblock size bmapstart x = λ e. absurd (omega arith) in
        let m = mark-byte size bmapstart set_bit false set_bit_lem d b v inside x i below in
        ground (arith, away, m)

    taken_zero : (b i : ℕ) → i < bsize → ((taken b).bytes b i ≡ 0) × ((taken b).logged b ≡ true)
    unfolding bzero
    taken_zero b i below = (ground arith, ground arith)

    taken-Touches : (b : ℕ) → Touches b d (taken b)
    unfolding bzero
    taken-Touches b = record {
      elsewhere = λ x other off.
          let m = mark_rest size bmapstart set_bit false set_bit_lem d b x off in
          (ground (arith, m), ground (arith, m));
      map_logged = ground (arith, mark_logged size bmapstart set_bit false set_bit_lem d b);
    }

    taken-IsMap :
        (b : ℕ) → b < size → is_free size bmapstart d b ≡ true → IsMap size bmapstart (taken b)
    taken-IsMap b inside clear = record {
      byte = λ x i below. taken-byte b x i inside clear below;
      above = λ x below clear'.
          let f = free-taken b x inside clear below in
          let was : is_free size bmapstart d x ≡ true = ground arith in v.above x below was;
    }

  -- On a valid block map: `balloc` panics exactly where no block is free; else it takes the
  -- first free block, which alone is no longer free, zeroes it, logs it and its map block,
  -- changes no other block, and leaves a valid map.
  pub balloc-Allocated :
      (d : Buffers) → IsMap size bmapstart d → Allocated d (balloc size bmapstart d)
  unfolding balloc
  balloc-Allocated d v = elim (find_free-BlockFound size bmapstart size 0 d refl (omega arith)) [
    | full all e ↦ exhausted (λ x below. all x (omega arith) below) (rw (e, balloc))
    | least b inside clear before e ↦
        block b (taken d v b) (rw (e, balloc)) inside clear
          (λ x below. before x (omega arith) below) (taken-IsMap d v b inside clear)
          (λ x below. free-taken d v b x inside clear below)
          (λ i below. (taken_zero d v b i below).0) (taken_zero d v b 0 (omega arith)).1
          (taken-Touches d v b)
  ]

  -- What `bfree` comes to.
  pub data Freed (b : ℕ) (d : Buffers) (out : Option Buffers) : Type 0 where
    panics : is_free size bmapstart d b ≡ true → out ≡ none → Freed b d out
    freed :
        (d' : Buffers)
        → is_free size bmapstart d b ≡ false
        → out ≡ some d'
        → IsMap size bmapstart d'
        → ((x : ℕ)
            → x < size
            → is_free size bmapstart d' x ≡ (if b == x then true else is_free size bmapstart d x))
        → Touches b d d'
        → Freed b d out

  -- On a valid block map, for a block behind it: `bfree` panics where the block is free; else
  -- the block alone becomes free, only its map block changes and is logged, and the map is
  -- valid.
  pub bfree-Freed :
      (b : ℕ) (d : Buffers)
      → IsMap size bmapstart d
      → b < size
      → bmapstart + size / bpb < b
      → Freed b d (bfree size bmapstart b d)
  unfolding bfree
  bfree-Freed b d v inside high = elim (Bool-cases (is_free size bmapstart d b)) [
    | inl clear ↦ panics clear (rw clear)
    | inr used ↦
        let d' = mark size bmapstart clear_bit b d in
        let bits : (x : ℕ)
            → is_free size bmapstart d' x ≡ (if b == x then true else is_free size bmapstart d x) =
          λ x. free-mark size bmapstart clear_bit true clear_bit_lem d b v inside x in
        freed d' used (rw used)
          (record {
            byte = λ x i below.
                mark-byte size bmapstart clear_bit true clear_bit_lem d b v inside x i below;
            above = λ x below clear'. elim (ℕ_discrete b x) [
              | yes same ↦ rw (← same) high
              | no other ↦ v.above x below (
                  let was : is_free size bmapstart d x ≡ true =
                    sym (bits x ∙ rw (==-ne b x other)) ∙ clear' in
                  was)
            ];
          })
          (λ x below. bits x)
          (record {
            elsewhere =
                λ x other off. mark_rest size bmapstart clear_bit true clear_bit_lem d b x off;
            map_logged = mark_logged size bmapstart clear_bit true clear_bit_lem d b;
          })
  ]
