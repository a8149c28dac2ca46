-- ===== src/Fs/Marks.antt =====
-- What balloc and bfree make of the free blocks.

use operating_system_assignm.Prelude.{
  ℕ, ◌/◌, ◌%◌, ◌<◌, ◌≡◌, ◌≢◌, ◌⊎◌, inl, inr, ap, ◌∙◌, sym, arith, Bool, true, ◌==◌, if◌then◌else◌,
  ℕ_discrete, ==-ne,
}
use operating_system_assignm.Fs.Bits.{is_clear}
use operating_system_assignm.Fs.Bitmap.{bpb, Buffers, bblock, mark}
use operating_system_assignm.Fs.Blocks.{is_free, IsMap}

module _ (size bmapstart : ℕ) where
  abbrev pub free : Buffers → ℕ → Bool
  free = is_free size bmapstart

  -- A change of one bit, to `to`.
  abbrev pub Changes : (ℕ → ℕ → ℕ) → Bool → Type 0
  Changes change to =
      (byte i j : ℕ)
      → byte < 256
      → i < 8
      → j < 8
      → (is_clear (change byte i) j ≡ (if i == j then to else is_clear byte j))
        × (change byte i < 256)

  module _ (change : ℕ → ℕ → ℕ) (to : Bool) (law : Changes change to) (d : Buffers) (b : ℕ) where
    abbrev pub marked : Buffers
    marked = mark size bmapstart change b d

    mark_other :
        (x : ℕ) → x / bpb ≢ b / bpb ⊎ (x % bpb / 8 ≢ b % bpb / 8) → free marked x ≡ free d x
    unfolding mark
    mark_other x (inl other) = ground arith
    mark_other x (inr other) = ground arith

    mark_byte :
        (x : ℕ)
        → d.bytes (bblock size bmapstart b) (b % bpb / 8) < 256
        → x / bpb ≡ b / bpb
        → x % bpb / 8 ≡ b % bpb / 8
        → free marked x ≡ (if b % bpb % 8 == x % bpb % 8 then to else free d x)
    unfolding mark
    mark_byte x small block byte =
        let l =
          (law (d.bytes (bblock size bmapstart b) (b % bpb / 8)) (b % bpb % 8) (x % bpb % 8) small
            (omega arith) (omega arith)).0 in
        rw (block, byte) (ground (arith, l))

    -- The mark changes the bit of `b` alone.
    pub free-mark :
        IsMap size bmapstart d
        → b < size
        → (x : ℕ) → free marked x ≡ (if b == x then to else free d x)
    free-mark v inside x = elim (ℕ_discrete (x / bpb) (b / bpb)) [
      | no other ↦
          mark_other x (inl other) ∙ rw (==-ne b x (λ e. other (ap (λ (y : ℕ). y / bpb) (sym e))))
      | yes block ↦ elim (ℕ_discrete (x % bpb / 8) (b % bpb / 8)) [
        | no other ↦
            mark_other x (inr other)
            ∙ rw (==-ne b x (λ e. other (ap (λ (y : ℕ). y % bpb / 8) (sym e))))
        | yes byte ↦
            mark_byte x (v.byte b (b % bpb / 8) inside) block byte
            ∙ ap (λ t. if t then to else free d x) (same_bit block byte)
      ]
    ]
      where
        same_bit :
            x / bpb ≡ b / bpb → x % bpb / 8 ≡ b % bpb / 8 → (b % bpb % 8 == x % bpb % 8) ≡ (b == x)
        same_bit block byte = ground arith

    pub mark-byte :
        IsMap size bmapstart d
        → b < size
        → (x i : ℕ) → x < size
        → marked.bytes (bblock size bmapstart x) i < 256
    unfolding mark
    mark-byte v inside x i below =
        let l =
          (law (d.bytes (bblock size bmapstart b) (b % bpb / 8)) (b % bpb % 8) 0
            (v.byte b (b % bpb / 8) inside) (omega arith) (omega arith)).1 in
        ground (arith, l, v.byte x i below, v.byte b i inside)

    pub mark_rest :
        (x : ℕ)
        → x ≢ bblock size bmapstart b
        → (marked.bytes x ≡ d.bytes x) × (marked.logged x ≡ d.logged x)
    unfolding mark
    mark_rest x other = (ground arith, ground arith)

    pub mark_logged : marked.logged (bblock size bmapstart b) ≡ true
    unfolding mark
    mark_logged = ground arith
