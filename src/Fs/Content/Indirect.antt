-- ===== src/Fs/Content/Indirect.antt =====
-- bmap where the indirect block is new, and bmap as a whole.
use operating_system_assignm.Prelude.{
  ℕ, ◌+◌, ◌-◌, ◌^◌, ◌≤◌, ◌<◌, ◌≡◌, ◌≢◌, refl, sym, ap, ◌∙◌, arith, true, false, none, some,
  ℕ_discrete, dec_lt,
}
use operating_system_assignm.Fs.Bitmap.{bsize, Buffers}
use operating_system_assignm.Fs.Blocks.{is_free}
use operating_system_assignm.Fs.Content.{
  ndirect, nindirect, entry, Content, fetch_addr, fetch_entry, bmap,
}
use operating_system_assignm.Fs.Content.Words.{entry_zero}
use operating_system_assignm.Fs.Content.Growing.{
  Grown, Grown-InUse, already, no_block, fresh, fetch_addr-Fetch, fetch_entry-Fetch, with_addr,
  with_entry,
}
use operating_system_assignm.Fs.Content.Mapped.{
  block_of, block_of_absent, block_of-entry, IsSound, Mapped, out_of_range, full, one_short, added,
  direct-Mapped, entry-Mapped, entry-Extended,
}

module _ (size bmapstart : ℕ) (small : size ≤ 2 ^ 32) (s : Content)
    (sound : IsSound size bmapstart s) where
  module _ (at : ℕ) (d' : Buffers) (none_yet : s.addrs ndirect ≡ 0)
      (g : Grown size bmapstart s.disk at d') (zero : (i : ℕ) → i < bsize → d'.bytes at i ≡ 0) where
    -- The state with the new indirect block.
    abbrev begun : Content
    begun = with_addr size bmapstart ndirect s at d'

    at_indirect : begun.addrs ndirect ≡ at
    at_indirect = ground arith

    at_nonzero : begun.addrs ndirect ≢ 0
    at_nonzero z = absurd (omega (arith, g.high, at_indirect))

    begun-IsSound : IsSound size bmapstart begun
    begun-IsSound = record {
      valid = g.valid;
      indirect = λ has. rw at_indirect (Grown-InUse size bmapstart s.disk d' at g);
    }

    begun_zero :
        (n : ℕ)
        → ndirect ≤ n
        → n < ndirect + nindirect
        → entry (begun.disk.bytes (begun.addrs ndirect)) (n - ndirect) ≡ 0
    begun_zero n far fits =
        ap (λ t. entry (d'.bytes t) (n - ndirect)) at_indirect
        ∙ entry_zero (d'.bytes at) (n - ndirect) (omega arith) (λ i below. zero i below)

    -- It has no entries.
    begun-block_of : (n : ℕ) → n < ndirect + nindirect → block_of begun n ≡ block_of s n
    begun-block_of n fits = elim (dec_lt n ndirect) [
      | yes near ↦ ground (arith, near)
      | no ge ↦
          let far : ndirect ≤ n = omega arith in
          block_of-entry begun n far at_nonzero
          ∙ begun_zero n far fits
          ∙ sym (block_of_absent s n far none_yet)
    ]

    begun-Mapped :
        (bn : ℕ)
        → ndirect ≤ bn
        → bn < ndirect + nindirect
        → Mapped size bmapstart s bn (fetch_entry size bmapstart at (bn - ndirect) begun)
    begun-Mapped bn far fits =
        let empty = block_of_absent s bn far none_yet in
        let no_entry : entry (begun.disk.bytes at) (bn - ndirect) ≡ 0 =
          entry_zero (d'.bytes at) (bn - ndirect) (omega arith) (λ i below. zero i below) in
        elim (fetch_entry-Fetch size bmapstart at (bn - ndirect) begun g.valid) [
          | already old eq ↦ absurd (old no_entry)
          | no_block _ all eq ↦
              one_short far fits none_yet
                (λ x y hx hy fx fy. sym (only x hx fx (all x hx)) ∙ only y hy fy (all y hy)) eq
          | fresh b d'' _ g' zero' keeps eq ↦
              let x =
                entry-Extended size bmapstart small begun begun-IsSound bn b d'' far at_nonzero g'
                  keeps in
              added b (with_entry size bmapstart at (bn - ndirect) begun b d'') empty
                (λ z. absurd (omega (arith, g'.high))) g'.inside
                (λ _ _. (
                  at,
                  g.inside,
                  g.was_free,
                  λ e. absurd (
                      ground
                        (arith, g.free at g.inside, g'.was_free, ap (is_free size bmapstart d') e)),
                ))
                (record {
                  number = x.number;
                  was_free = ground (arith, x.was_free, g.free b g'.inside);
                  others = λ n fits' other. x.others n fits' other ∙ begun-block_of n fits';
                  sound = x.sound;
                })
                eq
        ]
      where
        only :
            (x : ℕ)
            → x < size
            → is_free size bmapstart s.disk x ≡ true
            → is_free size bmapstart d' x ≡ false
            → at ≡ x
        only x hx fx gone = elim (ℕ_discrete at x) [
          | yes e ↦ e
          | no ne ↦ absurd (ground (arith, g.free x hx, fx, gone, ne))
        ]

  bmap_near : (bn : ℕ) → bn < ndirect → bmap size bmapstart bn s ≡ fetch_addr size bmapstart bn s
  unfolding bmap
  bmap_near bn near = ground (arith, near)

  bmap_out : (bn : ℕ) → ndirect + nindirect ≤ bn → bmap size bmapstart bn s ≡ none
  unfolding bmap
  bmap_out bn out = ground (arith, out)

  bmap_far :
      (bn : ℕ)
      → ndirect ≤ bn
      → bn < ndirect + nindirect
      → bmap size bmapstart bn s ≡ elim (fetch_addr size bmapstart ndirect s) [
        | none ↦ none
        | some (at, s') ↦ fetch_entry size bmapstart at (bn - ndirect) s'
      ]
  unfolding bmap
  bmap_far bn far fits = ground (arith, far, fits)

  -- On a device of at most 2 ^ 32 blocks with a valid map in which the inode's indirect block,
  -- if it has one, is in use: `bmap` panics from block 140 on, and for a block that the inode
  -- lacks exactly where no block is free or, if the inode also lacks the indirect block that it
  -- needs, at most one; it returns the number of a block that the inode has, and changes
  -- nothing; else it gives the block a number that was free, and all other blocks of the inode
  -- keep theirs.
  pub bmap-Mapped : (bn : ℕ) → Mapped size bmapstart s bn (bmap size bmapstart bn s)
  bmap-Mapped bn = elim (dec_lt bn ndirect) [
    | yes near ↦ rw (bmap_near bn near) (direct-Mapped size bmapstart s sound bn near)
    | no ge ↦ elim (dec_lt bn (ndirect + nindirect)) [
      | no out ↦ out_of_range (omega arith) (bmap_out bn (omega arith))
      | yes fits ↦
          let far : ndirect ≤ bn = omega arith in
          rw (bmap_far bn far fits) (elim (fetch_addr-Fetch size bmapstart ndirect s sound.valid) [
            | already has eq ↦ rw eq (entry-Mapped size bmapstart small s sound bn far has)
            | no_block none_yet all eq ↦ full (block_of_absent s bn far none_yet) all (rw eq refl)
            | fresh at d' none_yet g zero keeps eq ↦
                rw eq (begun-Mapped at d' none_yet g zero bn far fits)
          ])
    ]
  ]
