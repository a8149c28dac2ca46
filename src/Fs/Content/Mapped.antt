-- ===== src/Fs/Content/Mapped.antt =====
-- bmap against the numbers of the blocks of an inode.
use mathlib.Core.Path.{subst}
use operating_system_assignm.Prelude.{
  ℕ, ◌+◌, ◌-◌, ◌^◌, ◌≤◌, ◌<◌, ◌≡◌, ◌≢◌, refl, sym, ap, ◌∙◌, arith, true, false, Option, none, some,
  ltb, ◌==◌, if◌then◌else◌, update, ℕ_discrete, dec_lt,
}
use operating_system_assignm.Fs.Bitmap.{Buffers}
use operating_system_assignm.Fs.Blocks.{is_free, IsMap}
use operating_system_assignm.Fs.Content.{
  ndirect, nindirect, entry, put_entry, Content, fetch_addr, fetch_entry,
}
use operating_system_assignm.Fs.Content.Words.{entry-put_entry, entry_other}
use operating_system_assignm.Fs.Content.Growing.{
  InUse, Grown, InUse-Grown, put_block-Grown, already, no_block, fresh, fetch_addr-Fetch,
  fetch_entry-Fetch, with_addr, with_entry,
}

-- The number of block `n` of an inode, 0 where it has none.
abbrev pub block_of : Content → ℕ → ℕ
block_of s n =
    if ltb n ndirect
    then s.addrs n
    else if s.addrs ndirect == 0
    then 0
    else entry (s.disk.bytes (s.addrs ndirect)) (n - ndirect)

pub block_of_direct : (s : Content) (n : ℕ) → n < ndirect → block_of s n ≡ s.addrs n
block_of_direct s n near = ground (arith, near)

pub block_of_absent : (s : Content) (n : ℕ) → ndirect ≤ n → s.addrs ndirect ≡ 0 → block_of s n ≡ 0
block_of_absent s n far none_yet = ground (arith, far, none_yet)

pub block_of-entry :
    (s : Content) (n : ℕ)
    → ndirect ≤ n
    → s.addrs ndirect ≢ 0
    → block_of s n ≡ entry (s.disk.bytes (s.addrs ndirect)) (n - ndirect)
block_of-entry s n far has = ground (arith, far, has)

-- What the number of a block depends on.
pub block_of_same :
    (s s' : Content) (n : ℕ)
    → (n < ndirect → s'.addrs n ≡ s.addrs n)
    → s'.addrs ndirect ≡ s.addrs ndirect
    → (ndirect ≤ n
        → s.addrs ndirect ≢ 0
        → entry (s'.disk.bytes (s.addrs ndirect)) (n - ndirect)
          ≡ entry (s.disk.bytes (s.addrs ndirect)) (n - ndirect))
    → block_of s' n ≡ block_of s n
block_of_same s s' n near same far = elim (dec_lt n ndirect) [
  | yes lt ↦ block_of_direct s' n lt ∙ near lt ∙ sym (block_of_direct s n lt)
  | no ge ↦
      let le : ndirect ≤ n = omega arith in
      elim (ℕ_discrete (s.addrs ndirect) 0) [
        | yes none_yet ↦
            block_of_absent s' n le (same ∙ none_yet) ∙ sym (block_of_absent s n le none_yet)
        | no has ↦
            block_of-entry s' n le (λ z. has (sym same ∙ z))
            ∙ ap (λ t. entry (s'.disk.bytes t) (n - ndirect)) same
            ∙ far le has
            ∙ sym (block_of-entry s n le has)
      ]
]

module _ (size bmapstart : ℕ) where
  -- A valid map, in which the indirect block is in use.
  pub record IsSound (s : Content) : Type 0 where
    pub valid : IsMap size bmapstart s.disk
    pub indirect : s.addrs ndirect ≢ 0 → InUse size bmapstart s.disk (s.addrs ndirect)

  -- Block `bn` is now `b`, which was free, and the others are as they were.
  pub record Extended (s : Content) (bn b : ℕ) (s' : Content) : Type 0 where
    pub number : block_of s' bn ≡ b
    pub was_free : is_free size bmapstart s.disk b ≡ true
    pub others : (n : ℕ) → n < ndirect + nindirect → n ≢ bn → block_of s' n ≡ block_of s n
    pub sound : IsSound s'

  -- What `bmap` comes to.
  pub data Mapped (s : Content) (bn : ℕ) (out : Option (ℕ × Content)) : Type 0 where
    out_of_range : ndirect + nindirect ≤ bn → out ≡ none → Mapped s bn out
    there : block_of s bn ≢ 0 → out ≡ some (block_of s bn, s) → Mapped s bn out
    full :
        block_of s bn ≡ 0
        → ((x : ℕ) → x < size → is_free size bmapstart s.disk x ≡ false)
        → out ≡ none
        → Mapped s bn out
    one_short :
        ndirect ≤ bn
        → bn < ndirect + nindirect
        → s.addrs ndirect ≡ 0
        → ((x y : ℕ)
            → x < size
            → y < size
            → is_free size bmapstart s.disk x ≡ true
            → is_free size bmapstart s.disk y ≡ true
            → x ≡ y)
        → out ≡ none
        → Mapped s bn out
    added :
        (b : ℕ) (s' : Content)
        → block_of s bn ≡ 0
        → b ≢ 0
        → b < size
        → (ndirect ≤ bn
            → s.addrs ndirect ≡ 0
            → (x : ℕ) × (x < size) × (is_free size bmapstart s.disk x ≡ true) × (x ≢ b))
        → Extended s bn b s'
        → out ≡ some (b, s')
        → Mapped s bn out

  module _ (s : Content) (sound : IsSound s) where
    -- A new direct block.
    direct-Extended :
        (bn b : ℕ) (d' : Buffers)
        → bn < ndirect
        → Grown size bmapstart s.disk b d'
        → ((x : ℕ) → InUse size bmapstart s.disk x → d'.bytes x ≡ s.disk.bytes x)
        → Extended s bn b (with_addr size bmapstart bn s b d')
    direct-Extended bn b d' near g keeps = record {
      number = ground (arith, near);
      was_free = g.was_free;
      others = λ n fits other.
          block_of_same s (with_addr size bmapstart bn s b d') n (λ lt. ground (arith, other))
            (ground (arith, near))
            (λ le has.
              ap (λ f. entry f (n - ndirect)) (keeps (s.addrs ndirect) (sound.indirect has)));
      sound = record {
        valid = g.valid;
        indirect = λ has.
            let same : s.addrs ndirect ≡ update s.addrs bn b ndirect = ground (arith, near) in
            subst (InUse size bmapstart d') same (
              InUse-Grown size bmapstart s.disk d' b (s.addrs ndirect) g
                (sound.indirect (λ z. has (sym same ∙ z))));
      };
    }

    pub direct-Mapped : (bn : ℕ) → bn < ndirect → Mapped s bn (fetch_addr size bmapstart bn s)
    direct-Mapped bn near =
        let e = block_of_direct s bn near in
        elim (fetch_addr-Fetch size bmapstart bn s sound.valid) [
          | already has eq ↦ there (λ z. has (sym e ∙ z)) (rw e eq)
          | no_block none_yet all eq ↦ full (e ∙ none_yet) all eq
          | fresh b d' none_yet g zero keeps eq ↦
              added b (with_addr size bmapstart bn s b d') (e ∙ none_yet)
                (λ z. absurd (omega (arith, g.high))) g.inside (λ far. absurd (omega arith))
                (direct-Extended bn b d' near g keeps) eq
        ]

  module _ (small : size ≤ 2 ^ 32) (s : Content) (sound : IsSound s) where
    -- A new entry of the indirect block.
    pub entry-Extended :
        (bn b : ℕ) (d' : Buffers)
        → ndirect ≤ bn
        → s.addrs ndirect ≢ 0
        → Grown size bmapstart s.disk b d'
        → ((x : ℕ) → InUse size bmapstart s.disk x → d'.bytes x ≡ s.disk.bytes x)
        → Extended s bn b (with_entry size bmapstart (s.addrs ndirect) (bn - ndirect) s b d')
    entry-Extended bn b d' far has g keeps =
        let at = s.addrs ndirect in
        let j = bn - ndirect in
        let s' = with_entry size bmapstart at j s b d' in
        let u = sound.indirect has in
        let g' =
          put_block-Grown size bmapstart s.disk d' b at (put_entry (d'.bytes at) j b) u.high g in
        let here : s'.disk.bytes at ≡ put_entry (d'.bytes at) j b = ground arith in
        record {
          number =
              block_of-entry s' bn far has
              ∙ ap (λ f. entry f j) here
              ∙ entry-put_entry (d'.bytes at) j b (omega (arith, g.inside));
          was_free = g.was_free;
          others = λ n fits other.
              block_of_same s s' n (λ lt. refl) refl
                (λ le has'.
                  ap (λ f. entry f (n - ndirect)) here
                  ∙ entry_other (d'.bytes at) j b (n - ndirect) (λ e. other (omega arith))
                  ∙ ap (λ f. entry f (n - ndirect)) (keeps at u));
          sound = record {
            valid = g'.valid;
            indirect = λ has'. InUse-Grown size bmapstart s.disk s'.disk b at g' u;
          };
        }

    -- With an indirect block.
    pub entry-Mapped :
        (bn : ℕ)
        → ndirect ≤ bn
        → s.addrs ndirect ≢ 0
        → Mapped s bn (fetch_entry size bmapstart (s.addrs ndirect) (bn - ndirect) s)
    entry-Mapped bn far has =
        let e = block_of-entry s bn far has in
        elim (fetch_entry-Fetch size bmapstart (s.addrs ndirect) (bn - ndirect) s sound.valid) [
          | already old eq ↦ there (λ z. old (sym e ∙ z)) (rw e eq)
          | no_block none_yet all eq ↦ full (e ∙ none_yet) all eq
          | fresh b d' none_yet g zero keeps eq ↦
              added b (with_entry size bmapstart (s.addrs ndirect) (bn - ndirect) s b d')
                (e ∙ none_yet) (λ z. absurd (omega (arith, g.high))) g.inside
                (λ far' none_there. absurd (has none_there))
                (entry-Extended bn b d' far has g keeps) eq
        ]
