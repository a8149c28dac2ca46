-- ===== src/Fs/Content/Growing.antt =====
-- A block that balloc adds to an inode, beside the blocks that are in use.
use mathlib.Core.Path.{subst}
use operating_system_assignm.Prelude.{
  ℕ, ◌+◌, ◌/◌, ◌%◌, ◌<◌, ◌≡◌, ◌≢◌, refl, sym, ap, ◌∙◌, arith, true, false, Option, none, some, ◌==◌,
  if◌then◌else◌, update, ℕ_discrete, ==-ne, ==-eq,
}
use operating_system_assignm.Fs.Bits.{is_clear}
use operating_system_assignm.Fs.Bitmap.{bsize, bpb, Buffers, put_block, bblock}
use operating_system_assignm.Fs.Blocks.{is_free, IsMap}
use operating_system_assignm.Fs.Allocated.{exhausted, block, Touches, balloc-Allocated}
use operating_system_assignm.Fs.Content.{entry, put_entry, Content, fetch_addr, fetch_entry}

module _ (size bmapstart : ℕ) where
  -- A block in use behind the map.
  pub record InUse (d : Buffers) (x : ℕ) : Type 0 where
    pub inside : x < size
    pub used : is_free size bmapstart d x ≡ false
    pub high : bmapstart + size / bpb < x

  -- Block `b` was free and is now taken; the blocks in use are as they were.
  pub record Grown (d : Buffers) (b : ℕ) (d' : Buffers) : Type 0 where
    pub valid : IsMap size bmapstart d'
    pub inside : b < size
    pub was_free : is_free size bmapstart d b ≡ true
    pub high : bmapstart + size / bpb < b
    pub free :
        (x : ℕ)
        → x < size
        → is_free size bmapstart d' x ≡ (if b == x then false else is_free size bmapstart d x)

  Allocated-Grown :
      (d d' : Buffers) (b : ℕ)
      → IsMap size bmapstart d
      → b < size
      → is_free size bmapstart d b ≡ true
      → IsMap size bmapstart d'
      → ((x : ℕ)
          → x < size
          → is_free size bmapstart d' x ≡ (if b == x then false else is_free size bmapstart d x))
      → Grown d b d'
  Allocated-Grown d d' b v below clear v' free = record {
    valid = v';
    inside = below;
    was_free = clear;
    high = v.above b below clear;
    free = free;
  }

  -- Blocks in use are not touched, and stay in use.
  InUse-bytes :
      (d d' : Buffers) (b x : ℕ)
      → b < size
      → is_free size bmapstart d b ≡ true
      → Touches size bmapstart b d d'
      → InUse d x
      → d'.bytes x ≡ d.bytes x
  InUse-bytes d d' b x below clear touched u =
      (touched.elsewhere x
        (λ e. absurd (ground (arith, u.used, clear, ap (is_free size bmapstart d) e)))
        (λ e.
          absurd (let low : bblock size bmapstart b < x = omega (arith, u.high) in omega arith))).0

  pub InUse-Grown : (d d' : Buffers) (b x : ℕ) → Grown d b d' → InUse d x → InUse d' x
  InUse-Grown d d' b x g u = record {
    inside = u.inside;
    used = g.free x u.inside ∙ ground (arith, u.used);
    high = u.high;
  }

  pub Grown-InUse : (d d' : Buffers) (b : ℕ) → Grown d b d' → InUse d' b
  Grown-InUse d d' b g = record {
    inside = g.inside;
    used = g.free b g.inside ∙ ground arith;
    high = g.high;
  }

  -- A write behind the map.
  put_block-bytes :
      (d : Buffers) (at x : ℕ) (content : ℕ → ℕ)
      → bmapstart + size / bpb < at
      → x < size
      → (put_block at content d).bytes (bblock size bmapstart x) ≡ d.bytes (bblock size bmapstart x)
  put_block-bytes d at x content high below =
      let away : at ≢ bblock size bmapstart x = λ e. absurd (omega arith) in ground (arith, away)

  pub put_block-Grown :
      (d d' : Buffers) (b at : ℕ) (content : ℕ → ℕ)
      → bmapstart + size / bpb < at
      → Grown d b d'
      → Grown d b (put_block at content d')
  put_block-Grown d d' b at content high g =
      let same : (x : ℕ)
          → x < size
          → is_free size bmapstart (put_block at content d') x ≡ is_free size bmapstart d' x =
        λ x below.
          ap (λ f. is_clear (f (x % bpb / 8)) (x % bpb % 8))
            (put_block-bytes d' at x content high below) in
      record {
        valid = record {
          byte = λ x i below.
              subst (λ t. t < 256)
                (sym (ap (λ f. f i) (put_block-bytes d' at x content high below)))
                (g.valid.byte x i below);
          above = λ x below clear. g.valid.above x below (sym (same x below) ∙ clear);
        };
        inside = g.inside;
        was_free = g.was_free;
        high = g.high;
        free = λ x below. same x below ∙ g.free x below;
      }

  -- What `fetch_addr` and `fetch_entry` come to, where `old` is the number of the block so far and
  -- `taken` the state with a new one.
  pub data Fetch (old : ℕ) (s : Content) (taken : ℕ → Buffers → Content)
      (out : Option (ℕ × Content)) : Type 0 where
    already : old ≢ 0 → out ≡ some (old, s) → Fetch old s taken out
    no_block :
        old ≡ 0
        → ((x : ℕ) → x < size → is_free size bmapstart s.disk x ≡ false)
        → out ≡ none
        → Fetch old s taken out
    fresh :
        (b : ℕ) (d' : Buffers)
        → old ≡ 0
        → Grown s.disk b d'
        → ((i : ℕ) → i < bsize → d'.bytes b i ≡ 0)
        → ((x : ℕ) → InUse s.disk x → d'.bytes x ≡ s.disk.bytes x)
        → out ≡ some (b, taken b d')
        → Fetch old s taken out

  abbrev pub with_addr : ℕ → Content → ℕ → Buffers → Content
  with_addr i s b d = record { addrs = update s.addrs i b; disk = d }

  pub fetch_addr-Fetch :
      (i : ℕ) (s : Content)
      → IsMap size bmapstart s.disk
      → Fetch (s.addrs i) s (with_addr i s) (fetch_addr size bmapstart i s)
  unfolding fetch_addr
  fetch_addr-Fetch i s v = elim (ℕ_discrete (s.addrs i) 0) [
    | no has ↦ already has (rw (fetch_addr, ==-ne (s.addrs i) 0 has) refl)
    | yes none_yet ↦ elim (balloc-Allocated size bmapstart s.disk v) [
      | exhausted all e ↦
          no_block none_yet all (rw (fetch_addr, ==-eq (s.addrs i) 0 none_yet, e) refl)
      | block b d' e below clear before v' free zero logged touched ↦
          fresh b d' none_yet (Allocated-Grown s.disk d' b v below clear v' free) zero
            (λ x u. InUse-bytes s.disk d' b x below clear touched u)
            (rw (fetch_addr, ==-eq (s.addrs i) 0 none_yet, e) refl)
    ]
  ]

  abbrev pub with_entry : ℕ → ℕ → Content → ℕ → Buffers → Content
  with_entry at j s b d = record s { disk = put_block at (put_entry (d.bytes at) j b) d }

  pub fetch_entry-Fetch :
      (at j : ℕ) (s : Content)
      → IsMap size bmapstart s.disk
      → Fetch (entry (s.disk.bytes at) j) s (with_entry at j s) (fetch_entry size bmapstart at j s)
  unfolding fetch_entry
  fetch_entry-Fetch at j s v = elim (ℕ_discrete (entry (s.disk.bytes at) j) 0) [
    | no has ↦ already has (rw (fetch_entry, ==-ne (entry (s.disk.bytes at) j) 0 has) refl)
    | yes none_yet ↦ elim (balloc-Allocated size bmapstart s.disk v) [
      | exhausted all e ↦
          no_block none_yet all
            (rw (fetch_entry, ==-eq (entry (s.disk.bytes at) j) 0 none_yet, e) refl)
      | block b d' e below clear before v' free zero logged touched ↦
          fresh b d' none_yet (Allocated-Grown s.disk d' b v below clear v' free) zero
            (λ x u. InUse-bytes s.disk d' b x below clear touched u)
            (rw (fetch_entry, ==-eq (entry (s.disk.bytes at) j) 0 none_yet, e) refl)
    ]
  ]
