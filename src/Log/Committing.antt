-- ===== src/Log/Committing.antt =====
-- commit, with a loss of power at any write.
use mathlib.Core.Path.{subst}
use operating_system_assignm.Prelude.{
  ℕ, ◌+◌, ◌-◌, ◌≤◌, ◌<◌, ◌≡◌, ◌⊎◌, inl, inr, ap, ◌∙◌, arith, List, dec_le, if◌then◌else◌,
}
use operating_system_assignm.Log.{
  Block, LogHeader, Machine, bwrite, install_trans, write_head, write_log, commit,
}
use operating_system_assignm.Log.Replay.{replay, replay-zero, replay-replay, among, replay-among}
use operating_system_assignm.Log.Installing.{IsHome}
use operating_system_assignm.Log.Writing.{write_loop-Written}
use operating_system_assignm.Log.Crash.{
  IsLogged, meaning, meaning-as, clear-Cleared, recovered, recoveries, recovered-recoveries,
}

module _ (start size : ℕ) where
  -- The transaction `lh` fits into the log, and is about blocks outside of it.
  pub record IsTransaction (lh : LogHeader) : Type 0 where
    pub room : lh.n < size
    pub targets : (i : ℕ) → i < lh.n → IsHome start size (lh.block i)

  -- What block `b` is after the transaction: as in its buffer where the transaction names it.
  abbrev pub committed : LogHeader → Machine → ℕ → Block
  committed lh m b = if among lh.block lh.n 0 b then m.cache b else m.disk b

  -- After write_log and write_head.
  record Headed (lh : LogHeader) (m h : Machine) : Type 0 where
    left : h.power ≡ m.power - lh.n - 1
    head : lh.n < m.power → h.disk start 0 ≡ lh.n
    blocks : lh.n < m.power → (i : ℕ) → i < lh.n → h.disk start (i + 1) ≡ lh.block i
    entries : lh.n < m.power → (i : ℕ) → i < lh.n → h.disk (start + i + 1) ≡ m.cache (lh.block i)
    cached : (i : ℕ) → i < lh.n → h.cache (start + i + 1) ≡ m.cache (lh.block i)
    home : (b : ℕ) → IsHome start size b → h.disk b ≡ m.disk b
    old_head : m.power ≤ lh.n → h.disk start ≡ m.disk start

  write_head-Headed :
      (lh : LogHeader) (m : Machine)
      → IsTransaction lh
      → Headed lh m (write_head start lh (write_log start lh m))
  unfolding write_head write_log bwrite
  write_head-Headed lh m t =
      let w =
        write_loop-Written start size lh lh.n 0 m
          (let a : 0 + lh.n < size = omega (arith, t.room) in a)
          (λ i lt. t.targets i (omega arith)) in
      record {
        left = ground (arith, w.left);
        head = λ p. ground (arith, w.left);
        blocks = λ p i lt. ground (arith, w.left);
        entries =
            λ p i lt. ground (arith, w.left, w.stored (omega arith) i (omega arith) (omega arith));
        cached = λ i lt. ground (arith, w.entries i (omega arith) (omega arith));
        home = λ b h. elim h [
          | inl below ↦ ground (arith, w.left, w.below_disk b (omega arith))
          | inr above ↦ ground (arith, w.left, w.above_disk b above, t.room)
        ];
        old_head = λ p. ground (arith, w.left, w.below_disk start (omega arith));
      }

  -- What a commit comes to, on the disk.
  pub data Outcome (lh : LogHeader) (m : Machine) (disk : ℕ → Block) : Type 0 where
    lost :
        (m.power ≤ lh.n) ⊎ (lh.n ≡ 0)
        → ((b : ℕ) → IsHome start size b → meaning start size disk b ≡ m.disk b)
        → Outcome lh m disk
    kept :
        lh.n < m.power
        → ((b : ℕ) → IsHome start size b → meaning start size disk b ≡ committed lh m b)
        → Outcome lh m disk

  -- What the disk holds after a commit: a log that recovery can read, and its meaning.
  pub record Commits (lh : LogHeader) (m : Machine) (disk : ℕ → Block) : Type 0 where
    pub readable : IsLogged start size disk
    pub outcome : Outcome lh m disk

  -- A disk with an empty log.
  emptied :
      (disk : ℕ → Block)
      → 0 < size
      → disk start 0 ≡ 0
      → IsLogged start size disk × ((b : ℕ) → meaning start size disk b ≡ disk b)
  emptied disk some_size e = (
    record { fits = omega (arith, e); homes = λ i lt. absurd (omega (arith, e)) },
    λ b.
        meaning-as start size disk (λ i. 0) (λ i. disk 0) 0 b e (λ i lt. absurd (omega arith))
          (λ i lt. absurd (omega arith))
        ∙ replay-zero (λ i. 0) (λ i. disk 0) 0 b (disk b),
  )

  full_commit :
      (lh : LogHeader) (m : Machine)
      → IsTransaction lh
      → m.disk start 0 ≡ 0
      → Commits lh m
          (write_head start
            (record lh { n = 0 })
            (install_trans start lh (write_head start lh (write_log start lh m)))).disk
  full_commit lh m t none_yet =
      let h = write_head start lh (write_log start lh m) in
      let w = write_head-Headed lh m t in
      let content : ℕ → Block = λ i. m.cache (lh.block i) in
      let m' = write_head start (record lh { n = 0 }) (install_trans start lh h) in
      let c = clear-Cleared start size lh content h t.room t.targets w.cached in
      let value : (b : ℕ) → replay lh.block content lh.n 0 b (m.disk b) ≡ committed lh m b =
        λ b. replay-among lh.block m.cache lh.n 0 b (m.disk b) in
      elim (dec_le m.power lh.n) [
        | yes early ↦
            let off : h.power ≤ lh.n = omega (arith, w.left) in
            let e : m'.disk start 0 ≡ 0 =
              ap (λ x. x 0) (c.log off start (omega arith) (omega (arith, t.room)))
              ∙ ap (λ x. x 0) (w.old_head early)
              ∙ none_yet in
            let (v, same) = emptied m'.disk (omega (arith, t.room)) e in
            record {
              readable = v;
              outcome = lost (inl early) (λ b hb.
                  let (j, _, dead, eb) = c.part off b hb in
                  let z : j ≡ 0 = omega (arith, w.left) in
                  same b
                  ∙ eb
                  ∙ ap (λ x. replay lh.block content x 0 b (h.disk b)) z
                  ∙ replay-zero lh.block content 0 b (h.disk b)
                  ∙ w.home b hb);
            }
        | no late ↦ elim (dec_le h.power lh.n) [
          | yes cut ↦
              let log = c.log cut in
              let head : m'.disk start 0 ≡ lh.n =
                ap (λ x. x 0) (log start (omega arith) (omega (arith, t.room)))
                ∙ w.head (omega arith) in
              let blocks : (i : ℕ) → i < lh.n → m'.disk start (i + 1) ≡ lh.block i = λ i lt.
                ap (λ x. x (i + 1)) (log start (omega arith) (omega (arith, t.room)))
                ∙ w.blocks (omega arith) i lt in
              record {
                readable = record {
                  fits = omega (arith, head, t.room);
                  homes = λ i lt.
                      let b = blocks i (omega (arith, head)) in
                      ground (arith, b, t.targets i (omega (arith, head)));
                };
                outcome = kept (omega arith) (λ b hb.
                    let (j, le, _, eb) = c.part cut b hb in
                    meaning-as start size m'.disk lh.block content lh.n b head blocks (λ i lt.
                      log (start + i + 1) (omega arith) (omega (arith, t.room))
                      ∙ w.entries (omega arith) i lt)
                    ∙ ap (replay lh.block content lh.n 0 b) eb
                    ∙ replay-replay lh.block content j lh.n 0 b (h.disk b) le
                    ∙ ap (replay lh.block content lh.n 0 b) (w.home b hb)
                    ∙ value b);
              }
          | no through ↦
              let (v, same) = emptied m'.disk (omega (arith, t.room)) (c.empty (omega arith)) in
              record {
                readable = v;
                outcome = kept (omega arith) (λ b hb.
                    same b
                    ∙ c.all (omega arith) b hb
                    ∙ ap (replay lh.block content lh.n 0 b) (w.home b hb)
                    ∙ value b);
              }
        ]
      ]

  commit-Commits :
      (lh : LogHeader) (m : Machine)
      → IsTransaction lh
      → m.disk start 0 ≡ 0
      → Commits lh m (commit start lh m).disk
  unfolding commit
  commit-Commits lh m t none_yet = elim (dec_le lh.n 0) [
    | yes idle ↦
        let (v, same) = emptied m.disk (omega (arith, t.room)) none_yet in
        let e : m ≡ commit start lh m = ground arith in
        subst (λ x. Commits lh m x.disk) e
          (record { readable = v; outcome = lost (inr (omega arith)) (λ b h. same b) })
    | no busy ↦
        let done =
          write_head start (record lh { n = 0 })
            (install_trans start lh (write_head start lh (write_log start lh m))) in
        let e : done ≡ commit start lh m = ground arith in
        subst (λ x. Commits lh m x.disk) e (full_commit lh m t none_yet)
  ]

  -- A transaction that fits into the log and is about blocks outside of it, on a disk with an
  -- empty log: however many writes `commit` makes before power is lost, and however often
  -- recovery is cut short, after a recovery that can make `size` writes either every block
  -- outside of the log is as before the commit, and this only if the header was not written or
  -- the transaction is empty, or each is as the transaction has it.
  pub recovered-commit :
      (lh : LogHeader) (m : Machine) (powers : List ℕ) (power : ℕ)
      → IsTransaction lh
      → m.disk start 0 ≡ 0
      → size ≤ power
      → let after =
          recovered start size power (recoveries start size powers (commit start lh m).disk) in
        (((m.power ≤ lh.n) ⊎ (lh.n ≡ 0)) × ((b : ℕ) → IsHome start size b → after b ≡ m.disk b))
        ⊎ ((lh.n < m.power) × ((b : ℕ) → IsHome start size b → after b ≡ committed lh m b))
  recovered-commit lh m powers power t none_yet enough =
      let c = commit-Commits lh m t none_yet in
      elim (c.outcome) [
        | lost when all ↦ inl (
          when,
          λ b h. (recovered-recoveries start size powers power c.readable enough b h).1 ∙ all b h,
        )
        | kept when all ↦ inr (
          when,
          λ b h. (recovered-recoveries start size powers power c.readable enough b h).1 ∙ all b h,
        )
      ]
