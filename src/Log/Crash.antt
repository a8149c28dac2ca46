-- ===== src/Log/Crash.antt =====
-- Recovery after a loss of power at any write.
use operating_system_assignm.Prelude.{
  ℕ, ◌+◌, ◌≤◌, ◌<◌, ◌≡◌, refl, ap, ◌∙◌, arith, List, [], ◌∷◌, dec_le,
}
use operating_system_assignm.Log.{
  Block, LogHeader, Machine, bwrite, install_trans, read_head, write_head, recover_from_log,
}
use operating_system_assignm.Log.Replay.{replay, replay-zero, replay-replay, replay-cong}
use operating_system_assignm.Log.Installing.{IsHome, Reached, install_loop-Installed}

-- The machine that starts with a disk: no buffer is filled yet, so each reads its block.
abbrev pub restart : (ℕ → Block) → ℕ → Machine
restart disk power = record { disk = disk; cache = disk; power = power }

module _ (start size : ℕ) where
  -- A log on the disk whose entries fit and are copies of blocks outside of it.
  pub record IsLogged (disk : ℕ → Block) : Type 0 where
    pub fits : disk start 0 < size
    pub homes : (i : ℕ) → i < disk start 0 → IsHome start size (disk start (i + 1))

  -- The content of block `b` once the log is installed.
  abbrev pub meaning : (ℕ → Block) → ℕ → Block
  meaning disk b =
      replay (λ i. disk start (i + 1)) (λ i. disk (start + i + 1)) (disk start 0) 0 b (disk b)

  -- The disk after a recovery that makes at most `power` writes.
  abbrev pub recovered : ℕ → (ℕ → Block) → ℕ → Block
  recovered power disk = (recover_from_log start (restart disk power)).disk

  -- The meaning of a disk whose header and log are known.
  pub meaning-as :
      (disk : ℕ → Block) (block : ℕ → ℕ) (content : ℕ → Block) (n b : ℕ)
      → disk start 0 ≡ n
      → ((i : ℕ) → i < n → disk start (i + 1) ≡ block i)
      → ((i : ℕ) → i < n → disk (start + i + 1) ≡ content i)
      → meaning disk b ≡ replay block content n 0 b (disk b)
  meaning-as disk block content n b e blocks contents =
      ap (λ k. replay (λ i. disk start (i + 1)) (λ i. disk (start + i + 1)) k 0 b (disk b)) e
      ∙ replay-cong (λ i. disk start (i + 1)) block (λ i. disk (start + i + 1)) content n 0 b
          (disk b) (λ i lt. blocks i (omega arith)) (λ i lt. contents i (omega arith))

  -- How many of `n` writes reach the disk.
  reach : (n power : ℕ) → (j : ℕ) × Reached start size j n power
  reach n power = elim (dec_le n power) [
    | yes all ↦ (n, record { some_of = omega arith; powered = omega arith; most = ground arith })
    | no few ↦ (power, record { some_of = omega arith; powered = omega arith; most = ground arith })
  ]

  -- What is on the disk after `install_trans` and `write_head` with an empty header.
  pub record Cleared (lh : LogHeader) (content : ℕ → Block) (m m' : Machine) : Type 0 where
    pub all :
        lh.n < m.power
        → (b : ℕ) → IsHome start size b
        → m'.disk b ≡ replay lh.block content lh.n 0 b (m.disk b)
    pub empty : lh.n < m.power → m'.disk start 0 ≡ 0
    pub part :
        m.power ≤ lh.n
        → (b : ℕ) → IsHome start size b
        → (j : ℕ) × (j ≤ lh.n)
          × (j ≤ m.power)
          × (m'.disk b ≡ replay lh.block content j 0 b (m.disk b))
    pub log : m.power ≤ lh.n → (b : ℕ) → start ≤ b → b < start + size → m'.disk b ≡ m.disk b

  pub clear-Cleared :
      (lh : LogHeader) (content : ℕ → Block) (m : Machine)
      → lh.n < size
      → ((i : ℕ) → i < lh.n → IsHome start size (lh.block i))
      → ((i : ℕ) → i < lh.n → m.cache (start + i + 1) ≡ content i)
      → Cleared lh content m (write_head start (record lh { n = 0 }) (install_trans start lh m))
  unfolding write_head install_trans bwrite
  clear-Cleared lh content m fits homes same =
      let (j, r) = reach lh.n m.power in
      let done =
        install_loop-Installed start size lh content j lh.n 0 m (omega arith)
          (λ i lt. homes i (omega arith)) (λ i lt. same i (omega arith)) r in
      record {
        all = λ p b h.
            let e : j ≡ lh.n = ground (arith, r.most, r.some_of, r.powered) in
            ground (arith, done.left, done.home b h, e);
        empty = λ p. ground (arith, done.left);
        part = λ p b h. (j, r.some_of, r.powered, ground (arith, done.left, done.home b h));
        log = λ p b lo hi. ground (arith, done.left, done.log_disk b (lo, hi));
      }

  -- Recovery that ends before its last write leaves the meaning of the disk as it was, and so does
  -- one that ends: then the log is empty.
  recovered-IsLogged :
      (power : ℕ) {disk : ℕ → Block} → IsLogged disk → IsLogged (recovered power disk)
  unfolding recover_from_log read_head
  recovered-IsLogged power {disk} v =
      let lh = read_head start (restart disk power) in
      let c =
        clear-Cleared lh (λ i. disk (start + i + 1)) (restart disk power) v.fits v.homes
          (λ i lt. refl) in
      elim (dec_le power (disk start 0)) [
        | yes early ↦
            let e : recovered power disk start ≡ disk start =
              c.log early start (omega arith) (omega (arith, v.fits)) in
            record {
              fits = ground (arith, e, v.fits);
              homes = λ i lt. ground (arith, e, v.homes i (ground (arith, e)));
            }
        | no late ↦
            let e : recovered power disk start 0 ≡ 0 = c.empty (omega arith) in
            record { fits = ground (arith, e, v.fits); homes = λ i lt. absurd (omega (arith, e)) }
      ]

  recovered-all :
      (power : ℕ) {disk : ℕ → Block}
      → IsLogged disk
      → disk start 0 < power
      → (b : ℕ) → IsHome start size b
      → (recovered power disk start 0 ≡ 0) × (recovered power disk b ≡ meaning disk b)
  unfolding recover_from_log read_head
  recovered-all power {disk} v enough b h =
      let lh = read_head start (restart disk power) in
      let c =
        clear-Cleared lh (λ i. disk (start + i + 1)) (restart disk power) v.fits v.homes
          (λ i lt. refl) in
      (c.empty enough, c.all enough b h)

  meaning-recovered :
      (power : ℕ) {disk : ℕ → Block}
      → IsLogged disk
      → (b : ℕ) → IsHome start size b
      → meaning (recovered power disk) b ≡ meaning disk b
  unfolding recover_from_log read_head
  meaning-recovered power {disk} v b h =
      let lh = read_head start (restart disk power) in
      let c =
        clear-Cleared lh (λ i. disk (start + i + 1)) (restart disk power) v.fits v.homes
          (λ i lt. refl) in
      elim (dec_le power (disk start 0)) [
        | yes early ↦
            let (j, le, _, e) = c.part early b h in
            let head : recovered power disk start ≡ disk start =
              c.log early start (omega arith) (omega (arith, v.fits)) in
            meaning-as (recovered power disk) lh.block (λ i. disk (start + i + 1)) lh.n b
              (ap (λ w. w 0) head) (λ i lt. ap (λ w. w (i + 1)) head)
              (λ i lt. c.log early (start + i + 1) (omega arith) (omega (arith, v.fits)))
            ∙ ap (replay lh.block (λ i. disk (start + i + 1)) lh.n 0 b) e
            ∙ replay-replay lh.block (λ i. disk (start + i + 1)) j lh.n 0 b (disk b) le
        | no late ↦
            meaning-as (recovered power disk) lh.block (λ i. disk (start + i + 1)) 0 b
              (c.empty (omega arith)) (λ i lt. absurd (omega arith)) (λ i lt. absurd (omega arith))
            ∙ replay-zero lh.block (λ i. disk (start + i + 1)) 0 b (recovered power disk b)
            ∙ c.all (omega arith) b h
      ]

  -- One recovery after another, each with the writes that it makes before power is lost.
  unfoldable pub recoveries : List ℕ → (ℕ → Block) → ℕ → Block
  recoveries [] disk = disk
  recoveries (power ∷ powers) disk = recoveries powers (recovered power disk)

  recoveries-IsLogged :
      (powers : List ℕ) {disk : ℕ → Block} → IsLogged disk → IsLogged (recoveries powers disk)
  unfolding recoveries
  recoveries-IsLogged [] v = v
  recoveries-IsLogged (power ∷ powers) v = recoveries-IsLogged powers (recovered-IsLogged power v)

  meaning-recoveries :
      (powers : List ℕ) {disk : ℕ → Block}
      → IsLogged disk
      → (b : ℕ) → IsHome start size b
      → meaning (recoveries powers disk) b ≡ meaning disk b
  unfolding recoveries
  meaning-recoveries [] v b h = refl
  meaning-recoveries (power ∷ powers) v b h =
      meaning-recoveries powers (recovered-IsLogged power v) b h ∙ meaning-recovered power v b h

  -- On a disk whose log fits and is about blocks outside of it: however often recovery is cut
  -- short by a loss of power, a recovery that can make `size` writes leaves an empty log, and in
  -- each block outside of the log what the entries on the disk meant at the start.
  pub recovered-recoveries :
      (powers : List ℕ) (power : ℕ) {disk : ℕ → Block}
      → IsLogged disk
      → size ≤ power
      → (b : ℕ) → IsHome start size b
      → let end = recovered power (recoveries powers disk) in
        (end start 0 ≡ 0) × (end b ≡ meaning disk b)
  recovered-recoveries powers power {disk} v enough b h =
      let v' = recoveries-IsLogged powers v in
      let (empty, installed) = recovered-all power v' (omega (arith, v'.fits)) b h in
      (empty, installed ∙ meaning-recoveries powers v b h)
