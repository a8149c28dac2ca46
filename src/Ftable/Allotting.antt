-- ===== src/Ftable/Allotting.antt =====
-- filealloc of file.c: a new holder of an unused file.
use operating_system_assignm.Prelude.{
  ℕ, zero, suc, ◌+◌, ◌≤◌, ◌<◌, ◌≡◌, ◌≢◌, refl, sym, ap, ◌∙◌, arith, Option, none, some, update,
  total, ℕ_discrete,
}
use operating_system_assignm.Ftable.{nfile, File, find_unused, filealloc, nofile, Files}
use operating_system_assignm.Ftable.Holders.{refers, IsCounted}

-- What the loop of `filealloc` finds.
data Unused (k f : ℕ) (table : ℕ → File) (out : Option ℕ) : Type 0 where
  all_used : ((x : ℕ) → f ≤ x → x < f + k → (table x).ref ≢ 0) → out ≡ none → Unused k f table out
  least :
      (x : ℕ)
      → x < f + k
      → (table x).ref ≡ 0
      → ((y : ℕ) → f ≤ y → y < x → (table y).ref ≢ 0)
      → out ≡ some x
      → Unused k f table out

find_unused-Unused : (k f : ℕ) (table : ℕ → File) → Unused k f table (find_unused k f table)
unfolding find_unused
find_unused-Unused zero f table = all_used (λ x lo hi. absurd (omega arith)) refl
find_unused-Unused (suc k) f table = elim (ℕ_discrete (table f).ref 0) [
  | yes free ↦ least f (omega arith) free (λ y lo hi. absurd (omega arith)) (ground (arith, free))
  | no used ↦ elim (find_unused-Unused k (f + 1) table) [
    | all_used all e ↦
        all_used
          (λ x lo hi. elim (ℕ_discrete x f) [
            | yes here ↦ λ z. used (ap (λ t. (table t).ref) (sym here) ∙ z)
            | no there ↦ all x (omega arith) (omega arith)
          ])
          (ground (arith, used, e))
    | least x below free before e ↦
        least x (omega arith) free
          (λ y lo hi. elim (ℕ_discrete y f) [
            | yes here ↦ λ z. used (ap (λ t. (table t).ref) (sym here) ∙ z)
            | no there ↦ before y (omega arith) hi
          ])
          (ground (arith, used, e))
  ]
]

-- What `filealloc` comes to: the caller is one more holder.
pub data Allotted (others : ℕ → ℕ) (s : Files) : Type 0 where
  table_full :
      ((x : ℕ) → x < nfile → (s.table x).ref ≢ 0) → filealloc s.table ≡ none → Allotted others s
  slot :
      (f : ℕ) (table' : ℕ → File)
      → filealloc s.table ≡ some (f, table')
      → f < nfile
      → total (refers f) nofile s.ofile ≡ 0
      → ((y : ℕ) → y < f → (s.table y).ref ≢ 0)
      → IsCounted (update others f 1) (record s { table = table' })
      → Allotted others s

pub filealloc-Allotted : (others : ℕ → ℕ) (s : Files) → IsCounted others s → Allotted others s
unfolding filealloc
filealloc-Allotted others s counted = elim (find_unused-Unused nfile 0 s.table) [
  | all_used all e ↦
      table_full (λ x below. all x (omega arith) (omega arith)) (rw (filealloc, e) refl)
  | least f below free before e ↦
      slot f (update s.table f (record (s.table f) { ref = 1 })) (rw (filealloc, e) refl)
        (omega arith) (ground (arith, counted.counts f, free)) (λ y lt. before y (omega arith) lt)
        (record { counts = λ g. ground (arith, counted.counts g, counted.counts f, free) })
]
