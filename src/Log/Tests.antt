-- ===== src/Log/Tests.antt =====
-- The log on a small disk, and on a log that is almost full.
use operating_system_assignm.Prelude.{
  ℕ, ◌+◌, ◌≤◌, ◌<◌, ◌≡◌, ◌⊎◌, refl, arith, [], ◌∷◌, ◌==◌, false, Option, none, some, if◌then◌else◌,
  inl, inr,
}
use operating_system_assignm.Log.{
  Block, LogHeader, Machine, bwrite, install_loop, install_trans, read_head, write_head,
  recover_from_log, write_loop, write_log, commit,
}
use operating_system_assignm.Log.Installing.{IsHome}
use operating_system_assignm.Log.Crash.{
  IsLogged, meaning, recovered, recoveries, recovered-recoveries,
}
use operating_system_assignm.Log.Committing.{IsTransaction, committed, recovered-commit}
use operating_system_assignm.Log.Ops.{OpLog, logsize, find_block, log_write}
use operating_system_assignm.Log.Reserved.{IsReserved, Writes, log_write_lem}

-- The log has the blocks 2 to 5; blocks 7 and 8 hold 70 and 80 on disk, and 71 and 81 in their
-- buffers.
abbrev old_disk : ℕ → Block
old_disk b w = if b == 7 then 70 else if b == 8 then 80 else 0

abbrev buffers : ℕ → Block
buffers b w = if b == 7 then 71 else if b == 8 then 81 else 0

abbrev machine : ℕ → Machine
machine power = record { disk = old_disk; cache = buffers; power = power }

abbrev transaction : LogHeader
transaction = record { n = 2; block = λ i. i + 7 }

-- The words 0 of blocks 7 and 8 after a commit with this many writes, and a recovery.
after_crash : ℕ → ℕ × ℕ
unfolding commit recover_from_log write_head install_trans install_loop read_head write_log
    write_loop bwrite
after_crash power =
    let disk = recovered 2 4 9 (commit 2 transaction (machine power)).disk in (disk 7 0, disk 8 0)

before_head : after_crash 2 ≡ (70, 80)
unfolding after_crash
before_head = refl

after_head : after_crash 3 ≡ (71, 81)
unfolding after_crash
after_head = refl

while_installing : after_crash 4 ≡ (71, 81)
unfolding after_crash
while_installing = refl

after_all : after_crash 6 ≡ (71, 81)
unfolding after_crash
after_all = refl

transaction-IsTransaction : IsTransaction 2 4 transaction
transaction-IsTransaction = record { room = omega arith; targets = λ i lt. inr (omega arith) }

recovered-commit_example :
    let end = recovered 2 4 9 (recoveries 2 4 (1 ∷ []) (commit 2 transaction (machine 3)).disk) in
    (((3 ≤ 2) ⊎ (transaction.n ≡ 0)) × ((b : ℕ) → IsHome 2 4 b → end b ≡ old_disk b))
    ⊎ ((2 < 3) × ((b : ℕ) → IsHome 2 4 b → end b ≡ committed 2 4 transaction (machine 3) b))
recovered-commit_example =
    recovered-commit 2 4 transaction (machine 3) (1 ∷ []) 9 transaction-IsTransaction refl
      (omega arith)

-- One entry, for block 7.
abbrev entry_disk : ℕ → Block
entry_disk b w =
    if b == 2 then (if w == 0 then 1 else if w == 1 then 7 else 0) else if b == 3 then 71 else 0

entry_disk-IsLogged : IsLogged 2 4 entry_disk
entry_disk-IsLogged = record { fits = omega arith; homes = λ i lt. inr (ground arith) }

recovered-recoveries_example :
    let end = recovered 2 4 4 (recoveries 2 4 (0 ∷ 1 ∷ []) entry_disk) in
    (end 2 0 ≡ 0) × (end 7 ≡ meaning 2 4 entry_disk 7)
recovered-recoveries_example =
    recovered-recoveries 2 4 (0 ∷ 1 ∷ []) 4 entry_disk-IsLogged (omega arith) 7 (inr (omega arith))

-- One operation that may still write one block, with two blocks in the log.
abbrev busy_log : OpLog
busy_log = record { outstanding = 1; committing = false; lh = transaction }

busy-IsReserved : IsReserved 1 busy_log
busy-IsReserved = record {
  room = omega arith;
  allowed = omega arith;
  once = λ i j a b e. omega arith;
  calm = λ e. ground arith;
}

-- mkfs makes a log of LOGSIZE blocks.
absorbed : Option ℕ
unfolding log_write find_block
absorbed = elim (log_write logsize 8 (λ b. false) busy_log) [
  | none ↦ none
  | some (log, _) ↦ some log.lh.n
]

absorbed_two : absorbed ≡ some 2
unfolding absorbed
absorbed_two = refl

-- A log with 29 entries, and one operation that may still write one block.
abbrev full_log : OpLog
full_log = record { outstanding = 1; committing = false; lh = record { n = 29; block = λ i. i } }

full-IsReserved : IsReserved 1 full_log
full-IsReserved = record {
  room = omega arith;
  allowed = omega arith;
  once = λ i j a b e. e;
  calm = λ e. ground arith;
}

full_panics : log_write logsize 40 (λ b. false) full_log ≡ none
full_panics = elim (log_write_lem logsize 40 0 (λ b. false) full_log full-IsReserved) [
  | inl (fits, _) ↦ absurd (omega arith)
  | inr (_, e) ↦ e
]

log_write_lem_example :
    Writes logsize 0 9 (λ b. false) busy_log (log_write logsize 9 (λ b. false) busy_log)
log_write_lem_example = log_write_lem logsize 9 0 (λ b. false) busy_log busy-IsReserved
