-- ===== src/Fs/Content/Words.antt =====
-- A write of an entry of the indirect block against the reads.
use operating_system_assignm.Prelude.{ℕ, ◌+◌, ◌*◌, ◌/◌, ◌%◌, ◌^◌, ◌≡◌, ◌≢◌, ◌<◌, arith}
use operating_system_assignm.Fs.Content.{entry, put_entry}

pub entry-put_entry : (content : ℕ → ℕ) (j v : ℕ) → v < 2 ^ 32 → entry (put_entry content j v) j ≡ v
entry-put_entry content j v fits =
    let b0 : put_entry content j v (4 * j) ≡ v % 256 = ground arith in
    let b1 : put_entry content j v (4 * j + 1) ≡ v / 256 % 256 = ground arith in
    let b2 : put_entry content j v (4 * j + 2) ≡ v / 65536 % 256 = ground arith in
    let b3 : put_entry content j v (4 * j + 3) ≡ v / 16777216 % 256 = ground arith in
    omega (arith, b0, b1, b2, b3)

pub entry_other :
    (content : ℕ → ℕ) (j v i : ℕ) → i ≢ j → entry (put_entry content j v) i ≡ entry content i
entry_other content j v i other =
    let b0 : put_entry content j v (4 * i) ≡ content (4 * i) = ground (arith, other) in
    let b1 : put_entry content j v (4 * i + 1) ≡ content (4 * i + 1) = ground (arith, other) in
    let b2 : put_entry content j v (4 * i + 2) ≡ content (4 * i + 2) = ground (arith, other) in
    let b3 : put_entry content j v (4 * i + 3) ≡ content (4 * i + 3) = ground (arith, other) in
    omega (arith, b0, b1, b2, b3)

-- A block of zeros has no entries.
pub entry_zero :
    (content : ℕ → ℕ) (j : ℕ) → j < 128 → ((i : ℕ) → i < 512 → content i ≡ 0) → entry content j ≡ 0
entry_zero content j inside zeros = omega (
  arith,
  zeros (4 * j) (omega arith),
  zeros (4 * j + 1) (omega arith),
  zeros (4 * j + 2) (omega arith),
  zeros (4 * j + 3) (omega arith),
)
