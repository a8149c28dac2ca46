-- ===== src/Syscall.antt =====
-- The arguments of system calls: Assignment1/xv6-public/syscall.c, lines 16 to 83. Addresses and
-- values are 32-bit words, and a value of type int is its word. `sz` is the size of the process,
-- `mem` its memory byte by byte, and `none` the result -1.
pub mod Bounds
pub mod Tests
use operating_system_assignm.Prelude.{
  ℕ, zero, suc, ◌+◌, ◌-◌, ◌*◌, ◌%◌, ◌^◌, Bool, true, false, Option, none, some, ltb, leb, ◌==◌,
  ◌||◌, if◌then◌else◌,
}

-- Four bytes, the lowest first.
abbrev pub word : (ℕ → ℕ) → ℕ → ℕ
word mem a = mem a + 256 * mem (a + 1) + 65536 * mem (a + 2) + 16777216 * mem (a + 3)

module _ (sz : ℕ) (mem : ℕ → ℕ) where
  unfoldable pub fetchint : ℕ → Option ℕ
  fetchint addr = if leb sz addr || ltb sz ((addr + 4) % 2 ^ 32) then none else some (word mem addr)

  -- The loop of `fetchstr` from `s` on, on fuel: where the string ends.
  unfoldable pub find_end : ℕ → ℕ → Option ℕ
  find_end zero s = none
  find_end (suc fuel) s =
      let rest = find_end fuel (s + 1) in
      if ltb s sz then if mem s == 0 then some s else rest else none

  -- The length of the string.
  unfoldable pub fetchstr : ℕ → Option ℕ
  fetchstr addr =
      if leb sz addr
      then none
      else elim (find_end sz addr) [ none ↦ none | some s ↦ some (s - addr) ]

  -- `esp` is the user's stack pointer.
  unfoldable pub argint : ℕ → ℕ → Option ℕ
  argint esp n = fetchint ((esp + 4 + 4 * n) % 2 ^ 32)

  -- A `size` of 2 ^ 31 or more is negative.
  unfoldable pub argptr : ℕ → ℕ → ℕ → Option ℕ
  argptr esp n size = elim (argint esp n) [
    | none ↦ none
    | some i ↦
        if leb (2 ^ 31) size || leb sz i || ltb sz ((i + size) % 2 ^ 32) then none else some i
  ]

  unfoldable pub argstr : ℕ → ℕ → Option ℕ
  argstr esp n = elim (argint esp n) [ none ↦ none | some addr ↦ fetchstr addr ]
