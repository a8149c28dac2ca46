-- ===== src/Strings.antt =====
-- Assignment1/xv6-public/string.c, and memmove of ulib.c: copying and comparing in memory. Memory
-- is a byte for each address; addresses do not wrap.
pub mod Moving
pub mod Comparing
pub mod Copying
pub mod Tests
use operating_system_assignm.Prelude.{
  ℕ, zero, suc, ◌+◌, ◌-◌, Bool, true, false, leb, ltb, ◌==◌, ◌&&◌, if◌then◌else◌, update, ℤ, pos,
  negsuc,
}

-- The loop from the last byte to the first; `s` and `d` are the ends.
unfoldable pub copy_down : ℕ → ℕ → ℕ → (ℕ → ℕ) → ℕ → ℕ
copy_down zero s d mem = mem
copy_down (suc n) s d mem = copy_down n (s - 1) (d - 1) (update mem (d - 1) (mem (s - 1)))

-- The loop from the first byte to the last.
unfoldable pub copy_up : ℕ → ℕ → ℕ → (ℕ → ℕ) → ℕ → ℕ
copy_up zero s d mem = mem
copy_up (suc n) s d mem = copy_up n (s + 1) (d + 1) (update mem d (mem s))

unfoldable pub memmove : ℕ → ℕ → ℕ → (ℕ → ℕ) → ℕ → ℕ
memmove dst src n mem =
    if ltb src dst && ltb dst (src + n)
    then copy_down n (src + n) (dst + n) mem
    else copy_up n src dst mem

-- `memmove` of ulib.c
unfoldable pub user_memmove : ℕ → ℕ → ℕ → (ℕ → ℕ) → ℕ → ℕ
user_memmove dst src n mem = copy_up n src dst mem

-- The difference of two bytes.
abbrev pub minus : ℕ → ℕ → ℤ
minus a b = if leb b a then pos (a - b) else negsuc (b - a - 1)

unfoldable pub strncmp : ℕ → ℕ → ℕ → (ℕ → ℕ) → ℤ
strncmp zero p q mem = pos 0
strncmp (suc n) p q mem =
    let rest = strncmp n (p + 1) (q + 1) mem in
    if mem p == 0
    then minus (mem p) (mem q)
    else if mem p == mem q
    then rest
    else minus (mem p) (mem q)

-- The loop of safestrcpy: where `s` ends up, and the memory.
unfoldable pub safestrcpy_loop : ℕ → ℕ → ℕ → (ℕ → ℕ) → ℕ × (ℕ → ℕ)
safestrcpy_loop zero s t mem = (s, mem)
safestrcpy_loop (suc n) s t mem =
    let written = update mem s (mem t) in
    let rest = safestrcpy_loop n (s + 1) (t + 1) written in
    if n == 0 then (s, mem) else if mem t == 0 then (s + 1, written) else rest

unfoldable pub safestrcpy : ℕ → ℕ → ℕ → (ℕ → ℕ) → ℕ → ℕ
safestrcpy s t zero mem = mem
safestrcpy s t (suc n) mem = let (s', mem') = safestrcpy_loop (suc n) s t mem in update mem' s' 0
