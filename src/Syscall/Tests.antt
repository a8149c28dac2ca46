-- ===== src/Syscall/Tests.antt =====
-- A process of 64 bytes, its stack pointer at 40, whose first argument is 60.
use operating_system_assignm.Prelude.{ℕ, ◌≡◌, refl, arith, none, some, ◌==◌, if◌then◌else◌}
use operating_system_assignm.Syscall.{fetchint, find_end, fetchstr, argint, argptr, argstr}
use operating_system_assignm.Syscall.Bounds.{Pointer, argptr-Pointer}

abbrev memory : ℕ → ℕ
memory x = if x == 44 then 60 else if x == 60 then b'a' else if x == 61 then b'b' else 0

in_memory : argptr 64 memory 40 0 4 ≡ some 60
unfolding argptr argint fetchint
in_memory = refl

too_long : argptr 64 memory 40 0 5 ≡ none
unfolding argptr argint fetchint
too_long = refl

wraps : argptr 64 memory 40 0 4294967290 ≡ none
unfolding argptr argint fetchint
wraps = refl

named : argstr 64 memory 40 0 ≡ some 2
unfolding argstr argint fetchint fetchstr find_end
named = refl

argptr-Pointer_example : Pointer 64 memory 40 0 5 (argptr 64 memory 40 0 5)
argptr-Pointer_example = argptr-Pointer 64 memory (ground arith) 40 0 5
