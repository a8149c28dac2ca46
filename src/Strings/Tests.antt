-- ===== src/Strings/Tests.antt =====
-- Short strings in memory.
use operating_system_assignm.Prelude.{negsuc, ℕ, ◌≡◌, refl, if◌then◌else◌, ◌==◌}
use operating_system_assignm.Strings.{memmove, copy_down, copy_up, strncmp}
use operating_system_assignm.Strings.Moving.{moved, memmove-moved}

-- "abc" at 10, "abd" at 20
abbrev memory : ℕ → ℕ
memory x =
    if x == 10
    then b'a'
    else if x == 11
    then b'b'
    else if x == 12
    then b'c'
    else if x == 20
    then b'a'
    else if x == 21
    then b'b'
    else if x == 22
    then b'd'
    else 0

differs_last : strncmp 5 10 20 memory ≡ negsuc 0
unfolding strncmp
differs_last = refl

overlaps : memmove 11 10 3 memory 13 ≡ b'c'
unfolding memmove copy_down copy_up
overlaps = refl

memmove-moved_example : memmove 11 10 3 memory 13 ≡ moved 11 10 3 memory 13
memmove-moved_example = memmove-moved 11 10 3 memory 13
