-- ===== src/Fcfs/Tests.antt =====
-- The FCFS heap on four processes.
use operating_system_assignm.Prelude.{ℕ, ◌≡◌, refl, arith, some, ◌==◌, if◌then◌else◌}
use operating_system_assignm.Fcfs.{
  PQueue, insert, remove, shiftup, shiftup_loop, shiftdown, shiftdown_loop, minindex,
}
use operating_system_assignm.Fcfs.Remove.{IsValid, Removes, insert-IsValid, remove_lem}

-- Creation times of the processes in slots 0 to 3.
abbrev key : ℕ → ℕ
key i = if i == 0 then 40 else if i == 1 then 10 else if i == 2 then 30 else 20

abbrev empty_queue : PQueue
empty_queue = record { size = 0; proc = λ j. 0 }

empty-IsValid : IsValid key empty_queue
empty-IsValid = record { ordered = λ j a b. absurd (omega arith); room = omega arith }

abbrev three : PQueue
three = insert key 2 (insert key 1 (insert key 0 empty_queue))

three-IsValid : IsValid key three
three-IsValid = insert-IsValid key 2 (insert-IsValid key 1 (insert-IsValid key 0 empty-IsValid))

oldest_first : (remove key three).0 ≡ some 1
unfolding remove insert shiftup shiftup_loop
oldest_first = refl

then_next : (remove key (remove key three).1).0 ≡ some 2
unfolding remove insert shiftup shiftup_loop shiftdown shiftdown_loop minindex
then_next = refl

remove_lem_example : Removes key three (remove key three)
remove_lem_example = remove_lem key three-IsValid
