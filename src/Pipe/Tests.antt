-- ===== src/Pipe/Tests.antt =====
-- A pipe whose counters are about to wrap around.
use operating_system_assignm.Prelude.{◌≡◌, refl, arith, true, false, [], ◌∷◌, ◌==◌, if◌then◌else◌}
use operating_system_assignm.Pipe.{Pipe, finished, pipewrite, copy_loop, piperead}
use operating_system_assignm.Pipe.Fifo.{IsValid}
use operating_system_assignm.Pipe.Writing.{Wrote, pipewrite_lem}
use operating_system_assignm.Pipe.Reading.{Took, piperead_lem}

-- Two unread bytes, before the counters wrap.
abbrev nearly : Pipe
nearly = record {
  bytes = λ j. if j == 510 then 7 else 8;
  nread = 4294967294;
  nwrite = 0;
  readopen = true;
  writeopen = true;
}

nearly-IsValid : IsValid nearly
nearly-IsValid = omega arith

read_over : (piperead false 5 nearly).0 ≡ finished (7 ∷ 8 ∷ [])
unfolding piperead copy_loop
read_over = refl

write_read : (piperead false 3 (pipewrite false (9 ∷ []) nearly).1).0 ≡ finished (7 ∷ 8 ∷ 9 ∷ [])
unfolding piperead copy_loop pipewrite
write_read = refl

pipewrite_lem_example : Wrote false (9 ∷ 10 ∷ []) nearly (pipewrite false (9 ∷ 10 ∷ []) nearly)
pipewrite_lem_example = pipewrite_lem false (9 ∷ 10 ∷ []) nearly nearly-IsValid

piperead_lem_example : Took false 1 nearly (piperead false 1 nearly)
piperead_lem_example = piperead_lem false 1 nearly nearly-IsValid
