-- ===== src/Ftable/Tests.antt =====
-- One process with file 0, a pipe's end, as its descriptors 0 and 1.
use operating_system_assignm.Prelude.{
  ℕ, zero, suc, ◌≡◌, refl, arith, true, false, none, some, ltb, ◌==◌, if◌then◌else◌, total,
  total-suc, total-zero, ◌∙◌, pos,
}
use operating_system_assignm.Ftable.{
  File, fd_none, fd_pipe, Files, nofile, argfd, find_fd, fdalloc, filedup, sys_dup,
}
use operating_system_assignm.Ftable.Holders.{
  refers, IsCounted, Duplicated, sys_dup-Duplicated, Closed, sys_close-Closed,
}

abbrev unused_file : File
unused_file = record {
  type = fd_none;
  ref = 0;
  readable = false;
  writable = false;
  pipe = 0;
  ip = 0;
}

abbrev files : Files
files = record {
  ofile = λ fd. if ltb fd 2 then some 0 else none;
  table = λ f.
      if f == 0
      then record {
        type = fd_pipe;
        ref = 2;
        readable = false;
        writable = true;
        pipe = 4096;
        ip = 0;
      }
      else unused_file;
}

-- The next free descriptor is 2.
dup_returns :
    elim (sys_dup (some (pos 1)) files) [ none ↦ none | some (v, s) ↦ some v ] ≡ some (pos 2)
unfolding sys_dup argfd fdalloc find_fd filedup
dup_returns = refl

files_refers :
    (f n : ℕ) → total (refers f) n files.ofile ≡ (if f == 0 then if ltb n 2 then n else 2 else 0)
files_refers f zero = total-zero (refers f) files.ofile ∙ ground arith
files_refers f (suc n) = total-suc (refers f) n files.ofile ∙ ground (arith, files_refers f n)

files-IsCounted : IsCounted (λ f. 0) files
files-IsCounted = record { counts = λ f. ground (arith, files_refers f nofile) }

sys_dup-Duplicated_example : Duplicated (λ f. 0) (some (pos 1)) files
sys_dup-Duplicated_example = sys_dup-Duplicated (λ f. 0) (some (pos 1)) files files-IsCounted

sys_close-Closed_example : Closed (λ f. 0) (some (pos 1)) files
sys_close-Closed_example = sys_close-Closed (λ f. 0) (some (pos 1)) files files-IsCounted
