-- ===== src/Ftable/Holders.antt =====
-- The reference counts against the descriptors that refer to a file.
use operating_system_assignm.Prelude.{
  ℕ, ◌+◌, ◌-◌, ◌<◌, ◌≡◌, ◌≢◌, ◌⊎◌, inl, inr, refl, sym, ◌∙◌, arith, Option, none, some, ◌==◌,
  if◌then◌else◌, update, one_if, total, total-update, ℕ_discrete, ==-eq, ==-ne, ℤ, pos, negsuc,
}
use operating_system_assignm.Ftable.{
  File, fd_none, filedup, fileclose, Release, nothing, release, nofile, fdalloc, Files, sys_dup,
  sys_close,
}
use operating_system_assignm.Ftable.Descriptors.{find_fd_lem, Names, argfd_lem}

-- 1 for a descriptor of file `f`.
abbrev pub refers : ℕ → Option ℕ → ℕ
refers f none = 0
refers f (some g) = one_if g f

-- Each count is that of the descriptors, those of the other processes being `others`.
pub record IsCounted (others : ℕ → ℕ) (s : Files) : Type 0 where
  pub counts : (f : ℕ) → (s.table f).ref ≡ others f + total (refers f) nofile s.ofile

filedup_held :
    (f : ℕ) (table : ℕ → File)
    → 0 < (table f).ref
    → filedup f table ≡ some (update table f (record (table f) { ref = (table f).ref + 1 }))
unfolding filedup
filedup_held f table held = ground arith

fileclose_last :
    (f : ℕ) (table : ℕ → File)
    → (table f).ref ≡ 1
    → fileclose f table
      ≡ some (release (table f), update table f (record (table f) { type = fd_none; ref = 0 }))
unfolding fileclose
fileclose_last f table last = ground (arith, last)

fileclose_shared :
    (f : ℕ) (table : ℕ → File)
    → 1 < (table f).ref
    → fileclose f table
      ≡ some (nothing, update table f (record (table f) { ref = (table f).ref - 1 }))
unfolding fileclose
fileclose_shared f table many = ground (arith, many)

module _ (others : ℕ → ℕ) (arg : Option ℤ) (s : Files) where
  -- What `sys_dup` comes to.
  pub data Duplicated : Type 0 where
    refused :
        ((old f : ℕ) → ¬ Names arg s.ofile old f) ⊎ ((y : ℕ) → y < nofile → s.ofile y ≢ none)
        → sys_dup arg s ≡ some (negsuc 0, s)
        → Duplicated
    another :
        (old fd f : ℕ) (s' : Files)
        → Names arg s.ofile old f
        → sys_dup arg s ≡ some (pos fd, s')
        → fd < nofile
        → s.ofile fd ≡ none
        → ((y : ℕ) → y < fd → s.ofile y ≢ none)
        → s'.ofile ≡ update s.ofile fd (some f)
        → ((g : ℕ) → g ≢ f → s'.table g ≡ s.table g)
        → IsCounted others s'
        → Duplicated

  -- What `sys_close` comes to.
  pub data Closed : Type 0 where
    refused_close :
        ((fd f : ℕ) → ¬ Names arg s.ofile fd f)
        → sys_close arg s ≡ some (negsuc 0, nothing, s)
        → Closed
    closed :
        (fd f : ℕ) (r : Release) (s' : Files)
        → Names arg s.ofile fd f
        → sys_close arg s ≡ some (pos 0, r, s')
        → s'.ofile ≡ update s.ofile fd none
        → ((g : ℕ) → g ≢ f → s'.table g ≡ s.table g)
        → r ≡ (
            if others f + total (refers f) nofile s.ofile == 1
            then release (s.table f)
            else nothing)
        → IsCounted others s'
        → Closed

module _ (others : ℕ → ℕ) (arg : Option ℤ) (s : Files) (counted : IsCounted others s) where
  -- A file with a descriptor is in use.
  held : (fd f : ℕ) → fd < nofile → s.ofile fd ≡ some f → 0 < (s.table f).ref
  held fd f inside used =
      ground (arith, counted.counts f, total-update (refers f) nofile s.ofile fd none inside, used)

  -- Where the reference count of each file is the number of the descriptors that refer to it, in
  -- the current process and in the others: `sys_dup` does not panic. It fails only if the
  -- argument is not a descriptor in use or no descriptor is free, and changes nothing then; else
  -- it makes the least free descriptor refer to the file of the argument, changes no other
  -- descriptor and no other file, and keeps the counts true.
  pub sys_dup-Duplicated : Duplicated others arg s
  unfolding sys_dup fdalloc
  sys_dup-Duplicated = elim (argfd_lem arg s.ofile) [
    | inl (e, bad) ↦ refused (inl bad) (rw (sys_dup, e) refl)
    | inr (old, f, e, named) ↦ elim (find_fd_lem nofile 0 s.ofile) [
      | inl (e', all) ↦
          refused (inr (λ y lt. all y (omega arith) (omega arith)))
            (rw (sys_dup, e, fdalloc, e') refl)
      | inr (fd, e', below, free, before) ↦
          let up = filedup_held f s.table (held old f named.inside named.file) in
          another old fd f
            (record {
              ofile = update s.ofile fd (some f);
              table = update s.table f (record (s.table f) { ref = (s.table f).ref + 1 });
            })
            named (rw (sys_dup, e, fdalloc, e', up) refl) (omega arith) free
            (λ y lt. before y (omega arith) lt) refl (λ g ne. ground (arith, ne))
            (record {
              counts = λ g. ground (
                arith,
                counted.counts g,
                counted.counts f,
                total-update (refers g) nofile s.ofile fd (some f) (omega arith),
                free,
              );
            })
    ]
  ]

  -- Where the reference count of each file is the number of the descriptors that refer to it, in
  -- the current process and in the others: `sys_close` does not panic. It fails only if the
  -- argument is not a descriptor in use, and changes nothing then; else it frees that descriptor
  -- and no other, leaves the other files alone, keeps the counts true, and closes the pipe or
  -- the inode behind the file exactly if the descriptor was the last one.
  pub sys_close-Closed : Closed others arg s
  unfolding sys_close
  sys_close-Closed = elim (argfd_lem arg s.ofile) [
    | inl (e, bad) ↦ refused_close bad (rw (sys_close, e) refl)
    | inr (fd, f, e, named) ↦
        let inside = named.inside in
        let used = named.file in
        let less : (g : ℕ)
            → total (refers g) nofile (update s.ofile fd none) + one_if f g
              ≡ total (refers g) nofile s.ofile =
          λ g. ground (arith, total-update (refers g) nofile s.ofile fd none inside, used) in
        elim (ℕ_discrete (s.table f).ref 1) [
          | yes last ↦
              closed fd f (release (s.table f))
                (record {
                  ofile = update s.ofile fd none;
                  table = update s.table f (record (s.table f) { type = fd_none; ref = 0 });
                })
                named (rw (sys_close, e, fileclose_last f s.table last) refl) refl
                (λ g ne. ground (arith, ne))
                (rw
                  (==-eq (others f + total (refers f) nofile s.ofile) 1
                    (sym (counted.counts f) ∙ last))
                  refl)
                (record {
                  counts = λ g. ground (arith, last, counted.counts g, counted.counts f, less g);
                })
          | no more ↦
              let many : 1 < (s.table f).ref = ground (arith, held fd f inside used) in
              closed fd f nothing
                (record {
                  ofile = update s.ofile fd none;
                  table = update s.table f (record (s.table f) { ref = (s.table f).ref - 1 });
                })
                named (rw (sys_close, e, fileclose_shared f s.table many) refl) refl
                (λ g ne. ground (arith, ne))
                (rw
                  (==-ne (others f + total (refers f) nofile s.ofile) 1
                    (λ z. more (counted.counts f ∙ z)))
                  refl)
                (record {
                  counts = λ g. ground (arith, many, counted.counts g, counted.counts f, less g);
                })
        ]
  ]
