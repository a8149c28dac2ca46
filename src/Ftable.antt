-- ===== src/Ftable.antt =====
-- The table of open files of Assignment1/xv6-public/file.c and file.h, and the descriptors of a
-- process, of sysfile.c. A `struct file *` is its index in the table.
pub mod Descriptors
pub mod Holders
pub mod Allotting
pub mod Tests
use operating_system_assignm.Prelude.{
  ℕ, zero, suc, ◌+◌, ◌-◌, Bool, true, false, Option, none, some, ltb, ◌==◌, if◌then◌else◌, update,
  leb, ℤ, pos, negsuc,
}

-- NFILE of param.h
abbrev pub nfile : ℕ
nfile = 100

pub data FileType : Type 0 where
  fd_none fd_pipe fd_inode : FileType

-- `struct file`, less the offset; `pipe` and `ip` are addresses.
pub record File : Type 0 where
  pub type : FileType
  pub ref : ℕ
  pub readable : Bool
  pub writable : Bool
  pub pipe : ℕ
  pub ip : ℕ

-- The loop of `filealloc` over `k` slots from `f` on.
unfoldable pub find_unused : ℕ → ℕ → (ℕ → File) → Option ℕ
find_unused zero f table = none
find_unused (suc k) f table =
    let rest = find_unused k (f + 1) table in if (table f).ref == 0 then some f else rest

unfoldable pub filealloc : (ℕ → File) → Option (ℕ × (ℕ → File))
filealloc table = elim (find_unused nfile 0 table) [
  | none ↦ none
  | some f ↦ some (f, update table f (record (table f) { ref = 1 }))
]

-- `none` is the panic.
unfoldable pub filedup : ℕ → (ℕ → File) → Option (ℕ → File)
filedup f table =
    if ltb (table f).ref 1
    then none
    else some (update table f (record (table f) { ref = (table f).ref + 1 }))

-- What `fileclose` goes on to do, without the lock: close one end of a pipe, drop an inode in a
-- transaction, or nothing.
pub data Release : Type 0 where
  nothing : Release
  close_pipe : ℕ → Bool → Release
  put_inode : ℕ → Release

abbrev pub release : File → Release
release ff = elim ff.type [
  | fd_none ↦ nothing
  | fd_pipe ↦ close_pipe ff.pipe ff.writable
  | fd_inode ↦ put_inode ff.ip
]

unfoldable pub fileclose : ℕ → (ℕ → File) → Option (Release × (ℕ → File))
fileclose f table =
    let n = (table f).ref - 1 in
    if ltb (table f).ref 1
    then none
    else if ltb 0 n
    then some (nothing, update table f (record (table f) { ref = n }))
    else some (release (table f), update table f (record (table f) { type = fd_none; ref = 0 }))

-- NOFILE of param.h
abbrev pub nofile : ℕ
nofile = 16

-- `arg` is what `argint` fetches, `none` where it fails; the result is the descriptor and its file.
unfoldable pub argfd : Option ℤ → (ℕ → Option ℕ) → Option (ℕ × ℕ)
argfd none ofile = none
argfd (some (negsuc n)) ofile = none
argfd (some (pos fd)) ofile =
    if leb nofile fd then none else elim (ofile fd) [ none ↦ none | some f ↦ some (fd, f) ]

-- The loop of `fdalloc` over `k` descriptors from `fd` on.
unfoldable pub find_fd : ℕ → ℕ → (ℕ → Option ℕ) → Option ℕ
find_fd zero fd ofile = none
find_fd (suc k) fd ofile =
    let rest = find_fd k (fd + 1) ofile in elim (ofile fd) [ none ↦ some fd | some f ↦ rest ]

unfoldable pub fdalloc : ℕ → (ℕ → Option ℕ) → Option (ℕ × (ℕ → Option ℕ))
fdalloc f ofile = elim (find_fd nofile 0 ofile) [
  | none ↦ none
  | some fd ↦ some (fd, update ofile fd (some f))
]

-- The descriptors of the current process, `none` where free, and the table.
pub record Files : Type 0 where
  pub ofile : ℕ → Option ℕ
  pub table : ℕ → File

unfoldable pub sys_dup : Option ℤ → Files → Option (ℤ × Files)
sys_dup arg s = elim (argfd arg s.ofile) [
  | none ↦ some (negsuc 0, s)
  | some (old, f) ↦ elim (fdalloc f s.ofile) [
    | none ↦ some (negsuc 0, s)
    | some (fd, ofile') ↦ elim (filedup f s.table) [
      | none ↦ none
      | some table' ↦ some (pos fd, record { ofile = ofile'; table = table' })
    ]
  ]
]

unfoldable pub sys_close : Option ℤ → Files → Option (ℤ × Release × Files)
sys_close arg s = elim (argfd arg s.ofile) [
  | none ↦ some (negsuc 0, nothing, s)
  | some (fd, f) ↦ elim (fileclose f s.table) [
    | none ↦ none
    | some (r, table') ↦ some (pos 0, r, record { ofile = update s.ofile fd none; table = table' })
  ]
]
