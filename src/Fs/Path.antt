-- ===== src/Fs/Path.antt =====
-- The path names of Assignment1/xv6-public/fs.c: skipelem and the walk of namex. A path is the list
-- of its bytes before the terminating 0. A name in a buffer of DIRSIZ bytes is the list of its bytes
-- up to a 0 or the end of the buffer, which is all that namecmp reads.
pub mod Elements
pub mod Walk
use operating_system_assignm.Prelude.{
  ℕ, zero, suc, ◌+◌, Bool, true, false, Option, none, some, List, [], ◌∷◌, ◌==◌, ◌&&◌, not,
  if◌then◌else◌, take, length,
}

-- DIRSIZ of fs.h
abbrev pub dirsiz : ℕ
dirsiz = 14

-- `while(*path == '/') path++;`
unfoldable pub skip_slashes : List ℕ → List ℕ
skip_slashes [] = []
skip_slashes (c ∷ path) = if c == b'/' then skip_slashes path else c ∷ path

-- `while(*path != '/' && *path != 0) path++;`: the bytes passed over, and the rest.
unfoldable pub take_element : List ℕ → List ℕ × List ℕ
take_element [] = ([], [])
take_element (c ∷ path) =
    let (element, rest) = take_element path in
    if c == b'/' then ([], c ∷ path) else (c ∷ element, rest)

-- `skipelem` from the test for the end on: null where the path has no element.
unfoldable pub first_element : List ℕ → Option (List ℕ × List ℕ)
unfolding skip_slashes take_element
first_element [] = none
first_element (c ∷ path) =
    let (element, rest) = take_element (c ∷ path) in some (take dirsiz element, skip_slashes rest)

-- The name and the rest of the path.
unfoldable pub skipelem : List ℕ → Option (List ℕ × List ℕ)
unfolding first_element
skipelem path = first_element (skip_slashes path)

-- The walk of namex over inode numbers: whether an inode is a directory, and what dirlookup finds in
-- it, are arguments; locks and reference counts are not part of this.
module _ (is_dir : ℕ → Bool) (dirlookup : ℕ → List ℕ → Option ℕ) where
  -- A round of the loop of `namex` on what skipelem gave; `again` is the next round.
  unfoldable pub visit :
      (List ℕ → ℕ → Option (List ℕ × ℕ)) → Bool → ℕ → Option (List ℕ × List ℕ) → Option (List ℕ × ℕ)
  visit again parent ip none = if parent then none else some ([], ip)
  visit again parent ip (some (name, rest)) =
      if is_dir ip
      then if parent && length rest == 0
        then some (name, ip)
        else elim (dirlookup ip name) [ none ↦ none | some ip' ↦ again rest ip' ]
      else none

  -- The loop of `namex` on fuel. The result is an inode, with the last name where `nameiparent`.
  unfoldable pub namex_loop : ℕ → Bool → List ℕ → ℕ → Option (List ℕ × ℕ)
  unfolding visit
  namex_loop zero parent path ip = none
  namex_loop (suc fuel) parent path ip = visit (namex_loop fuel parent) parent ip (skipelem path)

  -- `root` is ROOTINO, `cwd` the inode of the working directory. Each round takes a byte at least,
  -- so the length of the path is fuel enough.
  unfoldable pub namex : ℕ → ℕ → Bool → List ℕ → Option (List ℕ × ℕ)
  unfolding namex_loop
  namex root cwd parent [] = namex_loop 1 parent [] cwd
  namex root cwd parent (c ∷ path) =
      namex_loop (length path + 2) parent (c ∷ path) (if c == b'/' then root else cwd)
