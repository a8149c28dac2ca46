-- ===== src/Fs/Tests.antt =====
-- The file system on a small tree and a small disk.
use operating_system_assignm.Prelude.{
  ℕ, zero, suc, ◌<◌, ◌≡◌, dec_lt, refl, arith, Bool, true, false, Option, none, some, List, [], ◌∷◌,
  ◌==◌, ◌||◌, ◌&&◌, if◌then◌else◌,
}
use operating_system_assignm.Fs.Content.{Content, bmap}
use operating_system_assignm.Fs.Content.Mapped.{IsSound, Mapped}
use operating_system_assignm.Fs.Content.Indirect.{bmap-Mapped}
use operating_system_assignm.Fs.Inodes.{Inode, iget}
use operating_system_assignm.Fs.Inodes.Getting.{IsUnique, Got, iget-Got}
use operating_system_assignm.Fs.Bits.{is_clear}
use operating_system_assignm.Fs.Bitmap.{Buffers, balloc, bfree}
use operating_system_assignm.Fs.Blocks.{is_free, IsMap}
use operating_system_assignm.Fs.Allocated.{Allocated, Freed, balloc-Allocated, bfree-Freed}
use operating_system_assignm.Fs.Path.{skipelem, namex}
use operating_system_assignm.Fs.Path.Elements.{elements}
use operating_system_assignm.Fs.Path.Walk.{target, origin, namex-target}

-- ///a//bb
abbrev slashed : List ℕ
slashed = b'/' ∷ b'/' ∷ b'/' ∷ b'a' ∷ b'/' ∷ b'/' ∷ b'b' ∷ b'b' ∷ []

skipelem-slashed : skipelem slashed ≡ some (b'a' ∷ [], b'b' ∷ b'b' ∷ [])
unfolding skipelem
skipelem-slashed = refl

elements-slashed : elements slashed ≡ (b'a' ∷ []) ∷ (b'b' ∷ b'b' ∷ []) ∷ []
unfolding elements
elements-slashed = refl

-- Inode 1 is the root, with the directory a, inode 2, which has the file b, inode 3.
abbrev is_dir : ℕ → Bool
is_dir i = i == 1 || i == 2

abbrev entry : ℕ → List ℕ → Option ℕ
entry i [] = none
entry i (c ∷ name) =
    if i == 1 && c == b'a' then some 2 else if i == 2 && c == b'b' then some 3 else none

file_found : namex is_dir entry 1 1 false slashed ≡ some ([], 3)
unfolding namex skipelem
file_found = refl

parent_found : namex is_dir entry 1 1 true slashed ≡ some (b'b' ∷ b'b' ∷ [], 2)
unfolding namex skipelem
parent_found = refl

namex-target_example :
    namex is_dir entry 1 1 true slashed
    ≡ target is_dir entry true (elements slashed) (origin 1 1 slashed)
namex-target_example = namex-target is_dir entry 1 1 true slashed

-- Twenty blocks, the map in block 3, and the first nine in use.
abbrev small_map : Buffers
small_map = record {
  bytes = λ x i. if x == 3 then if i == 0 then 255 else if i == 1 then 1 else 0 else 0;
  logged = λ x. false;
}

low-used : (x : ℕ) → x < 4 → is_free 20 3 small_map x ≡ false
unfolding is_clear
low-used zero h = refl
low-used (suc zero) h = refl
low-used (suc (suc zero)) h = refl
low-used (suc (suc (suc zero))) h = refl
low-used (suc (suc (suc (suc x)))) h = absurd (omega arith)

small_map-IsMap : IsMap 20 3 small_map
small_map-IsMap = record {
  byte = λ x i below. ground arith;
  above = λ x below clear. elim (dec_lt x 4) [
    | yes low ↦ absurd (ground (arith, low-used x low))
    | no high ↦ omega arith
  ];
}

balloc-Allocated_example : Allocated 20 3 small_map (balloc 20 3 small_map)
balloc-Allocated_example = balloc-Allocated 20 3 small_map small_map-IsMap

bfree-Freed_example : Freed 20 3 8 small_map (bfree 20 3 8 small_map)
bfree-Freed_example = bfree-Freed 20 3 8 small_map small_map-IsMap (ground arith) (ground arith)

-- Entry 0 has inode 1 of device 1, with two references.
abbrev inodes : ℕ → Inode
inodes i =
    if i == 0
    then record { dev = 1; inum = 1; ref = 2; valid = true }
    else record { dev = 0; inum = 0; ref = 0; valid = false }

inodes-IsUnique : IsUnique inodes
inodes-IsUnique = record { one_entry = λ x y hx hy rx ry d n. ground (arith, rx, ry) }

iget-Got_example : Got 1 5 inodes (iget 1 5 inodes)
iget-Got_example = iget-Got 1 5 inodes inodes-IsUnique

-- An inode with no blocks.
abbrev no_blocks : Content
no_blocks = record { addrs = λ i. 0; disk = small_map }

no_blocks-IsSound : IsSound 20 3 no_blocks
no_blocks-IsSound = record { valid = small_map-IsMap; indirect = λ has. absurd (has refl) }

bmap-Mapped_example : Mapped 20 3 no_blocks 13 (bmap 20 3 13 no_blocks)
bmap-Mapped_example = bmap-Mapped 20 3 (ground arith) no_blocks no_blocks-IsSound 13
