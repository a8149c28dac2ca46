-- ===== src/Fs/Path/Walk.antt =====
-- namex against a walk along the elements of the path.
use mathlib.Core.Path.{sym}
use operating_system_assignm.Prelude.{
  ℕ, zero, suc, ◌+◌, ◌<◌, ◌≡◌, ◌≢◌, inl, inr, refl, ap, ◌∙◌, arith, Bool, true, false, Option, none,
  some, List, [], ◌∷◌, ◌==◌, if◌then◌else◌, length, Option-cases,
}
use operating_system_assignm.Fs.Path.{visit, namex_loop, namex}
use operating_system_assignm.Fs.Path.Elements.{
  elements, elements-cons, IsTrimmed, nothing, element, skipelem-Skipped,
}

-- Where a walk starts.
abbrev pub origin : ℕ → ℕ → List ℕ → ℕ
origin root cwd [] = cwd
origin root cwd (c ∷ path) = if c == b'/' then root else cwd

module _ (is_dir : ℕ → Bool) (dirlookup : ℕ → List ℕ → Option ℕ) where
  -- From inode `ip` along the names, each but the last in a directory that has it.
  unfoldable pub walk : List (List ℕ) → ℕ → Option ℕ
  walk [] ip = some ip
  walk (name ∷ names) ip =
      if is_dir ip
      then elim (dirlookup ip name) [ none ↦ none | some ip' ↦ walk names ip' ]
      else none

  -- The directory that the last name is looked for in, and that name.
  unfoldable pub walk_parent : List (List ℕ) → ℕ → Option (List ℕ × ℕ)
  walk_parent [] ip = none
  walk_parent (name ∷ []) ip = if is_dir ip then some (name, ip) else none
  walk_parent (name ∷ next ∷ names) ip =
      if is_dir ip
      then elim (dirlookup ip name) [ none ↦ none | some ip' ↦ walk_parent (next ∷ names) ip' ]
      else none

  -- What `namex` is to return.
  abbrev pub target : Bool → List (List ℕ) → ℕ → Option (List ℕ × ℕ)
  target true names ip = walk_parent names ip
  target false names ip = elim (walk names ip) [ none ↦ none | some ip' ↦ some ([], ip') ]

  target-nil :
      (parent : Bool) (ip : ℕ) → (if parent then none else some ([], ip)) ≡ target parent [] ip
  unfolding walk walk_parent
  target-nil true ip = refl
  target-nil false ip = refl

  last_name :
      (ip : ℕ) (name : List ℕ)
      → (if is_dir ip then some (name, ip) else none) ≡ walk_parent (name ∷ elements []) ip
  unfolding walk_parent elements
  last_name ip name = refl

  walk_parent_more :
      (name : List ℕ) (names : List (List ℕ)) (ip : ℕ)
      → names ≢ []
      → walk_parent (name ∷ names) ip ≡ (
          if is_dir ip
          then elim (dirlookup ip name) [ none ↦ none | some ip' ↦ walk_parent names ip' ]
          else none)
  unfolding walk_parent
  walk_parent_more name [] ip some_more = absurd (some_more refl)
  walk_parent_more name (next ∷ names) ip some_more = refl

  -- A visit is a step of the walk.
  visit-target :
      (again : List ℕ → ℕ → Option (List ℕ × ℕ)) (parent : Bool) (ip : ℕ) (name rest : List ℕ)
      → IsTrimmed rest
      → ((ip' : ℕ) → again rest ip' ≡ target parent (elements rest) ip')
      → visit is_dir dirlookup again parent ip (some (name, rest))
        ≡ target parent (name ∷ elements rest) ip
  unfolding visit walk
  visit-target again false ip name rest t ih = elim (Option-cases (dirlookup ip name)) [
    | inl missing ↦ ground (arith, missing)
    | inr (ip', found) ↦ ground (arith, found, ih ip')
  ]
  visit-target again true ip name [] t ih = last_name ip name
  visit-target again true ip name (c ∷ rest) t ih =
      let step = walk_parent_more name (elements (c ∷ rest)) ip (elements-cons c rest t) in
      elim (Option-cases (dirlookup ip name)) [
        | inl missing ↦ ground (arith, step, missing)
        | inr (ip', found) ↦ ground (arith, step, found, ih ip')
      ]

  namex_loop-target :
      (fuel : ℕ) (parent : Bool) (path : List ℕ) (ip : ℕ)
      → length path < fuel
      → namex_loop is_dir dirlookup fuel parent path ip ≡ target parent (elements path) ip
  unfolding namex_loop
  namex_loop-target zero parent path ip h = absurd (omega arith)
  namex_loop-target (suc fuel) parent path ip h =
      let again = namex_loop is_dir dirlookup fuel parent in
      elim (skipelem-Skipped path) [
        | nothing e out ↦
            ap (visit is_dir dirlookup again parent ip) out
            ∙ target-nil parent ip
            ∙ ap (λ x. target parent x ip) (sym e)
        | element name rest out e shorter t ↦
            ap (visit is_dir dirlookup again parent ip) out
            ∙ visit-target again parent ip name rest t
                (λ ip'. namex_loop-target fuel parent rest ip' (omega arith))
            ∙ ap (λ x. target parent x ip) (sym e)
      ]

  -- `namex` is the walk along the elements of the path, from the root or the working directory:
  -- each name is looked up in a directory, and with nameiparent the walk stops at the directory
  -- of the last name. The loop ends on the fuel that it is given.
  pub namex-target :
      (root cwd : ℕ) (parent : Bool) (path : List ℕ)
      → namex is_dir dirlookup root cwd parent path
        ≡ target parent (elements path) (origin root cwd path)
  unfolding namex
  namex-target root cwd parent [] = namex_loop-target 1 parent [] cwd (omega arith)
  namex-target root cwd parent (c ∷ path) =
      namex_loop-target (length path + 2) parent (c ∷ path) (if c == b'/' then root else cwd)
        (omega arith)
