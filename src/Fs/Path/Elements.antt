-- ===== src/Fs/Path/Elements.antt =====
-- The elements of a path, and skipelem.
use mathlib.Core.Path.{sym}
use mathlib.Core.List.{append_assoc, append-nil}
use operating_system_assignm.Prelude.{
  ℕ, ◌≤◌, ◌<◌, ◌≡◌, ◌≢◌, inl, inr, refl, ap, ◌∙◌, arith, false, Option, none, some, List, [], ◌∷◌,
  ◌++◌, ◌==◌, if◌then◌else◌, take, length, Bool-cases,
}
use operating_system_assignm.Fs.Path.{dirsiz, skip_slashes, take_element, first_element, skipelem}

-- An element that is not empty, cut to DIRSIZ bytes.
abbrev pub flush : List ℕ → List (List ℕ)
flush [] = []
flush (c ∷ element) = take dirsiz (c ∷ element) ∷ []

-- The path cut at its slashes; `element` is what was read since the last one.
unfoldable pub split : List ℕ → List ℕ → List (List ℕ)
split element [] = flush element
split element (c ∷ path) =
    let next = flush element ++ split [] path in
    let more = split (element ++ (c ∷ [])) path in if c == b'/' then next else more

unfoldable pub elements : List ℕ → List (List ℕ)
unfolding split
elements path = split [] path

split_slashes : (path : List ℕ) → split [] (skip_slashes path) ≡ split [] path
unfolding split skip_slashes
split_slashes [] = refl
split_slashes (c ∷ path) = elim (Bool-cases (c == b'/')) [
  | inl slash ↦ rw slash (split_slashes path)
  | inr other ↦ rw other (rw other)
]

-- What does not begin with a slash.
abbrev pub IsTrimmed : List ℕ → Type 0
IsTrimmed [] = Unit
IsTrimmed (c ∷ path) = (c == b'/') ≡ false

skip_slashes-IsTrimmed : (path : List ℕ) → IsTrimmed (skip_slashes path)
unfolding skip_slashes
skip_slashes-IsTrimmed [] = tt
skip_slashes-IsTrimmed (c ∷ path) = elim (Bool-cases (c == b'/')) [
  | inl slash ↦ rw slash (skip_slashes-IsTrimmed path)
  | inr other ↦ rw other other
]

-- Reading an element.
split_element :
    (element path : List ℕ)
    → split element path
      ≡ flush (element ++ (take_element path).0) ++ split [] (take_element path).1
unfolding split take_element
split_element element [] = rw (append-nil element) (sym (append-nil (flush element)))
split_element element (c ∷ path) = elim (Bool-cases (c == b'/')) [
  | inl slash ↦ rw (slash, append-nil element) (rw slash)
  | inr other ↦ rw other (
      split_element (element ++ (c ∷ [])) path
      ∙ ap (λ x. flush x ++ split [] (take_element path).1)
          (append_assoc element (c ∷ []) (take_element path).0))
]

length-take_element : (path : List ℕ) → length (take_element path).1 ≤ length path
unfolding take_element
length-take_element [] = omega arith
length-take_element (c ∷ path) = ground (arith, length-take_element path)

length-skip_slashes : (path : List ℕ) → length (skip_slashes path) ≤ length path
unfolding skip_slashes
length-skip_slashes [] = omega arith
length-skip_slashes (c ∷ path) = ground (arith, length-skip_slashes path)

-- A trimmed path that is not empty has an element.
pub elements-cons : (c : ℕ) (path : List ℕ) → (c == b'/') ≡ false → elements (c ∷ path) ≢ []
unfolding elements take_element
elements-cons c path other e =
    let s : elements (c ∷ path)
        ≡ flush (c ∷ (take_element path).0) ++ split [] (take_element path).1 =
      split_element [] (c ∷ path) ∙ rw other in
    cc

-- What `skipelem` comes to.
pub data Skipped (path : List ℕ) (out : Option (List ℕ × List ℕ)) : Type 0 where
  nothing : elements path ≡ [] → out ≡ none → Skipped path out
  element :
      (name rest : List ℕ)
      → out ≡ some (name, rest)
      → elements path ≡ name ∷ elements rest
      → length rest < length path
      → IsTrimmed rest
      → Skipped path out

first_element-Skipped : (path : List ℕ) → IsTrimmed path → Skipped path (first_element path)
unfolding first_element elements take_element
first_element-Skipped [] t = nothing refl refl
first_element-Skipped (c ∷ path) t =
    let rest = (take_element path).1 in
    let all : split [] (c ∷ path) ≡ flush (c ∷ (take_element path).0) ++ split [] rest =
      split_element [] (c ∷ path) ∙ rw t in
    element (take dirsiz (c ∷ (take_element path).0)) (skip_slashes rest) (rw t)
      (all ∙ ap (λ x. take dirsiz (c ∷ (take_element path).0) ∷ x) (sym (split_slashes rest)))
      (omega (arith, length-take_element path, length-skip_slashes rest))
      (skip_slashes-IsTrimmed rest)

pub skipelem-Skipped : (path : List ℕ) → Skipped path (skipelem path)
unfolding skipelem elements
skipelem-Skipped path =
    elim (first_element-Skipped (skip_slashes path) (skip_slashes-IsTrimmed path)) [
      | nothing e out ↦ nothing (sym (split_slashes path) ∙ e) out
      | element name rest out e shorter t ↦
          element name rest out (sym (split_slashes path) ∙ e)
            (omega (arith, shorter, length-skip_slashes path)) t
    ]
