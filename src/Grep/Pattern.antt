-- ===== src/Grep/Pattern.antt =====
-- What a pattern of grep means, as a set of texts.
use operating_system_assignm.Prelude.{
  ℕ, ◌≡◌, Bool, true, false, List, [], ◌∷◌, ◌++◌, ◌==◌, ◌||◌, All, if◌then◌else◌,
}

-- One byte, or any number of bytes, each as `c` says.
pub data Item : Type 0 where
  one : ℕ → Item
  star : ℕ → Item

-- `.` stands for any byte.
abbrev pub accepts : ℕ → ℕ → Bool
accepts c t = c == b'.' || c == t

-- A pattern without its `^`: its items, and whether it ends in `$`.
unfoldable pub items : List ℕ → List Item
items [] = []
items (c ∷ []) = if c == b'$' then [] else one c ∷ []
items (c ∷ s ∷ re) =
    let starred = star c ∷ items re in
    let single = one c ∷ items (s ∷ re) in if s == b'*' then starred else single

unfoldable pub ends : List ℕ → Bool
ends [] = false
ends (c ∷ []) = c == b'$'
ends (c ∷ s ∷ re) =
    let starred = ends re in let single = ends (s ∷ re) in if s == b'*' then starred else single

-- The words that the items stand for.
abbrev pub Word : List Item → List ℕ → Type 0
Word [] w = w ≡ []
Word (one c ∷ is) w = (t : ℕ) × (v : List ℕ) × (w ≡ t ∷ v) × (accepts c t ≡ true) × Word is v
Word (star c ∷ is) w =
    (u : List ℕ) × (v : List ℕ) × (w ≡ u ++ v) × All (λ t. accepts c t ≡ true) u × Word is v

-- A word of the pattern stands at the start of the text, and is all of it where the pattern ends
-- in `$`.
abbrev pub Begins : List ℕ → List ℕ → Type 0
Begins re text =
    (w : List ℕ) × (after : List ℕ) × (text ≡ w ++ after)
    × Word (items re) w
    × (ends re ≡ true → after ≡ [])

-- A word of the pattern stands somewhere in the text.
abbrev pub Occurs : List ℕ → List ℕ → Type 0
Occurs re text = (before : List ℕ) × (rest : List ℕ) × (text ≡ before ++ rest) × Begins re rest

-- `^` ties the word to the start of the text.
abbrev pub Matches : List ℕ → List ℕ → Type 0
Matches [] text = Occurs [] text
Matches (c ∷ re) text = if c == b'^' then Begins re text else Occurs (c ∷ re) text
