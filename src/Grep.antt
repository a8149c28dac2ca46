-- ===== src/Grep.antt =====
-- The pattern matcher of Assignment1/xv6-public/grep.c. A C string is the list of its bytes before
-- the terminating 0, which the empty list stands for.
pub mod Pattern
pub mod Correct
pub mod Lines
pub mod Tests
use operating_system_assignm.Prelude.{
  ℕ, Bool, true, false, List, [], ◌∷◌, ◌==◌, ◌&&◌, ◌||◌, if◌then◌else◌,
}

-- `*text == '\0'`
abbrev pub at_end : List ℕ → Bool
at_end [] = true
at_end (t ∷ ts) = false

-- `matchstar` of `c`; `here` is its call of `matchhere` on the rest of the pattern.
unfoldable pub matchstar : ℕ → (List ℕ → Bool) → List ℕ → Bool
matchstar c here [] = here []
matchstar c here (t ∷ ts) =
    let again = matchstar c here ts in
    if here (t ∷ ts) then true else if t == c || c == b'.' then again else false

-- The last test of `matchhere`; `here` is its call on the rest of the pattern.
unfoldable pub matchone : ℕ → (List ℕ → Bool) → List ℕ → Bool
matchone c here [] = false
matchone c here (t ∷ ts) = if c == b'.' || c == t then here ts else false

unfoldable pub matchhere : List ℕ → List ℕ → Bool
unfolding matchstar matchone
matchhere [] text = true
matchhere (c ∷ []) text = if c == b'$' then at_end text else matchone c (matchhere []) text
matchhere (c ∷ s ∷ re) text =
    let star = matchstar c (matchhere re) text in
    let one = matchone c (matchhere (s ∷ re)) text in if s == b'*' then star else one

-- The loop of `match`.
unfoldable pub search_text : List ℕ → List ℕ → Bool
search_text re [] = matchhere re []
search_text re (t ∷ ts) = if matchhere re (t ∷ ts) then true else search_text re ts

unfoldable pub match : List ℕ → List ℕ → Bool
unfolding matchhere search_text
match [] text = search_text [] text
match (c ∷ re) text = if c == b'^' then matchhere re text else search_text (c ∷ re) text
