-- ===== src/Grep/Correct.antt =====
-- The matcher of grep against the meaning of its patterns.
use mathlib.Core.Path.{sym}
use mathlib.Core.List.{append_assoc}
use operating_system_assignm.Prelude.{
  ℕ, ◌≡◌, ◌↔◌, inl, inr, refl, ap, ◌∙◌, arith, Bool, true, false, List, [], ◌∷◌, ◌++◌, ◌==◌, All,
  Bool-cases,
}
use operating_system_assignm.Grep.{at_end, matchstar, matchone, matchhere, search_text, match}
use operating_system_assignm.Grep.Pattern.{
  one, star, accepts, items, ends, Word, Begins, Occurs, Matches,
}

-- Bytes that `c` accepts, and then the rest of the pattern.
abbrev Starred : ℕ → List ℕ → List ℕ → Type 0
Starred c re text =
    (u : List ℕ) × (rest : List ℕ) × (text ≡ u ++ rest)
    × All (λ t. accepts c t ≡ true) u
    × Begins re rest

module _ (c : ℕ) (re : List ℕ) (here : List ℕ → Bool)
    (sound : (text : List ℕ) → here text ≡ true → Begins re text) where
  matchstar→Starred : (text : List ℕ) → matchstar c here text ≡ true → Starred c re text
  unfolding matchstar
  matchstar→Starred [] e = ([], [], refl, tt, sound [] e)
  matchstar→Starred (t ∷ ts) e = elim (Bool-cases (here (t ∷ ts))) [
    | inl now ↦ ([], t ∷ ts, refl, tt, sound (t ∷ ts) now)
    | inr later ↦
        let again : matchstar c here ts ≡ true = ground arith in
        let fits : accepts c t ≡ true = ground arith in
        let (u, rest, parts, all, b) = matchstar→Starred ts again in
        (t ∷ u, rest, ap (λ x. t ∷ x) parts, (fits, all), b)
  ]

module _ (c : ℕ) (re : List ℕ) (here : List ℕ → Bool)
    (full : (text : List ℕ) → Begins re text → here text ≡ true) where
  Starred→matchstar :
      (u rest : List ℕ)
      → All (λ t. accepts c t ≡ true) u
      → Begins re rest
      → matchstar c here (u ++ rest) ≡ true
  unfolding matchstar
  Starred→matchstar [] [] all b = full [] b
  Starred→matchstar [] (t ∷ ts) all b = rw (full (t ∷ ts) b)
  Starred→matchstar (t ∷ u) rest all b =
      let again = Starred→matchstar u rest all.1 b in let fits = all.0 in ground arith

-- The three shapes of a pattern.
module _ (c : ℕ) where
  last_end : (text : List ℕ) → (c == b'$') ≡ true → at_end text ≡ true → Begins (c ∷ []) text
  unfolding items ends
  last_end [] e h = ([], [], refl, rw e, λ q. refl)
  last_end (t ∷ ts) e h = absurd (let s : false ≡ true = h in cc)

  end_last : (text : List ℕ) → (c == b'$') ≡ true → Begins (c ∷ []) text → at_end text ≡ true
  unfolding items ends
  end_last text e (w, after, parts, word, last) =
      let nil : w ≡ [] = rw e at word in
      let over : after ≡ [] = last e in let all : text ≡ [] = cc in rw all

  one_last :
      (text : List ℕ)
      → (c == b'$') ≡ false
      → Begins (c ∷ []) text
      → matchone c (matchhere []) text ≡ true
  unfolding items ends matchone matchhere
  one_last text e (w, after, parts, word, last) =
      let (t, v, split, fits, nil) = (let x : Word (one c ∷ []) w = rw e at word in x) in
      let all : text ≡ t ∷ (v ++ after) = parts ∙ ap (λ x. x ++ after) split in rw all (rw fits)

  last_one :
      (text : List ℕ)
      → (c == b'$') ≡ false
      → matchone c (matchhere []) text ≡ true
      → Begins (c ∷ []) text
  unfolding matchone items ends
  last_one [] e h = absurd (let s : false ≡ true = h in cc)
  last_one (t ∷ ts) e h =
      let fits : accepts c t ≡ true = ground arith in
      let word : Word (items (c ∷ [])) (t ∷ []) = rw e (t, [], refl, fits, refl) in
      (t ∷ [], ts, refl, word, λ q. absurd (let s : (c == b'$') ≡ true = q in cc))

  module _ (s : ℕ) (re : List ℕ) where
    Starred→Begins :
        (text : List ℕ) → (s == b'*') ≡ true → Starred c re text → Begins (c ∷ s ∷ re) text
    unfolding items ends
    Starred→Begins text e (u, rest, parts, all, (w, after, tail, word, last)) = (
      u ++ w,
      after,
      parts ∙ ap (λ x. u ++ x) tail ∙ sym (append_assoc u w after),
      rw e (u, w, refl, all, word),
      rw e last,
    )

    Begins→Starred :
        (text : List ℕ) → (s == b'*') ≡ true → Begins (c ∷ s ∷ re) text → Starred c re text
    unfolding items ends
    Begins→Starred text e (w, after, parts, word, last) =
        let (u, v, split, all, word') = (let x : Word (star c ∷ items re) w = rw e at word in x) in
        let last' : ends re ≡ true → after ≡ [] = rw e at last in
        (
          u,
          v ++ after,
          parts ∙ ap (λ x. x ++ after) split ∙ append_assoc u v after,
          all,
          (v, after, refl, word', last'),
        )

    one→Begins :
        (t : ℕ) (ts : List ℕ)
        → (s == b'*') ≡ false
        → accepts c t ≡ true
        → Begins (s ∷ re) ts
        → Begins (c ∷ s ∷ re) (t ∷ ts)
    unfolding items ends
    one→Begins t ts e fits (w, after, parts, word, last) =
        (t ∷ w, after, ap (λ x. t ∷ x) parts, rw e (t, w, refl, fits, word), rw e last)

    Begins→one :
        (text : List ℕ)
        → (s == b'*') ≡ false
        → Begins (c ∷ s ∷ re) text
        → (t : ℕ) × (ts : List ℕ) × (text ≡ t ∷ ts) × (accepts c t ≡ true) × Begins (s ∷ re) ts
    unfolding items ends
    Begins→one text e (w, after, parts, word, last) =
        let (t, v, split, fits, word') =
          (let x : Word (one c ∷ items (s ∷ re)) w = rw e at word in x) in
        let last' : ends (s ∷ re) ≡ true → after ≡ [] = rw e at last in
        (t, v ++ after, parts ∙ ap (λ x. x ++ after) split, fits, (v, after, refl, word', last'))

one_more :
    (c s : ℕ) (re text : List ℕ)
    → (s == b'*') ≡ false
    → ((ts : List ℕ) → matchhere (s ∷ re) ts ≡ true → Begins (s ∷ re) ts)
    → matchone c (matchhere (s ∷ re)) text ≡ true
    → Begins (c ∷ s ∷ re) text
unfolding matchone
one_more c s re [] e sound h = absurd (let f : false ≡ true = h in cc)
one_more c s re (t ∷ ts) e sound h =
    let fits : accepts c t ≡ true = ground arith in
    let rest : matchhere (s ∷ re) ts ≡ true = ground arith in
    one→Begins c s re t ts e fits (sound ts rest)

matchone_takes :
    (c t : ℕ) (ts : List ℕ) (here : List ℕ → Bool)
    → accepts c t ≡ true
    → here ts ≡ true
    → matchone c here (t ∷ ts) ≡ true
unfolding matchone
matchone_takes c t ts here fits h = rw (fits, h)

matchhere→Begins : (re text : List ℕ) → matchhere re text ≡ true → Begins re text
unfolding matchhere items ends
matchhere→Begins [] text h = ([], text, refl, refl, λ q. absurd (let s : false ≡ true = q in cc))
matchhere→Begins (c ∷ []) text h = elim (Bool-cases (c == b'$')) [
  | inl dollar ↦ last_end c text dollar (rw dollar at h)
  | inr plain ↦ last_one c text plain (rw plain at h)
]
matchhere→Begins (c ∷ s ∷ re) text h = elim (Bool-cases (s == b'*')) [
  | inl starred ↦
      Starred→Begins c s re text starred
        (matchstar→Starred c re (matchhere re) (matchhere→Begins re) text (rw starred at h))
  | inr plain ↦ one_more c s re text plain (λ ts. matchhere→Begins (s ∷ re) ts) (rw plain at h)
]

Begins→matchhere : (re text : List ℕ) → Begins re text → matchhere re text ≡ true
unfolding matchhere
Begins→matchhere [] text b = refl
Begins→matchhere (c ∷ []) text b = elim (Bool-cases (c == b'$')) [
  | inl dollar ↦ rw dollar (end_last c text dollar b)
  | inr plain ↦ rw plain (one_last c text plain b)
]
Begins→matchhere (c ∷ s ∷ re) text b = elim (Bool-cases (s == b'*')) [
  | inl starred ↦
      let (u, rest, parts, all, b') = Begins→Starred c s re text starred b in
      rw starred
        (rw parts (Starred→matchstar c re (matchhere re) (Begins→matchhere re) u rest all b'))
  | inr plain ↦
      let (t, ts, parts, fits, b') = Begins→one c s re text plain b in
      rw plain (
        rw parts
          (matchone_takes c t ts (matchhere (s ∷ re)) fits (Begins→matchhere (s ∷ re) ts b')))
]

search_text→Occurs : (re text : List ℕ) → search_text re text ≡ true → Occurs re text
unfolding search_text
search_text→Occurs re [] h = ([], [], refl, matchhere→Begins re [] h)
search_text→Occurs re (t ∷ ts) h = elim (Bool-cases (matchhere re (t ∷ ts))) [
  | inl now ↦ ([], t ∷ ts, refl, matchhere→Begins re (t ∷ ts) now)
  | inr later ↦
      let (before, rest, parts, b) = search_text→Occurs re ts (rw later at h) in
      (t ∷ before, rest, ap (λ x. t ∷ x) parts, b)
]

Occurs→search_text :
    (re before rest : List ℕ) → Begins re rest → search_text re (before ++ rest) ≡ true
unfolding search_text
Occurs→search_text re [] [] b = Begins→matchhere re [] b
Occurs→search_text re [] (t ∷ ts) b = rw (Begins→matchhere re (t ∷ ts) b)
Occurs→search_text re (t ∷ before) rest b =
    let later = Occurs→search_text re before rest b in ground arith

search_text_iff : (re text : List ℕ) → (search_text re text ≡ true) ↔ Occurs re text
search_text_iff re text = (
  search_text→Occurs re text,
  λ (before, rest, parts, b). rw parts (Occurs→search_text re before rest b),
)

-- `match` returns 1 exactly for the texts that the pattern matches: with a ^ in front a
-- beginning of the text is one of the pattern's words, else some part of it is; a word has one
-- byte for each item and any number of them for an item with a star, and a last $ asks for the
-- end of the text.
pub match_iff : (re text : List ℕ) → (match re text ≡ true) ↔ Matches re text
unfolding match
match_iff [] text = search_text_iff [] text
match_iff (c ∷ re) text = elim (Bool-cases (c == b'^')) [
  | inl tied ↦ rw tied (matchhere→Begins re text, Begins→matchhere re text)
  | inr free ↦ rw free (search_text_iff (c ∷ re) text)
]
