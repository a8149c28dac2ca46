-- ===== src/Grep/Lines.antt =====
-- The loops of `grep` in Assignment1/xv6-public/grep.c over the input. The input comes in the chunks
-- that `read` returns, each of at most 1023 - m bytes and without a 0 byte; a chunk of no bytes ends
-- it. `held` is what is in the buffer before a read, `buf[0]`, …, `buf[m - 1]`.
use mathlib.Core.Path.{sym}
use mathlib.Core.List.{append_assoc, append-nil}
use operating_system_assignm.Prelude.{
  ℕ, ◌≡◌, inl, inr, refl, ap, ◌∙◌, arith, Bool, true, false, List, [], ◌∷◌, ◌++◌, ◌==◌, ◌||◌, All,
  ◌≢◌, if◌then◌else◌, Bool-cases,
}
use operating_system_assignm.Grep.{match}

abbrev pub newline : ℕ
newline = 10

-- `match` on a line, and the `write` of it.
unfoldable pub shown : List ℕ → List ℕ → List ℕ
shown pattern line = if match pattern line then line ++ (newline ∷ []) else []

-- The inner loop with `strchr`: what is written, and what stays behind the last newline; `line` is
-- the part of the line from `p` that is behind the search.
unfoldable pub scan : List ℕ → List ℕ → List ℕ → List ℕ × List ℕ
scan pattern line [] = ([], line)
scan pattern line (c ∷ cs) =
    let (out, rest) = scan pattern [] cs in
    let more = scan pattern (line ++ (c ∷ [])) cs in
    if c == newline then (shown pattern line ++ out, rest) else more

-- `strchr(p, '\n') != 0`
unfoldable pub has_newline : List ℕ → Bool
has_newline [] = false
has_newline (c ∷ cs) = c == newline || has_newline cs

-- The outer loop; where no newline is in the buffer `p == buf` holds and `m` becomes 0.
unfoldable pub grep : List ℕ → List (List ℕ) → List ℕ → List ℕ
unfolding scan has_newline
grep pattern [] held = []
grep pattern ([] ∷ chunks) held = []
grep pattern ((c ∷ cs) ∷ chunks) held =
    let buf = held ++ (c ∷ cs) in
    let (out, rest) = scan pattern [] buf in
    let next = grep pattern chunks rest in
    let dropped = grep pattern chunks [] in if has_newline buf then out ++ next else dropped

-- The lines of a text that end in a newline, without it, where `line` comes before the text.
abbrev pub lines : List ℕ → List ℕ → List (List ℕ)
lines line [] = []
lines line (c ∷ cs) = if c == newline then line ∷ lines [] cs else lines (line ++ (c ∷ [])) cs

-- The lines that match, each with its newline.
abbrev pub select : List ℕ → List (List ℕ) → List ℕ
select pattern [] = []
select pattern (line ∷ more) =
    if match pattern line then line ++ (newline ∷ select pattern more) else select pattern more

-- The matching lines of a text, of those that end in a newline.
unfoldable pub matching : List ℕ → List ℕ → List ℕ
matching pattern text = select pattern (lines [] text)

-- A line that is shown.
shown-select :
    (pattern line : List ℕ) (more : List (List ℕ))
    → select pattern (line ∷ more) ≡ shown pattern line ++ select pattern more
unfolding shown
shown-select pattern line more = elim (Bool-cases (match pattern line)) [
  | inl hit ↦ rw hit (sym (append_assoc line (newline ∷ []) (select pattern more)))
  | inr miss ↦ rw miss refl
]

scan-select :
    (pattern line text : List ℕ) → (scan pattern line text).0 ≡ select pattern (lines line text)
unfolding scan
scan-select pattern line [] = refl
scan-select pattern line (c ∷ cs) = elim (Bool-cases (c == newline)) [
  | inl ends ↦ rw ends (
      ap (λ x. shown pattern line ++ x) (scan-select pattern [] cs)
      ∙ sym (shown-select pattern line (lines [] cs)))
  | inr goes ↦ rw goes (scan-select pattern (line ++ (c ∷ [])) cs)
]

pub concat : List (List ℕ) → List ℕ
concat [] = []
concat (x ∷ xs) = x ++ concat xs

-- Scanning in two pieces.
scan-append :
    (pattern line xs ys : List ℕ)
    → scan pattern line (xs ++ ys) ≡ (
      (scan pattern line xs).0 ++ (scan pattern (scan pattern line xs).1 ys).0,
      (scan pattern (scan pattern line xs).1 ys).1,
    )
unfolding scan
scan-append pattern line [] ys = refl
scan-append pattern line (c ∷ xs) ys = elim (Bool-cases (c == newline)) [
  | inl ends ↦
      rw (ends, scan-append pattern [] xs ys)
        (ap (λ x. (x, (scan pattern (scan pattern [] xs).1 ys).1))
          (sym (
            append_assoc (shown pattern line) (scan pattern [] xs).0
              (scan pattern (scan pattern [] xs).1 ys).0)))
  | inr goes ↦ rw goes (scan-append pattern (line ++ (c ∷ [])) xs ys)
]

-- Bytes that are not newlines join the line.
scan_held :
    (pattern line held more : List ℕ)
    → has_newline held ≡ false
    → scan pattern line (held ++ more) ≡ scan pattern (line ++ held) more
unfolding scan has_newline
scan_held pattern line [] more h = rw (append-nil line)
scan_held pattern line (c ∷ held) more h =
    let here : (c == newline) ≡ false = ground arith in
    let rest : has_newline held ≡ false = ground arith in
    rw here (
      scan_held pattern (line ++ (c ∷ [])) held more rest
      ∙ ap (λ x. scan pattern x more) (append_assoc line (c ∷ []) held))

has_newline-append : (xs ys : List ℕ) → has_newline (xs ++ ys) ≡ (has_newline xs || has_newline ys)
unfolding has_newline
has_newline-append [] ys = refl
has_newline-append (x ∷ xs) ys = ground (arith, has_newline-append xs ys)

-- No newline stays behind.
has_newline-scan :
    (pattern line xs : List ℕ)
    → has_newline line ≡ false
    → has_newline (scan pattern line xs).1 ≡ false
unfolding scan has_newline
has_newline-scan pattern line [] h = h
has_newline-scan pattern line (c ∷ xs) h = elim (Bool-cases (c == newline)) [
  | inl ends ↦ rw ends (has_newline-scan pattern [] xs refl)
  | inr goes ↦ rw goes (
      has_newline-scan pattern (line ++ (c ∷ [])) xs
        (has_newline-append line (c ∷ []) ∙ rw (h, goes)))
]

grep_held :
    (pattern : List ℕ) (chunks : List (List ℕ)) (held : List ℕ)
    → All (λ chunk. has_newline chunk ≡ true) chunks
    → has_newline held ≡ false
    → grep pattern chunks held ≡ (scan pattern [] (held ++ concat chunks)).0
unfolding grep concat
grep_held pattern [] held all h = sym (ap (λ x. x.0) (scan_held pattern [] held [] h))
grep_held pattern ([] ∷ chunks) held all h = absurd (let f : false ≡ true = all.0 in cc)
grep_held pattern ((c ∷ cs) ∷ chunks) held all h =
    let buf = held ++ (c ∷ cs) in
    let done = scan pattern [] buf in
    let more = concat chunks in
    let full : has_newline buf ≡ true = has_newline-append held (c ∷ cs) ∙ rw (h, all.0) in
    let none_left : has_newline done.1 ≡ false = has_newline-scan pattern [] buf refl in
    let rest : grep pattern chunks done.1 ≡ (scan pattern done.1 more).0 =
      grep_held pattern chunks done.1 all.1 none_left
      ∙ ap (λ x. x.0) (scan_held pattern [] done.1 more none_left) in
    rw full (
      ap (λ x. done.0 ++ x) rest
      ∙ sym (ap (λ x. x.0) (scan-append pattern [] buf more))
      ∙ ap (λ x. (scan pattern [] x).0) (append_assoc held (c ∷ cs) more))

-- Where each chunk that `read` returns has a newline, `grep` writes exactly the lines of the
-- whole input that `match` accepts, each once, in order and with its newline, however the lines
-- are split over the chunks.
pub grep-matching :
    (pattern : List ℕ) (chunks : List (List ℕ))
    → All (λ chunk. has_newline chunk ≡ true) chunks
    → grep pattern chunks [] ≡ matching pattern (concat chunks)
unfolding matching has_newline
grep-matching pattern chunks all =
    grep_held pattern chunks [] all refl ∙ scan-select pattern [] (concat chunks)

line_shown :
    (pattern line : List ℕ)
    → has_newline line ≡ false
    → matching pattern (line ++ (newline ∷ [])) ≡ shown pattern line
unfolding matching scan
line_shown pattern line h =
    sym (scan-select pattern [] (line ++ (newline ∷ [])))
    ∙ ap (λ x. x.0) (scan_held pattern [] line (newline ∷ []) h)
    ∙ append-nil (shown pattern line)

grep_drop :
    (pattern part : List ℕ) (chunks : List (List ℕ))
    → part ≢ []
    → has_newline part ≡ false
    → grep pattern (part ∷ chunks) [] ≡ grep pattern chunks []
unfolding grep
grep_drop pattern [] chunks some_part h = absurd (some_part refl)
grep_drop pattern (c ∷ cs) chunks some_part h = rw h

-- Where the first chunk is not empty and has no newline, and the second ends the line: `grep`
-- judges and writes the part of the line in the second chunk, while the matching lines of the
-- input are about the whole line.
pub grep_split :
    (pattern part rest : List ℕ)
    → part ≢ []
    → has_newline part ≡ false
    → has_newline rest ≡ false
    → (grep pattern (part ∷ (rest ++ (newline ∷ [])) ∷ []) [] ≡ shown pattern rest)
      × (matching pattern (part ++ (rest ++ (newline ∷ []))) ≡ shown pattern (part ++ rest))
unfolding has_newline concat
grep_split pattern part rest some_part p r = (
  grep_drop pattern part ((rest ++ (newline ∷ [])) ∷ []) some_part p
      ∙ grep-matching pattern ((rest ++ (newline ∷ [])) ∷ [])
          (has_newline-append rest (newline ∷ []) ∙ rw r, tt)
      ∙ ap (matching pattern) (append-nil (rest ++ (newline ∷ [])))
      ∙ line_shown pattern rest r,
  ap (matching pattern) (sym (append_assoc part rest (newline ∷ [])))
      ∙ line_shown pattern (part ++ rest) (has_newline-append part rest ∙ rw (p, r)),
)
