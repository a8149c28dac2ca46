-- ===== src/Grep/Tests.antt =====
-- grep on short texts.
use operating_system_assignm.Prelude.{ℕ, ◌≡◌, ◌↔◌, ◌≢◌, refl, true, false, List, [], ◌∷◌, ◌++◌}
use operating_system_assignm.Grep.{match}
use operating_system_assignm.Grep.Pattern.{Matches}
use operating_system_assignm.Grep.Correct.{match_iff}
use operating_system_assignm.Grep.Lines.{
  newline, shown, grep, has_newline, matching, concat, grep-matching, grep_split, scan,
}

-- ^a.*c$
abbrev tied : List ℕ
tied = b'^' ∷ b'a' ∷ b'.' ∷ b'*' ∷ b'c' ∷ b'$' ∷ []

abbrev abcc : List ℕ
abcc = b'a' ∷ b'b' ∷ b'c' ∷ b'c' ∷ []

tied-abcc : match tied abcc ≡ true
unfolding match
tied-abcc = refl

tied_late : match tied (b'x' ∷ abcc) ≡ false
unfolding match
tied_late = refl

match_iff_example : (match tied abcc ≡ true) ↔ Matches tied abcc
match_iff_example = match_iff tied abcc

abbrev chunks : List (List ℕ)
chunks = (abcc ++ (newline ∷ b'a' ∷ [])) ∷ (b'c' ∷ newline ∷ b'x' ∷ newline ∷ []) ∷ []

shown_lines : grep tied chunks [] ≡ abcc ++ (newline ∷ b'a' ∷ b'c' ∷ newline ∷ [])
unfolding grep match shown scan
shown_lines = refl

each_has_newline :
    (has_newline (abcc ++ (newline ∷ b'a' ∷ [])) ≡ true)
    × ((has_newline (b'c' ∷ newline ∷ b'x' ∷ newline ∷ []) ≡ true) × Unit {0})
unfolding has_newline
each_has_newline = (refl, (refl, tt))

grep-matching_example : grep tied chunks [] ≡ matching tied (concat chunks)
grep-matching_example = grep-matching tied chunks each_has_newline

no_newline : (has_newline (b'x' ∷ []) ≡ false) × (has_newline abcc ≡ false)
unfolding has_newline
no_newline = (refl, refl)

grep_split_example :
    (grep tied ((b'x' ∷ []) ∷ (abcc ++ (newline ∷ [])) ∷ []) [] ≡ shown tied abcc)
    × (matching tied ((b'x' ∷ []) ++ (abcc ++ (newline ∷ []))) ≡ shown tied ((b'x' ∷ []) ++ abcc))
grep_split_example =
    grep_split tied (b'x' ∷ []) abcc (let n : (b'x' ∷ []) ≢ [] = λ e. cc in n) no_newline.0
      no_newline.1
