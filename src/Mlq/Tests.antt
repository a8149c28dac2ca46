-- ===== src/Mlq/Tests.antt =====
-- The levels of the multilevel queue, and swapque, on concrete rings.
use operating_system_assignm.Prelude.{◌+◌, ◌≡◌, refl, arith, [], ◌∷◌, ◌==◌, if◌then◌else◌}
use operating_system_assignm.Mlq.Level.{Ring, IsValid, contents}

-- Processes 7, 8, 9 in a row.
abbrev straight : Ring
straight = record { start = 3; end = 6; proc = λ j. j + 4 }

-- Two processes before the end of the row, one behind it.
abbrev round : Ring
round = record { start = 63; end = 1; proc = λ j. if j == 63 then 7 else if j == 64 then 8 else 9 }

straight-IsValid : IsValid straight
straight-IsValid = omega arith

round-contents : contents round ≡ 7 ∷ 8 ∷ 9 ∷ []
unfolding contents
round-contents = refl
