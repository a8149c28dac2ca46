-- ===== src/Numbers/Tests.antt =====
-- A number printed and read.
use operating_system_assignm.Prelude.{◌≡◌, refl, arith, true, false, [], ◌∷◌}
use operating_system_assignm.Numbers.{digits_loop, printint, atoi}
use operating_system_assignm.Numbers.Reading.{atoi-printint}

-- -42, and 255 in base 16
negative : printint 4294967254 10 true ≡ b'-' ∷ b'4' ∷ b'2' ∷ []
unfolding printint digits_loop
negative = refl

hexadecimal : printint 255 16 false ≡ b'F' ∷ b'F' ∷ []
unfolding printint digits_loop
hexadecimal = refl

atoi-printint_example : atoi (printint 4207 10 true) ≡ 4207
atoi-printint_example = atoi-printint 4207 (ground arith) true
