-- ===== src/Numbers.antt =====
-- Numbers as text in the user programs: printint of Assignment1/xv6-public/printf.c and atoi of
-- ulib.c. Values of type int and uint are 32-bit words, and a string is the list of its bytes before
-- the terminating 0.
pub mod Reading
pub mod Tests
use operating_system_assignm.Prelude.{
  ℕ, zero, suc, ◌+◌, ◌-◌, ◌*◌, ◌/◌, ◌%◌, ◌^◌, Bool, List, [], ◌∷◌, ltb, leb, ◌==◌, ◌&&◌,
  if◌then◌else◌,
}

-- `digits[d]`
abbrev pub digit : ℕ → ℕ
digit d = if ltb d 10 then b'0' + d else b'A' + (d - 10)

-- The loop of `printint` on fuel; `buf` holds the bytes so far, the latest first.
unfoldable pub digits_loop : ℕ → ℕ → ℕ → List ℕ → List ℕ
digits_loop zero base x buf = buf
digits_loop (suc fuel) base x buf =
    let longer = digit (x % base) ∷ buf in
    let rest = digits_loop fuel base (x / base) longer in if x / base == 0 then longer else rest

-- What is written. A base of 2 or more leaves no digits after 32 rounds.
unfoldable pub printint : ℕ → ℕ → Bool → List ℕ
printint xx base sgn =
    let neg = sgn && leb (2 ^ 31) xx in
    let x = if neg then (2 ^ 32 - xx) % 2 ^ 32 else xx in
    let buf = digits_loop 32 base x [] in if neg then b'-' ∷ buf else buf

-- The loop of `atoi`.
unfoldable pub atoi_loop : ℕ → List ℕ → ℕ
atoi_loop n [] = n
atoi_loop n (c ∷ s) =
    let rest = atoi_loop ((n * 10 + c - b'0') % 2 ^ 32) s in
    if leb b'0' c && leb c b'9' then rest else n

unfoldable pub atoi : List ℕ → ℕ
atoi s = atoi_loop 0 s
