-- ===== src/Fs/Bits.antt =====
-- One bit of a byte: the test, the setting and the clearing that the block map of fs.c makes.
use Prim.Native.Nat.{bit_and, bit_or}
use mathlib.Core.Path.{subst}
use operating_system_assignm.Prelude.{
  ℕ, zero, suc, ◌-◌, ◌^◌, ◌<◌, ◌≤◌, ℕ_discrete, ◌≡◌, refl, sym, arith, Bool, true, false, ◌&&◌,
  ◌==◌, ltb, if◌then◌else◌,
}

-- `(byte & m) == 0` for `m = 1 << i`
unfoldable pub is_clear : ℕ → ℕ → Bool
is_clear byte i = bit_and byte (2 ^ i) == 0

-- `byte |= m`
unfoldable pub set_bit : ℕ → ℕ → ℕ
set_bit byte i = bit_or byte (2 ^ i)

-- `byte &= ~m`
unfoldable pub clear_bit : ℕ → ℕ → ℕ
clear_bit byte i = bit_and byte (255 - 2 ^ i)

-- The law holds of the numbers up to `last`.
up_to : (ℕ → Bool) → ℕ → Bool
up_to law zero = law zero
up_to law (suc last) = if law (suc last) then up_to law last else false

up_to_lem : (law : ℕ → Bool) (last : ℕ) → up_to law last ≡ true → (i : ℕ) → i ≤ last → law i ≡ true
unfolding up_to
up_to_lem law zero table i low = let e : 0 ≡ i = omega arith in subst (λ t. law t ≡ true) e table
up_to_lem law (suc last) table i low = elim (ℕ_discrete (suc last) i) [
  | yes e ↦ let here : law (suc last) ≡ true = ground arith in subst (λ t. law t ≡ true) e here
  | no ne ↦
      let before : up_to law last ≡ true = ground arith in up_to_lem law last before i (omega arith)
]

same : Bool → Bool → Bool
same true b = b
same false true = false
same false false = true

same-eq : (a b : Bool) → same a b ≡ true → a ≡ b
unfolding same
same-eq true b h = sym h
same-eq false true h = h
same-eq false false h = refl

-- A law of all bytes and all pairs of bits, tried out.
abbrev IsLaw : (ℕ → ℕ → ℕ → Bool) → Type 0
IsLaw law = up_to (λ x. up_to (λ i. up_to (law x i) 7) 7) 255 ≡ true

-- The laws at one byte and two bits.
abbrev set_law : ℕ → ℕ → ℕ → Bool
set_law byte i j =
    same (is_clear (set_bit byte i) j) (if i == j then false else is_clear byte j)
    && ltb (set_bit byte i) 256

abbrev clear_law : ℕ → ℕ → ℕ → Bool
clear_law byte i j =
    same (is_clear (clear_bit byte i) j) (if i == j then true else is_clear byte j)
    && ltb (clear_bit byte i) 256

set_table : IsLaw set_law
unfolding up_to same is_clear set_bit
set_table = refl

clear_table : IsLaw clear_law
unfolding up_to same is_clear clear_bit
clear_table = refl

IsLaw-bits :
    (law : ℕ → ℕ → ℕ → Bool)
    → IsLaw law
    → (byte i j : ℕ) → byte < 256
    → i < 8
    → j < 8
    → law byte i j ≡ true
IsLaw-bits law table byte i j hb hi hj =
    let at_byte = up_to_lem (λ x. up_to (λ i. up_to (law x i) 7) 7) 255 table byte (omega arith) in
    let at_bit = up_to_lem (λ i. up_to (law byte i) 7) 7 at_byte i (omega arith) in
    up_to_lem (law byte i) 7 at_bit j (omega arith)

both : (a b : Bool) (x y : ℕ) → (same a b && ltb x y) ≡ true → (a ≡ b) × (x < y)
both a b x y h = (same-eq a b (let s : same a b ≡ true = ground arith in s), ground arith)

pub set_bit_lem :
    (byte i j : ℕ)
    → byte < 256
    → i < 8
    → j < 8
    → (is_clear (set_bit byte i) j ≡ (if i == j then false else is_clear byte j))
      × (set_bit byte i < 256)
set_bit_lem byte i j hb hi hj =
    both (is_clear (set_bit byte i) j) (if i == j then false else is_clear byte j) (set_bit byte i)
      256 (IsLaw-bits set_law set_table byte i j hb hi hj)

pub clear_bit_lem :
    (byte i j : ℕ)
    → byte < 256
    → i < 8
    → j < 8
    → (is_clear (clear_bit byte i) j ≡ (if i == j then true else is_clear byte j))
      × (clear_bit byte i < 256)
clear_bit_lem byte i j hb hi hj =
    both (is_clear (clear_bit byte i) j) (if i == j then true else is_clear byte j)
      (clear_bit byte i) 256 (IsLaw-bits clear_law clear_table byte i j hb hi hj)
