-- ===== src/Mlq/Level.antt =====
-- One level of `multiqueue`: `start[qindex]`, `end[qindex]` and `proc[qindex]`.
use operating_system_assignm.Prelude.{
  ℕ, zero, suc, ◌+◌, ◌-◌, ◌%◌, ◌≤◌, ◌<◌, ◌≡◌, ◌≢◌, refl, ap, arith, Bool, Option, none, some, ◌==◌,
  if◌then◌else◌, update, List, [], ◌∷◌, ◌++◌, length, dec_lt,
}
use mathlib.Core.Path.{ap₂}

-- NPROC + 1
abbrev pub cells : ℕ
cells = 65

pub record Ring : Type 0 where
  pub start : ℕ
  pub end : ℕ
  pub proc : ℕ → ℕ

unfoldable pub is_empty : Ring → Bool
is_empty r = r.start == r.end

-- A full ring drops the process.
unfoldable pub push : ℕ → Ring → Ring
push p r =
    if (r.end + 1) % cells == r.start
    then r
    else record r { proc = update r.proc r.end p; end = (r.end + 1) % cells }

unfoldable pub pop : Ring → Option ℕ × Ring
pop r =
    if r.start == r.end
    then (none, r)
    else (some (r.proc r.start), record r { start = (r.start + 1) % cells })

-- Both indices are inside of the row.
pub record IsValid (r : Ring) : Type 0 where
  pub start_in : r.start < cells
  pub end_in : r.end < cells

-- The `n` entries from index `h` on, going round at the end of the row.
abbrev pub window : (ℕ → ℕ) → ℕ → ℕ → List ℕ
window a h zero = []
window a h (suc n) = a h ∷ window a ((h + 1) % cells) n

abbrev pub size : Ring → ℕ
size r = (r.end + cells - r.start) % cells

-- The processes of the ring, the next to run first.
unfoldable pub contents : Ring → List ℕ
contents r = window r.proc r.start (size r)

length-window : (a : ℕ → ℕ) (h n : ℕ) → length (window a h n) ≡ n
length-window a h zero = refl
length-window a h (suc n) = ap suc (length-window a ((h + 1) % cells) n)

pub length-contents : (r : Ring) → length (contents r) ≡ size r
unfolding contents
length-contents r = length-window r.proc r.start (size r)

window-update :
    (a : ℕ → ℕ) (x n h i : ℕ)
    → h < cells
    → n < cells - 1
    → i ≡ (h + n) % cells
    → window (update a i x) h (suc n) ≡ window a h n ++ (x ∷ [])
window-update a x zero h i hh hn e = ground arith
window-update a x (suc n) h i hh hn e =
    ap₂ ◌∷◌ (ground arith)
      (window-update a x n ((h + 1) % cells) i (omega arith) (omega arith) (omega arith))

pub push-IsValid : (p : ℕ) {r : Ring} → IsValid r → IsValid (push p r)
unfolding push
push-IsValid p v = ground arith

pub pop-IsValid : {r : Ring} → IsValid r → IsValid (pop r).1
unfolding pop
pop-IsValid v = ground arith

-- On a valid ring with fewer than 64 processes inside, the new one goes to the end and the
-- others stay in order.
pub contents-push :
    (p : ℕ) {r : Ring}
    → IsValid r
    → length (contents r) < cells - 1
    → contents (push p r) ≡ contents r ++ (p ∷ [])
unfolding push contents
contents-push p {r} v lt =
    let e : size (push p r) ≡ suc (size r) =
      ground (arith, length-window r.proc r.start (size r)) in
    ground (
      arith,
      e,
      length-window r.proc r.start (size r),
      window-update r.proc p (size r) r.start r.end v.start_in,
    )

-- A valid ring with 64 processes inside is full: it stays as it is.
pub push-full : (p : ℕ) {r : Ring} → IsValid r → cells - 1 ≤ length (contents r) → push p r ≡ r
unfolding push contents
push-full p {r} v le = ground (arith, length-window r.proc r.start (size r))

-- `pop` takes the first process, and reports an empty ring as such.
pub data Popped (r : Ring) : Type 0 where
  empty : contents r ≡ [] → pop r ≡ (none, r) → Popped r
  first :
      (p : ℕ) (rest : List ℕ)
      → contents r ≡ p ∷ rest
      → (pop r).0 ≡ some p
      → contents (pop r).1 ≡ rest
      → Popped r

window_pos : (a : ℕ → ℕ) (h n : ℕ) → n ≢ 0 → window a h n ≡ a h ∷ window a ((h + 1) % cells) (n - 1)
window_pos a h zero p = absurd (p refl)
window_pos a h (suc n) p = ap (λ k. window a h (suc k)) (omega arith)

-- On a valid ring `pop` takes the first process and keeps the order of the others, and reports
-- an empty ring as such.
pub pop-Popped : {r : Ring} → IsValid r → Popped r
unfolding pop contents
pop-Popped {r} v = elim (dec_lt 0 (size r)) [
  | no z ↦ let e : size r ≡ 0 = omega arith in empty (rw e) (ground arith)
  | yes pos ↦
      first (r.proc r.start) (window r.proc ((r.start + 1) % cells) (size r - 1))
        (window_pos r.proc r.start (size r) (omega arith)) (ground arith) (ground arith)
]
