-- ===== src/Mlq/Swap/Straight.antt =====
-- swapque on a level whose ring does not go round the end of its row.

use operating_system_assignm.Prelude.{
  ℕ, zero, suc, ◌+◌, ◌-◌, ◌%◌, ◌≤◌, ◌<◌, ◌≡◌, ◌≢◌, refl, ap, ◌∙◌, arith, some, pos, ℕ_discrete, ltb,
  if◌then◌else◌, update, List, [], ◌∷◌, ◌++◌,
}
use mathlib.Core.Path.{ap₂}
use operating_system_assignm.Mlq.Level.{Ring, cells, IsValid, contents, window}
use operating_system_assignm.Mlq.Swap.{returns, find_pid, close_gap, take_pid}

-- The `n` entries from index `h` on.
abbrev segment : (ℕ → ℕ) → ℕ → ℕ → List ℕ
segment a h zero = []
segment a h (suc n) = a h ∷ segment a (h + 1) n

window-segment : (a : ℕ → ℕ) (h n : ℕ) → h + n ≤ cells → window a h n ≡ segment a h n
window-segment a h zero le = refl
window-segment a h (suc zero) le = refl
window-segment a h (suc (suc n)) le =
    let e : (h + 1) % cells ≡ h + 1 = omega arith in
    ap (λ t. a h ∷ t) (rw e (window-segment a (h + 1) (suc n) (omega arith)))

segment-append :
    (a : ℕ → ℕ) (h m n : ℕ) → segment a h (m + n) ≡ segment a h m ++ segment a (h + m) n
segment-append a h zero n = ground arith
segment-append a h (suc m) n =
    let e : suc m + n ≡ suc (m + n) = omega arith in
    let e' : h + suc m ≡ h + 1 + m = omega arith in
    rw (e, e') (ap (λ t. a h ∷ t) (segment-append a (h + 1) m n))

-- Entries `d` further on in another array.
segment-shift :
    (a b : ℕ → ℕ) (d h n : ℕ)
    → ((l : ℕ) → h ≤ l → l < h + n → a l ≡ b (l + d))
    → segment a h n ≡ segment b (h + d) n
segment-shift a b d h zero e = refl
segment-shift a b d h (suc n) e =
    let s : h + d + 1 ≡ h + 1 + d = omega arith in
    rw s (
      ap₂ ◌∷◌ (e h (omega arith) (omega arith))
        (segment-shift a b d (h + 1) n (λ l x y. e l (omega arith) (omega arith))))

segment_same :
    (a b : ℕ → ℕ) (h n : ℕ)
    → ((l : ℕ) → h ≤ l → l < h + n → a l ≡ b l)
    → segment a h n ≡ segment b h n
segment_same a b h zero e = refl
segment_same a b h (suc n) e =
    ap₂ ◌∷◌ (e h (omega arith) (omega arith))
      (segment_same a b (h + 1) n (λ l x y. e l (omega arith) (omega arith)))

-- The inner loop moves the entries from `j` to `end` down by one.
close_gap-straight :
    (fuel : ℕ) (a : ℕ → ℕ) (end j : ℕ)
    → end < fuel + j
    → 0 < j
    → j ≤ end
    → end < cells
    → (a' : ℕ → ℕ) × (close_gap fuel a end j ≡ returns a')
      × ((l : ℕ)
          → a' l ≡ (if ltb l (j - 1) then a l else if ltb (l + 1) end then a (l + 1) else a l))
unfolding close_gap
close_gap-straight zero a end j f inner le lt = absurd (omega arith)
close_gap-straight (suc fuel) a end j f inner le lt = elim (ℕ_discrete j end) [
  | yes done ↦ (a, ground arith, λ l. ground arith)
  | no more ↦
      let e : (j + 1) % cells ≡ j + 1 = omega arith in
      let (a', e', w) =
        close_gap-straight fuel (update a (j - 1) (a j)) end (j + 1) (omega arith) (omega arith)
          (omega arith) lt in
      (a', ground (arith, e, e'), λ l. ground (arith, w l))
]

find_straight :
    (pid_of : ℕ → ℕ) (fuel : ℕ) (a : ℕ → ℕ) (end pid j i : ℕ)
    → i < fuel + j
    → j ≤ i
    → i < end
    → end < cells
    → pid_of (a i) ≡ pid
    → ((l : ℕ) → j ≤ l → l < i → pid_of (a l) ≢ pid)
    → find_pid pid_of fuel a end pid j ≡ returns (some i)
unfolding find_pid
find_straight pid_of zero a end pid j i f le lt in_row here before = absurd (omega arith)
find_straight pid_of (suc fuel) a end pid j i f le lt in_row here before = elim (ℕ_discrete j i) [
  | yes same ↦ ground arith
  | no more ↦
      let step : (j + 1) % cells ≡ j + 1 = omega arith in
      ground (
        arith,
        step,
        before j,
        find_straight pid_of fuel a end pid (j + 1) i (omega arith) (omega arith) lt in_row here
            (λ l x y. before l (omega arith) y),
      )
]

-- `d` entries from `start`, one entry, and the rest up to `end`.
contents_split :
    (a : ℕ → ℕ) (start d m : ℕ)
    → start + d + 1 + m < cells
    → contents (record { start = start; end = start + d + 1 + m; proc = a })
      ≡ segment a start d ++ (a (start + d) ∷ segment a (start + d + 1) m)
unfolding contents
contents_split a start d m lt =
    let e : (start + d + 1 + m + cells - start) % cells ≡ d + suc m = omega arith in
    rw e (window-segment a start (d + suc m) (omega arith) ∙ segment-append a start d (suc m))

contents_joined :
    (a : ℕ → ℕ) (start d m : ℕ)
    → start + d + m < cells
    → contents (record { start = start; end = start + d + m; proc = a })
      ≡ segment a start d ++ segment a (start + d) m
unfolding contents
contents_joined a start d m lt =
    let e : (start + d + m + cells - start) % cells ≡ d + m = omega arith in
    rw e (window-segment a start (d + m) (omega arith) ∙ segment-append a start d m)

-- Where a level does not go round the end of its row and holds a process with the pid, the
-- search of swapque takes exactly the first such process out of it and keeps the order of the
-- others. The process stands `d` entries behind the start, and `m` entries follow it.
pub take_pid-straight :
    (pid_of : ℕ → ℕ) (pid start d m : ℕ) (a : ℕ → ℕ)
    → start + d + 1 + m < cells
    → pid_of (a (start + d)) ≡ pid
    → ((l : ℕ) → start ≤ l → l < start + d → pid_of (a l) ≢ pid)
    → let r : Ring = record { start = start; end = start + d + 1 + m; proc = a } in
      (r' : Ring) × (before : List ℕ) × (after : List ℕ) × (take_pid pid_of pid r
        ≡ returns (record { p = some (a (start + d)); proc = r'.proc; end = pos r'.end }))
      × (r'.start ≡ start)
      × IsValid r'
      × (contents r ≡ before ++ (a (start + d) ∷ after))
      × (contents r' ≡ before ++ after)
unfolding take_pid
take_pid-straight pid_of pid start d m a lt here before =
    let end : ℕ = start + d + 1 + m in
    let r : Ring = record { start = start; end = end; proc = a } in
    let e : (start + d + 1) % cells ≡ start + d + 1 = omega arith in
    let f : find_pid pid_of (suc cells) a end pid start ≡ returns (some (start + d)) =
      find_straight pid_of (suc cells) a end pid start (start + d) (omega arith) (omega arith)
        (omega arith) lt here before in
    let (a', c, w) =
      close_gap-straight (suc cells) a end (start + d + 1) (omega arith) (omega arith) (omega arith)
        lt in
    let back : (end - 1) % cells ≡ start + d + m = omega arith in
    let r' : Ring = record { start = start; end = start + d + m; proc = a' } in
    (
      r',
      segment a start d,
      segment a (start + d + 1) m,
      rw (f, take_pid) (ground (arith, e, c, back)),
      refl,
      record { start_in = omega arith; end_in = omega arith },
      contents_split a start d m lt,
      contents_joined a' start d m (omega arith)
          ∙ ap₂ ◌++◌ (segment_same a' a start d (λ l x y. ground (arith, w l)))
              (segment-shift a' a 1 (start + d) m (λ l x y. ground (arith, w l))),
    )
