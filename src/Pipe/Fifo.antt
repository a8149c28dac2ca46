-- ===== src/Pipe/Fifo.antt =====
-- A pipe as a queue of bytes.
use mathlib.Core.Path.{ap₂}
use operating_system_assignm.Prelude.{
  ℕ, zero, suc, ◌+◌, ◌-◌, ◌%◌, ◌≤◌, ◌<◌, ◌≡◌, ◌≢◌, refl, ap, ◌∙◌, arith, List, [], ◌∷◌, ◌++◌,
  length, update,
}
use operating_system_assignm.Proc.Time.{u32}
use operating_system_assignm.Pipe.{Pipe, pipesize}

-- At most `pipesize` bytes are unread, and both counters are 32-bit words.
pub record IsValid (p : Pipe) : Type 0 where
  pub read_word : p.nread < 4294967296
  pub write_word : p.nwrite < 4294967296
  pub room : (p.nwrite + 4294967296 - p.nread) % 4294967296 ≤ pipesize

-- The `n` bytes from counter `h` on.
abbrev pub window : (ℕ → ℕ) → ℕ → ℕ → List ℕ
window a h zero = []
window a h (suc n) = a (h % pipesize) ∷ window a (h + 1) n

abbrev pub size : Pipe → ℕ
size p = (p.nwrite + 4294967296 - p.nread) % 4294967296

-- The bytes that are written and not read, oldest first.
unfoldable pub contents : Pipe → List ℕ
contents p = window p.bytes p.nread (size p)

window-mod : (a : ℕ → ℕ) (h h' n : ℕ) → h % pipesize ≡ h' % pipesize → window a h n ≡ window a h' n
window-mod a h h' zero e = refl
window-mod a h h' (suc n) e = ground (arith, e, window-mod a (h + 1) (h' + 1) n (omega (arith, e)))

window-update :
    (a : ℕ → ℕ) (w c h n : ℕ)
    → ((j : ℕ) → j < n → (h + j) % pipesize ≢ w)
    → window (update a w c) h n ≡ window a h n
window-update a w c h zero ne = refl
window-update a w c h (suc n) ne =
    let first = ne 0 (omega arith) in
    let rest = window-update a w c (h + 1) n (λ j lt e.
      ne (j + 1) (omega arith) (let s : (h + (j + 1)) % pipesize ≡ w = omega (arith, e) in s)) in
    ground (arith, first, rest)

window-snoc :
    (a : ℕ → ℕ) (h n : ℕ) → window a h (suc n) ≡ window a h n ++ (a ((h + n) % pipesize) ∷ [])
window-snoc a h zero = ground arith
window-snoc a h (suc n) = ground (arith, window-snoc a (h + 1) n)

module _ (p : Pipe) (c : ℕ) where
  -- One byte more.
  abbrev pub put : Pipe
  put = record p { bytes = update p.bytes (p.nwrite % pipesize) c; nwrite = u32 (p.nwrite + 1) }

  pub put-IsValid : IsValid p → p.nwrite ≢ u32 (p.nread + pipesize) → IsValid put
  put-IsValid v free =
      let r = v.read_word in
      let w = v.write_word in
      let s = v.room in record { read_word = r; write_word = omega arith; room = omega arith }

  pub contents-put :
      IsValid p → p.nwrite ≢ u32 (p.nread + pipesize) → contents put ≡ contents p ++ (c ∷ [])
  unfolding contents
  contents-put v free =
      let r = v.read_word in
      let w = v.write_word in
      let s = v.room in
      let at = p.nwrite % pipesize in
      let grown : size put ≡ suc (size p) = omega arith in
      let here : (p.nread + size p) % pipesize ≡ at = omega arith in
      let away : (j : ℕ) → j < size p → (p.nread + j) % pipesize ≢ at = λ j lt e. omega arith in
      let snoc = window-snoc (update p.bytes at c) p.nread (size p) in
      let same = window-update p.bytes at c p.nread (size p) away in
      let last : update p.bytes at c ((p.nread + size p) % pipesize) ≡ c = ground (arith, here) in
      ap (window put.bytes p.nread) grown ∙ snoc ∙ ap₂ (λ x y. x ++ (y ∷ [])) same last

module _ (p : Pipe) where
  -- One byte less.
  abbrev pub got : Pipe
  got = record p { nread = u32 (p.nread + 1) }

  pub got-IsValid : IsValid p → p.nread ≢ p.nwrite → IsValid got
  got-IsValid v some_in =
      let r = v.read_word in
      let w = v.write_word in
      let s = v.room in record { read_word = omega arith; write_word = w; room = omega arith }

  pub contents-got :
      IsValid p → p.nread ≢ p.nwrite → contents p ≡ p.bytes (p.nread % pipesize) ∷ contents got
  unfolding contents
  contents-got v some_in =
      let r = v.read_word in
      let w = v.write_word in
      let s = v.room in
      let less : size p ≡ suc (size got) = omega arith in
      ap (window p.bytes p.nread) less
      ∙ ap (λ t. p.bytes (p.nread % pipesize) ∷ t)
          (window-mod p.bytes (p.nread + 1) got.nread (size got) (omega arith))

pub length-window : (a : ℕ → ℕ) (h n : ℕ) → length (window a h n) ≡ n
length-window a h zero = refl
length-window a h (suc n) = ground (arith, length-window a (h + 1) n)

pub append_nil : (xs : List ℕ) → xs ++ [] ≡ xs
append_nil [] = refl
append_nil (x ∷ xs) = ap (λ t. x ∷ t) (append_nil xs)

pub append_assoc : (xs ys zs : List ℕ) → (xs ++ ys) ++ zs ≡ xs ++ (ys ++ zs)
append_assoc [] ys zs = refl
append_assoc (x ∷ xs) ys zs = ap (λ t. x ∷ t) (append_assoc xs ys zs)
