-- ===== src/Strings/Moving.antt =====
-- The two memmoves against a copy of the bytes as they were.
use operating_system_assignm.Prelude.{
  ℕ, zero, suc, ◌+◌, ◌-◌, ◌≤◌, ◌<◌, ◌≡◌, ◌≢◌, ◌⊎◌, inl, inr, refl, ap, ◌∙◌, arith, leb, ltb, ◌&&◌,
  if◌then◌else◌, update, dec_lt,
}
use operating_system_assignm.Strings.{copy_down, copy_up, memmove, user_memmove}

-- The `n` bytes from `src` on, at `dst`.
abbrev pub moved : ℕ → ℕ → ℕ → (ℕ → ℕ) → ℕ → ℕ
moved dst src n mem x = if leb dst x && ltb x (dst + n) then mem (src + (x - dst)) else mem x

-- The first byte, then the others.
move_first :
    (n s d : ℕ) (mem : ℕ → ℕ) (x : ℕ)
    → (d ≤ s) ⊎ (s + suc n ≤ d)
    → moved (d + 1) (s + 1) n (update mem d (mem s)) x ≡ moved d s (suc n) mem x
move_first n s d mem x apart = elim (dec_lt d x) [
  | no le ↦ elim (dec_lt x d) [
    | yes below ↦ ground (arith, below)
    | no ge ↦
        let e : s ≡ s + (x - d) = omega arith in
        let here : moved d s (suc n) mem x ≡ mem s = ground (arith, ap mem e) in
        ground (arith, here)
  ]
  | yes above ↦
      let e : s + 1 + (x - (d + 1)) ≡ s + (x - d) = omega arith in
      let off : x < d + suc n → d ≢ s + (x - d) = λ h. (elim apart [
        | inl a ↦ λ q. absurd (omega arith)
        | inr b ↦ λ q. absurd (omega arith)
      ]) in
      let same : x < d + suc n → update mem d (mem s) (s + 1 + (x - (d + 1))) ≡ mem (s + (x - d)) =
        λ h. ap (update mem d (mem s)) e ∙ ground (arith, off h) in
      elim (dec_lt x (d + suc n)) [
        | yes inside ↦ ground (arith, same inside)
        | no past ↦ ground arith
      ]
]

copy_up-moved :
    (n s d : ℕ) (mem : ℕ → ℕ) (x : ℕ)
    → (d ≤ s) ⊎ (s + n ≤ d)
    → copy_up n s d mem x ≡ moved d s n mem x
unfolding copy_up
copy_up-moved zero s d mem x apart = ground arith
copy_up-moved (suc n) s d mem x (inl le) =
    copy_up-moved n (s + 1) (d + 1) (update mem d (mem s)) x (inl (omega arith))
    ∙ move_first n s d mem x (inl le)
copy_up-moved (suc n) s d mem x (inr le) =
    copy_up-moved n (s + 1) (d + 1) (update mem d (mem s)) x (inr (omega arith))
    ∙ move_first n s d mem x (inr le)

-- The last byte, then the others.
move_last :
    (n s d : ℕ) (mem : ℕ → ℕ) (x : ℕ)
    → s ≤ d
    → moved d s n (update mem (d + n) (mem (s + n))) x ≡ moved d s (suc n) mem x
move_last n s d mem x le = elim (dec_lt x (d + n)) [
  | yes before ↦ elim (dec_lt x d) [
    | yes below ↦ ground (arith, below)
    | no ge ↦ let off : d + n ≢ s + (x - d) = λ e. absurd (omega arith) in ground (arith, off)
  ]
  | no after ↦ elim (dec_lt (d + n) x) [
    | yes past ↦ ground (arith, past)
    | no le' ↦
        let e : s + n ≡ s + (x - d) = omega arith in
        let here : moved d s (suc n) mem x ≡ mem (s + n) = ground (arith, ap mem e) in
        ground (arith, here)
  ]
]

copy_down-moved :
    (n s d s_end d_end : ℕ) (mem : ℕ → ℕ) (x : ℕ)
    → s ≤ d
    → s_end ≡ s + n
    → d_end ≡ d + n
    → copy_down n s_end d_end mem x ≡ moved d s n mem x
unfolding copy_down
copy_down-moved zero s d s_end d_end mem x le es ed = ground arith
copy_down-moved (suc n) s d s_end d_end mem x le es ed =
    let es' : s_end - 1 ≡ s + n = omega arith in
    let ed' : d_end - 1 ≡ d + n = omega arith in
    copy_down-moved n s d (s_end - 1) (d_end - 1) (update mem (d_end - 1) (mem (s_end - 1))) x le
      es' ed'
    ∙ ap (λ t. moved d s n (update mem t (mem (s_end - 1))) x) ed'
    ∙ ap (λ t. moved d s n (update mem (d + n) (mem t)) x) es'
    ∙ move_last n s d mem x le

-- After the kernel's `memmove` the bytes at the destination are those that were at the source,
-- also where the two overlap, and no other byte changed.
pub memmove-moved :
    (dst src n : ℕ) (mem : ℕ → ℕ) (x : ℕ) → memmove dst src n mem x ≡ moved dst src n mem x
unfolding memmove
memmove-moved dst src n mem x = elim (dec_lt src dst) [
  | no le ↦ ground (arith, copy_up-moved n src dst mem x (inl (omega arith)))
  | yes lt ↦ elim (dec_lt dst (src + n)) [
    | no past ↦ ground (arith, copy_up-moved n src dst mem x (inr (omega arith)))
    | yes over ↦
        ground (arith, copy_down-moved n src dst (src + n) (dst + n) mem x (omega arith) refl refl)
  ]
]

-- The loop leaves what is below.
copy_up_below : (n s d : ℕ) (mem : ℕ → ℕ) (x : ℕ) → x < d → copy_up n s d mem x ≡ mem x
unfolding copy_up
copy_up_below zero s d mem x below = refl
copy_up_below (suc n) s d mem x below =
    copy_up_below n (s + 1) (d + 1) (update mem d (mem s)) x (omega arith) ∙ ground (arith, below)

copy_up_smears :
    (n s : ℕ) (mem : ℕ → ℕ) (x : ℕ) → s ≤ x → x ≤ s + n → copy_up n s (s + 1) mem x ≡ mem s
unfolding copy_up
copy_up_smears zero s mem x lo hi = ap mem (omega arith)
copy_up_smears (suc n) s mem x lo hi =
    let mem' = update mem (s + 1) (mem s) in
    let start : mem' (s + 1) ≡ mem s = ground arith in
    elim (dec_lt s x) [
      | yes above ↦ copy_up_smears n (s + 1) mem' x (omega arith) (omega arith) ∙ start
      | no le ↦
          let e : x ≡ s = omega arith in
          ap (copy_up n (s + 1) (s + 1 + 1) mem') e
          ∙ copy_up_below n (s + 1) (s + 1 + 1) mem' s (omega arith)
          ∙ ground arith
    ]

-- The `memmove` of ulib.c, asked to move bytes up by one, writes the first byte over all of
-- them.
pub user_memmove-smears :
    (n src : ℕ) (mem : ℕ → ℕ) (x : ℕ)
    → src ≤ x
    → x ≤ src + n
    → user_memmove (src + 1) src n mem x ≡ mem src
unfolding user_memmove
user_memmove-smears n src mem x lo hi = copy_up_smears n src mem x lo hi

pub user_memmove-moved :
    (dst src n : ℕ) (mem : ℕ → ℕ) (x : ℕ)
    → (dst ≤ src) ⊎ (src + n ≤ dst)
    → user_memmove dst src n mem x ≡ moved dst src n mem x
unfolding user_memmove
user_memmove-moved dst src n mem x apart = copy_up-moved n src dst mem x apart
