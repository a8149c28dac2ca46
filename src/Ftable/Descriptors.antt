-- ===== src/Ftable/Descriptors.antt =====
-- argfd and the search of fdalloc in sysfile.c.
use operating_system_assignm.Prelude.{
  ℕ, zero, suc, ◌+◌, ◌≤◌, ◌<◌, ◌≡◌, ◌≢◌, ◌⊎◌, inl, inr, refl, sym, ap, ◌∙◌, arith, Option, none,
  some, Option-cases, dec_lt, ℕ_discrete, ℤ, pos, negsuc,
}
use operating_system_assignm.Ftable.{nofile, argfd, find_fd}

later :
    (ofile : ℕ → Option ℕ) (fd f y : ℕ)
    → ofile fd ≡ some f
    → fd ≤ y
    → (fd + 1 ≤ y → ofile y ≢ none)
    → ofile y ≢ none
later ofile fd f y used lo rest = elim (ℕ_discrete fd y) [
  | yes e ↦ λ z. absurd (let clash : some f ≡ none = sym used ∙ ap ofile e ∙ z in cc)
  | no ne ↦ rest (omega arith)
]

pub find_fd_lem :
    (k fd : ℕ) (ofile : ℕ → Option ℕ)
    → ((find_fd k fd ofile ≡ none) × ((y : ℕ) → fd ≤ y → y < fd + k → ofile y ≢ none))
      ⊎ ((x : ℕ) × (find_fd k fd ofile ≡ some x)
          × (x < fd + k)
          × (ofile x ≡ none)
          × ((y : ℕ) → fd ≤ y → y < x → ofile y ≢ none))
unfolding find_fd
find_fd_lem zero fd ofile = inl (refl, λ y lo hi. absurd (omega arith))
find_fd_lem (suc k) fd ofile = elim (Option-cases (ofile fd)) [
  | inl free ↦ inr (fd, rw (find_fd, free) refl, omega arith, free, λ y lo hi. absurd (omega arith))
  | inr (f, used) ↦ elim (find_fd_lem k (fd + 1) ofile) [
    | inl (e, all) ↦
        inl (
          rw (find_fd, used) e,
          λ y lo hi. later ofile fd f y used lo (λ le. all y le (omega arith)),
        )
    | inr (x, e, below, free, before) ↦ inr (
      x,
      rw (find_fd, used) e,
      omega arith,
      free,
      λ y lo hi. later ofile fd f y used lo (λ le. before y le hi),
    )
  ]
]

-- The descriptor that the argument names, and its file.
pub record Names (arg : Option ℤ) (ofile : ℕ → Option ℕ) (fd f : ℕ) : Type 0 where
  pub given : arg ≡ some (pos fd)
  pub inside : fd < nofile
  pub file : ofile fd ≡ some f

pub argfd_lem :
    (arg : Option ℤ) (ofile : ℕ → Option ℕ)
    → ((argfd arg ofile ≡ none) × ((fd f : ℕ) → ¬ Names arg ofile fd f))
      ⊎ ((fd : ℕ) × (f : ℕ) × (argfd arg ofile ≡ some (fd, f)) × Names arg ofile fd f)
unfolding argfd
argfd_lem none ofile = inl (refl, λ fd f n. let e = n.given in cc)
argfd_lem (some (negsuc n)) ofile = inl (refl, λ fd f n. let e = n.given in cc)
argfd_lem (some (pos x)) ofile = elim (dec_lt x nofile) [
  | no past ↦
      inl (ground arith, λ fd f n. let e : x ≡ fd = same_pos x fd n.given in past (rw e n.inside))
  | yes inside ↦ elim (Option-cases (ofile x)) [
    | inl free ↦ inl (
      ground (arith, free),
      λ fd f n.
          let e : x ≡ fd = same_pos x fd n.given in
          let clash : none ≡ some f = sym free ∙ ap ofile e ∙ n.file in cc,
    )
    | inr (f, used) ↦
        inr (x, f, ground (arith, used), record { given = refl; inside = inside; file = used })
  ]
]
  where
    number : Option ℤ → ℕ
    number (some (pos n)) = n
    number _ = 0

    same_pos : (x y : ℕ) → Path (Option ℤ) (some (pos x)) (some (pos y)) → x ≡ y
    same_pos x y e = ap number e
