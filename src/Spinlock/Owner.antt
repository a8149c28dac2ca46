-- ===== src/Spinlock/Owner.antt =====
-- The lock on several CPUs: who has it.
use operating_system_assignm.Prelude.{
  ℕ, ◌-◌, ◌≡◌, ◌≢◌, refl, sym, ◌∙◌, arith, Bool, true, false, none, some, ◌==◌, ◌&&◌, ℕ_discrete,
  update, update_here, update_there, update_same,
}
use operating_system_assignm.Spinlock.{
  Cpu, Spinlock, pushcli, popcli, owns, holding, acquire_begin, release_begin, Phase, outside,
  spinning, won, inside, leaving, Machine,
}
use operating_system_assignm.Spinlock.Nesting.{IsOff, Same, popcli-pushcli, pushcli-IsOff}

-- From the `xchg` that wins to the write that frees the lock.
abbrev pub has_lock : Phase → Bool
has_lock outside = false
has_lock spinning = false
has_lock won = true
has_lock inside = true
has_lock leaving = true

abbrev pub is_inside : Phase → Bool
is_inside inside = true
is_inside _ = false

-- Whose lock it is.
pub data Owner (locked : Bool) (phase : ℕ → Phase) : Type 0 where
  nobody : locked ≡ false → ((i : ℕ) → has_lock (phase i) ≡ false) → Owner locked phase
  one :
      (i : ℕ)
      → locked ≡ true
      → has_lock (phase i) ≡ true
      → ((j : ℕ) → j ≢ i → has_lock (phase j) ≡ false)
      → Owner locked phase

-- The lock's owner; the CPU it records is the one between `acquire` and `release`; a CPU in one of
-- the calls has its interrupts off.
pub record IsOwned (s : Machine) : Type 0 where
  pub owner : Owner s.lock.locked s.phase
  pub recorded : (i : ℕ) → owns i s.lock.cpu ≡ is_inside (s.phase i)
  pub off : (i : ℕ) → IsOff (s.cpus i)
  pub depth : (i : ℕ) → s.phase i ≢ outside → (s.cpus i).ncli ≢ 0

holding_lem :
    (i : ℕ) (lk : Spinlock) (c : Cpu)
    → IsOff c
    → (c' : Cpu) × (holding i lk c ≡ some (lk.locked && owns i lk.cpu, c')) × Same c c'
unfolding holding
holding_lem i lk c off =
    let (c', e, same) =
      popcli-pushcli c (pushcli c) off (record { depth = refl; flag = refl; saved = λ n. refl }) in
    (c', rw (holding, e) refl, same)

pub acquire_begin_lem :
    (i : ℕ) (lk : Spinlock) (c : Cpu)
    → owns i lk.cpu ≡ false
    → (c' : Cpu) × (acquire_begin i lk c ≡ some c') × Same (pushcli c) c'
unfolding acquire_begin
acquire_begin_lem i lk c other =
    let (c', e, same) = holding_lem i lk (pushcli c) (pushcli-IsOff c) in
    (c', rw (acquire_begin, e) (ground (arith, other)), same)

pub release_begin_lem :
    (i : ℕ) (lk : Spinlock) (c : Cpu)
    → IsOff c
    → lk.locked ≡ true
    → owns i lk.cpu ≡ true
    → (c' : Cpu) × (release_begin i lk c ≡ some (record lk { cpu = none }, c')) × Same c c'
unfolding release_begin
release_begin_lem i lk c off taken mine =
    let (c', e, same) = holding_lem i lk c off in
    (c', rw (release_begin, e, taken, mine) refl, same)

pub popcli-IsOff : (c : Cpu) → IsOff c → c.ncli ≢ 0 → (c' : Cpu) × (popcli c ≡ some c') × IsOff c'
unfolding popcli
popcli-IsOff c off deep = (
  record c { ncli = c.ncli - 1; interrupts = (c.ncli - 1 == 0) && c.intena },
  ground (arith, off deep, deep),
  λ n. ground (arith, n),
)

pub Same-IsOff : (c c' : Cpu) → IsOff c → Same c c' → IsOff c'
Same-IsOff c c' off same n = same.flag ∙ off (λ z. n (same.depth ∙ z))

pub inside-has_lock : (p : Phase) → has_lock p ≡ false → is_inside p ≡ false
inside-has_lock outside h = refl
inside-has_lock spinning h = refl
inside-has_lock won h = refl
inside-has_lock inside h = h
inside-has_lock leaving h = refl

module _ (i : ℕ) (s : Machine) (own : IsOwned s) where
  -- A CPU that stays on its side of the lock.
  pub Owner-stays :
      (p : Phase) → has_lock p ≡ has_lock (s.phase i) → Owner s.lock.locked (update s.phase i p)
  Owner-stays p same = elim own.owner [
    | nobody free none_has ↦ nobody free (λ j. update_same has_lock s.phase i p same j ∙ none_has j)
    | one k taken has others ↦
        one k taken (update_same has_lock s.phase i p same k ∙ has)
          (λ j off. update_same has_lock s.phase i p same j ∙ others j off)
  ]

  pub owner_alone :
      has_lock (s.phase i) ≡ true
      → (s.lock.locked ≡ true) × ((j : ℕ) → j ≢ i → has_lock (s.phase j) ≡ false)
  owner_alone mine = elim own.owner [
    | nobody free none_has ↦ absurd (ground (arith, mine, none_has i))
    | one k taken has others ↦ (
      taken,
      λ j off. elim (ℕ_discrete i k) [
        | yes e ↦ others j (λ e'. off (e' ∙ sym e))
        | no ne ↦ absurd (ground (arith, mine, others i ne))
      ],
    )
  ]

  pub IsOff-go : (c : Cpu) → IsOff c → (j : ℕ) → IsOff (update s.cpus i c j)
  IsOff-go c off j = elim (ℕ_discrete i j) [
    | yes e ↦ rw (update_here s.cpus i j c e) off
    | no ne ↦ rw (update_there s.cpus i j c ne) (own.off j)
  ]

  pub depth_go :
      (p : Phase) (c : Cpu)
      → (p ≢ outside → c.ncli ≢ 0)
      → (j : ℕ) → update s.phase i p j ≢ outside
      → (update s.cpus i c j).ncli ≢ 0
  depth_go p c deep j = elim (ℕ_discrete i j) [
    | yes e ↦ rw (update_here s.cpus i j c e, update_here s.phase i j p e) deep
    | no ne ↦ rw (update_there s.cpus i j c ne, update_there s.phase i j p ne) (own.depth j)
  ]
