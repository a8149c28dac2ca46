-- ===== src/Spinlock/Steps.antt =====
-- The steps of acquire and release against the owner of the lock.
use mathlib.Core.Path.{subst}
use operating_system_assignm.Prelude.{
  ℕ, ◌≡◌, ◌≢◌, refl, sym, ap, ◌∙◌, arith, true, false, Option, none, some, ℕ_discrete, update,
  update_here, update_there, update_same, ==-eq, ==-ne, List, [], ◌∷◌,
}
use operating_system_assignm.Spinlock.{
  pushcli, Phase, outside, spinning, won, inside, leaving, Machine, go, step_at, step, run,
}
use operating_system_assignm.Spinlock.Nesting.{pushcli-IsOff, pushcli_lem}
use operating_system_assignm.Spinlock.Owner.{
  has_lock, is_inside, Owner, nobody, one, IsOwned, acquire_begin_lem, release_begin_lem,
  popcli-IsOff, Same-IsOff, inside-has_lock, Owner-stays, owner_alone, IsOff-go, depth_go,
}

-- A step that succeeds and keeps the invariant.
abbrev Goes : Option Machine → Type 0
Goes out = (s' : Machine) × (out ≡ some s') × IsOwned s'

module _ (i : ℕ) (s : Machine) (own : IsOwned s) where
  outside-Goes : s.phase i ≡ outside → Goes (step_at outside i s)
  unfolding step_at
  outside-Goes here =
      let (c, e, same) =
        acquire_begin_lem i s.lock (s.cpus i) (own.recorded i ∙ ap is_inside here) in
      (
        go i spinning s.lock c s,
        rw (step_at, e) refl,
        record {
          owner = Owner-stays i s own spinning (sym (ap has_lock here));
          recorded = λ j.
              own.recorded j
              ∙ sym (update_same is_inside s.phase i spinning (sym (ap is_inside here)) j);
          off =
              IsOff-go i s own c
                (Same-IsOff (pushcli (s.cpus i)) c (pushcli-IsOff (s.cpus i)) same);
          depth =
              depth_go i s own spinning c
                (λ away. rw (same.depth ∙ (pushcli_lem (s.cpus i)).0) (ground arith));
        },
      )

  -- A CPU in a call.
  deep : (p : Phase) → s.phase i ≡ p → p ≢ outside → (s.cpus i).ncli ≢ 0
  deep p here away = own.depth i (λ e. away (sym here ∙ e))

  -- The phases of the others, where `i` moves to a phase that is not `inside`.
  none_inside :
      ((j : ℕ) → j ≢ i → has_lock (s.phase j) ≡ false)
      → (p : Phase) → is_inside p ≡ false
      → (j : ℕ) → is_inside (update s.phase i p j) ≡ false
  none_inside others p out j = elim (ℕ_discrete i j) [
    | yes e ↦ ap is_inside (update_here s.phase i j p e) ∙ out
    | no ne ↦
        ap is_inside (update_there s.phase i j p ne)
        ∙ inside-has_lock (s.phase j) (others j (λ e. ne (sym e)))
  ]

  spinning-Goes : s.phase i ≡ spinning → Goes (step_at spinning i s)
  unfolding step_at
  spinning-Goes here = elim own.owner [
    | nobody free none_has ↦ (
      go i won (record s.lock { locked = true }) (s.cpus i) s,
      rw (step_at, free) refl,
      record {
        owner =
            one i refl (ap has_lock (update_here s.phase i i won refl))
              (λ j ne. ap has_lock (update_there s.phase i j won (λ e. ne (sym e))) ∙ none_has j);
        recorded = λ j.
            own.recorded j ∙ sym (update_same is_inside s.phase i won (sym (ap is_inside here)) j);
        off = IsOff-go i s own (s.cpus i) (own.off i);
        depth =
            depth_go i s own won (s.cpus i) (λ away. deep spinning here (λ e. ground (arith, e)));
      },
    )
    | one k taken has others ↦ (
      go i spinning (record s.lock { locked = true }) (s.cpus i) s,
      rw (step_at, taken) refl,
      record {
        owner =
            subst (λ l. Owner l (update s.phase i spinning)) taken
              (Owner-stays i s own spinning (sym (ap has_lock here)));
        recorded = λ j.
            own.recorded j
            ∙ sym (update_same is_inside s.phase i spinning (sym (ap is_inside here)) j);
        off = IsOff-go i s own (s.cpus i) (own.off i);
        depth = depth_go i s own spinning (s.cpus i) (λ away. deep spinning here away);
      },
    )
  ]

  won-Goes : s.phase i ≡ won → Goes (step_at won i s)
  unfolding step_at
  won-Goes here =
      let (taken, others) = owner_alone i s own (ap has_lock here) in
      (
        go i inside (record s.lock { cpu = some i }) (s.cpus i) s,
        refl,
        record {
          owner = Owner-stays i s own inside (sym (ap has_lock here));
          recorded = λ j. elim (ℕ_discrete i j) [
            | yes e ↦ ==-eq j i (sym e) ∙ sym (ap is_inside (update_here s.phase i j inside e))
            | no ne ↦
                ==-ne j i (λ e. ne (sym e))
                ∙ sym (
                    ap is_inside (update_there s.phase i j inside ne)
                    ∙ inside-has_lock (s.phase j) (others j (λ e. ne (sym e))))
          ];
          off = IsOff-go i s own (s.cpus i) (own.off i);
          depth =
              depth_go i s own inside (s.cpus i) (λ away. deep won here (λ e. ground (arith, e)));
        },
      )

  inside-Goes : s.phase i ≡ inside → Goes (step_at inside i s)
  unfolding step_at
  inside-Goes here =
      let (taken, others) = owner_alone i s own (ap has_lock here) in
      let (c, e, same) =
        release_begin_lem i s.lock (s.cpus i) (own.off i) taken
          (own.recorded i ∙ ap is_inside here) in
      (
        go i leaving (record s.lock { cpu = none }) c s,
        rw (step_at, e) refl,
        record {
          owner = Owner-stays i s own leaving (sym (ap has_lock here));
          recorded = λ j. sym (none_inside others leaving refl j);
          off = IsOff-go i s own c (Same-IsOff (s.cpus i) c (own.off i) same);
          depth =
              depth_go i s own leaving c
                (λ away. rw same.depth (deep inside here (λ e. ground (arith, e))));
        },
      )

  leaving-Goes : s.phase i ≡ leaving → Goes (step_at leaving i s)
  unfolding step_at
  leaving-Goes here =
      let (taken, others) = owner_alone i s own (ap has_lock here) in
      let (c, e, off') =
        popcli-IsOff (s.cpus i) (own.off i) (deep leaving here (λ e. ground (arith, e))) in
      (
        go i outside (record s.lock { locked = false }) c s,
        rw (step_at, e) refl,
        record {
          owner = nobody refl (λ j. elim (ℕ_discrete i j) [
            | yes e ↦ ap has_lock (update_here s.phase i j outside e)
            | no ne ↦ ap has_lock (update_there s.phase i j outside ne) ∙ others j (λ e. ne (sym e))
          ]);
          recorded = λ j.
              own.recorded j
              ∙ sym (update_same is_inside s.phase i outside (sym (ap is_inside here)) j);
          off = IsOff-go i s own c off';
          depth = depth_go i s own outside c (λ away. absurd (away refl));
        },
      )

step_at-Goes : (p : Phase) (i : ℕ) (s : Machine) → IsOwned s → s.phase i ≡ p → Goes (step_at p i s)
step_at-Goes outside i s own here = outside-Goes i s own here
step_at-Goes spinning i s own here = spinning-Goes i s own here
step_at-Goes won i s own here = won-Goes i s own here
step_at-Goes inside i s own here = inside-Goes i s own here
step_at-Goes leaving i s own here = leaving-Goes i s own here

pub step-IsOwned :
    (i : ℕ) (s : Machine) → IsOwned s → (s' : Machine) × (step i s ≡ some s') × IsOwned s'
unfolding step
step-IsOwned i s own = step_at-Goes (s.phase i) i s own refl

pub run-IsOwned :
    (order : List ℕ) (s : Machine)
    → IsOwned s
    → (s' : Machine) × (run order s ≡ some s') × IsOwned s'
unfolding run
run-IsOwned [] s own = (s, refl, own)
run-IsOwned (i ∷ rest) s own =
    let (s1, e1, own1) = step-IsOwned i s own in
    let (s2, e2, own2) = run-IsOwned rest s1 own1 in (s2, rw (run, e1) e2, own2)

-- Two CPUs are never both between `acquire` and `release`.
exclusive : (s : Machine) (i j : ℕ) → IsOwned s → s.phase i ≡ inside → s.phase j ≡ inside → i ≡ j
exclusive s i j own hi hj = elim (ℕ_discrete j i) [
  | yes e ↦ sym e
  | no ne ↦ absurd (ground (arith, (owner_alone i s own (ap has_lock hi)).1 j ne, ap has_lock hj))
]

-- From a state in order, however the steps of the CPUs in acquire and release interleave, none
-- of the steps panics, and in the state that they lead to no two CPUs are between acquire and
-- release.
pub run-exclusive :
    (order : List ℕ) (s : Machine)
    → IsOwned s
    → (s' : Machine) × (run order s ≡ some s')
      × ((i j : ℕ) → s'.phase i ≡ inside → s'.phase j ≡ inside → i ≡ j)
run-exclusive order s own =
    let (s', e, own') = run-IsOwned order s own in (s', e, λ i j. exclusive s' i j own')
