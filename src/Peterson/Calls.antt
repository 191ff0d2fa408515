-- ===== src/Peterson/Calls.antt =====
-- The whole calls of kernel/petersonlock.c, each run alone.
use operating_systems_ass.Base.{
  ℕ, zero, suc, ◌+◌, ◌-◌, ◌≤◌, ◌<◌, ◌≡◌, refl, ◌≢◌, ◌↔◌, inl, inr, ◌∙◌, none, some, ℤ, pos, negsuc,
  minus_one, arith, update, update_self, update_ne, lt→ltb, Bool-cases, Option-cases, ◌==◌,
}
use native.Mathlib.Decide.{ℕ_discrete}
use operating_systems_ass.Peterson.{
  Table, max_peterson_locks, fresh_lock, create_from, petersonlock_create, lookup, slot, returned,
  faulted, waiting, acquire_step, petersonlock_acquire, acquire_from, petersonlock_release,
  petersonlock_destroy, test_flag, test_turn, release_step, init_from, petersonlock_init,
}

-- Every lock is free after petersonlock_init, whatever the table held.
init_from-free :
    (n i : ℕ) (t : Table) (j : ℕ)
    → (i ≤ j → j < i + n → (init_from n i t j).active ≡ 0) × (j < i → init_from n i t j ≡ t j)
unfolding init_from
init_from-free zero i t j = (λ a b. absurd (omega arith), λ a. refl)
init_from-free (suc n) i t j =
    let (free, kept) = init_from-free n (suc i) (update t i (record (t i) { active = 0 })) j in
    (
      λ a b. elim (ℕ_discrete i j) [
        | yes e ↦ ground (arith, kept (omega arith))
        | no ne ↦ free (omega arith) (omega arith)
      ],
      λ a. kept (omega arith) ∙ update_ne t i j _ (omega arith),
    )

-- What petersonlock_create makes of `t`, from index `i` on with `n` rounds.
pub data Created (t : Table) (i n : ℕ) : ℤ → Table → Type 0 where
  full :
      {u : Table}
      → ((j : ℕ) → i ≤ j → j < i + n → ((t j).active ≢ 0) × (u j ≡ record (t j) { active = 1 }))
      → Created t i n minus_one u
  first_free :
      (k : ℕ) {u : Table}
      → i ≤ k
      → k < i + n
      → (t k).active ≡ 0
      → u k ≡ fresh_lock
      → ((j : ℕ) → i ≤ j → j < k → ((t j).active ≢ 0) × (u j ≡ record (t j) { active = 1 }))
      → ((j : ℕ) → k < j → u j ≡ t j)
      → Created t i n (pos k) u

module _ (t : Table) (i : ℕ) where
  abbrev taken : Table
  taken = update t i (record (t i) { active = 1 })

  -- The slot `i` is in use: the rest of the loop decides.
  Created-later :
      {n : ℕ} {c : ℤ} {u : Table}
      → (t i).active ≢ 0
      → u i ≡ record (t i) { active = 1 }
      → Created taken (suc i) n c u
      → Created t i (suc n) c u
  Created-later used mark (full same) = full λ j a b. elim (ℕ_discrete i j) [
    | yes e ↦ rw (← e) (used, mark)
    | no ne ↦ rw (update_ne t i j _ ne) at (same j (omega arith) (omega arith))
  ]
  Created-later {n} used mark (first_free k a b free fresh same above) =
      first_free k (omega arith) (omega arith) (rw (update_ne t i k _ (omega arith)) at free) fresh
        (λ j l m. elim (ℕ_discrete i j) [
          | yes e ↦ rw (← e) (used, mark)
          | no ne ↦ rw (update_ne t i j _ ne) at (same j (omega arith) (omega arith))
        ])
        (λ j l. above j l ∙ update_ne t i j _ (omega arith))

create_from-kept : (n i : ℕ) (t : Table) (j : ℕ) → j < i → (create_from n i t).1 j ≡ t j
unfolding create_from
create_from-kept zero i t j h = refl
create_from-kept (suc n) i t j h = ground (
  arith,
  create_from-kept n (suc i) (update t i (record (t i) { active = 1 })) j,
  update_ne t i j (record (t i) { active = 1 }),
)

create_from-Created :
    (n i : ℕ) (t : Table) → Created t i n (create_from n i t).0 (create_from n i t).1
unfolding create_from
create_from-Created zero i t = full λ j a b. absurd (omega arith)
create_from-Created (suc n) i t = elim (Bool-cases ((t i).active == 0)) [
  | inl free ↦ rw free (
      first_free i (omega arith) (omega arith) (ground arith) (update_self (taken t i) i _)
        (λ j a b. absurd (omega arith))
        (λ j l.
          update_ne (taken t i) i j _ (omega arith)
          ∙ update_ne t i j (record (t i) { active = 1 }) (omega arith)))
  | inr used ↦ rw used (
      Created-later t i (ground arith)
        (create_from-kept n (suc i) _ i (omega arith) ∙ update_self t i _)
        (create_from-Created n (suc i) (taken t i)))
]

-- petersonlock_create returns the least index whose lock is free and leaves a fresh lock there, or
-- returns -1 when all are in use; it changes no lock but that one, other than by storing 1 into
-- an `active` that was set.
pub create_lem :
    (t : Table) → Created t 0 max_peterson_locks (petersonlock_create t).0 (petersonlock_create t).1
unfolding petersonlock_create
create_lem t = create_from-Created max_peterson_locks 0 t

-- After petersonlock_init every lock of the table is free.
pub init-free : (t : Table) (j : ℕ) → j < max_peterson_locks → (petersonlock_init t j).active ≡ 0
unfolding petersonlock_init
init-free t j h = (init_from-free max_peterson_locks 0 t j).0 (omega arith) h

-- A lock id is accepted just when it is the index of a lock in use.
pub lookup_iff :
    (lock_id : ℤ) (t : Table) (i : ℕ)
    → (lookup lock_id t ≡ some i)
      ↔ ((lock_id ≡ pos i) × (i < max_peterson_locks) × ((t i).active ≢ 0))
unfolding lookup
lookup_iff (negsuc n) t i = (λ h. cc, λ h. cc (h.0))
lookup_iff (pos n) t i = (λ h. ground arith, λ h. ground arith)

lookup_unknown :
    (lock_id : ℤ) (t : Table)
    → ((i : ℕ) → i < max_peterson_locks → lock_id ≡ pos i → (t i).active ≡ 0)
    → lookup lock_id t ≡ none
lookup_unknown lock_id t unused = elim (Option-cases (lookup lock_id t)) [
  | inl e ↦ e
  | inr (i, e) ↦
      let known = (lookup_iff lock_id t i).0 e in absurd (known.2 (unused i known.1 known.0))
]

-- For a lock id that is not the index of a lock in use, as it is negative, or 15 or more, or that of
-- a free lock: acquire, release and destroy return -1 and change nothing.
pub calls_unknown :
    (lock_id role : ℤ) (t : Table) (fuel : ℕ)
    → ((i : ℕ) → i < max_peterson_locks → lock_id ≡ pos i → (t i).active ≡ 0)
    → (petersonlock_acquire (suc fuel) lock_id role t ≡ (returned minus_one, t))
      × (petersonlock_release lock_id role t ≡ (returned minus_one, t))
      × (petersonlock_destroy lock_id t ≡ (minus_one, t))
unfolding petersonlock_acquire petersonlock_release petersonlock_destroy acquire_from acquire_step
    release_step
calls_unknown lock_id role t fuel unused =
    let h : lookup lock_id t ≡ none = lookup_unknown lock_id t unused in
    (ground (arith, h), ground (arith, h), ground (arith, h))

-- A role other than 0 and 1 is not refused: on a lock in use, both acquire and release go on to
-- write outside the array of the two flags.
pub bad_role_faults :
    (i fuel : ℕ) (role : ℤ) (t : Table)
    → lookup (pos i) t ≡ some i
    → slot role ≡ none
    → (petersonlock_acquire (suc (suc fuel)) (pos i) role t ≡ (faulted, t))
      × (petersonlock_release (pos i) role t ≡ (faulted, t))
unfolding petersonlock_acquire petersonlock_release acquire_from acquire_step release_step
bad_role_faults i fuel role t h e = (ground arith, ground arith)

module _ (t : Table) (i r : ℕ) (known : lookup (pos i) t ≡ some i) (hr : r < 2) where
  abbrev engaged : Table
  engaged = update t i (record (t i) { flag = update (t i).flag r 1 })

  abbrev entering : Table
  entering = update engaged i (record (engaged i) { turn = 1 - r })

  acquire_up_to_loop :
      (fuel : ℕ)
      → petersonlock_acquire (suc (suc (suc fuel))) (pos i) (pos r) t
        ≡ acquire_from fuel (pos i) (pos r) test_flag entering
  unfolding petersonlock_acquire acquire_step
  acquire_up_to_loop fuel = ground (arith, lt→ltb r 2 hr)

  loop_waits :
      (fuel : ℕ)
      → ((entering i).flag (1 - r) ≢ 0)
      → ((acquire_from fuel (pos i) (pos r) test_flag entering).0 ≡ waiting)
        × ((acquire_from fuel (pos i) (pos r) test_turn entering).0 ≡ waiting)
  unfolding acquire_from acquire_step
  loop_waits zero h = (refl, refl)
  loop_waits (suc fuel) h =
      let (from_flag, from_turn) = loop_waits fuel h in (ground arith, ground arith)

  -- While the other's flag is up, petersonlock_acquire run alone does not return, however many
  -- accesses it makes.
  pub acquire_waits :
      (fuel : ℕ)
      → (t i).flag (1 - r) ≢ 0
      → (petersonlock_acquire fuel (pos i) (pos r) t).0 ≡ waiting
  unfolding petersonlock_acquire acquire_from acquire_step
  acquire_waits zero h = refl
  acquire_waits (suc zero) h = ground (arith, lt→ltb r 2 hr)
  acquire_waits (suc (suc zero)) h = ground (arith, lt→ltb r 2 hr)
  acquire_waits (suc (suc (suc fuel))) h =
      rw (acquire_up_to_loop fuel) (loop_waits fuel (ground arith)).0

  -- Where the other's flag is down, petersonlock_acquire returns 0 with this flag up and the turn
  -- given away, and petersonlock_release then returns 0 with the flag down again and the turn still
  -- given away; the other flag, `active`, and the other locks stay as they were in both.
  pub acquire-release :
      (fuel : ℕ)
      → (t i).flag (1 - r) ≡ 0
      → (u : Table) × (petersonlock_acquire (suc (suc (suc (suc fuel)))) (pos i) (pos r) t
          ≡ (returned (pos 0), u))
        × ((u i).flag r ≡ 1)
        × ((u i).flag (1 - r) ≡ 0)
        × ((u i).turn ≡ 1 - r)
        × ((u i).active ≡ (t i).active)
        × ((j : ℕ) → i ≢ j → u j ≡ t j)
        × (w : Table) × (petersonlock_release (pos i) (pos r) u ≡ (returned (pos 0), w))
        × ((w i).flag r ≡ 0)
        × ((w i).flag (1 - r) ≡ 0)
        × ((w i).turn ≡ 1 - r)
        × ((w i).active ≡ (t i).active)
        × ((j : ℕ) → i ≢ j → w j ≡ t j)
  unfolding petersonlock_acquire petersonlock_release acquire_from acquire_step release_step lookup
  acquire-release fuel h = (
    entering,
    ground (arith, lt→ltb r 2 hr),
    ground arith,
    ground arith,
    ground arith,
    ground arith,
    λ j ne. ground arith,
    update entering i (record (entering i) { flag = update (entering i).flag r 0 }),
    ground (arith, lt→ltb r 2 hr),
    ground arith,
    ground arith,
    ground arith,
    ground arith,
    λ j ne. ground arith,
  )
