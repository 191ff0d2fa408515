-- ===== src/Tournament/Failure.antt =====
-- The failure paths of user/libtournament.c, and the ids that it keeps.
use operating_systems_ass.Base.{
  ℕ, zero, suc, ◌-◌, ◌≤◌, ◌<◌, ◌^◌, ◌≡◌, refl, ◌≢◌, true, none, some, List, [], ◌∷◌, ◌++◌, ℤ, pos,
  arith, All, All-append_one, is_neg, update, lt→ltb, Bool-cases, inl, inr,
}
use mathlib.Core.Path.{subst}
use operating_systems_ass.Peterson.{
  Table, max_peterson_locks, petersonlock_create, lookup, check, set_flag, set_turn, ReleasePc,
  acquire_step, release_step,
}
use operating_systems_ass.Peterson.Calls.{Created, full, first_free, create_lem}
use operating_systems_ass.Tournament.{
  Player, fresh_player, create_locks, tournament_create, role_of, node_of, begin_acquire, acquiring,
  unwinding, failed, player_step, located, spawned, is_valid_count, count_levels,
}
use operating_systems_ass.Tournament.Tree.{max_levels, player, block-zero, role-lt}

-- When the lock of level `i` is no longer in use, a process that holds the locks of the levels
-- above `i` in number returns -1 in two steps and releases none of them: the table is unchanged,
-- since the loop that is to release them starts with the lock that could not be acquired.
pub failure_keeps_locks :
    (me : Player) (i : ℕ) (t : Table)
    → lookup (pos (node_of me i)) t ≡ none
    → (player_step me (acquiring i check) t ≡ (unwinding i ReleasePc.check, t))
      × (player_step me (unwinding i ReleasePc.check) t ≡ (failed, t))
unfolding player_step acquire_step release_step
failure_keeps_locks me i t h = (ground arith, ground arith)

Created-ne_zero :
    {t : Table} {c : ℤ} {u : Table}
    → (t 0).active ≢ 0
    → Created t 0 max_peterson_locks c u
    → (c ≢ pos 0) × ((u 0).active ≢ 0)
Created-ne_zero used (full same) =
    (ground arith, rw ((same 0 (omega arith) (omega arith)).1) (omega arith))
Created-ne_zero used (first_free zero a b free fresh same above) = absurd (used free)
Created-ne_zero used (first_free (suc k) a b free fresh same above) =
    (ground arith, rw ((same 0 (omega arith) (omega arith)).1) (omega arith))

create_locks-ne_zero :
    (n : ℕ) (ids : List ℤ) (t : Table) {ids' : List ℤ} {u : Table}
    → (t 0).active ≢ 0
    → All (λ id. id ≢ pos 0) ids
    → create_locks n ids t ≡ (some ids', u)
    → All (λ id. id ≢ pos 0) ids'
unfolding create_locks
create_locks-ne_zero zero ids t {ids'} used h e =
    let same : ids ≡ ids' = cc in subst (λ l. All (λ id. id ≢ pos 0) l) same h
create_locks-ne_zero (suc n) ids t {ids'} {u} used h e =
    let (ne, still) = Created-ne_zero used (create_lem t) in
    elim (Bool-cases (is_neg (petersonlock_create t).0)) [
      | inl err ↦ absurd (ground arith)
      | inr ok ↦
          create_locks-ne_zero n (ids ++ ((petersonlock_create t).0 ∷ [])) (petersonlock_create t).1
            {ids' = ids'} {u = u} still (All-append_one _ ids h ne) (ground arith)
    ]

-- At the root, the call of peterson_acquire raises its flag in lock 0, where lock 0 is in use.
root_step :
    (me : Player) (u : Table)
    → node_of me 0 ≡ 0
    → role_of me 0 < 2
    → player_step me (acquiring 0 set_flag) u ≡ (
      acquiring 0 set_turn,
      update u 0 (record (u 0) { flag = update (u 0).flag (role_of me 0) 1 }),
    )
unfolding player_step acquire_step
root_step me u root role = rw (root, lt→ltb (role_of me 0) 2 role) refl

root_node :
    (levels : ℕ) (ids : List ℤ) (few : levels ≤ max_levels) (p : ℕ)
    → p < 2 ^ levels
    → node_of (player levels ids p) 0 ≡ 0
unfolding node_of
root_node levels ids few p hp = omega (arith, block-zero levels ids few p hp)

-- When lock 0 was in use before tournament_create, no lock that it made has id 0, and still each process, in
-- the call of peterson_acquire for the root, raises its flag in lock 0: tournament_acquire takes a
-- node's position for the id of its lock and does not read lock_ids.
pub lock_ids_ignored :
    (levels : ℕ) (few : levels ≤ max_levels) (t : Table) {ids : List ℤ} {u : Table}
    → 0 < levels
    → (t 0).active ≢ 0
    → create_locks (2 ^ levels - 1) [] t ≡ (some ids, u)
    → All (λ id. id ≢ pos 0) ids
      × ((p : ℕ)
          → p < 2 ^ levels
          → let me = player levels ids p in
            player_step me (acquiring 0 set_flag) u ≡ (
              acquiring 0 set_turn,
              update u 0 (record (u 0) { flag = update (u 0).flag (role_of me 0) 1 }),
            ))
lock_ids_ignored levels few t {ids} some_level used e = (
  create_locks-ne_zero (2 ^ levels - 1) [] t used tt e,
  λ p hp.
      root_step (player levels ids p) _ (root_node levels ids few p hp)
        (role-lt levels ids few p 0 hp some_level),
)

-- A tournament of one process is created without an error, and its tournament_acquire then
-- returns -1.
pub single_process_fails :
    (t : Table)
    → let c = tournament_create (pos 1) true (λ _. true) fresh_player t in
      (c.result ≡ pos 0) × (begin_acquire c.parent ≡ failed)
unfolding tournament_create located spawned is_valid_count create_locks count_levels begin_acquire
single_process_fails t = (refl, refl)
