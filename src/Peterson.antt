-- ===== src/Peterson.antt =====
-- kernel/petersonlock.c: the table of Peterson locks behind the peterson_* system calls.
-- The two calls that run beside each other, petersonlock_acquire and petersonlock_release, are
-- machines that make one access of shared memory at a time; the whole calls iterate them.
pub mod Calls
pub mod Protocol
pub mod Pair
mod Tests
use operating_systems_ass.Base.{
  ℕ, zero, suc, ◌-◌, not, ◌&&◌, Option, none, some, ℤ, pos, negsuc, minus_one, ltb, ◌==◌,
  if◌then◌else◌, update,
}

abbrev pub max_peterson_locks : ℕ
max_peterson_locks = 15

-- `struct peterson_lock`; `flag` is read and written at 0 and 1 only (`slot`).
pub record PetersonLock : Type 0 where
  pub active : ℕ
  pub flag : ℕ → ℕ
  pub turn : ℕ

-- `peterson_locks`, read and written below `max_peterson_locks` only.
abbrev pub Table : Type 0
Table = ℕ → PetersonLock

-- `petersonlock_init`: the loop over the table, from index `i` with `n` rounds left
init_from : ℕ → ℕ → Table → Table
init_from zero i t = t
init_from (suc n) i t = init_from n (suc i) (update t i (record (t i) { active = 0 }))

pub petersonlock_init : Table → Table
unfolding init_from
petersonlock_init t = init_from max_peterson_locks 0 t

abbrev pub fresh_lock : PetersonLock
fresh_lock = record { active = 1; flag = λ _. 0; turn = 0 }

-- `petersonlock_create`: the atomic swap stores 1 into `active` whatever it held.
create_from : ℕ → ℕ → Table → ℤ × Table
create_from zero i t = (minus_one, t)
create_from (suc n) i t =
    let t' = update t i (record (t i) { active = 1 }) in
    let rest = create_from n (suc i) t' in
    if (t i).active == 0 then (pos i, update t' i fresh_lock) else rest

unfoldable pub petersonlock_create : Table → ℤ × Table
unfolding create_from
petersonlock_create t = create_from max_peterson_locks 0 t

-- The test at the head of acquire, release and destroy, turned round: the lock that the id names.
unfoldable pub lookup : ℤ → Table → Option ℕ
lookup (negsuc _) t = none
lookup (pos i) t = if ltb i max_peterson_locks && not ((t i).active == 0) then some i else none

-- `flag[role]` lies in the array; the code has no test of it.
abbrev pub slot : ℤ → Option ℕ
slot (negsuc _) = none
slot (pos r) = if ltb r 2 then some r else none

-- What a step of a call leads to: the next access, the call's return, or an access out of bounds.
pub data Next (P : Type 0) : Type 0 where
  goto : P → Next P
  ret : ℤ → Next P
  fault : Next P

-- The shared accesses of petersonlock_acquire, in program order.
pub data AcquirePc : Type 0 where
  check set_flag set_turn test_flag test_turn : AcquirePc

abbrev write_flag : Table → ℕ → ℕ → ℕ → Table
write_flag t i r v = update t i (record (t i) { flag = update (t i).flag r v })

abbrev at_slot : {A : Type 0} → Option ℕ → A → (ℕ → A) → A
at_slot none out f = out
at_slot (some r) out f = f r

-- The id is checked once, at the start; after that the lock's address is a local variable.
abbrev index : ℤ → ℕ
index (pos i) = i
index (negsuc _) = 0

-- One access of `petersonlock_acquire(lock_id, role)`. `yield` only gives other processes a turn.
unfoldable pub acquire_step : ℤ → ℤ → AcquirePc → Table → Next AcquirePc × Table
acquire_step lock_id role check t = elim (lookup lock_id t) [
  | none ↦ (ret minus_one, t)
  | some _ ↦ (goto set_flag, t)
]
acquire_step lock_id role set_flag t =
    at_slot (slot role) (fault, t) (λ r. (goto set_turn, write_flag t (index lock_id) r 1))
acquire_step lock_id role set_turn t =
    at_slot (slot role) (fault, t)
      (λ r. let i = index lock_id in (goto test_flag, update t i (record (t i) { turn = 1 - r })))
acquire_step lock_id role test_flag t =
    at_slot (slot role) (fault, t)
      (λ r. (if (t (index lock_id)).flag (1 - r) == 0 then ret (pos 0) else goto test_turn, t))
acquire_step lock_id role test_turn t =
    at_slot (slot role) (fault, t)
      (λ r. (if (t (index lock_id)).turn == 1 - r then goto test_flag else ret (pos 0), t))

-- The shared accesses of petersonlock_release.
pub data ReleasePc : Type 0 where
  check clear_flag : ReleasePc

unfoldable pub release_step : ℤ → ℤ → ReleasePc → Table → Next ReleasePc × Table
release_step lock_id role ReleasePc.check t = elim (lookup lock_id t) [
  | none ↦ (ret minus_one, t)
  | some _ ↦ (goto clear_flag, t)
]
release_step lock_id role clear_flag t =
    at_slot (slot role) (fault, t) (λ r. (ret (pos 0), write_flag t (index lock_id) r 0))

unfoldable pub petersonlock_destroy : ℤ → Table → ℤ × Table
unfolding lookup
petersonlock_destroy lock_id t = elim (lookup lock_id t) [
  | none ↦ (minus_one, t)
  | some i ↦ (pos 0, update t i (record (t i) { active = 0 }))
]

-- A whole call, run alone for at most `fuel` accesses; `none` when the fuel runs out.
pub data Outcome : Type 0 where
  returned : ℤ → Outcome
  faulted : Outcome
  waiting : Outcome

finish : {P : Type 0} → Next P × Table → (P → Table → Outcome × Table) → Outcome × Table
finish (goto p, t) k = k p t
finish (ret c, t) k = (returned c, t)
finish (fault, t) k = (faulted, t)

acquire_from : ℕ → ℤ → ℤ → AcquirePc → Table → Outcome × Table
unfolding finish acquire_step lookup
acquire_from zero lock_id role pc t = (waiting, t)
acquire_from (suc n) lock_id role pc t =
    finish (acquire_step lock_id role pc t) (λ p t'. acquire_from n lock_id role p t')

pub petersonlock_acquire : ℕ → ℤ → ℤ → Table → Outcome × Table
unfolding acquire_from
petersonlock_acquire fuel lock_id role t = acquire_from fuel lock_id role check t

release_from : ℕ → ℤ → ℤ → ReleasePc → Table → Outcome × Table
unfolding finish release_step lookup
release_from zero lock_id role pc t = (waiting, t)
release_from (suc n) lock_id role pc t =
    finish (release_step lock_id role pc t) (λ p t'. release_from n lock_id role p t')

pub petersonlock_release : ℤ → ℤ → Table → Outcome × Table
unfolding release_from
petersonlock_release lock_id role t = release_from 2 lock_id role ReleasePc.check t
