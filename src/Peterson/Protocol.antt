-- ===== src/Peterson/Protocol.antt =====
-- Peterson's protocol at one lock, seen by phases, and the steps of the code as its moves.
use operating_systems_ass.Base.{
  ℕ, ◌-◌, ◌≤◌, ◌<◌, ◌≡◌, refl, ◌≢◌, inl, inr, Bool, true, false, some, pos, negsuc, arith, update,
  update_self, update_ne, lt→ltb, Bool-cases, ◌==◌, ltb,
}
use operating_systems_ass.Peterson.{
  PetersonLock, Table, max_peterson_locks, Next, goto, ret, fault, AcquirePc, check, set_flag,
  set_turn, test_flag, test_turn, ReleasePc, clear_flag, lookup, acquire_step, release_step,
}

-- How far a process is at a lock: its flag is down; up; up with the turn given away; it has passed.
pub data Phase : Type 0 where
  out flagged waiting inside : Phase

abbrev pub raised : Phase → ℕ
raised out = 0
raised _ = 1

-- Whether the turn has been given away.
abbrev pub has_waited : Phase → Bool
has_waited waiting = true
has_waited inside = true
has_waited _ = false

-- The moves of the role `r` at the lock `l`.
pub data Move (l : PetersonLock) (r : ℕ) : Phase → PetersonLock → Phase → Type 0 where
  raise : Move l r out (record l { flag = update l.flag r 1 }) flagged
  give_turn : Move l r flagged (record l { turn = 1 - r }) waiting
  pass_flag : l.flag (1 - r) ≡ 0 → Move l r waiting l inside
  pass_turn : l.turn ≢ 1 - r → Move l r waiting l inside
  lower : Move l r inside (record l { flag = update l.flag r 0 }) out
  stay : {p : Phase} → Move l r p l p

abbrev pub acquire_phase : AcquirePc → Phase
acquire_phase check = out
acquire_phase set_flag = out
acquire_phase set_turn = flagged
acquire_phase test_flag = waiting
acquire_phase test_turn = waiting

-- The phase that the outcome of a step of petersonlock_acquire leads to.
abbrev pub acquire_next : Next AcquirePc → Phase
acquire_next (goto p) = acquire_phase p
acquire_next (ret (pos _)) = inside
acquire_next (ret (negsuc _)) = out
acquire_next fault = out

abbrev pub release_next : Next ReleasePc → Phase
release_next (goto p) = inside
release_next (ret _) = out
release_next fault = out

-- No error and no access out of bounds.
abbrev pub Runs : {P : Type 0} → Next P → Type 0
Runs (goto p) = Unit
Runs (ret c) = c ≡ pos 0
Runs fault = ⊥

-- What a step at lock `v` does to the table: a move there, and nothing anywhere else.
pub record At (t : Table) (v r : ℕ) (p : Phase) (t' : Table) (p' : Phase) : Type 0 where
  pub here : Move (t v) r p (t' v) p'
  pub elsewhere : (u : ℕ) → v ≢ u → t' u ≡ t u

pub lookup-active :
    (t : Table) (v : ℕ) → v < max_peterson_locks → (t v).active ≢ 0 → lookup (pos v) t ≡ some v
unfolding lookup
lookup-active t v h a = ground arith

-- What two processes in different roles at one lock have in common: `r` and `1 - r` are the roles,
-- `p` and `q` the phases.
pub record Rivals (l : PetersonLock) (r : ℕ) (p q : Phase) : Type 0 where
  pub in_range : l.turn < 2
  pub mine : raised p ≤ l.flag r
  pub theirs : raised q ≤ l.flag (1 - r)
  pub first : p ≡ inside → has_waited q ≡ true → l.turn ≡ r
  pub second : q ≡ inside → has_waited p ≡ true → l.turn ≡ 1 - r

pub Rivals-swap :
    (l : PetersonLock) (r : ℕ) (p q : Phase) → r < 2 → Rivals l r p q → Rivals l (1 - r) q p
Rivals-swap l r p q hr i =
    let e : 1 - (1 - r) ≡ r = omega arith in
    record {
      in_range = i.in_range;
      mine = i.theirs;
      theirs = rw e i.mine;
      first = i.second;
      second = rw e i.first;
    }

-- Two rivals are never both inside.
pub Rivals-exclude :
    (l : PetersonLock) (r : ℕ) (p q : Phase) → r < 2 → Rivals l r p q → p ≡ inside → q ≢ inside
Rivals-exclude l r p q hr i e f = omega (arith, i.first e (rw f), i.second f (rw e))

-- A move of one of them keeps what they have in common.
pub Move-Rivals :
    {l : PetersonLock} {r : ℕ} {l' : PetersonLock} {p p' : Phase} (q : Phase)
    → r < 2
    → Move l r p l' p'
    → Rivals l r p q
    → Rivals l' r p' q
Move-Rivals q hr raise i = ground arith
Move-Rivals q hr give_turn i = ground arith
Move-Rivals q hr (pass_flag e) i = ground arith
Move-Rivals q hr (pass_turn e) i = ground arith
Move-Rivals q hr lower i = ground arith
Move-Rivals q hr stay i = i

-- It also keeps what a third process, out of the lock in the mover's role, has in common with `q`.
pub Move-Rivals_third :
    {l : PetersonLock} {r : ℕ} {l' : PetersonLock} {p p' : Phase} (q : Phase)
    → r < 2
    → Move l r p l' p'
    → Rivals l r out q
    → Rivals l' r out q
Move-Rivals_third q hr raise i = ground arith
Move-Rivals_third q hr give_turn i = ground arith
Move-Rivals_third q hr (pass_flag e) i = i
Move-Rivals_third q hr (pass_turn e) i = i
Move-Rivals_third q hr lower i = ground arith
Move-Rivals_third q hr stay i = i

-- No move changes whether the lock is in use.
pub Move-active :
    {l : PetersonLock} {r : ℕ} {l' : PetersonLock} {p p' : Phase}
    → Move l r p l' p'
    → l'.active ≡ l.active
Move-active raise = refl
Move-active give_turn = refl
Move-active (pass_flag e) = refl
Move-active (pass_turn e) = refl
Move-active lower = refl
Move-active stay = refl

module _ (t : Table) (v r : ℕ) (hv : v < max_peterson_locks) (a : (t v).active ≢ 0)
    (hr : r < 2) where
  valid : lookup (pos v) t ≡ some v
  valid = lookup-active t v hv a

  low : ltb r 2 ≡ true
  low = lt→ltb r 2 hr

  -- Each step of petersonlock_acquire on an active lock is a move of the protocol, and no error.
  pub acquire_step-At :
      (p : AcquirePc)
      → (n : Next AcquirePc) × (t' : Table) × (acquire_step (pos v) (pos r) p t ≡ (n, t'))
        × At t v r (acquire_phase p) t' (acquire_next n)
        × Runs n
  unfolding acquire_step
  acquire_step-At check = (
    goto set_flag,
    t,
    rw (valid, acquire_step),
    record { here = stay; elsewhere = λ u h. refl },
    tt,
  )
  acquire_step-At set_flag = (
    goto set_turn,
    update t v (record (t v) { flag = update (t v).flag r 1 }),
    rw low,
    record { here = rw update_self raise; elsewhere = λ u h. update_ne t v u _ h },
    tt,
  )
  acquire_step-At set_turn = (
    goto test_flag,
    update t v (record (t v) { turn = 1 - r }),
    rw low,
    record { here = rw update_self give_turn; elsewhere = λ u h. update_ne t v u _ h },
    tt,
  )
  acquire_step-At test_flag = elim (Bool-cases ((t v).flag (1 - r) == 0)) [
    | inl e ↦ (
      ret (pos 0),
      t,
      rw (low, e),
      record { here = pass_flag (ground arith); elsewhere = λ u h. refl },
      refl,
    )
    | inr e ↦ (goto test_turn, t, rw (low, e), record { here = stay; elsewhere = λ u h. refl }, tt)
  ]
  acquire_step-At test_turn = elim (Bool-cases ((t v).turn == 1 - r)) [
    | inl e ↦ (goto test_flag, t, rw (low, e), record { here = stay; elsewhere = λ u h. refl }, tt)
    | inr e ↦ (
      ret (pos 0),
      t,
      rw (low, e),
      record { here = pass_turn (ground arith); elsewhere = λ u h. refl },
      refl,
    )
  ]

  -- So is each step of petersonlock_release.
  pub release_step-At :
      (p : ReleasePc)
      → (n : Next ReleasePc) × (t' : Table) × (release_step (pos v) (pos r) p t ≡ (n, t'))
        × At t v r inside t' (release_next n)
        × Runs n
  unfolding release_step
  release_step-At ReleasePc.check = (
    goto clear_flag,
    t,
    rw (valid, release_step),
    record { here = stay; elsewhere = λ u h. refl },
    tt,
  )
  release_step-At clear_flag = (
    ret (pos 0),
    update t v (record (t v) { flag = update (t v).flag r 0 }),
    rw low,
    record { here = rw update_self lower; elsewhere = λ u h. update_ne t v u _ h },
    refl,
  )
