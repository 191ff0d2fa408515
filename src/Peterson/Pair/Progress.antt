-- ===== src/Peterson/Pair/Progress.antt =====
-- Progress of one Peterson lock under two processes: who passes, and who cannot overtake.
use operating_systems_ass.Base.{
  ℕ, zero, suc, ◌-◌, ◌<◌, ◌≡◌, refl, ◌≢◌, ◌⊎◌, inl, inr, pos, arith, ◌==◌, if◌then◌else◌, update,
}
use native.Mathlib.Decide.{ℕ_discrete}
use operating_systems_ass.Peterson.{
  max_peterson_locks, PetersonLock, Table, set_turn, test_flag, test_turn, acquire_step,
}
use operating_systems_ass.Peterson.Protocol.{
  Phase, out, flagged, waiting, Move, raise, give_turn, pass_flag, pass_turn, lower, stay,
}
use operating_systems_ass.Peterson.Pair.{
  Client, acquiring, inside, client_step, System, turn_of, move, elsewhere, Reach, later,
}
use operating_systems_ass.Peterson.Pair.Invariant.{phase, Inv, Reach-Inv, client_step-At}

-- In the loop of petersonlock_acquire.
abbrev pub IsSpinning : Client → Type 0
IsSpinning c = phase c ≡ waiting

spinning_cases : (c : Client) → IsSpinning c → (c ≡ acquiring test_flag) ⊎ (c ≡ acquiring test_turn)
spinning_cases c h = ground arith

-- Role `r` moves alone until it has the lock, for at most `n` steps.
pub until_inside : ℕ → ℕ → ℕ → System → System
until_inside v r zero s = s
until_inside v r (suc n) s =
    let rest = until_inside v r n (turn_of v r s) in elim (s.client r) [ inside ↦ s | _ ↦ rest ]

-- Role `r` passes within two steps of its own.
abbrev pub Passes : ℕ → ℕ → System → Type 0
Passes v r s = (until_inside v r 2 s).client r ≡ inside

module _ (t : Table) (v r : ℕ) (hr : r < 2) where
  test_flag_step :
      client_step (pos v) (pos r) (acquiring test_flag) t
      ≡ (if (t v).flag (1 - r) == 0 then inside else acquiring test_turn, t)
  unfolding client_step acquire_step
  test_flag_step = ground arith

  test_turn_step :
      client_step (pos v) (pos r) (acquiring test_turn) t
      ≡ (if (t v).turn == 1 - r then acquiring test_flag else inside, t)
  unfolding client_step acquire_step
  test_turn_step = ground arith

-- A process in the loop passes if the turn is its own, or if the other's flag is down.
spinning-Passes :
    (v r : ℕ) (s : System)
    → r < 2
    → IsSpinning (s.client r)
    → ((s.table v).turn ≢ 1 - r) ⊎ ((s.table v).flag (1 - r) ≡ 0)
    → Passes v r s
unfolding until_inside
spinning-Passes v r s hr spin free = elim (spinning_cases (s.client r) spin) [
  | inl e ↦ ground (arith, test_flag_step s.table v r hr, test_turn_step s.table v r hr)
  | inr e ↦ ground (arith, test_flag_step s.table v r hr, test_turn_step s.table v r hr)
]

set_turn_step :
    (t : Table) (v r : ℕ)
    → r < 2
    → client_step (pos v) (pos r) (acquiring set_turn) t
      ≡ (acquiring test_flag, update t v (record (t v) { turn = 1 - r }))
unfolding client_step acquire_step
set_turn_step t v r hr = ground arith

-- After the other has given its turn away, a process in the loop passes.
Passes-after_give_turn :
    (v r : ℕ) (s : System)
    → r < 2
    → IsSpinning (s.client r)
    → s.client (1 - r) ≡ acquiring set_turn
    → Passes v r (turn_of v (1 - r) s)
Passes-after_give_turn v r s hr spin e =
    spinning-Passes v r (turn_of v (1 - r) s) hr (ground arith)
      (inl (ground (arith, set_turn_step s.table v (1 - r) (omega arith))))

flagged_cases : (c : Client) → phase c ≡ flagged → c ≡ acquiring set_turn
flagged_cases c h = ground arith

-- No deadlock: when a process is in the loop of petersonlock_acquire and the other does not hold
-- the lock, then one of the two, moving alone, passes within two steps of its own, or this one
-- does so as soon as the other has made its next step.
pub no_deadlock :
    {v : ℕ} {s : System} (r : ℕ)
    → v < max_peterson_locks
    → r < 2
    → Reach v s
    → IsSpinning (s.client r)
    → phase (s.client (1 - r)) ≢ Phase.inside
    → Passes v r s ⊎ Passes v (1 - r) s ⊎ Passes v r (turn_of v (1 - r) s)
no_deadlock {v} {s} r hv hr reach spin free = by_phase (phase (s.client (1 - r))) refl
  where
    i : Inv (s.table v) r (s.client r) (s.client (1 - r))
    i = Reach-Inv r hv hr reach

    back : 1 - (1 - r) ≡ r
    back = omega arith

    by_phase :
        (q : Phase)
        → phase (s.client (1 - r)) ≡ q
        → Passes v r s ⊎ Passes v (1 - r) s ⊎ Passes v r (turn_of v (1 - r) s)
    by_phase out e = inl (spinning-Passes v r s hr spin (inr (i.other_down e)))
    by_phase flagged e = inr (inr (Passes-after_give_turn v r s hr spin (flagged_cases _ e)))
    by_phase waiting e = elim (ℕ_discrete (s.table v).turn (1 - r)) [
      | yes theirs ↦ inr (inl (spinning-Passes v (1 - r) s (omega arith) e (inl (omega arith))))
      | no mine ↦ inl (spinning-Passes v r s hr spin (inl mine))
    ]
    by_phase Phase.inside e = absurd (free e)

-- Any number of steps that are not role `r`'s.
pub data Others (v r : ℕ) (s : System) : System → Type 0 where
  here : Others v r s s
  other : {u : System} → Others v r s u → Others v r s (turn_of v (1 - r) u)
  apart :
      {u : System} (t : Table)
      → Others v r s u
      → t v ≡ u.table v
      → Others v r s (record u { table = t })

Others-Reach : {v r : ℕ} {s u : System} → r < 2 → Others v r s u → Reach v s → Reach v u
Others-Reach hr here reach = reach
Others-Reach {r} hr (other o) reach = later (Others-Reach hr o reach) (move (1 - r) (omega arith))
Others-Reach hr (apart t o e) reach = later (Others-Reach hr o reach) (elsewhere t e)

Others-client : {v r : ℕ} {s u : System} → r < 2 → Others v r s u → u.client r ≡ s.client r
Others-client hr here = refl
Others-client hr (other o) = ground (arith, Others-client hr o)
Others-client hr (apart t o e) = Others-client hr o

-- Only a process itself writes a turn that is not its own.
Move-turn :
    {l : PetersonLock} {r : ℕ} {l' : PetersonLock} {p p' : Phase}
    → r < 2
    → Move l (1 - r) p l' p'
    → l.turn ≡ r
    → l'.turn ≡ r
Move-turn {r} hr m e = turn_kept m refl e
  where
    turn_kept :
        {l : PetersonLock} {k : ℕ} {l' : PetersonLock} {p p' : Phase}
        → Move l k p l' p'
        → k ≡ 1 - r
        → l.turn ≡ r
        → l'.turn ≡ r
    turn_kept raise ek e = e
    turn_kept give_turn ek e = omega arith
    turn_kept (pass_flag g) ek e = e
    turn_kept (pass_turn g) ek e = e
    turn_kept lower ek e = e
    turn_kept stay ek e = e

Others-turn :
    {v r : ℕ} {s u : System}
    → v < max_peterson_locks
    → r < 2
    → Reach v s
    → (s.table v).turn ≡ r
    → Others v r s u
    → (u.table v).turn ≡ r
Others-turn hv hr reach e here = e
Others-turn {v} {r} hv hr reach e (other {u} o) =
    let i = Reach-Inv r hv hr (Others-Reach hr o reach) in
    let (at, runs) =
      client_step-At u.table v (1 - r) hv i.in_use (omega arith) (u.client (1 - r))
        i.other_running in
    Move-turn hr at.here (Others-turn hv hr reach e o)
Others-turn hv hr reach e (apart t o same) = rw same (Others-turn hv hr reach e o)

-- No overtaking: once a process is in the loop of petersonlock_acquire and the turn is its own,
-- the other does not hold the lock however many steps it makes, and at any time this one passes
-- within two steps of its own.
pub no_overtaking :
    {v : ℕ} {s u : System} (r : ℕ)
    → v < max_peterson_locks
    → r < 2
    → Reach v s
    → IsSpinning (s.client r)
    → (s.table v).turn ≡ r
    → Others v r s u
    → (phase (u.client (1 - r)) ≢ Phase.inside) × Passes v r u
no_overtaking {v} {s} {u} r hv hr reach spin e o = (
  λ f. omega (arith, i.rivals.second f (rw still), turn),
  spinning-Passes v r u hr still (inl (omega (arith, turn))),
)
  where
    still : IsSpinning (u.client r)
    still = rw (Others-client hr o) spin

    turn : (u.table v).turn ≡ r
    turn = Others-turn hv hr reach e o

    i : Inv (u.table v) r (u.client r) (u.client (1 - r))
    i = Reach-Inv r hv hr (Others-Reach hr o reach)
