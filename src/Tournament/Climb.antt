-- ===== src/Tournament/Climb.antt =====
-- The steps of a tournament's process as moves of Peterson's protocol along its path.
use operating_systems_ass.Base.{
  ℕ, zero, suc, ◌+◌, ◌-◌, ◌≤◌, ◌<◌, ◌^◌, ◌≡◌, refl, ◌≢◌, List, ℤ, pos, negsuc, arith, ltb,
  if◌then◌else◌, ◌==◌, lt→ltb, le→ltb,
}
use native.Mathlib.Decide.{dec_lt}
use operating_systems_ass.Peterson.{Table, Next, goto, ret, fault, AcquirePc, check, ReleasePc}
use operating_systems_ass.Peterson.Protocol.{
  Phase, out, inside, stay, acquire_phase, acquire_next, release_next, Runs, At, acquire_step-At,
  release_step-At,
}
use operating_systems_ass.Tournament.{
  Pc, idle, acquiring, unwinding, critical, releasing, failed, crashed, acquired, after_acquire,
  after_release, begin_acquire, player_step,
}
use operating_systems_ass.Tournament.Tree.{
  max_levels, player, node, role, role-lt, node-lt, node-lt-max, pow_pos,
}

-- The phase of a process at the lock of level `i` on its path.
abbrev pub phase_at : Pc → ℕ → Phase
phase_at idle i = out
phase_at (acquiring j p) i = if ltb i j then out else if i == j then acquire_phase p else inside
phase_at (unwinding j p) i = out
phase_at critical i = inside
phase_at (releasing j p) i = if ltb i j then out else inside
phase_at failed i = out
phase_at crashed i = out

-- No call has failed, and the loop counters are in range.
abbrev pub Sane : ℕ → Pc → Type 0
Sane levels idle = Unit
Sane levels (acquiring j p) = j < levels
Sane levels (unwinding j p) = ⊥
Sane levels critical = Unit
Sane levels (releasing j p) = j < levels
Sane levels failed = ⊥
Sane levels crashed = ⊥

-- A step by a process on its path: a move at the lock of one level `j` at most, above which it
-- holds every lock, and no change of phase at the other levels.
pub record Climbs (levels : ℕ) (c c' : Pc) (j : ℕ) : Type 0 where
  pub low : j < levels
  pub holds : (i : ℕ) → j < i → i < levels → phase_at c i ≡ inside
  pub others : (i : ℕ) → i ≢ j → i < levels → phase_at c' i ≡ phase_at c i
  pub sane : Sane levels c'

-- A process that is engaged at a level holds every lock nearer to the leaves.
pub engaged_holds : (c : Pc) (i k : ℕ) → phase_at c i ≢ out → i < k → phase_at c k ≡ inside
engaged_holds idle i k h l = absurd (h refl)
engaged_holds (acquiring j p) i k h l = ground arith
engaged_holds (unwinding j p) i k h l = absurd (h refl)
engaged_holds critical i k h l = refl
engaged_holds (releasing j p) i k h l = ground arith
engaged_holds failed i k h l = absurd (h refl)
engaged_holds crashed i k h l = absurd (h refl)

phase_at_self : (i : ℕ) (a : AcquirePc) → phase_at (acquiring i a) i ≡ acquire_phase a
phase_at_self i a = ground arith

-- After the lock of level `i` comes the next one towards the root, or the critical section.
acquired-Climbs :
    (levels i : ℕ) (a : AcquirePc)
    → i < levels
    → Climbs levels (acquiring i a) (acquired i) i × (phase_at (acquired i) i ≡ inside)
acquired-Climbs levels zero a h = (
  record { low = h; holds = λ k l m. ground arith; others = λ k ne m. ground arith; sane = tt },
  refl,
)
acquired-Climbs levels (suc i) a h = (
  record {
    low = h;
    holds = λ k l m. ground arith;
    others = λ k ne m. ground arith;
    sane = omega arith;
  },
  ground arith,
)

after_acquire-Climbs :
    (levels i : ℕ) (a : AcquirePc) (n : Next AcquirePc)
    → i < levels
    → Runs n
    → Climbs levels (acquiring i a) (after_acquire i n) i
      × (phase_at (after_acquire i n) i ≡ acquire_next n)
after_acquire-Climbs levels i a (goto b) h runs = (
  record { low = h; holds = λ k l m. ground arith; others = λ k ne m. ground arith; sane = h },
  phase_at_self i b,
)
after_acquire-Climbs levels i a (ret (pos k)) h runs = acquired-Climbs levels i a h
after_acquire-Climbs levels i a (ret (negsuc k)) h runs = cc
after_acquire-Climbs levels i a fault h runs = absurd runs

after_release-Climbs :
    (levels i p : ℕ) (ids : List ℤ) (a : ReleasePc) (n : Next ReleasePc)
    → i < levels
    → Runs n
    → Climbs levels (releasing i a) (after_release (player levels ids p) i n) i
      × (phase_at (after_release (player levels ids p) i n) i ≡ release_next n)
after_release-Climbs levels i p ids a (goto b) h runs = (
  record { low = h; holds = λ k l m. ground arith; others = λ k ne m. ground arith; sane = h },
  ground arith,
)
after_release-Climbs levels i p ids a (ret (pos k)) h runs = elim (dec_lt (i + 1) levels) [
  | yes more ↦ rw (lt→ltb (i + 1) levels more) (
    record { low = h; holds = λ k l m. ground arith; others = λ k ne m. ground arith; sane = more },
    ground arith,
  )
  | no last ↦ rw (le→ltb (i + 1) levels (omega arith)) (
    record { low = h; holds = λ k l m. ground arith; others = λ k ne m. ground arith; sane = tt },
    refl,
  )
]
after_release-Climbs levels i p ids a (ret (negsuc k)) h runs = cc
after_release-Climbs levels i p ids a fault h runs = absurd runs

begin_acquire_lem :
    (levels p : ℕ) (ids : List ℤ)
    → 0 < levels
    → begin_acquire (player levels ids p) ≡ acquiring (levels - 1) check
unfolding begin_acquire
begin_acquire_lem levels p ids h = ground (arith, pow_pos levels)

module _ (levels : ℕ) (ids : List ℤ) (few : levels ≤ max_levels) (some_level : 0 < levels) where
  abbrev pub Moves : (t : Table) (p : ℕ) → Pc → Pc × Table → Type 0
  Moves t p c (c', t') =
      (j : ℕ) × Climbs levels c c' j
      × At t (node levels ids few p j) (role levels ids few p j) (phase_at c j) t' (phase_at c' j)

  -- Every step of a process whose locks are in use is such a step.
  pub player_step-Moves :
      (t : Table) (p : ℕ)
      → p < 2 ^ levels
      → ((v : ℕ) → v + 1 < 2 ^ levels → (t v).active ≢ 0)
      → (c : Pc) → Sane levels c
      → Moves t p c (player_step (player levels ids p) c t)
  unfolding player_step
  player_step-Moves t p hp active idle h = rw (begin_acquire_lem levels p ids some_level) (
    levels - 1,
    record {
      low = omega arith;
      holds = λ k l m. absurd (omega arith);
      others = λ k ne m. ground arith;
      sane = omega arith;
    },
    rw (phase_at_self (levels - 1) check) (record { here = stay; elsewhere = λ u ne. refl }),
  )
  player_step-Moves t p hp active (acquiring i a) h =
      let v = node levels ids few p i in
      let r = role levels ids few p i in
      let (n, t', e, at, runs) =
        acquire_step-At t v r (node-lt-max levels ids few p i hp h)
          (active v (node-lt levels ids few p i hp h)) (role-lt levels ids few p i hp h) a in
      let (climbs, reached) = after_acquire-Climbs levels i a n h runs in
      rw e (i, climbs, rw (phase_at_self i a, reached) at)
  player_step-Moves t p hp active critical h = rw (lt→ltb 0 levels some_level) (
    0,
    record {
      low = some_level;
      holds = λ k l m. refl;
      others = λ k ne m. ground arith;
      sane = some_level;
    },
    record { here = stay; elsewhere = λ u ne. refl },
  )
  player_step-Moves t p hp active (releasing i a) h =
      let v = node levels ids few p i in
      let r = role levels ids few p i in
      let (n, t', e, at, runs) =
        release_step-At t v r (node-lt-max levels ids few p i hp h)
          (active v (node-lt levels ids few p i hp h)) (role-lt levels ids few p i hp h) a in
      let (climbs, reached) = after_release-Climbs levels i p ids a n h runs in
      rw e (i, climbs, rw (le→ltb i i (omega arith), reached) at)
  player_step-Moves t p hp active (unwinding i a) h = absurd h
  player_step-Moves t p hp active failed h = absurd h
  player_step-Moves t p hp active crashed h = absurd h
