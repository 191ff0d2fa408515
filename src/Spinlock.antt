-- ===== src/Spinlock.antt =====
-- kernel/spinlock.c: spin locks, and the count of push_off and pop_off of each core. Interrupts are a
-- flag of the core, and a core is its number. The loop of acquire runs on fuel: on other cores the lock
-- stays as it is meanwhile.
pub mod Nesting
mod Tests
use operating_systems_ass.Base.{
  ℕ, zero, suc, ◌+◌, ◌-◌, Bool, true, false, not, ◌&&◌, Option, none, some, ltb, ◌==◌,
  if◌then◌else◌,
}

-- `struct spinlock`, less its name
pub record SpinLock : Type 0 where
  pub locked : ℕ
  pub cpu : Option ℕ

-- The fields `noff` and `intena` of `struct cpu`, and whether interrupts are on.
pub record Core : Type 0 where
  pub noff : ℕ
  pub intena : Bool
  pub intr : Bool

unfoldable pub initlock : SpinLock
initlock = record { locked = 0; cpu = none }

abbrev pub same_cpu : Option ℕ → ℕ → Bool
same_cpu none me = false
same_cpu (some c) me = c == me

unfoldable pub holding : ℕ → SpinLock → Bool
holding me lk = not (lk.locked == 0) && same_cpu lk.cpu me

unfoldable pub push_off : Core → Core
push_off c =
    let c' = record c { intr = false } in
    let c'' = if c.noff == 0 then record c' { intena = c.intr } else c' in
    record c'' { noff = c.noff + 1 }

-- `none` is a panic, here and in `release`.
unfoldable pub pop_off : Core → Option Core
pop_off c =
    let c' = record c { noff = c.noff - 1 } in
    if c.intr
    then none
    else if ltb c.noff 1
    then none
    else some (if c'.noff == 0 && c'.intena then record c' { intr = true } else c')

pub data Acquired : Type 0 where
  got : SpinLock → Core → Acquired
  spinning : SpinLock → Core → Acquired
  panicked : Acquired

-- The loop of test-and-set, and what follows it
unfoldable pub spin : ℕ → ℕ → SpinLock → Core → Acquired
spin zero me lk c = spinning lk c
spin (suc fuel) me lk c =
    let swapped = record lk { locked = 1 } in
    let rest = spin fuel me swapped c in
    if lk.locked == 0 then got (record swapped { cpu = some me }) c else rest

unfoldable pub acquire : ℕ → ℕ → SpinLock → Core → Acquired
acquire fuel me lk c = let c' = push_off c in if holding me lk then panicked else spin fuel me lk c'

unfoldable pub release : ℕ → SpinLock → Core → Option (SpinLock × Core)
release me lk c =
    let free = record lk { cpu = none; locked = 0 } in
    if not (holding me lk)
    then none
    else elim (pop_off c) [ none ↦ none | some c' ↦ some (free, c') ]
