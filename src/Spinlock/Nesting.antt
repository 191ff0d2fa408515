-- ===== src/Spinlock/Nesting.antt =====
-- kernel/spinlock.c: push_off and pop_off in pairs, and acquire with release.
use operating_systems_ass.Base.{
  ℕ, zero, suc, ◌+◌, ◌-◌, ◌≡◌, refl, ◌≢◌, Bool, true, false, Option, none, some, arith, ◌==◌,
  if◌then◌else◌, Bool-cases, ==_self, inl, inr,
}
use operating_systems_ass.Spinlock.{
  SpinLock, Core, holding, push_off, pop_off, got, panicked, spin, acquire, release,
}

-- Interrupts are off inside a pair.
abbrev pub IsMasked : Core → Type 0
IsMasked c = c.noff ≢ 0 → c.intr ≡ false

-- What pairs of push_off and pop_off leave: `intena` is written at the outermost.
abbrev pub settled : Core → Core
settled c = record c { intena = if c.noff == 0 then c.intr else c.intena }

unfoldable pub push_all : ℕ → Core → Core
push_all zero c = c
push_all (suc n) c = push_off (push_all n c)

abbrev pub pop_then : Option Core → (Core → Option Core) → Option Core
pop_then none k = none
pop_then (some c) k = k c

unfoldable pub pop_all : ℕ → Core → Option Core
pop_all zero c = some c
pop_all (suc n) c = pop_then (pop_off c) (pop_all n)

pop-push_at :
    (n : ℕ) (e i : Bool)
    → (n ≢ 0 → i ≡ false)
    → pop_off (push_off (record { noff = n; intena = e; intr = i }))
      ≡ some (record { noff = n; intena = if n == 0 then i else e; intr = i })
unfolding pop_off push_off
pop-push_at zero e true m = refl
pop-push_at zero e false m = refl
pop-push_at (suc n) e i m =
    let off : i ≡ false = m (omega arith) in
    let back : suc n + 1 - 1 ≡ suc n = omega arith in rw (off, back) (ground arith)

pop-push : (c : Core) → IsMasked c → pop_off (push_off c) ≡ some (settled c)
pop-push c m = pop-push_at c.noff c.intena c.intr m

inner : (c : Core) → (IsMasked (push_off c)) × (settled (push_off c) ≡ push_off c)
unfolding push_off
inner c =
    let nested : (c.noff + 1 == 0) ≡ false = ground arith in
    elim (Bool-cases (c.noff == 0)) [
      | inl z ↦ rw (z, nested) (λ _. refl, refl)
      | inr z ↦ rw (z, nested) (λ _. refl, refl)
    ]

-- On a core whose interrupts are off while its count is above 0: as many pop_off as push_off, one or
-- more of each, do not panic and leave the count and the interrupts as they were.
pub pop_all-push_all :
    (n : ℕ) (c : Core) → IsMasked c → pop_all (suc n) (push_all (suc n) c) ≡ some (settled c)
unfolding pop_all push_all
pop_all-push_all zero c m = rw (pop-push c m) refl
pop_all-push_all (suc n) c m =
    let at = inner (push_all n c) in
    rw (pop-push (push_off (push_all n c)) at.0, at.1) (pop_all-push_all n c m)

-- On a free lock, and a core whose interrupts are off while its count is above 0: acquire takes the
-- lock at its first try and the core then holds it; to acquire it again panics; and release frees it
-- and leaves the count and the interrupts as they were.
pub release-acquire :
    (fuel me : ℕ) (lk : SpinLock) (c : Core)
    → IsMasked c
    → lk.locked ≡ 0
    → let held : SpinLock = record { locked = 1; cpu = some me } in
      (acquire (suc fuel) me lk c ≡ got held (push_off c))
      × (holding me held ≡ true)
      × (acquire (suc fuel) me held (push_off c) ≡ panicked)
      × (release me held (push_off c) ≡ some (record { locked = 0; cpu = none }, settled c))
unfolding acquire holding spin release
release-acquire fuel me lk c m free = rw (free, ==_self me, pop-push c m) (refl, refl, refl, refl)
