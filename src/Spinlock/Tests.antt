-- ===== src/Spinlock/Tests.antt =====
-- Tests of kernel/spinlock.c, and the theorems at concrete inputs.
use operating_systems_ass.Base.{◌≡◌, refl, true, false, none, some}
use operating_systems_ass.Spinlock.{
  SpinLock, Core, initlock, holding, push_off, pop_off, got, panicked, spinning, spin, acquire,
  release,
}
use operating_systems_ass.Spinlock.Nesting.{
  settled, push_all, pop_all, pop_all-push_all, release-acquire,
}

abbrev core : Core
core = record { noff = 0; intena = false; intr = true }

abbrev taken : SpinLock
taken = record { locked = 1; cpu = some 4 }

-- Another core's lock keeps acquire in its loop; release of it, and pop_off alone, panic.
refused :
    (acquire 3 2 taken core ≡ spinning taken (push_off core))
    × (release 2 taken core ≡ none)
    × (pop_off core ≡ none)
unfolding acquire holding spin release pop_off
refused = (refl, refl, refl)

pop_all-push_all_example : pop_all 3 (push_all 3 core) ≡ some (record core { intena = true })
pop_all-push_all_example = pop_all-push_all 2 core (λ h. absurd (h refl))

release-acquire_example :
    (acquire 1 2 initlock core ≡ got (record { locked = 1; cpu = some 2 }) (push_off core))
    × (holding 2 (record { locked = 1; cpu = some 2 }) ≡ true)
    × (acquire 1 2 (record { locked = 1; cpu = some 2 }) (push_off core) ≡ panicked)
    × (release 2 (record { locked = 1; cpu = some 2 }) (push_off core)
        ≡ some (record { locked = 0; cpu = none }, settled core))
unfolding initlock
release-acquire_example = release-acquire 0 2 initlock core (λ h. absurd (h refl)) refl
