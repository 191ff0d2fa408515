-- ===== src/Peterson/Tests.antt =====
-- Tests of kernel/petersonlock.c, and the theorems at concrete inputs.
use operating_systems_ass.Base.{
  ℕ, zero, suc, ◌<◌, ◌≡◌, refl, ◌≢◌, ◌⊎◌, pos, minus_one, arith, update,
}
use operating_systems_ass.Peterson.{
  Table, fresh_lock, petersonlock_create, lookup, acquire_step, returned, faulted, waiting,
  petersonlock_acquire, petersonlock_release, petersonlock_destroy, petersonlock_init,
}
use operating_systems_ass.Peterson.Calls.{
  Created, create_lem, init-free, calls_unknown, bad_role_faults, acquire_waits, acquire-release,
}
use operating_systems_ass.Peterson.Protocol.{Phase}
use operating_systems_ass.Peterson.Pair.{
  client_step, Client, stopped, System, Reach, start, later, move, turn_of, IsInit,
}
use operating_systems_ass.Peterson.Pair.Invariant.{phase}
use operating_systems_ass.Peterson.Pair.Safety.{pair_exclusion}
use operating_systems_ass.Peterson.Pair.Progress.{no_deadlock, no_overtaking, Passes, here, other}

abbrev garbage : Table
garbage i = record { active = i; flag = λ _. 7; turn = 3 }

abbrev empty : Table
empty i = record { active = 0; flag = λ _. 7; turn = 3 }

abbrev one_lock : Table
one_lock = update empty 0 fresh_lock

create_first : (petersonlock_create empty).0 ≡ pos 0
unfolding petersonlock_create
create_first = refl

create_second : (petersonlock_create one_lock).0 ≡ pos 1
unfolding petersonlock_create
create_second = refl

create_full : (petersonlock_create (λ i. fresh_lock)).0 ≡ minus_one
unfolding petersonlock_create
create_full = refl

init-free_example : (petersonlock_init garbage 14).active ≡ 0
init-free_example = init-free garbage 14 (omega arith)

calls_unknown_example :
    (petersonlock_acquire 1 (pos 15) (pos 0) one_lock ≡ (returned minus_one, one_lock))
    × (petersonlock_release (pos 15) (pos 0) one_lock ≡ (returned minus_one, one_lock))
    × (petersonlock_destroy (pos 15) one_lock ≡ (minus_one, one_lock))
calls_unknown_example =
    calls_unknown (pos 15) (pos 0) one_lock 0 (λ i h e. absurd (ground (arith, h, e)))

bad_role_faults_example :
    (petersonlock_acquire 2 (pos 0) (pos 2) one_lock ≡ (faulted, one_lock))
    × (petersonlock_release (pos 0) (pos 2) one_lock ≡ (faulted, one_lock))
unfolding lookup
bad_role_faults_example = bad_role_faults 0 0 (pos 2) one_lock refl refl

abbrev other_up : Table
other_up = update empty 0 (record fresh_lock { flag = update (λ _. 0) 1 1 })

acquire_waits_example : (petersonlock_acquire 9 (pos 0) (pos 0) other_up).0 ≡ waiting
unfolding lookup
acquire_waits_example = acquire_waits other_up 0 0 refl (omega arith) 9 (omega arith)

acquire-release_example :
    (u : Table) × (petersonlock_acquire 4 (pos 0) (pos 1) one_lock ≡ (returned (pos 0), u))
    × ((u 0).flag 1 ≡ 1)
    × ((u 0).flag 0 ≡ 0)
    × ((u 0).turn ≡ 0)
    × ((u 0).active ≡ (one_lock 0).active)
    × ((j : ℕ) → 0 ≢ j → u j ≡ one_lock j)
    × (w : Table) × (petersonlock_release (pos 0) (pos 1) u ≡ (returned (pos 0), w))
    × ((w 0).flag 1 ≡ 0)
    × ((w 0).flag 0 ≡ 0)
    × ((w 0).turn ≡ 0)
    × ((w 0).active ≡ (one_lock 0).active)
    × ((j : ℕ) → 0 ≢ j → w j ≡ one_lock j)
unfolding lookup
acquire-release_example = acquire-release one_lock 0 1 refl (omega arith) 0 refl

abbrev at_start : System
at_start = record { table = one_lock; client = λ _. Client.idle }

start-IsInit : IsInit 0 at_start
start-IsInit = record { fresh = refl; unused = λ r. refl }

-- Role 0 has given its turn away, then role 1 has: both are in the loop and the turn is 0's.
abbrev moved : ℕ → ℕ → System → System
moved zero r s = s
moved (suc n) r s = moved n r (turn_of 0 r s)

abbrev contended : System
contended = moved 4 1 (moved 4 0 at_start)

contended-Reach : Reach 0 contended
contended-Reach =
    let go = λ (r : ℕ) (h : r < 2) (s : System) (p : Reach 0 s).
      later (later (later (later p (move r h)) (move r h)) (move r h)) (move r h) in
    go 1 (omega arith) (moved 4 0 at_start) (go 0 (omega arith) at_start (start start-IsInit))

pair_exclusion_example :
    (phase (contended.client 0) ≡ Phase.inside → phase (contended.client 1) ≢ Phase.inside)
    × (contended.client 0 ≢ stopped)
pair_exclusion_example =
    pair_exclusion {v = 0} {s = contended} 0 (omega arith) (omega arith) contended-Reach

no_deadlock_example :
    Passes 0 0 contended ⊎ Passes 0 1 contended ⊎ Passes 0 0 (turn_of 0 1 contended)
unfolding client_step acquire_step lookup
no_deadlock_example =
    no_deadlock {v = 0} {s = contended} 0 (omega arith) (omega arith) contended-Reach refl
      (ground arith)

no_overtaking_example :
    (phase ((moved 2 1 contended).client 1) ≢ Phase.inside) × Passes 0 0 (moved 2 1 contended)
unfolding client_step acquire_step lookup
no_overtaking_example =
    no_overtaking {v = 0} {s = contended} {u = moved 2 1 contended} 0 (omega arith) (omega arith)
      contended-Reach refl refl (other (other here))

create_lem_example :
    Created one_lock 0 15 (petersonlock_create one_lock).0 (petersonlock_create one_lock).1
create_lem_example = create_lem one_lock
