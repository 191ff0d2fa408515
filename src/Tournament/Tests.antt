-- ===== src/Tournament/Tests.antt =====
-- Tests of user/libtournament.c, and the theorems at concrete inputs.
use operating_systems_ass.Base.{
  ℕ, zero, suc, ◌<◌, ◌≡◌, refl, ◌≢◌, true, [], ◌∷◌, pos, minus_one, arith, All, update,
}
use operating_systems_ass.Peterson.{
  Table, fresh_lock, lookup, check, set_flag, set_turn, ReleasePc, acquire_step,
  petersonlock_create,
}
use operating_systems_ass.Tournament.{
  fresh_player, tournament_create, create_locks, node_of, role_of, idle, acquiring, unwinding,
  critical, failed, crashed, player_step,
}
use operating_systems_ass.Tournament.Tree.{player}
use operating_systems_ass.Tournament.Run.{System, moved, move, Reach, start, later}
use operating_systems_ass.Tournament.Safety.{mutual_exclusion, no_failure}
use operating_systems_ass.Tournament.Failure.{failure_keeps_locks, lock_ids_ignored}

abbrev unused : Table
unused i = record { active = 0; flag = λ _. 0; turn = 0 }

abbrev first_taken : Table
first_taken = update unused 0 fresh_lock

create_three : (tournament_create (pos 3) true (λ _. true) fresh_player unused).result ≡ minus_one
unfolding tournament_create petersonlock_create
create_three = refl

create_eight :
    (tournament_create (pos 8) true (λ _. true) fresh_player unused).children
    ≡ 1 ∷ 2 ∷ 3 ∷ 4 ∷ 5 ∷ 6 ∷ 7 ∷ []
unfolding tournament_create petersonlock_create
create_eight = refl

-- Process 5 of 8 climbs the nodes 5, 2 and 0.
path_of_five :
    (node_of (player 3 [] 5) 2 ≡ 5)
    × (node_of (player 3 [] 5) 1 ≡ 2)
    × (node_of (player 3 [] 5) 0 ≡ 0)
unfolding node_of
path_of_five = (refl, refl, refl)

abbrev all_fresh : System
all_fresh = record { table = λ _. fresh_lock; pc = λ _. idle }

abbrev steps : ℕ → ℕ → System → System
steps zero p s = s
steps (suc n) p s = steps n p (moved 1 [] p s)

steps-Reach : (n p : ℕ) (s : System) → p < 2 → Reach 1 [] s → Reach 1 [] (steps n p s)
steps-Reach zero p s h r = r
steps-Reach (suc n) p s h r = steps-Reach n p (moved 1 [] p s) h (later r (move p h))

-- Process 1 of two, alone, is in the critical section after five steps.
abbrev one_inside : System
one_inside = steps 5 1 all_fresh

one_inside-Reach : Reach 1 [] one_inside
one_inside-Reach =
    steps-Reach 5 1 all_fresh (omega arith)
      (start (record { fresh = λ v h. refl; unused = λ p. refl }))

one_inside_critical : one_inside.pc 1 ≡ critical
unfolding player_step acquire_step lookup node_of role_of
one_inside_critical = refl

mutual_exclusion_example : ◌≡◌ {A = ℕ} 1 1
mutual_exclusion_example =
    mutual_exclusion 1 [] (omega arith) (omega arith) one_inside-Reach 1 1 (omega arith)
      (omega arith) one_inside_critical one_inside_critical

no_failure_example : (one_inside.pc 0 ≢ failed) × (one_inside.pc 0 ≢ crashed)
no_failure_example = no_failure 1 [] (omega arith) (omega arith) one_inside-Reach 0 (omega arith)

failure_keeps_locks_example :
    (player_step (player 2 [] 3) (acquiring 0 check) unused ≡ (unwinding 0 ReleasePc.check, unused))
    × (player_step (player 2 [] 3) (unwinding 0 ReleasePc.check) unused ≡ (failed, unused))
unfolding lookup node_of
failure_keeps_locks_example = failure_keeps_locks (player 2 [] 3) 0 unused refl

abbrev after_create : Table
after_create = (create_locks 1 [] first_taken).1

lock_ids_ignored_example :
    All (λ id. id ≢ pos 0) (pos 1 ∷ [])
    × ((p : ℕ)
        → p < 2
        → let me = player 1 (pos 1 ∷ []) p in
          player_step me (acquiring 0 set_flag) after_create ≡ (
            acquiring 0 set_turn,
            update after_create 0
                (record (after_create 0) { flag = update (after_create 0).flag (role_of me 0) 1 }),
          ))
unfolding create_locks petersonlock_create
lock_ids_ignored_example =
    lock_ids_ignored 1 (omega arith) first_taken {ids = pos 1 ∷ []} {u = after_create} (omega arith)
      (omega arith) refl
