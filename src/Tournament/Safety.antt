-- ===== src/Tournament/Safety.antt =====
-- Mutual exclusion of the tournament.
use operating_systems_ass.Base.{ℕ, ◌≤◌, ◌<◌, ◌^◌, ◌≡◌, refl, ◌≢◌, ◌∙◌, sym, List, ℤ, arith}
use operating_systems_ass.Peterson.Protocol.{inside}
use operating_systems_ass.Tournament.{Pc, critical, failed, crashed}
use operating_systems_ass.Tournament.Tree.{max_levels, block-zero}
use operating_systems_ass.Tournament.Climb.{phase_at}
use operating_systems_ass.Tournament.Invariant.{unique, Reach-Inv}
use operating_systems_ass.Tournament.Run.{System, Reach}

-- Between the return of tournament_acquire and the release of the root's lock.
abbrev pub HoldsAll : ℕ → Pc → Type 0
HoldsAll levels c = (k : ℕ) → k < levels → phase_at c k ≡ inside

-- In every reachable state of a tournament of 2 to 16 processes over locks in use, with their
-- shared accesses interleaved in any way, and calls on other locks in between: two processes that
-- have returned from tournament_acquire and not begun to release are the same process.
pub mutual_exclusion :
    (levels : ℕ) (ids : List ℤ) {s : System}
    → levels ≤ max_levels
    → 0 < levels
    → Reach levels ids s
    → (p q : ℕ) → p < 2 ^ levels
    → q < 2 ^ levels
    → s.pc p ≡ critical
    → s.pc q ≡ critical
    → p ≡ q
mutual_exclusion levels ids {s} few some_level reach p q hp hq in_p in_q =
    unique levels ids few some_level s.table s.pc (Reach-Inv levels ids few some_level reach) levels
      0 p q (omega arith) hp hq (λ k a b. rw in_p refl) (λ k a b. rw in_q refl)
      (block-zero levels ids few p hp ∙ sym (block-zero levels ids few q hq))

-- In a tournament of 1 to 4 levels whose tree locks are fresh at the start and are used by its processes
-- only: in every interleaving, no call of a process returns -1 and none leaves the array of the flags.
pub no_failure :
    (levels : ℕ) (ids : List ℤ) {s : System}
    → levels ≤ max_levels
    → 0 < levels
    → Reach levels ids s
    → (p : ℕ) → p < 2 ^ levels
    → (s.pc p ≢ failed) × (s.pc p ≢ crashed)
no_failure levels ids {s} few some_level reach p hp =
    let sane = (Reach-Inv levels ids few some_level reach).sane p hp in
    (λ e. rw e at sane, λ e. rw e at sane)
