-- ===== src/Peterson/Pair/Safety.antt =====
-- Safety of one Peterson lock under two processes.
use operating_systems_ass.Base.{ℕ, ◌-◌, ◌<◌, ◌≡◌, ◌≢◌}
use operating_systems_ass.Peterson.{max_peterson_locks}
use operating_systems_ass.Peterson.Protocol.{Phase, Rivals-exclude}
use operating_systems_ass.Peterson.Pair.{stopped, System, Reach}
use operating_systems_ass.Peterson.Pair.Invariant.{phase, Reach-Inv}

-- In every reachable state of two processes that take an allocated lock in the roles 0 and 1,
-- each with its own shared accesses in program order and interleaved in any way, with calls on
-- other locks in between: at most one of them has passed petersonlock_acquire and not yet lowered
-- its flag, and no call has failed or left the bounds of the flags.
pub pair_exclusion :
    {v : ℕ} {s : System} (r : ℕ)
    → v < max_peterson_locks
    → r < 2
    → Reach v s
    → (phase (s.client r) ≡ Phase.inside → phase (s.client (1 - r)) ≢ Phase.inside)
      × (s.client r ≢ stopped)
pair_exclusion r hv hr reach =
    let i = Reach-Inv r hv hr reach in (Rivals-exclude _ r _ _ hr i.rivals, i.running)
