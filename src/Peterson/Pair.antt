-- ===== src/Peterson/Pair.antt =====
-- Two processes that take one Peterson lock in the roles 0 and 1, again and again, interleaved one
-- shared access at a time with each other and with calls on other locks.
pub mod Invariant
pub mod Safety
pub mod Progress
use operating_systems_ass.Base.{ℕ, zero, suc, ◌<◌, ◌≡◌, ℤ, pos, negsuc, update}
use operating_systems_ass.Peterson.{
  PetersonLock, Table, fresh_lock, Next, goto, ret, fault, AcquirePc, check, ReleasePc,
  acquire_step, release_step,
}

pub data Client : Type 0 where
  idle : Client
  acquiring : AcquirePc → Client
  inside : Client
  releasing : ReleasePc → Client
  stopped : Client  -- a call returned an error or made an access out of bounds

abbrev pub after_acquire : Next AcquirePc → Client
after_acquire (goto p) = acquiring p
after_acquire (ret (pos _)) = inside
after_acquire (ret (negsuc _)) = stopped
after_acquire fault = stopped

abbrev pub after_release : Next ReleasePc → Client
after_release (goto p) = releasing p
after_release (ret (pos _)) = idle
after_release (ret (negsuc _)) = stopped
after_release fault = stopped

-- One step of a process that loops over acquire and release on `lock_id` in `role`.
unfoldable pub client_step : ℤ → ℤ → Client → Table → Client × Table
client_step lock_id role idle t = (acquiring check, t)
client_step lock_id role (acquiring p) t =
    let (n, t') = acquire_step lock_id role p t in (after_acquire n, t')
client_step lock_id role inside t = (releasing ReleasePc.check, t)
client_step lock_id role (releasing p) t =
    let (n, t') = release_step lock_id role p t in (after_release n, t')
client_step lock_id role stopped t = (stopped, t)

pub record System : Type 0 where
  pub table : Table
  pub client : ℕ → Client

-- The next state when role `r` moves at lock `v`.
abbrev pub turn_of : ℕ → ℕ → System → System
turn_of v r s =
    let next = client_step (pos v) (pos r) (s.client r) s.table in
    record { table = next.1; client = update s.client r next.0 }

pub data Step (v : ℕ) (s : System) : System → Type 0 where
  move : (r : ℕ) → r < 2 → Step v s (turn_of v r s)
  -- a call on another lock
  elsewhere : (t : Table) → t v ≡ s.table v → Step v s (record s { table = t })

-- The lock is as petersonlock_create leaves it, and nobody has called it yet.
pub record IsInit (v : ℕ) (s : System) : Type 0 where
  pub fresh : s.table v ≡ fresh_lock
  pub unused : (r : ℕ) → s.client r ≡ idle

pub data Reach (v : ℕ) : System → Type 0 where
  start : {s : System} → IsInit v s → Reach v s
  later : {s u : System} → Reach v s → Step v s u → Reach v u
