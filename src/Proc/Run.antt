-- ===== src/Proc/Run.antt =====
-- Runs of the process table: the calls of kernel/proc.c in any order, by processes that run.
use operating_systems_ass.Base.{ℕ, ◌<◌, ◌≡◌, Bool, some, List, ℤ}
use operating_systems_ass.Proc.{
  nproc, running, Chan, Kernel, Call, fork, exit, wait, wakeup, sleep, awake, schedule, yield_cpu,
  kill, setkilled,
}

-- Process `me` runs and may make a call.
pub record Runs (k : Kernel) (me : ℕ) : Type 0 where
  pub listed : me < nproc
  pub is_on : (k.procs me).state ≡ running

pub data Step (k : Kernel) : Kernel → Type 0 where
  forks :
      (trapframe pagetable : ℕ) (copied : Bool) (me : ℕ)
      → Runs k me
      → Step k (fork trapframe pagetable copied me k).1
  exits :
      (status : ℤ) (me : ℕ) (k' : Kernel) (calls : List Call)
      → Runs k me
      → exit status me k ≡ some (k', calls)
      → Step k k'
  waits : (addr : ℕ) (copied : Bool) (me : ℕ) → Runs k me → Step k (wait addr copied me k).1
  sleeps : (chan : Chan) (me : ℕ) → Runs k me → Step k (sleep chan me k)
  awakes : (me : ℕ) → Runs k me → Step k (awake me k)
  yields : (me : ℕ) → Runs k me → Step k (yield_cpu me k)
  schedules : (i : ℕ) (k' : Kernel) → i < nproc → schedule i k ≡ some k' → Step k k'
  -- An interrupt handler wakes processes too.
  wakes : (me : ℕ) (chan : Chan) → Step k (record k { procs = wakeup me chan k.procs })
  kills : (pid : ℤ) → Step k (kill pid k).1
  marks : (i : ℕ) → i < nproc → Step k (setkilled i k)

pub data Reach (k : Kernel) : Kernel → Type 0 where
  start : Reach k k
  later : {k₁ k₂ : Kernel} → Reach k k₁ → Step k₁ k₂ → Reach k k₂
