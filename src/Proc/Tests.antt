-- ===== src/Proc/Tests.antt =====
-- Tests of kernel/proc.c, and the theorems at concrete inputs.
use operating_systems_ass.Base.{◌+◌, ◌<◌, Option, ◌≡◌, refl, true, some, none, pos, [], arith}
use operating_systems_ass.Proc.{
  unused, no_chan, Proc, Procs, Kernel, at, sleeping, allocpid, freeproc, find_unused,
  allocproc_found, allocproc_after, allocproc, fork_with, fork, userinit_with, userinit, kill,
  wakeup, schedule, runnable, nproc,
}
use operating_systems_ass.Proc.Run.{Runs, start, later, schedules, forks}
use operating_systems_ass.Proc.Wakeup.{Alive, wakeup_lem}
use operating_systems_ass.Proc.Orphans.{no_orphans}
use operating_systems_ass.Proc.Doomed.{kill_zero_dooms}

abbrev free_slot : Proc
free_slot = record {
  state = unused;
  chan = no_chan;
  killed = 0;
  xstate = pos 0;
  pid = 0;
  parent = none;
  sz = 0;
  pagetable = 0;
  trapframe = 0;
  ofile = λ _. 0;
  cwd = 0;
  name = [];
}

abbrev empty : Kernel
empty = record { procs = λ _. free_slot; nextpid = 1; initproc = 0 }

abbrev or_empty : Option Kernel → Kernel
or_empty none = empty
or_empty (some k) = k

-- init, which is process 0, is made and runs.
abbrev booted : Kernel
booted = or_empty (userinit 100 101 7 empty)

abbrev ran : Kernel
ran = or_empty (schedule 0 booted)

boots : userinit 100 101 7 empty ≡ some booted
unfolding userinit userinit_with allocproc allocproc_after find_unused allocproc_found allocpid
    freeproc
boots = refl

runs : schedule 0 booted ≡ some ran
unfolding schedule userinit userinit_with allocproc allocproc_after find_unused allocproc_found
    allocpid freeproc
runs = refl

init-Runs : Runs ran 0
unfolding schedule userinit userinit_with allocproc allocproc_after find_unused allocproc_found
    allocpid freeproc
init-Runs = record { listed = omega arith; is_on = refl }

child_parent : ((fork 102 103 true 0 ran).1.procs 1).parent ≡ some 0
unfolding fork fork_with schedule userinit userinit_with allocproc allocproc_after find_unused
    allocproc_found allocpid freeproc
child_parent = refl

no_orphans_example : (0 < nproc) × Alive ((fork 102 103 true 0 ran).1.procs 0).state
no_orphans_example =
    no_orphans 100 101 7 empty 1 0 (λ j. refl) boots
      (later (later start (schedules 0 ran (omega arith) runs)) (forks 102 103 true 0 init-Runs))
      (omega arith) child_parent

-- A process that sleeps on channel 5 beside one that sleeps on channel 6
abbrev asleep : Procs
asleep i = record free_slot { state = sleeping; chan = at (5 + i) }

wakeup_lem_example : wakeup 9 (at 6) asleep 1 ≡ record (asleep 1) { state = runnable }
wakeup_lem_example = wakeup_lem 9 (at 6) asleep 1 (omega arith)

free_first : find_unused nproc 0 empty.procs ≡ some 0
unfolding find_unused
free_first = refl

kill_zero_dooms_example :
    ((kill (pos 0) empty).0 ≡ pos 0)
    × ((fork 100 101 true 9 (kill (pos 0) empty).1).0 ≡ pos 1)
    × (((fork 100 101 true 9 (kill (pos 0) empty).1).1.procs 0).killed ≡ 1)
kill_zero_dooms_example =
    kill_zero_dooms empty 100 101 9 0 (λ j. (λ _. refl, λ _. refl)) free_first (omega arith)
      (omega arith)
