-- ===== src/Proc.antt =====
-- kernel/proc.c: the calls that move a process from state to state. A call is a function of the whole
-- table, run from its start to its return or to sched(); what it asks of other parts of the kernel is
-- a list of calls, in order.
pub mod Wakeup
pub mod Run
pub mod Kinship
pub mod ForkExit
pub mod Orphans
pub mod Doomed
mod Tests
pub use operating_systems_ass.ProcTable.{
  nproc, nofile, ProcState, is_unused, is_sleeping, is_runnable, is_zombie, Chan, same_chan, Proc,
  Procs, Kernel, Call, put_proc, unused, used, sleeping, runnable, running, zombie, no_chan,
  of_proc, at, kfree, proc_freepagetable, filedup, fileclose, idup, iput, begin_op, end_op,
}
unfoldable pub use operating_systems_ass.ProcTable.{
  allocpid, freeproc, find_unused, allocproc_found, allocproc_after, allocproc,
}
use operating_systems_ass.Base.{
  ℕ, zero, suc, ◌+◌, ◌-◌, ◌%◌, ◌^◌, Bool, true, false, not, ◌&&◌, ◌||◌, Option, none, some, List,
  [], ◌∷◌, ◌++◌, ℤ, pos, negsuc, minus_one, ◌==◌, if◌then◌else◌, update,
}

-- The loop of fork over the open files
unfoldable pub dup_files : ℕ → ℕ → (ℕ → ℕ) → (ℕ → ℕ) → (ℕ → ℕ) × List Call
dup_files zero fd from to = (to, [])
dup_files (suc n) fd from to =
    let shared = dup_files n (suc fd) from (update to fd (from fd)) in
    let rest = dup_files n (suc fd) from to in
    if from fd == 0 then rest else (shared.0, filedup (from fd) ∷ shared.1)

-- fork once allocproc has returned; `copied` is whether uvmcopy succeeds.
unfoldable pub fork_with :
    (copied : Bool) → ℕ → Option ℕ × Kernel × List Call → ℤ × Kernel × List Call
fork_with copied me (none, k, calls) = (minus_one, k, calls)
fork_with copied me (some i, k, calls) =
    let p = k.procs me in
    let np = k.procs i in
    let (ofile, dups) = dup_files nofile 0 p.ofile np.ofile in
    let np' = record np {
      sz = p.sz;
      ofile = ofile;
      cwd = p.cwd;
      name = p.name;
      parent = some me;
      state = runnable;
    } in
    if copied
    then (pos np.pid, put_proc k i np', calls ++ (dups ++ (idup p.cwd ∷ [])))
    else (let (q, frees) = freeproc np in (minus_one, put_proc k i q, calls ++ frees))

unfoldable pub fork :
    (trapframe pagetable : ℕ) (copied : Bool) → ℕ → Kernel → ℤ × Kernel × List Call
fork trapframe pagetable copied me k = fork_with copied me (allocproc trapframe pagetable k)

-- The loop of wakeup, which process `me` makes
unfoldable pub wake_from : ℕ → ℕ → ℕ → Chan → Procs → Procs
wake_from zero i me chan t = t
wake_from (suc n) i me chan t = wake_from n (suc i) me chan (
    if not (i == me) && is_sleeping (t i).state && same_chan (t i).chan chan
    then update t i (record (t i) { state = runnable })
    else t)

unfoldable pub wakeup : ℕ → Chan → Procs → Procs
wakeup me chan t = wake_from nproc 0 me chan t

-- `pp->parent == p`
abbrev pub is_child : Proc → ℕ → Bool
is_child pp p = elim pp.parent [ none ↦ false | some q ↦ q == p ]

-- One round of the loop of reparent
unfoldable pub adopt : (initproc me i : ℕ) → Procs → Procs
adopt initproc me i t =
    if is_child (t i) me
    then wakeup me (of_proc initproc) (update t i (record (t i) { parent = some initproc }))
    else t

unfoldable pub reparent_from : ℕ → ℕ → (initproc me : ℕ) → Procs → Procs
reparent_from zero i initproc me t = t
reparent_from (suc n) i initproc me t = reparent_from n (suc i) initproc me (adopt initproc me i t)

unfoldable pub reparent : (initproc me : ℕ) → Procs → Procs
reparent initproc me t = reparent_from nproc 0 initproc me t

-- The loop of exit over the open files
unfoldable pub close_files : ℕ → ℕ → (ℕ → ℕ) → (ℕ → ℕ) × List Call
close_files zero fd ofile = (ofile, [])
close_files (suc n) fd ofile =
    let closed = close_files n (suc fd) (update ofile fd 0) in
    let rest = close_files n (suc fd) ofile in
    if ofile fd == 0 then rest else (closed.0, fileclose (ofile fd) ∷ closed.1)

abbrev pub parent_chan : Proc → Chan
parent_chan p = elim p.parent [ none ↦ no_chan | some q ↦ of_proc q ]

-- `exit(status)` past its test, up to sched()
unfoldable pub leave : ℤ → ℕ → Kernel → Kernel × List Call
leave status me k =
    let p = k.procs me in
    let (ofile, closes) = close_files nofile 0 p.ofile in
    let t = update k.procs me (record p { ofile = ofile; cwd = 0 }) in
    let t₁ = reparent k.initproc me t in
    let t₂ = wakeup me (parent_chan (t₁ me)) t₁ in
    let z = record (t₂ me) { xstate = status; state = zombie } in
    (record k { procs = update t₂ me z }, closes ++ (begin_op ∷ iput p.cwd ∷ end_op ∷ []))

-- `exit(status)`; `none` is the panic of initproc.
unfoldable pub exit : ℤ → ℕ → Kernel → Option (Kernel × List Call)
exit status me k = if me == k.initproc then none else some (leave status me k)

-- What the scan of wait comes to: the first child that is a zombie, or whether there are children.
pub data Scan : Type 0 where
  found : ℕ → Scan
  scanned : (havekids : Bool) → Scan

unfoldable pub scan_children : ℕ → ℕ → Bool → ℕ → Procs → Scan
scan_children zero i havekids me t = scanned havekids
scan_children (suc n) i havekids me t =
    let next = scan_children n (suc i) havekids me t in
    let kids = scan_children n (suc i) true me t in
    if is_child (t i) me then if is_zombie (t i).state then found i else kids else next

unfoldable pub sleep : Chan → ℕ → Kernel → Kernel
sleep chan me k = put_proc k me (record (k.procs me) { chan = chan; state = sleeping })

-- What sleep does once the process runs again
unfoldable pub awake : ℕ → Kernel → Kernel
awake me k = put_proc k me (record (k.procs me) { chan = no_chan })

-- The rest of a round of the loop of wait(addr): its return value, or `none` where it sleeps.
-- `copied` is whether copyout succeeds.
unfoldable pub wait_after :
    (addr : ℕ) (copied : Bool) → ℕ → Kernel → Scan → Option ℤ × Kernel × List Call
wait_after addr copied me k (found i) =
    if not (addr == 0) && not copied
    then (some minus_one, k, [])
    else (let (q, frees) = freeproc (k.procs i) in
        (some (pos (k.procs i).pid), put_proc k i q, frees))
wait_after addr copied me k (scanned havekids) =
    if not havekids || not ((k.procs me).killed == 0)
    then (some minus_one, k, [])
    else (none, sleep (of_proc me) me k, [])

unfoldable pub wait : (addr : ℕ) (copied : Bool) → ℕ → Kernel → Option ℤ × Kernel × List Call
wait addr copied me k = wait_after addr copied me k (scan_children nproc 0 false me k.procs)

-- A round of scheduler() that runs process `i`
unfoldable pub schedule : ℕ → Kernel → Option Kernel
schedule i k =
    if is_runnable (k.procs i).state
    then some (put_proc k i (record (k.procs i) { state = running }))
    else none

-- `yield`, up to sched()
unfoldable pub yield_cpu : ℕ → Kernel → Kernel
yield_cpu me k = put_proc k me (record (k.procs me) { state = runnable })

-- `p->pid == pid`; a pid is kept as its 32 bits.
abbrev pub has_pid : Proc → ℤ → Bool
has_pid p (pos v) = p.pid == v
has_pid p (negsuc v) = p.pid + (v + 1) == 2 ^ 32

-- The loop of kill
unfoldable pub kill_from : ℕ → ℕ → ℤ → Procs → ℤ × Procs
kill_from zero i pid t = (minus_one, t)
kill_from (suc n) i pid t =
    let p = t i in
    let rest = kill_from n (suc i) pid t in
    if has_pid p pid
    then (
      pos 0,
      update t i
          (record p { killed = 1; state = if is_sleeping p.state then runnable else p.state }),
    )
    else rest

unfoldable pub kill : ℤ → Kernel → ℤ × Kernel
kill pid k = let (r, t) = kill_from nproc 0 pid k.procs in (r, record k { procs = t })

unfoldable pub setkilled : ℕ → Kernel → Kernel
setkilled i k = put_proc k i (record (k.procs i) { killed = 1 })

-- userinit once allocproc has returned
unfoldable pub userinit_with : (root : ℕ) → Option ℕ × Kernel × List Call → Option Kernel
userinit_with root (none, k, calls) = none
userinit_with root (some i, k, calls) =
    let name = 105 ∷ 110 ∷ 105 ∷ 116 ∷ 99 ∷ 111 ∷ 100 ∷ 101 ∷ [] in
    let p = record (k.procs i) { sz = 4096; name = name; cwd = root; state = runnable } in
    some (put_proc (record k { initproc = i }) i p)

-- `userinit`, where `root` is what namei("/") gives; `none` where allocproc gives none, whose fields
-- the code would write.
unfoldable pub userinit : (trapframe pagetable root : ℕ) → Kernel → Option Kernel
userinit trapframe pagetable root k = userinit_with root (allocproc trapframe pagetable k)
