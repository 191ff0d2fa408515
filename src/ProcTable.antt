-- ===== src/ProcTable.antt =====
-- kernel/proc.h, and the first half of kernel/proc.c: the table of processes, and how a slot is taken
-- and freed. A process is its index in the table. Saved registers and locks are left out.
use operating_systems_ass.Base.{
  ℕ, zero, suc, ◌+◌, ◌%◌, ◌^◌, Bool, true, false, Option, none, some, List, [], ◌∷◌, ◌++◌, ℤ, pos,
  ◌==◌, if◌then◌else◌, update,
}

abbrev pub nproc : ℕ
nproc = 64

abbrev pub nofile : ℕ
nofile = 16

-- `enum procstate`
pub data ProcState : Type 0 where
  unused used sleeping runnable running zombie : ProcState

abbrev pub is_unused : ProcState → Bool
is_unused s = elim s [ unused ↦ true | _ ↦ false ]

abbrev pub is_sleeping : ProcState → Bool
is_sleeping s = elim s [ sleeping ↦ true | _ ↦ false ]

abbrev pub is_runnable : ProcState → Bool
is_runnable s = elim s [ runnable ↦ true | _ ↦ false ]

abbrev pub is_zombie : ProcState → Bool
is_zombie s = elim s [ zombie ↦ true | _ ↦ false ]

-- The address that a process sleeps on: none (0), that of a process, or another one.
pub data Chan : Type 0 where
  no_chan : Chan
  of_proc : ℕ → Chan
  at : ℕ → Chan

abbrev pub same_chan : Chan → Chan → Bool
same_chan no_chan no_chan = true
same_chan no_chan (of_proc j) = false
same_chan no_chan (at b) = false
same_chan (of_proc i) no_chan = false
same_chan (of_proc i) (of_proc j) = i == j
same_chan (of_proc i) (at b) = false
same_chan (at a) no_chan = false
same_chan (at a) (of_proc j) = false
same_chan (at a) (at b) = a == b

-- `struct proc`; a pointer is a number, and 0 if it is null. `ofile` is read below `nofile` only.
pub record Proc : Type 0 where
  pub state : ProcState
  pub chan : Chan
  pub killed : ℕ
  pub xstate : ℤ
  pub pid : ℕ
  pub parent : Option ℕ
  pub sz : ℕ
  pub pagetable : ℕ
  pub trapframe : ℕ
  pub ofile : ℕ → ℕ
  pub cwd : ℕ
  pub name : List ℕ

-- `proc`, read below `nproc` only
abbrev pub Procs : Type 0
Procs = ℕ → Proc

-- `nextpid` is an int, kept as its bits.
pub record Kernel : Type 0 where
  pub procs : Procs
  pub nextpid : ℕ
  pub initproc : ℕ

pub data Call : Type 0 where
  kfree : ℕ → Call
  proc_freepagetable : (pagetable sz : ℕ) → Call
  filedup : ℕ → Call
  fileclose : ℕ → Call
  idup : ℕ → Call
  iput : ℕ → Call
  begin_op end_op : Call

abbrev pub put_proc : Kernel → ℕ → Proc → Kernel
put_proc k i p = record k { procs = update k.procs i p }

unfoldable pub allocpid : Kernel → ℕ × Kernel
allocpid k = (k.nextpid, record k { nextpid = (k.nextpid + 1) % 2 ^ 32 })

unfoldable pub freeproc : Proc → Proc × List Call
freeproc p = (
  record p {
    trapframe = 0;
    pagetable = 0;
    sz = 0;
    pid = 0;
    parent = none;
    name = [];
    chan = no_chan;
    killed = 0;
    xstate = pos 0;
    state = unused;
  },
  (if p.trapframe == 0 then [] else kfree p.trapframe ∷ [])
      ++ (if p.pagetable == 0 then [] else proc_freepagetable p.pagetable p.sz ∷ []),
)

-- The loop of allocproc over the table, from `i` on with `n` rounds left
unfoldable pub find_unused : ℕ → ℕ → Procs → Option ℕ
find_unused zero i t = none
find_unused (suc n) i t =
    let rest = find_unused n (suc i) t in if is_unused (t i).state then some i else rest

-- allocproc from `found` on. `trapframe` and `pagetable` are what kalloc and proc_pagetable return.
unfoldable pub allocproc_found :
    (trapframe pagetable : ℕ) → ℕ → Kernel → Option ℕ × Kernel × List Call
allocproc_found trapframe pagetable i k =
    let (pid, k₁) = allocpid k in
    let p = record (k₁.procs i) { pid = pid; state = used; trapframe = trapframe } in
    let p₁ = record p { pagetable = pagetable } in
    if trapframe == 0
    then (let (q, calls) = freeproc p in (none, put_proc k₁ i q, calls))
    else if pagetable == 0
    then (let (q, calls) = freeproc p₁ in (none, put_proc k₁ i q, calls))
    else (some i, put_proc k₁ i p₁, [])

-- allocproc after the loop
unfoldable pub allocproc_after :
    (trapframe pagetable : ℕ) → Kernel → Option ℕ → Option ℕ × Kernel × List Call
allocproc_after trapframe pagetable k none = (none, k, [])
allocproc_after trapframe pagetable k (some i) = allocproc_found trapframe pagetable i k

unfoldable pub allocproc : (trapframe pagetable : ℕ) → Kernel → Option ℕ × Kernel × List Call
allocproc trapframe pagetable k =
    allocproc_after trapframe pagetable k (find_unused nproc 0 k.procs)
