-- ===== src/Proc/Orphans.antt =====
-- The parents of processes over whole runs of kernel/proc.c.
use mathlib.Core.Path.{subst}
use native.Mathlib.Decide.{ℕ_discrete}
use operating_systems_ass.Base.{
  ℕ, zero, suc, ◌+◌, ◌≤◌, ◌<◌, ◌≡◌, refl, ◌∙◌, ap, Bool, Option, none, some, List, [], ◌∷◌, ℤ,
  arith, inl, inr, ◌==◌, if◌then◌else◌, update, update_self, update_ne, Bool-cases,
}
use operating_systems_ass.Proc.{
  nproc, ProcState, runnable, running, is_sleeping, is_runnable, Proc, Procs, Kernel, Call,
  put_proc, allocpid, wakeup, find_unused, userinit_with, allocproc, allocproc_after, has_pid,
  allocproc_found, fork_with, fork, wait, sleep, awake, schedule, yield_cpu, kill_from, kill,
  setkilled, userinit,
}
use operating_systems_ass.Proc.Wakeup.{Alive, wakeup-Kept}
use operating_systems_ass.Proc.Run.{
  Runs, Step, forks, exits, waits, sleeps, awakes, yields, schedules, wakes, kills, marks, Reach,
  start, later,
}
use operating_systems_ass.Proc.Kinship.{Kin, Kin-Kept, Kin-state, find_unused_lem}
use operating_systems_ass.Proc.ForkExit.{
  found-Kin, none-Kin, wait_after-Kin, exit-Kin, Alive-running,
}

fork_after-Kin :
    (k : Kernel) (trapframe pagetable : ℕ) (copied : Bool) (me : ℕ) (slot : Option ℕ)
    → find_unused nproc 0 k.procs ≡ slot
    → Runs k me
    → Kin k.procs k.initproc
    → let made = fork_with copied me (allocproc_after trapframe pagetable k slot) in
      Kin made.1.procs made.1.initproc
unfolding allocproc_after
fork_after-Kin k trapframe pagetable copied me none e r kin = none-Kin copied me k [] kin
fork_after-Kin k trapframe pagetable copied me (some i) e r kin =
    found-Kin k trapframe pagetable copied me i r.listed (Alive-running _ r.is_on)
      (find_unused_lem nproc 0 i k.procs e).2 kin

module _ (t : Procs) (initproc : ℕ) (kin : Kin t initproc) where
  kill_from-Kin : (n i : ℕ) (pid : ℤ) → i + n ≤ nproc → Kin (kill_from n i pid t).1 initproc
  unfolding kill_from
  kill_from-Kin zero i pid h = kin
  kill_from-Kin (suc n) i pid h = elim (Bool-cases (has_pid (t i) pid)) [
    | inl hit ↦ rw hit (Kin-state t initproc i _ (omega arith) refl (still (t i).state) kin)
    | inr miss ↦ rw miss (kill_from-Kin n (suc i) pid (omega arith))
  ]
    where
      still : (s : ProcState) → Alive s → Alive (if is_sleeping s then runnable else s)
      still s a = elim (Bool-cases (is_sleeping s)) [ inl e ↦ rw e (refl, refl) | inr e ↦ rw e a ]

schedule-Kin :
    (k k' : Kernel) (i : ℕ)
    → i < nproc
    → schedule i k ≡ some k'
    → Kin k.procs k.initproc
    → Kin k'.procs k'.initproc
unfolding schedule
schedule-Kin k k' i l e kin = elim (Bool-cases (is_runnable (k.procs i).state)) [
  | inl on ↦
      let t = put_proc k i (record (k.procs i) { state = running }) in
      let same : t ≡ k' = ground (arith, on, e) in
      subst (λ (k' : Kernel). Kin k'.procs k'.initproc) same
        (Kin-state k.procs k.initproc i _ l refl (λ _. (refl, refl)) kin)
  | inr off ↦ absurd (ground (arith, off, e))
]

Step-Kin : {k k' : Kernel} → Step k k' → Kin k.procs k.initproc → Kin k'.procs k'.initproc
unfolding fork allocproc wait sleep awake yield_cpu kill setkilled
Step-Kin {k} (forks trapframe pagetable copied me r) kin =
    fork_after-Kin k trapframe pagetable copied me _ refl r kin
Step-Kin {k} (exits status me k' calls r e) kin = exit-Kin k k' status me calls r.listed e kin
Step-Kin {k} (waits addr copied me r) kin = wait_after-Kin k addr copied me _ refl r.listed kin
Step-Kin {k} (sleeps chan me r) kin =
    Kin-state k.procs k.initproc me _ r.listed refl (λ _. (refl, refl)) kin
Step-Kin {k} (awakes me r) kin = Kin-state k.procs k.initproc me _ r.listed refl (λ a. a) kin
Step-Kin {k} (yields me r) kin =
    Kin-state k.procs k.initproc me _ r.listed refl (λ _. (refl, refl)) kin
Step-Kin {k} (schedules i k' l e) kin = schedule-Kin k k' i l e kin
Step-Kin {k} (wakes me chan) kin =
    Kin-Kept k.procs (wakeup me chan k.procs) k.initproc (wakeup-Kept me chan k.procs) kin
Step-Kin {k} (kills pid) kin = kill_from-Kin k.procs k.initproc kin nproc 0 pid (omega arith)
Step-Kin {k} (marks i l) kin = Kin-state k.procs k.initproc i _ l refl (λ a. a) kin

pub Reach-Kin : {k k' : Kernel} → Kin k.procs k.initproc → Reach k k' → Kin k'.procs k'.initproc
Reach-Kin kin start = kin
Reach-Kin kin (later r s) = Step-Kin s (Reach-Kin kin r)

-- userinit, on a table of slots without a parent
first-Kin :
    (root : ℕ) (k k' : Kernel) (calls : List Call) (i : ℕ)
    → i < nproc
    → ((j : ℕ) → (k.procs j).parent ≡ none)
    → userinit_with root (some i, k, calls) ≡ some k'
    → Kin k'.procs k'.initproc
unfolding userinit_with
first-Kin root k k' calls i l alone e =
    let p = record (k.procs i) { sz = 4096; name = initcode; cwd = root; state = runnable } in
    let t = put_proc (record k { initproc = i }) i p in
    let same : t ≡ k' = ground (arith, e) in
    subst (λ (k' : Kernel). Kin k'.procs k'.initproc) same
      (record {
        init_listed = l;
        init_alive = rw (update_self k.procs i p) (refl, refl);
        living = λ j q h f.
            let parent : (update k.procs i p j).parent ≡ none = elim (ℕ_discrete i j) [
              | yes at_i ↦
                  subst (λ j. (update k.procs i p j).parent ≡ none) at_i
                    (ap (λ (r : Proc). r.parent) (update_self k.procs i p) ∙ alone i)
              | no d ↦ ap (λ (r : Proc). r.parent) (update_ne k.procs i j p d) ∙ alone j
            ] in
            absurd (cc (parent, f));
      })
  where
    initcode : List ℕ
    initcode = 105 ∷ 110 ∷ 105 ∷ 116 ∷ 99 ∷ 111 ∷ 100 ∷ 101 ∷ []

update-alone :
    (t : Procs) (i : ℕ) (p : Proc)
    → p.parent ≡ none
    → ((j : ℕ) → (t j).parent ≡ none)
    → (j : ℕ) → (update t i p j).parent ≡ none
update-alone t i p e alone j = elim (ℕ_discrete i j) [
  | yes same ↦
      subst (λ j. (update t i p j).parent ≡ none) same
        (ap (λ (r : Proc). r.parent) (update_self t i p) ∙ e)
  | no d ↦ ap (λ (r : Proc). r.parent) (update_ne t i j p d) ∙ alone j
]

userinit-none :
    (root : ℕ) (k k' : Kernel) (calls : List Call)
    → userinit_with root (none, k, calls) ≡ some k'
    → Kin k'.procs k'.initproc
unfolding userinit_with
userinit-none root k k' calls e = absurd (cc e)

userinit_found-Kin :
    (trapframe pagetable root : ℕ) (k k' : Kernel) (i : ℕ)
    → i < nproc
    → ((j : ℕ) → (k.procs j).parent ≡ none)
    → userinit_with root (allocproc_found trapframe pagetable i k) ≡ some k'
    → Kin k'.procs k'.initproc
unfolding allocproc_found allocpid
userinit_found-Kin trapframe pagetable root k k' i l alone = elim (Bool-cases (trapframe == 0)) [
  | inl no_frame ↦ rw no_frame (userinit-none root _ k' _)
  | inr frame ↦ elim (Bool-cases (pagetable == 0)) [
    | inl no_table ↦ rw (frame, no_table) (userinit-none root _ k' _)
    | inr table ↦
        rw (frame, table) (first-Kin root _ k' [] i l (update-alone k.procs i _ (alone i) alone))
  ]
]

userinit_after-Kin :
    (trapframe pagetable root : ℕ) (k k' : Kernel) (slot : Option ℕ)
    → find_unused nproc 0 k.procs ≡ slot
    → ((j : ℕ) → (k.procs j).parent ≡ none)
    → userinit_with root (allocproc_after trapframe pagetable k slot) ≡ some k'
    → Kin k'.procs k'.initproc
unfolding allocproc_after
userinit_after-Kin trapframe pagetable root k k' none f alone e = userinit-none root k k' [] e
userinit_after-Kin trapframe pagetable root k k' (some i) f alone e =
    userinit_found-Kin trapframe pagetable root k k' i (find_unused_lem nproc 0 i k.procs f).1 alone
      e

-- From a table in which no process has a parent, and once userinit has succeeded: whatever calls of
-- fork, exit, wait, sleep, wakeup, yield, kill and of the scheduler follow in whatever order, the
-- parent of a process is in the table and neither unused nor a zombie.
pub no_orphans :
    (trapframe pagetable root : ℕ) (k : Kernel) {k₀ k' : Kernel} (i q : ℕ)
    → ((j : ℕ) → (k.procs j).parent ≡ none)
    → userinit trapframe pagetable root k ≡ some k₀
    → Reach k₀ k'
    → i < nproc
    → (k'.procs i).parent ≡ some q
    → (q < nproc) × Alive (k'.procs q).state
unfolding userinit allocproc
no_orphans trapframe pagetable root k {k₀} i q alone booted r l e =
    (Reach-Kin (userinit_after-Kin trapframe pagetable root k k₀ _ refl alone booted) r).living i q
      l e
