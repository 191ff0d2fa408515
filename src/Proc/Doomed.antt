-- ===== src/Proc/Doomed.antt =====
-- kill(0) in kernel/proc.c: an unused slot has the pid 0.
use mathlib.Core.Path.{subst, ap₂}
use native.Mathlib.Decide.{ℕ_discrete}
use operating_systems_ass.Base.{
  ℕ, zero, suc, ◌≡◌, refl, ◌≢◌, ◌∙◌, ap, true, false, some, pos, arith, ◌↔◌, inl, inr, ◌==◌, ==_ne,
  if◌then◌else◌, update, update_self, update_ne, Bool-cases,
}
use operating_systems_ass.Proc.Kinship.{find_unused_lem}
use operating_systems_ass.Proc.{
  nproc, ProcState, unused, used, sleeping, running, zombie, runnable, is_unused, is_sleeping, Proc,
  Procs, Kernel, put_proc, allocpid, find_unused, allocproc_found, allocproc_after, allocproc,
  fork_with, fork, kill_from, kill,
}

-- The slots of the table that are not in use, and they alone, have the pid 0.
abbrev pub ZeroFree : Procs → Type 0
ZeroFree t = (j : ℕ) → (t j).pid ≡ 0 ↔ is_unused (t j).state ≡ true

abbrev struck : Proc → Proc
struck p = record p { killed = 1; state = if is_sleeping p.state then runnable else p.state }

strikes :
    (n i j : ℕ) (t : Procs)
    → ZeroFree t
    → find_unused n i t ≡ some j
    → kill_from n i (pos 0) t ≡ (pos 0, update t j (struck (t j)))
unfolding kill_from find_unused
strikes zero i j t z e = absurd (cc e)
strikes (suc n) i j t z e = elim (Bool-cases (is_unused (t i).state)) [
  | inl free ↦
      let same : i ≡ j = ground (arith, free, e) in
      let hit : ((t i).pid == 0) ≡ true = ground (arith, (z i).1 free) in
      rw hit (ap (λ j. (pos 0, update t j (struck (t j)))) same)
  | inr busy ↦
      let miss : ((t i).pid == 0) ≡ false =
        ==_ne _ _ (λ (p : (t i).pid ≡ 0). cc (busy, (z i).0 p)) in
      let rest : find_unused n (suc i) t ≡ some j = ground (arith, busy, e) in
      rw miss (strikes n (suc i) j t z rest)
]

find_unused-update :
    (n i j : ℕ) (t : Procs) (p : Proc)
    → is_unused p.state ≡ is_unused (t j).state
    → find_unused n i (update t j p) ≡ find_unused n i t
unfolding find_unused
find_unused-update zero i j t p e = refl
find_unused-update (suc n) i j t p e =
    ap₂ (λ b o. if b then some i else o) same (find_unused-update n (suc i) j t p e)
  where
    same : is_unused (update t j p i).state ≡ is_unused (t i).state
    same = elim (ℕ_discrete j i) [
      | yes d ↦
          subst (λ i. is_unused (update t j p i).state ≡ is_unused (t i).state) d
            (ap (λ (r : Proc). is_unused r.state) (update_self t j p) ∙ e)
      | no d ↦ ap (λ (r : Proc). is_unused r.state) (update_ne t j i p d)
    ]

-- fork leaves the flag `killed` as it finds it in the slot.
child-killed :
    (k : Kernel) (trapframe pagetable me i : ℕ)
    → trapframe ≢ 0
    → pagetable ≢ 0
    → let made = fork_with true me (allocproc_found trapframe pagetable i k) in
      (made.0 ≡ pos k.nextpid) × ((made.1.procs i).killed ≡ (k.procs i).killed)
unfolding fork_with allocproc_found allocpid
child-killed k trapframe pagetable me i f p =
    let made : Proc = record (k.procs i) {
      pid = k.nextpid;
      state = used;
      trapframe = trapframe;
      pagetable = pagetable;
    } in
    rw (==_ne trapframe 0 f, ==_ne pagetable 0 p)
      (
        ap (λ (r : Proc). pos r.pid) (update_self k.procs i made),
        ap (λ (r : Proc). r.killed) (update_self (update k.procs i made) i _)
            ∙ ap (λ (r : Proc). r.killed) (update_self k.procs i made),
      )

struck-unused :
    (s : ProcState)
    → is_unused s ≡ true
    → is_unused (if is_sleeping s then runnable else s) ≡ is_unused s
struck-unused s e = elim (Bool-cases (is_sleeping s)) [
  | inl b ↦ absurd (awake_slot s e b)
  | inr b ↦ rw b refl
]
  where
    awake_slot : (s : ProcState) → is_unused s ≡ true → is_sleeping s ≡ true → ⊥
    awake_slot unused e b = absurd (cc b)
    awake_slot used e b = absurd (cc e)
    awake_slot sleeping e b = absurd (cc e)
    awake_slot runnable e b = absurd (cc e)
    awake_slot running e b = absurd (cc e)
    awake_slot zombie e b = absurd (cc e)

kill_zero :
    (k : Kernel) (i : ℕ)
    → ZeroFree k.procs
    → find_unused nproc 0 k.procs ≡ some i
    → kill (pos 0) k ≡ (pos 0, put_proc k i (struck (k.procs i)))
unfolding kill
kill_zero k i z e = rw (strikes nproc 0 i k.procs z e) refl

fork_into :
    (k : Kernel) (trapframe pagetable me i : ℕ)
    → find_unused nproc 0 k.procs ≡ some i
    → fork trapframe pagetable true me k
      ≡ fork_with true me (allocproc_found trapframe pagetable i k)
unfolding fork allocproc allocproc_after
fork_into k trapframe pagetable me i e =
    ap (λ o. fork_with true me (allocproc_after trapframe pagetable k o)) e

-- In a table where the pid 0 is that of the unused slots, with a slot free: kill(0) returns 0, and
-- the next fork, if its allocations succeed, returns the next pid and makes a process that is
-- already marked as killed.
pub kill_zero_dooms :
    (k : Kernel) (trapframe pagetable me i : ℕ)
    → ZeroFree k.procs
    → find_unused nproc 0 k.procs ≡ some i
    → trapframe ≢ 0
    → pagetable ≢ 0
    → let made = fork trapframe pagetable true me (kill (pos 0) k).1 in
      ((kill (pos 0) k).0 ≡ pos 0) × (made.0 ≡ pos k.nextpid) × ((made.1.procs i).killed ≡ 1)
kill_zero_dooms k trapframe pagetable me i z e f p =
    let k₁ = put_proc k i (struck (k.procs i)) in
    let free : is_unused (k.procs i).state ≡ true = (find_unused_lem nproc 0 i k.procs e).2 in
    let still : find_unused nproc 0 k₁.procs ≡ some i =
      find_unused-update nproc 0 i k.procs (struck (k.procs i)) (struck-unused _ free) ∙ e in
    let child = child-killed k₁ trapframe pagetable me i f p in
    rw (kill_zero k i z e, fork_into k₁ trapframe pagetable me i still)
      (
        refl,
        child.0,
        child.1 ∙ ap (λ (r : Proc). r.killed) (update_self k.procs i (struck (k.procs i))),
      )
