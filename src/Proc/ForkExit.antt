-- ===== src/Proc/ForkExit.antt =====
-- The parents of processes over one call of fork, wait or exit.
use mathlib.Core.Path.{subst}
use native.Mathlib.Decide.{ℕ_discrete}
use operating_systems_ass.Base.{
  ℕ, ◌<◌, ◌≡◌, refl, ◌≢◌, ◌⊎◌, ◌∙◌, sym, ap, Bool, true, false, not, ◌&&◌, ◌||◌, Option, none, some,
  List, [], ℤ, arith, inl, inr, ◌==◌, update, update_self, update_ne, Bool-cases,
}
use operating_systems_ass.Proc.{
  nproc, ProcState, running, is_unused, is_zombie, Proc, Procs, Kernel, Call, put_proc, allocpid,
  wakeup, reparent, freeproc, allocproc_found, fork_with, Scan, found, scanned, scan_children,
  wait_after, sleep, nofile, close_files, leave, exit, parent_chan,
}
use operating_systems_ass.Proc.Wakeup.{
  Alive, Given, Kept, Kept-refl, Given-trans, Given-parent, wakeup-Kept, heir, reparent-Given,
}
use operating_systems_ass.Proc.Kinship.{
  Kin, Kept-Alive, Kin-Kept, Kin-put, Kin-state, scan_children_lem,
}

pub Alive-running : (s : ProcState) → s ≡ running → Alive s
Alive-running s e = (rw e refl, rw e refl)

not-Alive_unused : {C : Type 0} (s : ProcState) → is_unused s ≡ true → Alive s → C
not-Alive_unused s e a = absurd (cc (e, a.0))

not-Alive_zombie : {C : Type 0} (s : ProcState) → is_zombie s ≡ true → Alive s → C
not-Alive_zombie s e a = absurd (cc (e, a.1))

update-twice :
    (t : Procs) (i : ℕ) (p q : Proc) (j : ℕ) → update (update t i p) i q j ≡ update t i q j
update-twice t i p q j = elim (ℕ_discrete i j) [
  | yes e ↦
      subst (λ j. update (update t i p) i q j ≡ update t i q j) e
        (update_self (update t i p) i q ∙ sym (update_self t i q))
  | no d ↦ update_ne (update t i p) i j q d ∙ (update_ne t i j p d ∙ sym (update_ne t i j q d))
]

-- A slot that is not alive is cleared.
Kin-clear :
    (t : Procs) (initproc i : ℕ) (p : Proc)
    → p.parent ≡ none
    → (Alive (t i).state → Alive p.state)
    → Kin t initproc
    → Kin (update t i p) initproc
Kin-clear t initproc i p e dead kin = Kin-put t initproc i p (λ q f. absurd (cc (e, f))) dead kin

Kin-twice :
    (t : Procs) (initproc i : ℕ) (p q : Proc)
    → Kin (update t i q) initproc
    → Kin (update (update t i p) i q) initproc
Kin-twice t initproc i p q kin =
    Kin-Kept (update t i q) (update (update t i p) i q) initproc
      (λ j h.
        subst (Kept (update t i q j)) (sym (update-twice t i p q j)) (Kept-refl (update t i q j)))
      kin

module _ (copied : Bool) (me : ℕ) where
  pub none-Kin :
      (k : Kernel) (calls : List Call)
      → Kin k.procs k.initproc
      → let made = fork_with copied me (none, k, calls) in Kin made.1.procs made.1.initproc
  unfolding fork_with
  none-Kin k calls kin = kin

made-Kin :
    (copied : Bool) (me : ℕ) (k : Kernel) (i : ℕ) (p : Proc)
    → me < nproc
    → Alive (k.procs me).state
    → is_unused (k.procs i).state ≡ true
    → Kin k.procs k.initproc
    → let made = fork_with copied me (some i, put_proc k i p, []) in
      Kin made.1.procs made.1.initproc
unfolding fork_with freeproc
made-Kin true me k i p l a u kin = Kin-twice k.procs k.initproc i p _ (
    Kin-put k.procs k.initproc i _
      (λ q e.
        let same : me ≡ q = ground (arith, e) in
        (omega arith, subst (λ j. Alive (k.procs j).state) same a))
      (λ _. (refl, refl)) kin)
made-Kin false me k i p l a u kin =
    Kin-twice k.procs k.initproc i p _
      (Kin-clear k.procs k.initproc i _ refl (not-Alive_unused _ u) kin)

-- fork, from the slot that allocproc finds
pub found-Kin :
    (k : Kernel) (trapframe pagetable : ℕ) (copied : Bool) (me i : ℕ)
    → me < nproc
    → Alive (k.procs me).state
    → is_unused (k.procs i).state ≡ true
    → Kin k.procs k.initproc
    → let made = fork_with copied me (allocproc_found trapframe pagetable i k) in
      Kin made.1.procs made.1.initproc
unfolding allocproc_found allocpid freeproc
found-Kin k trapframe pagetable copied me i l a u kin = elim (Bool-cases (trapframe == 0)) [
  | inl no_frame ↦
      rw no_frame
        (none-Kin copied me _ _ (Kin-clear k.procs k.initproc i _ refl (not-Alive_unused _ u) kin))
  | inr frame ↦ elim (Bool-cases (pagetable == 0)) [
    | inl no_table ↦
        rw (frame, no_table)
          (none-Kin copied me _ _
            (Kin-clear k.procs k.initproc i _ refl (not-Alive_unused _ u) kin))
    | inr table ↦ rw (frame, table) (made-Kin copied me (allocpid k).1 i _ l a u kin)
  ]
]

pub wait_after-Kin :
    (k : Kernel) (addr : ℕ) (copied : Bool) (me : ℕ) (s : Scan)
    → scan_children nproc 0 false me k.procs ≡ s
    → me < nproc
    → Kin k.procs k.initproc
    → let r = wait_after addr copied me k s in Kin r.1.procs r.1.initproc
unfolding wait_after sleep freeproc
wait_after-Kin k addr copied me (found i) e l kin =
    let z = (scan_children_lem nproc 0 me false k.procs i e).2 in
    elim (Bool-cases (not (addr == 0) && not copied)) [
      | inl b ↦ rw b kin
      | inr b ↦ rw b (Kin-clear k.procs k.initproc i _ refl (not-Alive_zombie _ z) kin)
    ]
wait_after-Kin k addr copied me (scanned havekids) e l kin =
    elim (Bool-cases (not havekids || not ((k.procs me).killed == 0))) [
      | inl b ↦ rw b kin
      | inr b ↦ rw b (Kin-state k.procs k.initproc me _ l refl (λ _. (refl, refl)) kin)
    ]

heir-cases :
    (initproc me : ℕ) (parent : Option ℕ) (q : ℕ)
    → heir initproc me parent ≡ some q
    → (initproc ≡ q) ⊎ ((parent ≡ some q) × (me ≢ q))
heir-cases initproc me none q e = absurd (cc e)
heir-cases initproc me (some p) q e = ground (arith, e)

-- Once its children are init's, a process can be a zombie.
Kin-bury :
    (t u : Procs) (initproc me : ℕ) (p : Proc)
    → me < nproc
    → me ≢ initproc
    → ((j : ℕ) → j < nproc → Given (heir initproc me (t j).parent) (t j) (u j))
    → p.parent ≡ (u me).parent
    → Kin t initproc
    → Kin (update u me p) initproc
Kin-bury t u initproc me p l d given e kin = record {
  init_listed = kin.init_listed;
  init_alive = alive initproc kin.init_listed d kin.init_alive;
  living = λ j q h f.
      let parent : heir initproc me (t j).parent ≡ some q =
        sym (given j h).new_parent ∙ (sym (parents j) ∙ f) in
      elim (heir-cases initproc me (t j).parent q parent) [
        | inl init ↦
            subst (λ q. (q < nproc) × Alive (update u me p q).state) init
              (kin.init_listed, alive initproc kin.init_listed d kin.init_alive)
        | inr kept ↦ let old = kin.living j q h kept.0 in (old.0, alive q old.0 kept.1 old.1)
      ];
}
  where
    alive : (q : ℕ) → q < nproc → me ≢ q → Alive (t q).state → Alive (update u me p q).state
    alive q h n a = rw (update_ne u me q p n) (Kept-Alive (given q h) a)

    parents : (j : ℕ) → (update u me p j).parent ≡ (u j).parent
    parents j = elim (ℕ_discrete me j) [
      | yes same ↦
          subst (λ j. (update u me p j).parent ≡ (u j).parent) same
            (ap (λ (r : Proc). r.parent) (update_self u me p) ∙ e)
      | no n ↦ ap (λ (r : Proc). r.parent) (update_ne u me j p n)
    ]

leave-Kin :
    (k : Kernel) (status : ℤ) (me : ℕ)
    → me < nproc
    → me ≢ k.initproc
    → Kin k.procs k.initproc
    → Kin (leave status me k).0.procs (leave status me k).0.initproc
unfolding leave
leave-Kin k status me l d kin =
    let p = record (k.procs me) { ofile = (close_files nofile 0 (k.procs me).ofile).0; cwd = 0 } in
    let t = update k.procs me p in
    let t₁ = reparent k.initproc me t in
    Kin-bury t (wakeup me (parent_chan (t₁ me)) t₁) k.initproc me _ l d
      (λ j h.
        let given = reparent-Given k.initproc me t j h in
        Given-parent given.new_parent
          (Given-trans given (wakeup-Kept me (parent_chan (t₁ me)) t₁ j h)))
      refl (Kin-state k.procs k.initproc me p l refl (λ a. a) kin)

pub exit-Kin :
    (k k' : Kernel) (status : ℤ) (me : ℕ) (calls : List Call)
    → me < nproc
    → exit status me k ≡ some (k', calls)
    → Kin k.procs k.initproc
    → Kin k'.procs k'.initproc
unfolding exit
exit-Kin k k' status me calls l e kin = elim (ℕ_discrete me k.initproc) [
  | yes init ↦ absurd (ground (arith, init, e))
  | no d ↦
      let same : (leave status me k).0 ≡ k' = ground (arith, d, e) in
      subst (λ (k' : Kernel). Kin k'.procs k'.initproc) same (leave-Kin k status me l d kin)
]
