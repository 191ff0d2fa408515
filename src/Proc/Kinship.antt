-- ===== src/Proc/Kinship.antt =====
-- The parents of processes, when one process of the table changes.
use mathlib.Core.Path.{subst}
use native.Mathlib.Decide.{ℕ_discrete}
use operating_systems_ass.Base.{
  ℕ, zero, suc, ◌+◌, ◌≤◌, ◌<◌, ◌≡◌, ◌∙◌, sym, ap, Bool, true, Option, some, arith, inl, inr, update,
  update_self, update_ne,
}
use operating_systems_ass.Proc.{
  nproc, is_unused, is_zombie, Proc, Procs, find_unused, found, scan_children,
}
use operating_systems_ass.Proc.Wakeup.{Alive, Given, Kept}

-- The parent of each process can be one, and init lives.
pub record Kin (t : Procs) (initproc : ℕ) : Type 0 where
  pub init_listed : initproc < nproc
  pub init_alive : Alive (t initproc).state
  pub living : (i q : ℕ) → i < nproc → (t i).parent ≡ some q → (q < nproc) × Alive (t q).state

pub Kept-Alive : {parent : Option ℕ} {p q : Proc} → Given parent p q → Alive p.state → Alive q.state
Kept-Alive g a = elim g.same_state [ inl e ↦ subst Alive e a | inr both ↦ both.1 ]

pub Kin-Kept :
    (t u : Procs) (initproc : ℕ)
    → ((j : ℕ) → j < nproc → Kept (t j) (u j))
    → Kin t initproc
    → Kin u initproc
Kin-Kept t u initproc kept k = record {
  init_listed = k.init_listed;
  init_alive = Kept-Alive (kept initproc k.init_listed) k.init_alive;
  living = λ i q l e.
      let old = k.living i q l (sym (kept i l).new_parent ∙ e) in
      (old.0, Kept-Alive (kept q old.0) old.1);
}

pub update-Alive :
    (t : Procs) (i : ℕ) (p : Proc) (q : ℕ)
    → (Alive (t i).state → Alive p.state)
    → Alive (t q).state
    → Alive (update t i p q).state
update-Alive t i p q h a = elim (ℕ_discrete i q) [
  | yes e ↦
      subst (λ j. Alive (update t i p j).state) e
        (rw (update_self t i p) (h (subst (λ j. Alive (t j).state) (sym e) a)))
  | no d ↦ rw (update_ne t i q p d) a
]

-- A process is replaced by one whose parent lives, and that lives if it did.
pub Kin-put :
    (t : Procs) (initproc i : ℕ) (p : Proc)
    → ((q : ℕ) → p.parent ≡ some q → (q < nproc) × Alive (t q).state)
    → (Alive (t i).state → Alive p.state)
    → Kin t initproc
    → Kin (update t i p) initproc
Kin-put t initproc i p h a k = record {
  init_listed = k.init_listed;
  init_alive = update-Alive t i p initproc a k.init_alive;
  living = λ j q l e.
      let old : (q < nproc) × Alive (t q).state = elim (ℕ_discrete i j) [
        | yes same ↦ h q (
            ap (λ (r : Proc). r.parent) (sym (update_self t i p))
            ∙ (ap (λ j. (update t i p j).parent) same ∙ e))
        | no d ↦ k.living j q l (ap (λ (r : Proc). r.parent) (sym (update_ne t i j p d)) ∙ e)
      ] in
      (old.0, update-Alive t i p q a old.1);
}

-- Only the state changes, or other fields that do not matter.
pub Kin-state :
    (t : Procs) (initproc i : ℕ) (p : Proc)
    → i < nproc
    → p.parent ≡ (t i).parent
    → (Alive (t i).state → Alive p.state)
    → Kin t initproc
    → Kin (update t i p) initproc
Kin-state t initproc i p l e a k = Kin-put t initproc i p (λ q f. k.living i q l (sym e ∙ f)) a k

pub find_unused_lem :
    (n i j : ℕ) (t : Procs)
    → find_unused n i t ≡ some j
    → (i ≤ j) × (j < i + n) × (is_unused (t j).state ≡ true)
unfolding find_unused
find_unused_lem zero i j t e = absurd (cc e)
find_unused_lem (suc n) i j t e = ground (arith, find_unused_lem n (suc i) j t)

pub scan_children_lem :
    (n i me : ℕ) (kids : Bool) (t : Procs) (j : ℕ)
    → scan_children n i kids me t ≡ found j
    → (i ≤ j) × (j < i + n) × (is_zombie (t j).state ≡ true)
unfolding scan_children
scan_children_lem zero i me kids t j e = absurd (cc e)
scan_children_lem (suc n) i me kids t j e =
    ground (arith, scan_children_lem n (suc i) me kids t j, scan_children_lem n (suc i) me true t j)
