-- ===== src/Proc/Wakeup.antt =====
-- What wakeup and reparent do to each process of the table.
use operating_systems_ass.Base.{
  ℕ, zero, suc, ◌+◌, ◌≤◌, ◌<◌, ◌≡◌, refl, ◌≢◌, ◌⊎◌, ◌∙◌, sym, ap, Bool, true, false, not, ◌&&◌,
  Option, none, some, arith, inl, inr, ◌==◌, if◌then◌else◌, update, update_self, update_ne,
  Bool-cases,
}
use mathlib.Core.Path.{subst}
use native.Mathlib.Decide.{ℕ_discrete}
use operating_systems_ass.Proc.{
  nproc, ProcState, unused, used, sleeping, runnable, running, zombie, is_unused, is_sleeping,
  is_zombie, Chan, of_proc, same_chan, Proc, Procs, wake_from, wakeup, is_child, adopt,
  reparent_from, reparent,
}

-- What wakeup on `chan` by `me` makes of process `j`.
abbrev pub woken : ℕ → Chan → ℕ → Proc → Proc
woken me chan j p =
    if not (j == me) && is_sleeping p.state && same_chan p.chan chan
    then record p { state = runnable }
    else p

wake_from_lem :
    (n i me : ℕ) (chan : Chan) (t : Procs) (j : ℕ)
    → (j < i → wake_from n i me chan t j ≡ t j)
      × (i ≤ j → j < i + n → wake_from n i me chan t j ≡ woken me chan j (t j))
unfolding wake_from
wake_from_lem zero i me chan t j = (λ h. refl, λ h l. absurd (omega arith))
wake_from_lem (suc n) i me chan t j = (
  λ h. (wake_from_lem n (suc i) me chan next j).0 (omega arith) ∙ other (omega arith),
  λ h l. elim (ℕ_discrete i j) [
    | yes e ↦ (wake_from_lem n (suc i) me chan next j).0 (omega arith) ∙ here e
    | no d ↦
        (wake_from_lem n (suc i) me chan next j).1 (omega arith) (omega arith)
        ∙ ap (woken me chan j) (other d)
  ],
)
  where
    wakes : Bool
    wakes = not (i == me) && is_sleeping (t i).state && same_chan (t i).chan chan

    next : Procs
    next = if wakes then update t i (record (t i) { state = runnable }) else t

    other : i ≢ j → next j ≡ t j
    other d = elim (Bool-cases wakes) [ inl w ↦ rw w (update_ne t i j _ d) | inr w ↦ rw w refl ]

    at_i : next i ≡ woken me chan i (t i)
    at_i = elim (Bool-cases wakes) [ inl w ↦ rw w (update_self t i _) | inr w ↦ rw w refl ]

    here : i ≡ j → next j ≡ woken me chan j (t j)
    here e = rw (sym e) at_i

-- Waking is exact: the sleepers on the channel become runnable, but for the caller, and no other
-- process changes.
pub wakeup_lem :
    (me : ℕ) (chan : Chan) (t : Procs) (j : ℕ)
    → j < nproc
    → wakeup me chan t j ≡ woken me chan j (t j)
unfolding wakeup
wakeup_lem me chan t j h = (wake_from_lem nproc 0 me chan t j).1 (omega arith) (omega arith)

-- A process that can be a parent.
abbrev pub Alive : ProcState → Type 0
Alive s = (is_unused s ≡ false) × (is_zombie s ≡ false)

-- Process `q` is `p` with the parent `parent`, but for a state that stays alive.
pub record Given (parent : Option ℕ) (p q : Proc) : Type 0 where
  pub new_parent : q.parent ≡ parent
  pub same_pid : q.pid ≡ p.pid
  pub same_state : (p.state ≡ q.state) ⊎ (Alive p.state × Alive q.state)

abbrev pub Kept : Proc → Proc → Type 0
Kept p q = Given p.parent p q

pub Kept-refl : (p : Proc) → Kept p p
Kept-refl p = record { new_parent = refl; same_pid = refl; same_state = inl refl }

woken-Kept : (me : ℕ) (chan : Chan) (j : ℕ) (p : Proc) → Kept p (woken me chan j p)
woken-Kept me chan j p =
    elim (Bool-cases (not (j == me) && is_sleeping p.state && same_chan p.chan chan)) [
      | inl w ↦ rw w (record {
        new_parent = refl;
        same_pid = refl;
        same_state = inr (sleeper p.state (ground (arith, w)), (refl, refl));
      })
      | inr w ↦ rw w (Kept-refl p)
    ]
  where
    sleeper : (s : ProcState) → is_sleeping s ≡ true → Alive s
    sleeper sleeping e = (refl, refl)
    sleeper unused e = absurd (cc e)
    sleeper used e = (refl, refl)
    sleeper runnable e = (refl, refl)
    sleeper running e = (refl, refl)
    sleeper zombie e = absurd (cc e)

pub wakeup-Kept :
    (me : ℕ) (chan : Chan) (t : Procs) (j : ℕ) → j < nproc → Kept (t j) (wakeup me chan t j)
wakeup-Kept me chan t j h = rw (wakeup_lem me chan t j h) (woken-Kept me chan j (t j))

pub Given-trans :
    {parent parent' : Option ℕ} {p q r : Proc}
    → Given parent p q
    → Given parent' q r
    → Given parent' p r
Given-trans g h = record {
  new_parent = h.new_parent;
  same_pid = h.same_pid ∙ g.same_pid;
  same_state = elim g.same_state [
    | inl e ↦ elim h.same_state [ inl f ↦ inl (e ∙ f) | inr both ↦ inr (rw e both.0, both.1) ]
    | inr both ↦ elim h.same_state [
      | inl f ↦ inr (both.0, rw (sym f) both.1)
      | inr later ↦ inr (both.0, later.1)
    ]
  ];
}

pub Given-parent :
    {parent parent' : Option ℕ} {p q : Proc}
    → parent ≡ parent'
    → Given parent p q
    → Given parent' p q
Given-parent e g = record {
  new_parent = g.new_parent ∙ e;
  same_pid = g.same_pid;
  same_state = g.same_state;
}

-- The parent that reparent leaves a process whose parent was `parent`.
abbrev pub heir : ℕ → ℕ → Option ℕ → Option ℕ
heir initproc me parent =
    if elim parent [ none ↦ false | some q ↦ q == me ] then some initproc else parent

module _ (initproc me : ℕ) where
  adopt-other :
      (i : ℕ) (t : Procs) (j : ℕ) → j < nproc → i ≢ j → Kept (t j) (adopt initproc me i t j)
  unfolding adopt
  adopt-other i t j h d = elim (Bool-cases (is_child (t i) me)) [
    | inl c ↦
        let u = update t i (record (t i) { parent = some initproc }) in
        let same : u j ≡ t j = update_ne t i j _ d in
        rw c (
          subst (λ p. Kept p (wakeup me (of_proc initproc) u j)) same
            (wakeup-Kept me (of_proc initproc) u j h))
    | inr c ↦ rw c (Kept-refl (t j))
  ]

  adopt-Given :
      (i : ℕ) (t : Procs)
      → i < nproc
      → Given (heir initproc me (t i).parent) (t i) (adopt initproc me i t i)
  unfolding adopt
  adopt-Given i t h = elim (Bool-cases (is_child (t i) me)) [
    | inl c ↦
        let p = record (t i) { parent = some initproc } in
        let u = update t i p in
        let same : u i ≡ p = update_self t i p in
        let kept =
          subst (λ p. Kept p (wakeup me (of_proc initproc) u i)) same
            (wakeup-Kept me (of_proc initproc) u i h) in
        rw c (record {
          new_parent = kept.new_parent;
          same_pid = kept.same_pid;
          same_state = kept.same_state;
        })
    | inr c ↦ rw c (Kept-refl (t i))
  ]

  reparent_from-Given :
      (n i : ℕ) (t : Procs) (j : ℕ)
      → j < nproc
      → (j < i → Kept (t j) (reparent_from n i initproc me t j))
        × (i ≤ j
            → j < i + n
            → Given (heir initproc me (t j).parent) (t j) (reparent_from n i initproc me t j))
  unfolding reparent_from
  reparent_from-Given zero i t j h = (λ l. Kept-refl (t j), λ l m. absurd (omega arith))
  reparent_from-Given (suc n) i t j h =
      let next = adopt initproc me i t in
      let rest = reparent_from-Given n (suc i) next j h in
      (
        λ l.
            let other = adopt-other i t j h (omega arith) in
            Given-parent other.new_parent (Given-trans other (rest.0 (omega arith))),
        λ l m. elim (ℕ_discrete i j) [
          | yes e ↦
              let given = adopt-Given i t (omega arith) in
              let later = (reparent_from-Given n (suc i) next i (omega arith)).0 (omega arith) in
              subst
                (λ k.
                  Given (heir initproc me (t k).parent) (t k)
                    (reparent_from n (suc i) initproc me next k))
                e (Given-parent given.new_parent (Given-trans given later))
          | no d ↦
              let other = adopt-other i t j h d in
              Given-parent (ap (heir initproc me) other.new_parent)
                (Given-trans other (rest.1 (omega arith) (omega arith)))
        ],
      )

  pub reparent-Given :
      (t : Procs) (j : ℕ)
      → j < nproc
      → Given (heir initproc me (t j).parent) (t j) (reparent initproc me t j)
  unfolding reparent
  reparent-Given t j h = (reparent_from-Given nproc 0 t j h).1 (omega arith) (omega arith)
