-- ===== src/Peterson/Pair/Invariant.antt =====
-- What the two processes and their lock have in common, in every reachable state.
use operating_systems_ass.Base.{ℕ, zero, suc, ◌-◌, ◌<◌, ◌≡◌, refl, ◌≢◌, pos, negsuc, arith, ◌∙◌}
use operating_systems_ass.Peterson.{
  PetersonLock, Table, max_peterson_locks, Next, goto, ret, fault, AcquirePc, ReleasePc,
  acquire_step, release_step,
}
use operating_systems_ass.Peterson.Protocol.{
  Phase, out, Move, stay, raise, give_turn, pass_flag, pass_turn, lower, acquire_phase,
  acquire_next, release_next, Runs, At, Rivals, Rivals-swap, Move-Rivals, Move-active,
  acquire_step-At, release_step-At,
}
use operating_systems_ass.Peterson.Pair.{
  Client, idle, acquiring, inside, releasing, stopped, after_acquire, after_release, client_step,
  System, turn_of, Step, move, elsewhere, Reach, start, later,
}

abbrev pub phase : Client → Phase
phase idle = out
phase (acquiring p) = acquire_phase p
phase inside = Phase.inside
phase (releasing p) = Phase.inside
phase stopped = out

-- A step of a process on an active lock is a move of the protocol, and stops nobody.
pub client_step-At :
    (t : Table) (v r : ℕ)
    → v < max_peterson_locks
    → (t v).active ≢ 0
    → r < 2
    → (c : Client) → c ≢ stopped
    → let (c', t') = client_step (pos v) (pos r) c t in
      At t v r (phase c) t' (phase c') × (c' ≢ stopped)
unfolding client_step
client_step-At t v r hv a hr idle h =
    (record { here = stay; elsewhere = λ u ne. refl }, ground arith)
client_step-At t v r hv a hr (acquiring p) h = acquired (acquire_step-At t v r hv a hr p)
  where
    acquired :
        (n : Next AcquirePc) × (t' : Table) × (acquire_step (pos v) (pos r) p t ≡ (n, t'))
          × At t v r (acquire_phase p) t' (acquire_next n)
          × Runs n
        → At t v r
            (acquire_phase p)
            (acquire_step (pos v) (pos r) p t).1
            (phase (after_acquire (acquire_step (pos v) (pos r) p t).0))
          × (after_acquire (acquire_step (pos v) (pos r) p t).0 ≢ stopped)
    acquired (goto p', t', e, at, runs) = rw e (at, ground arith)
    acquired (ret (pos k), t', e, at, runs) = rw e (at, ground arith)
    acquired (ret (negsuc k), t', e, at, runs) = cc
    acquired (fault, t', e, at, runs) = absurd runs
client_step-At t v r hv a hr inside h =
    (record { here = stay; elsewhere = λ u ne. refl }, ground arith)
client_step-At t v r hv a hr (releasing p) h = released (release_step-At t v r hv a hr p)
  where
    released :
        (n : Next ReleasePc) × (t' : Table) × (release_step (pos v) (pos r) p t ≡ (n, t'))
          × At t v r Phase.inside t' (release_next n)
          × Runs n
        → At t v r Phase.inside
            (release_step (pos v) (pos r) p t).1
            (phase (after_release (release_step (pos v) (pos r) p t).0))
          × (after_release (release_step (pos v) (pos r) p t).0 ≢ stopped)
    released (goto p', t', e, at, runs) = rw e (at, ground arith)
    released (ret (pos k), t', e, at, runs) = rw e (at, ground arith)
    released (ret (negsuc k), t', e, at, runs) = cc
    released (fault, t', e, at, runs) = absurd runs
client_step-At t v r hv a hr stopped h = absurd (h refl)

-- The lock `l` with the process in role `r` at `c` and the other at `d`.
pub record Inv (l : PetersonLock) (r : ℕ) (c d : Client) : Type 0 where
  pub in_use : l.active ≢ 0
  pub rivals : Rivals l r (phase c) (phase d)
  pub flag_down : phase c ≡ out → l.flag r ≡ 0
  pub other_down : phase d ≡ out → l.flag (1 - r) ≡ 0
  pub running : c ≢ stopped
  pub other_running : d ≢ stopped

abbrev pub Holds : ℕ → System → Type 0
Holds v s = Inv (s.table v) 0 (s.client 0) (s.client 1)

Inv-swap : (l : PetersonLock) (r : ℕ) (c d : Client) → r < 2 → Inv l r c d → Inv l (1 - r) d c
Inv-swap l r c d hr i =
    let e : 1 - (1 - r) ≡ r = omega arith in
    record {
      in_use = i.in_use;
      rivals = Rivals-swap l r (phase c) (phase d) hr i.rivals;
      flag_down = i.other_down;
      other_down = rw e i.flag_down;
      running = i.other_running;
      other_running = i.running;
    }

-- The flag of a process is up just while it is engaged.
Move-down :
    {l : PetersonLock} {r : ℕ} {l' : PetersonLock} {p p' : Phase}
    → r < 2
    → Move l r p l' p'
    → (p ≡ out → l.flag r ≡ 0)
    → (p' ≡ out → l'.flag r ≡ 0) × (l'.flag (1 - r) ≡ l.flag (1 - r))
Move-down hr raise h = (λ e. cc, ground arith)
Move-down hr give_turn h = (λ e. cc, refl)
Move-down hr (pass_flag g) h = (λ e. cc, refl)
Move-down hr (pass_turn g) h = (λ e. cc, refl)
Move-down hr lower h = (λ e. ground arith, ground arith)
Move-down hr stay h = (h, refl)

-- A step of one of the two keeps the invariant.
pub client_step-Inv :
    (t : Table) (v r : ℕ) (c d : Client)
    → v < max_peterson_locks
    → r < 2
    → Inv (t v) r c d
    → let (c', t') = client_step (pos v) (pos r) c t in Inv (t' v) r c' d
client_step-Inv t v r c d hv hr i =
    let (at, runs) = client_step-At t v r hv i.in_use hr c i.running in
    let (down, same) = Move-down hr at.here i.flag_down in
    record {
      in_use = rw (Move-active at.here) i.in_use;
      rivals = Move-Rivals (phase d) hr at.here i.rivals;
      flag_down = down;
      other_down = λ e. same ∙ i.other_down e;
      running = runs;
      other_running = i.other_running;
    }

turn_of-Holds :
    (v r : ℕ) (s : System) → v < max_peterson_locks → r < 2 → Holds v s → Holds v (turn_of v r s)
turn_of-Holds v zero s hv hr i = client_step-Inv s.table v 0 (s.client 0) (s.client 1) hv hr i
turn_of-Holds v (suc zero) s hv hr i =
    Inv-swap _ 1 _ _ (omega arith) (
      client_step-Inv s.table v 1 (s.client 1) (s.client 0) hv hr
        (Inv-swap _ 0 _ _ (omega arith) i))
turn_of-Holds v (suc (suc r)) s hv hr i = absurd (omega arith)

pub Step-Holds :
    {v : ℕ} {s u : System} → v < max_peterson_locks → Step v s u → Holds v s → Holds v u
Step-Holds {v} {s} hv (move r hr) i = turn_of-Holds v r s hv hr i
Step-Holds hv (elsewhere t e) i = rw e i

pub Reach-Holds : {v : ℕ} {s : System} → v < max_peterson_locks → Reach v s → Holds v s
Reach-Holds {v} {s} hv (start i) =
    rw (i.fresh, i.unused 0, i.unused 1)
      (record {
        in_use = omega arith;
        rivals = record {
          in_range = omega arith;
          mine = omega arith;
          theirs = omega arith;
          first = λ e f. cc;
          second = λ e f. cc;
        };
        flag_down = λ e. refl;
        other_down = λ e. refl;
        running = ground arith;
        other_running = ground arith;
      })
Reach-Holds hv (later r st) = Step-Holds hv st (Reach-Holds hv r)

-- The same, seen from either role.
pub Reach-Inv :
    {v : ℕ} {s : System} (r : ℕ)
    → v < max_peterson_locks
    → r < 2
    → Reach v s
    → Inv (s.table v) r (s.client r) (s.client (1 - r))
Reach-Inv zero hv hr reach = Reach-Holds hv reach
Reach-Inv (suc zero) hv hr reach = Inv-swap _ 0 _ _ (omega arith) (Reach-Holds hv reach)
Reach-Inv (suc (suc r)) hv hr reach = absurd (omega arith)
