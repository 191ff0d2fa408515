-- ===== src/Tournament/Invariant.antt =====
-- What the processes of a tournament and the locks of its tree have in common.
use operating_systems_ass.Base.{
  ℕ, zero, suc, ◌+◌, ◌-◌, ◌≤◌, ◌<◌, ◌^◌, ◌≡◌, refl, ◌≢◌, ◌⊎◌, inl, inr, ◌∙◌, sym, ap, List, ℤ,
  arith, update, update_self, update_ne,
}
use mathlib.Core.Path.{subst, subst₂, ap₂}
use native.Mathlib.Decide.{ℕ_discrete}
use operating_systems_ass.Peterson.{Table, fresh_lock}
use operating_systems_ass.Peterson.Protocol.{
  Phase, out, flagged, waiting, inside, Rivals, Rivals-swap, Rivals-exclude, Move-Rivals,
  Move-Rivals_third, Move-active,
}
use operating_systems_ass.Tournament.{Pc}
use operating_systems_ass.Tournament.Tree.{
  max_levels, block, node, role, role-lt, block-suc, block-leaf, node_cong, node-injective, node-lt,
}
use operating_systems_ass.Tournament.Climb.{phase_at, Sane, engaged_holds, Moves, player_step-Moves}
use operating_systems_ass.Tournament.Run.{
  System, Step, move, elsewhere, IsInit, Reach, start, later,
}

out_cases : (p : Phase) → (p ≡ out) ⊎ (p ≢ out)
out_cases out = inl refl
out_cases flagged = inr (ground arith)
out_cases waiting = inr (ground arith)
out_cases inside = inr (ground arith)

module _ (levels : ℕ) (ids : List ℤ) (few : levels ≤ max_levels) (some_level : 0 < levels) where
  -- `p` and `q` compete for the lock of level `i`, from different sides.
  pub record Opposed (p q i : ℕ) : Type 0 where
    pub left : p < 2 ^ levels
    pub right : q < 2 ^ levels
    pub level : i < levels
    pub same_block : block levels ids few p i ≡ block levels ids few q i
    pub other_role : role levels ids few q i ≡ 1 - role levels ids few p i

  -- The rivals at a lock, in the table `t` with the processes at `pc`.
  abbrev pub RivalsAt : Table → (ℕ → Pc) → ℕ → ℕ → ℕ → Type 0
  RivalsAt t pc p q i =
      Rivals (t (node levels ids few p i)) (role levels ids few p i) (phase_at (pc p) i)
        (phase_at (pc q) i)

  pub record Inv (t : Table) (pc : ℕ → Pc) : Type 0 where
    pub in_use : (v : ℕ) → v + 1 < 2 ^ levels → (t v).active ≢ 0
    pub sane : (p : ℕ) → p < 2 ^ levels → Sane levels (pc p)
    pub rivals : (p q i : ℕ) → Opposed p q i → RivalsAt t pc p q i

  opposite :
      (p q i : ℕ)
      → p < 2 ^ levels
      → q < 2 ^ levels
      → i < levels
      → role levels ids few p i ≢ role levels ids few q i
      → role levels ids few q i ≡ 1 - role levels ids few p i
  opposite p q i hp hq hi ne =
      omega (arith, role-lt levels ids few p i hp hi, role-lt levels ids few q i hq hi)

  Opposed-sym : (p q i : ℕ) → Opposed p q i → Opposed q p i
  Opposed-sym p q i o = record {
    left = o.right;
    right = o.left;
    level = o.level;
    same_block = sym o.same_block;
    other_role = omega (arith, role-lt levels ids few p i o.left o.level, o.other_role);
  }

  RivalsAt-sym :
      (t : Table) (pc : ℕ → Pc) (p q i : ℕ)
      → Opposed p q i
      → RivalsAt t pc q p i
      → RivalsAt t pc p q i
  RivalsAt-sym t pc p q i o r =
      let back : 1 - role levels ids few q i ≡ role levels ids few p i =
        sym (Opposed-sym p q i o).other_role in
      subst₂ (λ v k. Rivals (t v) k (phase_at (pc p) i) (phase_at (pc q) i))
        (node_cong levels ids few q p i (sym o.same_block)) back
        (Rivals-swap _ _ _ _ (role-lt levels ids few q i o.right o.level) r)

  -- Processes that hold every lock of their paths down to one subtree are the same process.
  pub unique :
      (t : Table) (pc : ℕ → Pc)
      → Inv t pc
      → (h i p q : ℕ) → i + h ≡ levels
      → p < 2 ^ levels
      → q < 2 ^ levels
      → ((k : ℕ) → i ≤ k → k < levels → phase_at (pc p) k ≡ inside)
      → ((k : ℕ) → i ≤ k → k < levels → phase_at (pc q) k ≡ inside)
      → block levels ids few p i ≡ block levels ids few q i
      → p ≡ q
  unique t pc inv zero i p q e hp hq in_p in_q same =
      let top : i ≡ levels = omega arith in
      sym (block-leaf levels ids few p)
      ∙ (subst (λ k. block levels ids few p k ≡ block levels ids few q k) top same
          ∙ block-leaf levels ids few q)
  unique t pc inv (suc h) i p q e hp hq in_p in_q same =
      elim (ℕ_discrete (role levels ids few p i) (role levels ids few q i)) [
        | yes one ↦
            unique t pc inv h (suc i) p q (omega arith) hp hq (λ k a b. in_p k (omega arith) b)
              (λ k a b. in_q k (omega arith) b)
              (block-suc levels ids few p q i hp hq (omega arith) same one)
        | no two ↦ absurd (
            Rivals-exclude _ _ _ _ (role-lt levels ids few p i hp (omega arith))
              (inv.rivals p q i (record {
                left = hp;
                right = hq;
                level = omega arith;
                same_block = same;
                other_role = opposite p q i hp hq (omega arith) two;
              }))
              (in_p i (omega arith) (omega arith)) (in_q i (omega arith) (omega arith)))
      ]

  -- Process `m` goes from `pc m` to `c`, and the table from `t` to `u`.
  module _ (t : Table) (pc : ℕ → Pc) (inv : Inv t pc) (m : ℕ) (hm : m < 2 ^ levels) (c : Pc)
      (u : Table) (moves : Moves levels ids few some_level t m (pc m) (c, u)) where
    abbrev j : ℕ
    j = moves.0

    abbrev after : ℕ → Pc
    after = update pc m c

    open (moves.1) use {low, holds, others}

    -- A process other than `m` that `m` would displace at its level is out of that lock.
    displaced :
        (p : ℕ)
        → p < 2 ^ levels
        → p ≢ m
        → block levels ids few p j ≡ block levels ids few m j
        → role levels ids few p j ≡ role levels ids few m j
        → phase_at (pc p) j ≡ out
    displaced p hp ne same one = elim (out_cases (phase_at (pc p) j)) [
      | inl gone ↦ gone
      | inr engaged ↦ absurd (
          ne (
            unique t pc inv (levels - suc j) (suc j) p m (omega arith) hp hm
              (λ k a b. engaged_holds (pc p) j k engaged a) (λ k a b. holds k a b)
              (block-suc levels ids few p m j hp hm low same one)))
    ]

    stays : (p i : ℕ) → p ≢ m → phase_at (after p) i ≡ phase_at (pc p) i
    stays p i ne = ap (λ x. phase_at x i) (update_ne pc m p c (λ e. ne (sym e)))

    mover : (i : ℕ) → phase_at (after m) i ≡ phase_at c i
    mover i = ap (λ x. phase_at x i) (update_self pc m c)

    abbrev at_mover : ℕ
    at_mover = node levels ids few m j

    -- The mover against a rival at its own level.
    rival_mover : (q : ℕ) → q ≢ m → Opposed m q j → RivalsAt u after m q j
    rival_mover q ne o =
        rw (mover j, stays q j ne)
          (Move-Rivals (phase_at (pc q) j) (role-lt levels ids few m j hm low) moves.2.here
            (inv.rivals m q j o))

    -- Two rivals at the mover's lock, neither of them the mover, the first in the mover's role.
    rival_third :
        (p q : ℕ)
        → p ≢ m
        → q ≢ m
        → Opposed p q j
        → block levels ids few p j ≡ block levels ids few m j
        → role levels ids few p j ≡ role levels ids few m j
        → RivalsAt u after p q j
    rival_third p q np nq o same one =
        rw (stays p j np, stays q j nq, gone, node_cong levels ids few p m j same, one)
          (Move-Rivals_third (phase_at (pc q) j) (role-lt levels ids few m j hm low) moves.2.here
            before)
      where
        gone : phase_at (pc p) j ≡ out
        gone = displaced p o.left np same one

        before : Rivals (t at_mover) (role levels ids few m j) out (phase_at (pc q) j)
        before = rw (gone, node_cong levels ids few p m j same, one) at (inv.rivals p q j o)

    phase_elsewhere :
        (p i : ℕ)
        → p < 2 ^ levels
        → i < levels
        → node levels ids few p i ≢ at_mover
        → phase_at (after p) i ≡ phase_at (pc p) i
    phase_elsewhere p i hp hi ne = elim (ℕ_discrete p m) [
      | yes e ↦
          subst (λ x. phase_at (after x) i ≡ phase_at (pc x) i) (sym e)
            (mover i ∙ others i (λ d. ne (ap₂ (λ x k. node levels ids few x k) e d)) hi)
      | no other ↦ stays p i other
    ]

    -- At another lock nothing changes.
    rival_elsewhere :
        (p q i : ℕ) → Opposed p q i → node levels ids few p i ≢ at_mover → RivalsAt u after p q i
    rival_elsewhere p q i o ne =
        rw
          (
            phase_elsewhere p i o.left o.level ne,
            phase_elsewhere q i o.right o.level
                (λ e. ne (node_cong levels ids few p q i o.same_block ∙ e)),
            moves.2.elsewhere (node levels ids few p i) (λ e. ne (sym e)),
          )
          (inv.rivals p q i o)

    role_ne : (p q i : ℕ) → Opposed p q i → q ≢ p
    role_ne p q i o e = omega (
      arith,
      o.other_role,
      role-lt levels ids few p i o.left o.level,
      ap (λ x. role levels ids few x i) e,
    )

    -- At the mover's lock, with the first of the two in the mover's role.
    rival_same_role :
        (p q : ℕ)
        → Opposed p q j
        → block levels ids few p j ≡ block levels ids few m j
        → role levels ids few p j ≡ role levels ids few m j
        → q ≢ m
        → RivalsAt u after p q j
    rival_same_role p q o same one nq = elim (ℕ_discrete p m) [
      | yes e ↦
          subst (λ x. RivalsAt u after x q j) (sym e)
            (rival_mover q nq (subst (λ x. Opposed x q j) e o))
      | no np ↦ rival_third p q np nq o same one
    ]

    rival_here :
        (p q : ℕ)
        → Opposed p q j
        → block levels ids few p j ≡ block levels ids few m j
        → RivalsAt u after p q j
    rival_here p q o same = elim (ℕ_discrete (role levels ids few p j) (role levels ids few m j)) [
      | yes one ↦ rival_same_role p q o same one (first_ne one)
      | no two ↦ RivalsAt-sym u after p q j o (
          rival_same_role q p (Opposed-sym p q j o) (sym o.same_block ∙ same)
            (omega (
              arith,
              o.other_role,
              role-lt levels ids few m j hm low,
              role-lt levels ids few p j o.left o.level,
            ))
            (λ e. two (ap (λ x. role levels ids few x j) e)))
    ]
      where
        first_ne : role levels ids few p j ≡ role levels ids few m j → q ≢ m
        first_ne one e = omega (
          arith,
          o.other_role,
          role-lt levels ids few m j hm low,
          ap (λ x. role levels ids few x j) e,
        )

    rival_after : (p q i : ℕ) → Opposed p q i → RivalsAt u after p q i
    rival_after p q i o = elim (ℕ_discrete (node levels ids few p i) at_mover) [
      | yes e ↦
          let (level, same) = node-injective levels ids few p m i j o.left hm o.level low e in
          subst (λ k. RivalsAt u after p q k) (sym level)
            (rival_here p q (subst (λ k. Opposed p q k) level o)
              (subst (λ k. block levels ids few p k ≡ block levels ids few m j) level same))
      | no ne ↦ rival_elsewhere p q i o ne
    ]

    in_use_after : (v : ℕ) → v + 1 < 2 ^ levels → (u v).active ≢ 0
    in_use_after v hv = elim (ℕ_discrete at_mover v) [
      | yes e ↦
          subst (λ k. (u k).active ≢ 0) e
            (rw (Move-active moves.2.here)
              (inv.in_use at_mover (node-lt levels ids few m j hm low)))
      | no ne ↦ rw (moves.2.elsewhere v ne) (inv.in_use v hv)
    ]

    Sane-after : (p : ℕ) → p < 2 ^ levels → Sane levels (after p)
    Sane-after p hp = elim (ℕ_discrete m p) [
      | yes e ↦ subst (λ x. Sane levels (after x)) e (rw (update_self pc m c) (moves.1).sane)
      | no ne ↦ rw (update_ne pc m p c ne) (inv.sane p hp)
    ]

    Moves-Inv : Inv u after
    Moves-Inv = record { in_use = in_use_after; sane = Sane-after; rivals = rival_after }

  -- Every step of the system keeps the invariant.
  pub Step-Inv : {s w : System} → Step levels ids s w → Inv s.table s.pc → Inv w.table w.pc
  Step-Inv {s} (move p hp) inv =
      Moves-Inv s.table s.pc inv p hp _ _ (
        player_step-Moves levels ids few some_level s.table p hp inv.in_use (s.pc p)
          (inv.sane p hp))
  Step-Inv {s} (elsewhere t same) inv = record {
    in_use = λ v hv. rw (same v hv) (inv.in_use v hv);
    sane = inv.sane;
    rivals = λ p q i o.
        rw (same (node levels ids few p i) (node-lt levels ids few p i o.left o.level))
          (inv.rivals p q i o);
  }

  Init-Inv : {s : System} → IsInit levels ids s → Inv s.table s.pc
  Init-Inv {s} i = record {
    in_use = λ v hv. rw (i.fresh v hv) (omega arith);
    sane = λ p hp. rw (i.unused p) tt;
    rivals = λ p q k o.
        rw
          (
            i.fresh (node levels ids few p k) (node-lt levels ids few p k o.left o.level),
            i.unused p,
            i.unused q,
          )
          idle_rivals;
  }
    where
      idle_rivals : {r : ℕ} → Rivals fresh_lock r out out
      idle_rivals = record {
        in_range = omega arith;
        mine = omega arith;
        theirs = omega arith;
        first = λ e f. cc;
        second = λ e f. cc;
      }

  pub Reach-Inv : {s : System} → Reach levels ids s → Inv s.table s.pc
  Reach-Inv (start i) = Init-Inv i
  Reach-Inv (later r st) = Step-Inv st (Reach-Inv r)
