-- ===== src/Log/Space.antt =====
-- Log space: what begin_op reserves for each system call against what log_write takes.
use operating_systems_ass.Base.{
  ℕ, ◌+◌, ◌-◌, ◌*◌, ◌≤◌, ◌<◌, ◌≡◌, refl, ◌≢◌, inl, inr, ◌∙◌, sym, ap, Bool, true, false, List, [],
  ◌∷◌, ◌++◌, arith, length, All, Bool-cases, length-append,
}
use operating_systems_ass.Log.{
  max_op_blocks, log_size, Cache, Log, ok, panic, begin_op, end_op, finish_commit, log_write,
}

-- The log, and for each system call between begin_op and end_op how many blocks it may still add to
-- the log. A log_write of a block that is in the log adds none.
pub record Ops : Type 0 where
  pub log : Log
  pub shares : List ℕ

pub data Step : Ops → Ops → Type 0 where
  opens :
      {l l' : Log} {rs : List ℕ}
      → begin_op l ≡ ok l'
      → Step (record { log = l; shares = rs }) (record { log = l'; shares = max_op_blocks ∷ rs })
  writes :
      {l l' : Log} (c c' : Cache) (b k r : ℕ) (rs qs : List ℕ)
      → log_write b l c ≡ ok (l', c')
      → length l'.blocks ≡ length l.blocks + k
      → Step
          (record { log = l; shares = rs ++ ((k + r) ∷ qs) })
          (record { log = l'; shares = rs ++ (r ∷ qs) })
  closes :
      {l l' : Log} {last : Bool} (r : ℕ) (rs qs : List ℕ)
      → end_op l ≡ ok (l', last)
      → Step (record { log = l; shares = rs ++ (r ∷ qs) }) (record { log = l'; shares = rs ++ qs })
  commits :
      {l : Log} {rs : List ℕ} (c : Cache)
      → l.committing ≡ true
      → Step (record { log = l; shares = rs }) (record { log = (finish_commit l c).0; shares = rs })

pub data Reach (size start : ℕ) : Ops → Type 0 where
  boot : Reach size start (record {
    log = record { start = start; size = size; outstanding = 0; committing = false; blocks = [] };
    shares = [];
  })
  later : {s u : Ops} → Reach size start s → Step s u → Reach size start u

abbrev pub sum : List ℕ → ℕ
sum [] = 0
sum (x ∷ xs) = x + sum xs

sum-append : (xs ys : List ℕ) → sum (xs ++ ys) ≡ sum xs + sum ys
sum-append [] ys = omega arith
sum-append (x ∷ xs) ys = omega (arith, sum-append xs ys)

All-middle :
    (r r' : ℕ) (rs qs : List ℕ)
    → r' ≤ r
    → All (λ x. x ≤ max_op_blocks) (rs ++ (r ∷ qs))
    → All (λ x. x ≤ max_op_blocks) (rs ++ (r' ∷ qs))
All-middle r r' [] qs h a = (omega arith, a.1)
All-middle r r' (x ∷ rs) qs h a = (a.0, All-middle r r' rs qs h a.1)

All-drop :
    (r : ℕ) (rs qs : List ℕ)
    → All (λ x. x ≤ max_op_blocks) (rs ++ (r ∷ qs))
    → All (λ x. x ≤ max_op_blocks) (rs ++ qs)
All-drop r [] qs a = a.1
All-drop r (x ∷ rs) qs a = (a.0, All-drop r rs qs a.1)

sum-le : (rs : List ℕ) → All (λ x. x ≤ max_op_blocks) rs → sum rs ≤ length rs * max_op_blocks
sum-le [] a = omega arith
sum-le (r ∷ rs) a = omega (arith, sum-le rs a.1)

pub record Inv (size : ℕ) (s : Ops) : Type 0 where
  pub sized : s.log.size ≡ size
  pub counted : s.log.outstanding ≡ length s.shares
  pub shared : All (λ r. r ≤ max_op_blocks) s.shares
  pub room : length s.log.blocks + sum s.shares ≤ log_size
  pub quiet : s.log.committing ≡ true → s.log.outstanding ≡ 0

begin_lem :
    (l l' : Log)
    → begin_op l ≡ ok l'
    → (l'.size ≡ l.size)
      × (l'.outstanding ≡ l.outstanding + 1)
      × (l'.blocks ≡ l.blocks)
      × (l'.committing ≡ false)
      × (length l.blocks + (l.outstanding + 1) * max_op_blocks ≤ log_size)
unfolding begin_op
begin_lem l l' e = ground arith

end_lem :
    (l l' : Log) (last : Bool)
    → end_op l ≡ ok (l', last)
    → (l'.size ≡ l.size)
      × (l'.outstanding ≡ l.outstanding - 1)
      × (l'.blocks ≡ l.blocks)
      × (l'.committing ≡ true → l'.outstanding ≡ 0)
unfolding end_op
end_lem l l' last e = ground arith

write_lem :
    (b : ℕ) (l l' : Log) (c c' : Cache)
    → log_write b l c ≡ ok (l', c')
    → (l'.size ≡ l.size) × (l'.outstanding ≡ l.outstanding) × (l'.committing ≡ l.committing)
unfolding log_write
write_lem b l l' c c' e = ground arith

-- Every step keeps the reservation.
Step-Inv : {size : ℕ} {s u : Ops} → Step s u → Inv size s → Inv size u
unfolding finish_commit
Step-Inv (opens {l} {l'} {rs} e) i =
    let (size, count, same, open_, room) = begin_lem l l' e in
    record {
      sized = size ∙ i.sized;
      counted = omega (arith, count, i.counted);
      shared = (omega arith, i.shared);
      room =
          omega (arith, room, ap (λ (bs : List ℕ). length bs) same, sum-le rs i.shared, i.counted);
      quiet = λ h. cc (open_);
    }
Step-Inv (writes {l} {l'} c c' b k r rs qs e added) i =
    let (size, count, com') = write_lem b l l' c c' e in
    record {
      sized = size ∙ i.sized;
      counted =
          omega
            (arith, count, i.counted, length-append rs ((k + r) ∷ qs), length-append rs (r ∷ qs));
      shared = All-middle (k + r) r rs qs (omega arith) i.shared;
      room = omega (arith, added, i.room, sum-append rs ((k + r) ∷ qs), sum-append rs (r ∷ qs));
      quiet = λ h. count ∙ i.quiet (sym com' ∙ h);
    }
Step-Inv (closes {l} {l'} {last} r rs qs e) i =
    let (size, count, same, quiet) = end_lem l l' last e in
    record {
      sized = size ∙ i.sized;
      counted = omega (arith, count, i.counted, length-append rs (r ∷ qs), length-append rs qs);
      shared = All-drop r rs qs i.shared;
      room = omega (
        arith,
        ap (λ (bs : List ℕ). length bs) same,
        i.room,
        sum-append rs (r ∷ qs),
        sum-append rs qs,
      );
      quiet = quiet;
    }
Step-Inv (commits c e) i = record {
  sized = i.sized;
  counted = i.counted;
  shared = i.shared;
  room = omega (arith, i.room);
  quiet = λ h. cc;
}

Reach-Inv : {size start : ℕ} {s : Ops} → Reach size start s → Inv size s
Reach-Inv boot = record {
  sized = refl;
  counted = refl;
  shared = tt;
  room = omega arith;
  quiet = λ h. cc;
}
Reach-Inv (later r st) = Step-Inv st (Reach-Inv r)

log_write_fits :
    (b : ℕ) (l : Log) (c : Cache)
    → length l.blocks < log_size
    → length l.blocks + 1 < l.size
    → 0 < l.outstanding
    → log_write b l c ≢ panic
unfolding log_write
log_write_fits b l c h k o = ground arith

end_op_fits : (l : Log) → l.committing ≡ false → end_op l ≢ panic
unfolding end_op
end_op_fits l h = ground arith

-- On a log with more blocks than LOGSIZE, in every reachable state, where a system call is charged for
-- each block that a log_write of its adds to the log: a call that has added fewer than
-- MAXOPBLOCKS blocks can call log_write for any block without a panic, and every call, also one
-- that has added all of them, can call end_op without a panic.
pub within_share :
    {size start : ℕ} {s : Ops} (r : ℕ) (rs qs : List ℕ)
    → log_size < size
    → Reach size start s
    → s.shares ≡ rs ++ (r ∷ qs)
    → (0 < r → (b : ℕ) (c : Cache) → log_write b s.log c ≢ panic) × (end_op s.log ≢ panic)
within_share {size} {s = s} r rs qs big reach e = (
  λ left b c.
      log_write_fits b s.log c (omega (arith, i.room, total, sum-append rs (r ∷ qs)))
        (omega (arith, i.room, total, sum-append rs (r ∷ qs), i.sized))
        (omega (arith, i.counted, many, length-append rs (r ∷ qs))),
  end_op_fits s.log (elim (Bool-cases s.log.committing) [
    | inl busy ↦ absurd (omega (arith, i.quiet busy, i.counted, many, length-append rs (r ∷ qs)))
    | inr idle ↦ idle
  ]),
)
  where
    i : Inv size s
    i = Reach-Inv reach

    total : sum s.shares ≡ sum (rs ++ (r ∷ qs))
    total = ap sum e

    many : length s.shares ≡ length (rs ++ (r ∷ qs))
    many = ap (λ (xs : List ℕ). length xs) e
