-- ===== src/Pipe/Transfer.antt =====
-- What pipewrite puts into the queue, and what piperead takes out of it.
use operating_systems_ass.Base.{
  ℕ, zero, suc, ◌+◌, ◌-◌, ◌≤◌, ◌<◌, ◌≡◌, refl, ◌⊎◌, ◌∙◌, sym, ap, Bool, true, false, not, ◌||◌,
  Option, none, some, List, [], ◌∷◌, ◌++◌, pos, minus_one, arith, length, min, Bool-cases,
  Option-cases, inl, inr, if◌then◌else◌, ◌&&◌,
}
use mathlib.Core.Path.{subst}
use native.Mathlib.Decide.{ℕ_discrete}
use mathlib.Core.List.{append_assoc, append-nil}
use operating_systems_ass.Pipe.{
  Pipe, pipe_size, is_full, is_empty, put, take, Exit, done, sleeping, pipewrite, pipewrite_loop,
  piperead_copy, piperead,
}
use operating_systems_ass.Pipe.Ring.{
  IsValid, held, queue, queue-put, queue-take, held-lt, held_full, held_empty,
}

-- The bytes that copyin gave for the indices `i` to `i + n - 1`.
pub data Copied (user : ℕ → Option ℕ) : ℕ → ℕ → List ℕ → Type 0 where
  nothing : {i : ℕ} → Copied user i i []
  byte :
      {i j ch : ℕ} {bs : List ℕ}
      → user i ≡ some ch
      → Copied user (suc i) j bs
      → Copied user i j (ch ∷ bs)

-- No reader is left, or the process was killed.
abbrev pub is_refused : Bool → Pipe → Bool
is_refused killed p = not p.readopen || killed

-- Why pipewrite stops at `j` of `n` bytes; one of these is the case at most.
abbrev pub Stops : (user : ℕ → Option ℕ) → Bool → ℕ → ℕ → Pipe → Exit → Type 0
Stops user killed n j p (sleeping i) =
    (i ≡ j) × (j < n) × (is_refused killed p ≡ false) × (held p ≡ pipe_size)
Stops user killed n j p (done c) =
    ((c ≡ pos n) × (j ≡ n))
    ⊎ ((c ≡ minus_one) × (j < n) × (is_refused killed p ≡ true))
    ⊎ ((c ≡ pos j)
        × (j < n)
        × (is_refused killed p ≡ false)
        × (held p < pipe_size)
        × (user j ≡ none))

pub record Wrote (user : ℕ → Option ℕ) (killed : Bool) (n i : ℕ) (p : Pipe) (out : Exit × Pipe)
    : Type 0 where
  pub valid : IsValid out.1
  pub reached : ℕ
  pub bytes : List ℕ
  pub copied : Copied user i reached bytes
  pub appended : queue out.1 ≡ queue p ++ bytes
  pub why : Stops user killed n reached out.1 out.0
  pub refused : i < n → is_refused killed p ≡ true → out ≡ (done minus_one, p)

pipewrite_loop-Wrote :
    (user : ℕ → Option ℕ) (killed : Bool) (k i : ℕ) (p : Pipe)
    → IsValid p
    → Wrote user killed (i + k) i p (pipewrite_loop user killed k i p)
unfolding pipewrite_loop
pipewrite_loop-Wrote user killed zero i p v = record {
  valid = v;
  reached = i;
  bytes = [];
  copied = nothing;
  appended = sym (append-nil (queue p));
  why = inl (ap pos (omega arith), omega arith);
  refused = λ l. absurd (omega (arith, l));
}
pipewrite_loop-Wrote user killed (suc k) i p v = elim (Bool-cases (not p.readopen || killed)) [
  | inl stop ↦ rw stop (record {
    valid = v;
    reached = i;
    bytes = [];
    copied = nothing;
    appended = sym (append-nil (queue p));
    why = inr (inl (refl, omega arith, stop));
    refused = λ _ _. refl;
  })
  | inr go ↦ elim (Bool-cases (is_full p)) [
    | inl full ↦
        rw (go, full)
          (record {
            valid = v;
            reached = i;
            bytes = [];
            copied = nothing;
            appended = sym (append-nil (queue p));
            why = (refl, omega arith, go, held_full p v full);
            refused = λ _ r. absurd (cc (r, go));
          })
    | inr room ↦ elim (Option-cases (user i)) [
      | inl bad ↦
          rw (go, room, bad)
            (record {
              valid = v;
              reached = i;
              bytes = [];
              copied = nothing;
              appended = sym (append-nil (queue p));
              why = inr (inr (refl, omega arith, go, held-lt p v room, bad));
              refused = λ _ r. absurd (cc (r, go));
            })
      | inr (ch, good) ↦
          let (v', added, more) = queue-put p ch v (held-lt p v room) in
          let rest = pipewrite_loop-Wrote user killed k (suc i) (put p ch) v' in
          rw (go, room, good)
            (record {
              valid = rest.valid;
              reached = rest.reached;
              bytes = ch ∷ rest.bytes;
              copied = byte good rest.copied;
              appended =
                  rest.appended
                  ∙ (ap (λ q. q ++ rest.bytes) added ∙ append_assoc (queue p) (ch ∷ []) rest.bytes);
              why =
                  subst
                    (λ m.
                      Stops user killed m rest.reached
                        (pipewrite_loop user killed k (suc i) (put p ch)).1
                        (pipewrite_loop user killed k (suc i) (put p ch)).0)
                    (omega arith) rest.why;
              refused = λ _ r. absurd (cc (r, go));
            })
    ]
  ]
]

-- A call of pipewrite with `n` bytes that goes on at byte `i` appends to the queue, in order, the
-- bytes that it copies in, drops none that were there, and keeps the ring within its 512 bytes. If
-- no reader is left or the process was killed, and a byte is to be written, it returns -1 and changes
-- nothing. Otherwise it stops at byte `n` with the return value n; or, before that, asleep on a full
-- ring; or with the count so far where copyin fails on a ring with room.
pub pipewrite-Wrote :
    (user : ℕ → Option ℕ) (killed : Bool) (n i : ℕ) (p : Pipe)
    → i ≤ n
    → IsValid p
    → Wrote user killed n i p (pipewrite user killed n i p)
unfolding pipewrite
pipewrite-Wrote user killed n i p h v =
    subst (λ m. Wrote user killed m i p (pipewrite_loop user killed (n - i) i p)) (omega arith)
      (pipewrite_loop-Wrote user killed (n - i) i p v)

-- What the copying loop of piperead takes: the bytes `out`, which copyout accepted, from byte `i` on, and
-- the one that it did not accept, if one was not.
abbrev pub Takes : (accepts : ℕ → Bool) → (k i : ℕ) → Pipe → List ℕ × ℕ × Pipe → Type 0
Takes accepts k i p (out, j, p') =
    (lost : List ℕ) × (queue p ≡ out ++ (lost ++ queue p'))
    × (j ≡ i + length out)
    × ((h : ℕ) → i ≤ h → h < j → accepts h ≡ true)
    × (((lost ≡ []) × (length out ≡ min k (held p)))
        ⊎ ((length lost ≡ 1) × (length out < min k (held p)) × (accepts j ≡ false)))
    × IsValid p'

piperead_copy-Takes :
    (accepts : ℕ → Bool) (k i : ℕ) (p : Pipe)
    → IsValid p
    → Takes accepts k i p (piperead_copy accepts k i p)
unfolding piperead_copy
piperead_copy-Takes accepts zero i p v =
    ([], refl, omega arith, λ h l m. absurd (omega (arith, l, m)), inl (refl, omega arith), v)
piperead_copy-Takes accepts (suc k) i p v = elim (Bool-cases (is_empty p)) [
  | inl empty ↦ rw empty (
    [],
    refl,
    omega arith,
    λ h l m. absurd (omega (arith, l, m)),
    inl (refl, omega (arith, held_empty p v empty)),
    v,
  )
  | inr some_left ↦
      let (v', first, less) = queue-take p v some_left in
      elim (Bool-cases (accepts i)) [
        | inr no_copy ↦
            rw (some_left, no_copy)
              (
                (take p).0 ∷ [],
                first,
                omega arith,
                λ h l m. absurd (omega (arith, l, m)),
                inr (refl, omega (arith, less), no_copy),
                v',
              )
        | inl yes_copy ↦
            let rest = piperead_copy-Takes accepts k (suc i) (take p).1 v' in
            rw (some_left, yes_copy)
              (
                rest.0,
                first ∙ ap (λ q. (take p).0 ∷ q) rest.1,
                omega (arith, rest.2),
                λ h l m. elim (ℕ_discrete i h) [
                  | yes e ↦ subst (λ h. accepts h ≡ true) e yes_copy
                  | no d ↦ rest.3 h (omega arith) m
                ],
                elim rest.4 [
                  | inl all ↦ inl (all.0, omega (arith, all.1, less))
                  | inr cut ↦ inr (cut.0, omega (arith, cut.1, less), cut.2)
                ],
                rest.5,
              )
      ]
]

-- On an empty pipe with a writer left, piperead sleeps, or returns -1 if the process was killed, and
-- both leave the pipe alone. Otherwise it takes bytes from the front of the queue, in order, and
-- returns the number of those that copyout accepted, which are the bytes that it hands out: as many
-- as are there up to `n`; or fewer, where copyout does not accept the next one, which is then
-- taken from the queue and lost.
pub piperead_lem :
    (accepts : ℕ → Bool) (killed : Bool) (n : ℕ) (p : Pipe)
    → IsValid p
    → let (exit, out, p') = piperead accepts killed n p in
      (if is_empty p && p.writeopen
        then (exit ≡ (if killed then done minus_one else sleeping 0)) × (out ≡ []) × (p' ≡ p)
        else (j : ℕ) × (exit ≡ done (pos j)) × Takes accepts n 0 p (out, j, p'))
unfolding piperead
piperead_lem accepts killed n p v = elim (Bool-cases (is_empty p && p.writeopen)) [
  | inl wait ↦ rw wait (refl, refl, refl)
  | inr go ↦ rw go (_, refl, piperead_copy-Takes accepts n 0 p v)
]
