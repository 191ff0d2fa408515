-- ===== src/Grep/Lines.antt =====
-- The lines that grep writes, however its input is cut into reads.
use operating_systems_ass.Base.{
  ℕ, zero, suc, ◌-◌, ◌<◌, min, ◌≡◌, refl, ◌∙◌, ◌≢◌, ap, sym, All, All-append_one, List, [], ◌∷◌,
  ◌++◌, arith, ◌==◌, ==_ne, ==_iff, if◌then◌else◌, Bool-cases, inl, inr, length, length-append,
  take, drop, Option, some,
}
use mathlib.Core.Path.{subst}
use mathlib.Core.List.{append_assoc, append-nil}
use operating_systems_ass.Grep.{Text, match, scan, grep, grep_read, buf_size}

-- A byte that is neither 0 nor a newline
abbrev IsPlain : ℕ → Type 0
IsPlain c = (c ≢ 0) × (c ≢ 10)

-- Behind `n` bytes of a line: the text has no byte 0, and no line of it has more than 1022 bytes that
-- something follows, so the buffer has room for every one of its bytes.
abbrev pub Fits : ℕ → Text → Type 0
Fits n [] = Unit
Fits n (c ∷ text) = (c ≢ 0) × (n < buf_size - 1) × Fits (if c == 10 then 0 else suc n) text

-- A buffer in two parts is scanned as the first, and then the second after what the first leaves.
scan-append :
    (re line a b : Text)
    → All (λ c. c ≢ 0) a
    → scan re line (a ++ b)
      ≡ ((scan re line a).0 ++ (scan re (scan re line a).1 b).0, (scan re (scan re line a).1 b).1)
unfolding scan
scan-append re line [] b z = refl
scan-append re line (c ∷ a) b z = elim (Bool-cases (c == 10)) [
  | inl end ↦ rw (==_ne c 0 z.0, end, scan-append re [] a b z.1) (simp append_assoc)
  | inr on ↦ rw (==_ne c 0 z.0, on) (scan-append re (line ++ (c ∷ [])) a b z.1)
]

scan-IsPlain : (re line left : Text) → All IsPlain left → scan re line left ≡ ([], line ++ left)
unfolding scan
scan-IsPlain re line [] u = simp append-nil
scan-IsPlain re line (c ∷ left) u =
    rw (==_ne c 0 u.0.0, ==_ne c 10 u.0.1, scan-IsPlain re (line ++ (c ∷ [])) left u.1)
      (simp append_assoc)

All-IsPlain : (left : Text) → All IsPlain left → All (λ c. c ≢ 0) left
All-IsPlain [] u = tt
All-IsPlain (c ∷ left) u = (u.0.0, All-IsPlain left u.1)

resume : (re left a : Text) → All IsPlain left → scan re [] (left ++ a) ≡ scan re left a
resume re left a u =
    scan-append re [] left a (All-IsPlain left u) ∙ rw (scan-IsPlain re [] left u) refl

-- What is left of a part of the input is a piece of a line, behind which the rest fits.
left-Fits :
    (re line a b : Text)
    → All IsPlain line
    → Fits (length line) (a ++ b)
    → All (λ c. c ≢ 0) a × All IsPlain (scan re line a).1 × Fits (length (scan re line a).1) b
unfolding scan
left-Fits re line [] b u f = (tt, u, f)
left-Fits re line (c ∷ a) b u f = elim (Bool-cases (c == 10)) [
  | inl end ↦
      let f' : Fits 0 (a ++ b) =
        subst (λ e. Fits (if e then 0 else suc (length line)) (a ++ b)) end f.2 in
      let rest = left-Fits re [] a b tt f' in
      ((f.0, rest.0), rw (==_ne c 0 f.0, end) rest.1, rw (==_ne c 0 f.0, end) rest.2)
  | inr on ↦
      let more : length (line ++ (c ∷ [])) ≡ suc (length line) =
        omega (arith, length-append line (c ∷ [])) in
      let f' : Fits (suc (length line)) (a ++ b) =
        subst (λ e. Fits (if e then 0 else suc (length line)) (a ++ b)) on f.2 in
      let plain = All-append_one IsPlain line u (f.0, λ e. ground (arith, on, e)) in
      let rest = left-Fits re (line ++ (c ∷ [])) a b plain (rw more f') in
      ((f.0, rest.0), rw (==_ne c 0 f.0, on) rest.1, rw (==_ne c 0 f.0, on) rest.2)
]

take-drop : (n : ℕ) (text : Text) → take n text ++ drop n text ≡ text
take-drop zero text = refl
take-drop (suc n) [] = refl
take-drop (suc n) (c ∷ text) = ap (λ t. c ∷ t) (take-drop n text)

length-drop : (n : ℕ) (text : Text) → length (drop n text) ≡ length text - n
length-drop zero text = omega arith
length-drop (suc n) [] = omega arith
length-drop (suc n) (c ∷ text) = omega (arith, length-drop n text)

-- One read of at least one byte, when the rest of the loop writes what it should
read_more :
    (next : Text → Text → Option Text) (re left input : Text) (n : ℕ)
    → ((left' : Text)
        → All IsPlain left'
        → Fits (length left') (drop (suc n) input)
        → next left' (drop (suc n) input) ≡ some (scan re left' (drop (suc n) input)).0)
    → All IsPlain left
    → Fits (length left) input
    → grep_read next re left input (suc n) ≡ some (scan re left input).0
unfolding grep_read
read_more next re left input n h u f =
    let a = take (suc n) input in
    let b = drop (suc n) input in
    let parts : a ++ b ≡ input = take-drop (suc n) input in
    let (z, u', f') = left-Fits re left a b u (rw parts f) in
    let joined : (scan re left input).0 ≡ (scan re left a).0 ++ (scan re (scan re left a).1 b).0 =
      ap (λ t. (scan re left t).0) (sym parts) ∙ ap (λ p. p.0) (scan-append re left a b z) in
    rw (joined, resume re left a u, h (scan re left a).1 u' f') refl

grep_left :
    (fuel : ℕ) (gives : ℕ → ℕ) (re left input : Text)
    → ((k : ℕ) → 0 < k → 0 < gives k)
    → All IsPlain left
    → Fits (length left) input
    → length input < fuel
    → grep fuel gives re left input ≡ some (scan re left input).0
unfolding grep grep_read scan
grep_left zero gives re left input g u f enough = absurd (omega (arith, enough))
grep_left (suc fuel) gives re left [] g u f enough =
    let none_left : min (buf_size - length left - 1) (min (gives 0) 0) ≡ 0 = omega arith in
    rw none_left refl
grep_left (suc fuel) gives re left (c ∷ input) g u f enough =
    let got : ℕ =
      min (buf_size - length left - 1) (min (gives (length (c ∷ input))) (length (c ∷ input))) in
    let some_got : got ≡ suc (got - 1) = omega (arith, g (length (c ∷ input)) (omega arith), f.1) in
    rw some_got (
      read_more (λ left input. grep fuel gives re left input) re left (c ∷ input) (got - 1)
        (λ left' u' f'.
          grep_left fuel gives re left' (drop (suc (got - 1)) (c ∷ input)) g u' f'
            (omega (arith, length-drop (suc (got - 1)) (c ∷ input), enough)))
        u f)

-- The lines of a text that end in a newline, without it; `line` stands before the text.
abbrev pub ended_lines : (line text : Text) → List Text
ended_lines line [] = []
ended_lines line (c ∷ text) =
    let next = ended_lines [] text in
    let same = ended_lines (line ++ (c ∷ [])) text in if c == 10 then line ∷ next else same

-- The lines that match, each with its newline
abbrev pub matching : Text → List Text → Text
matching re [] = []
matching re (l ∷ ls) = (if match re l then l ++ (10 ∷ []) else []) ++ matching re ls

scan-matching :
    (re line buf : Text)
    → All (λ c. c ≢ 0) buf
    → (scan re line buf).0 ≡ matching re (ended_lines line buf)
unfolding scan
scan-matching re line [] z = refl
scan-matching re line (c ∷ buf) z = elim (Bool-cases (c == 10)) [
  | inl end ↦
      let newline : c ≡ 10 = (==_iff c 10).0 end in
      rw (==_ne c 0 z.0, end, scan-matching re [] buf z.1, newline) refl
  | inr on ↦ rw (==_ne c 0 z.0, on) (scan-matching re (line ++ (c ∷ [])) buf z.1)
]

Fits-All : (n : ℕ) (text : Text) → Fits n text → All (λ c. c ≢ 0) text
Fits-All n [] f = tt
Fits-All n (c ∷ text) f = (f.0, Fits-All (if c == 10 then 0 else suc n) text f.2)

-- However the input is cut into reads, each of at least one byte while the file has one: when no byte of
-- the input is 0 and no line that something follows, its newline or more, has more than 1022 bytes, then
-- the loop of grep ends after at most one read for each byte and one more, and has written, of the lines
-- of the input that end in a newline, those that match the pattern, in order.
pub grep-matching :
    (fuel : ℕ) (gives : ℕ → ℕ) (re input : Text)
    → ((k : ℕ) → 0 < k → 0 < gives k)
    → Fits 0 input
    → length input < fuel
    → grep fuel gives re [] input ≡ some (matching re (ended_lines [] input))
grep-matching fuel gives re input g f enough =
    grep_left fuel gives re [] input g tt f enough
    ∙ ap some (scan-matching re [] input (Fits-All 0 input f))
