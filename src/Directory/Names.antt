-- ===== src/Directory/Names.antt =====
-- When two names are the same to namecmp.
use mathlib.Core.Path.{subst}
use operating_systems_ass.Base.{
  ℕ, zero, suc, ◌+◌, ◌<◌, ◌≡◌, refl, ◌≢◌, ◌∙◌, sym, ap, true, not, ◌&&◌, arith, ◌==◌, if◌then◌else◌,
  Bool-cases, inl, inr,
}
use operating_systems_ass.Memory.{strncmp, minus}
use operating_systems_ass.Content.{Bytes}
use operating_systems_ass.Directory.{is_zero}

-- `n` bytes of two regions agree, up to the first that is 0.
abbrev pub SameName : (n : ℕ) → Bytes → ℕ → Bytes → ℕ → Type 0
SameName n a p b q = (i : ℕ) → i < n → ((j : ℕ) → j < i → a (p + j) ≢ 0) → a (p + i) ≡ b (q + i)

minus_zero : (a b : ℕ) → is_zero (minus a b) ≡ true → a ≡ b
minus_zero a b h = ground (arith, h)

minus_same : (a b : ℕ) → a ≡ b → is_zero (minus a b) ≡ true
minus_same a b h = ground (arith, h)

SameName-suc :
    (n p q : ℕ) (m : Bytes)
    → m p ≡ m q
    → (m p ≢ 0 → SameName n m (p + 1) m (q + 1))
    → SameName (suc n) m p m q
SameName-suc n p q m e rest zero h before =
    let a : p + 0 ≡ p = omega arith in
    let b : q + 0 ≡ q = omega arith in ap m a ∙ (e ∙ ap m (sym b))
SameName-suc n p q m e rest (suc i) h before =
    let a : p + suc i ≡ p + 1 + i = omega arith in
    let b : q + suc i ≡ q + 1 + i = omega arith in
    let here : m p ≢ 0 = subst (λ k. m k ≢ 0) (omega arith) (before 0 (omega arith)) in
    ap m a
    ∙ (rest here i (omega arith)
          (λ j l. subst (λ k. m k ≢ 0) (omega arith) (before (suc j) (omega arith)))
        ∙ ap m (sym b))

pub strncmp-SameName :
    (n p q : ℕ) (m : Bytes) → is_zero (strncmp p q n m) ≡ true → SameName n m p m q
unfolding strncmp
strncmp-SameName zero p q m h = λ i l. absurd (omega (arith, l))
strncmp-SameName (suc n) p q m h = elim (Bool-cases (not (m p == 0) && (m p == m q))) [
  | inl on ↦
      let rest : is_zero (strncmp (p + 1) (q + 1) n m) ≡ true =
        subst (λ b. is_zero (if b then strncmp (p + 1) (q + 1) n m else minus (m p) (m q)) ≡ true)
          on h in
      SameName-suc n p q m (ground (arith, on)) (λ _. strncmp-SameName n (p + 1) (q + 1) m rest)
  | inr off ↦
      let last : is_zero (minus (m p) (m q)) ≡ true =
        subst (λ b. is_zero (if b then strncmp (p + 1) (q + 1) n m else minus (m p) (m q)) ≡ true)
          off h in
      let same : m p ≡ m q = minus_zero (m p) (m q) last in
      SameName-suc n p q m same (λ some_byte. absurd (ground (arith, off, same, some_byte)))
]

pub SameName-strncmp :
    (n p q : ℕ) (m : Bytes) → SameName n m p m q → is_zero (strncmp p q n m) ≡ true
unfolding strncmp
SameName-strncmp zero p q m h = refl
SameName-strncmp (suc n) p q m h =
    let a : p + 0 ≡ p = omega arith in
    let b : q + 0 ≡ q = omega arith in
    let first : m p ≡ m q =
      ap m (sym a) ∙ (h 0 (omega arith) (λ j l. absurd (omega (arith, l))) ∙ ap m b) in
    elim (Bool-cases (not (m p == 0) && (m p == m q))) [
      | inl on ↦ rw on (
          SameName-strncmp n (p + 1) (q + 1) m (λ i l before.
            let c : p + 1 + i ≡ p + suc i = omega arith in
            let d : q + suc i ≡ q + 1 + i = omega arith in
            let some_byte : m p ≢ 0 = ground (arith, on) in
            ap m c ∙ (h (suc i) (omega arith) (shifted i some_byte before) ∙ ap m d)))
      | inr off ↦ rw off (minus_same (m p) (m q) first)
    ]
  where
    shifted :
        (i : ℕ)
        → m p ≢ 0
        → ((j : ℕ) → j < i → m (p + 1 + j) ≢ 0)
        → (j : ℕ) → j < suc i
        → m (p + j) ≢ 0
    shifted i some_byte before zero l = subst (λ k. m k ≢ 0) (omega arith) some_byte
    shifted i some_byte before (suc j) l =
        subst (λ k. m k ≢ 0) (omega arith) (before j (omega arith))
