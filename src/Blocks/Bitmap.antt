-- ===== src/Blocks/Bitmap.antt =====
-- The bitmap of the blocks in use, one bit at a time.
use mathlib.Core.Path.{subst}
use native.Mathlib.Decide.{ℕ_discrete}
use operating_systems_ass.Base.{
  ℕ, zero, suc, ◌+◌, ◌-◌, ◌/◌, ◌%◌, ◌^◌, ◌<◌, ◌≤◌, ◌≡◌, refl, ◌≢◌, ◌∙◌, ap, Option, none, some,
  arith, ◌==◌, ==_iff, ==_ne, if◌then◌else◌, update, update_self, update_ne, Bool-cases, inl, inr,
}
use operating_systems_ass.Blocks.{bit_at, find_bit, set_bit, clear_bit}
use operating_systems_ass.Blocks.Bits.{set_changes, clear_changes}

abbrev pub IsBytes : (ℕ → ℕ) → Type 0
IsBytes block = (w : ℕ) → block w < 256

-- The byte with bit `bi` becomes `v`, in which only that bit changes.
bit_at-put :
    (bi : ℕ) (block : ℕ → ℕ) (v x bj : ℕ)
    → (bi / 8 ≡ bj / 8 → v / 2 ^ (bj % 8) % 2 ≡ (if bi % 8 == bj % 8 then x else bit_at block bj))
    → bit_at (update block (bi / 8) v) bj ≡ (if bi == bj then x else bit_at block bj)
bit_at-put bi block v x bj e = elim (ℕ_discrete (bi / 8) (bj / 8)) [
  | yes same ↦
      let test : (bi % 8 == bj % 8) ≡ (bi == bj) = ground (arith, same) in
      ap (λ u. u / 2 ^ (bj % 8) % 2)
        (subst (λ q. update block (bi / 8) v q ≡ v) same (update_self block (bi / 8) v))
      ∙ (e same ∙ ap (λ t. if t then x else bit_at block bj) test)
  | no away ↦
      let apart : bi ≢ bj = λ h. away (ap (λ b. b / 8) h) in
      ap (λ u. u / 2 ^ (bj % 8) % 2) (update_ne block (bi / 8) (bj / 8) v away)
      ∙ rw (==_ne bi bj apart) refl
]

module _ (bi : ℕ) (block : ℕ → ℕ) (byte : IsBytes block) where
  -- The bit `bj` of the byte of `bi`
  same_byte : (bj : ℕ) → bi / 8 ≡ bj / 8 → block (bi / 8) / 2 ^ (bj % 8) % 2 ≡ bit_at block bj
  same_byte bj same = ap (λ q. block q / 2 ^ (bj % 8) % 2) same

  pub bit_at-set_bit :
      (bj : ℕ)
      → bit_at block bi ≡ 0
      → bit_at (set_bit bi block) bj ≡ (if bi == bj then 1 else bit_at block bj)
  unfolding set_bit
  bit_at-set_bit bj z = bit_at-put bi block (block (bi / 8) + 2 ^ (bi % 8)) 1 bj (λ same.
      (set_changes (block (bi / 8)) (bi % 8) (bj % 8) (byte (bi / 8)) (omega arith) (omega arith)
        z).1
      ∙ ap (λ u. if bi % 8 == bj % 8 then 1 else u) (same_byte bj same))

  pub bit_at-clear_bit :
      (bj : ℕ)
      → bit_at block bi ≢ 0
      → bit_at (clear_bit bi block) bj ≡ (if bi == bj then 0 else bit_at block bj)
  unfolding clear_bit
  bit_at-clear_bit bj n = bit_at-put bi block (block (bi / 8) - 2 ^ (bi % 8)) 0 bj (λ same.
      clear_changes (block (bi / 8)) (bi % 8) (bj % 8) (byte (bi / 8)) (omega arith) (omega arith) n
      ∙ ap (λ u. if bi % 8 == bj % 8 then 0 else u) (same_byte bj same))

  pub set_bit-IsBytes : bit_at block bi ≡ 0 → IsBytes (set_bit bi block)
  unfolding set_bit
  set_bit-IsBytes z w = elim (ℕ_discrete (bi / 8) w) [
    | yes e ↦
        subst (λ w. update block (bi / 8) (block (bi / 8) + 2 ^ (bi % 8)) w < 256) e
          (rw (update_self block (bi / 8) (block (bi / 8) + 2 ^ (bi % 8)))
            (set_changes (block (bi / 8)) (bi % 8) 0 (byte (bi / 8)) (omega arith) (omega arith)
              z).0)
    | no d ↦ rw (update_ne block (bi / 8) w (block (bi / 8) + 2 ^ (bi % 8)) d) (byte w)
  ]

  pub clear_bit-IsBytes : IsBytes (clear_bit bi block)
  unfolding clear_bit
  clear_bit-IsBytes w = elim (ℕ_discrete (bi / 8) w) [
    | yes e ↦
        subst (λ w. update block (bi / 8) (block (bi / 8) - 2 ^ (bi % 8)) w < 256) e
          (rw (update_self block (bi / 8) (block (bi / 8) - 2 ^ (bi % 8)))
            (omega (arith, byte (bi / 8))))
    | no d ↦ rw (update_ne block (bi / 8) w (block (bi / 8) - 2 ^ (bi % 8)) d) (byte w)
  ]

-- What find_bit gives: the first bit that is 0, or none of them is.
abbrev pub FirstZero : (k bi : ℕ) → (ℕ → ℕ) → Option ℕ → Type 0
FirstZero k bi block none = (j : ℕ) → bi ≤ j → j < bi + k → bit_at block j ≢ 0
FirstZero k bi block (some i) =
    (bi ≤ i) × (i < bi + k) × (bit_at block i ≡ 0) × ((j : ℕ) → bi ≤ j → j < i → bit_at block j ≢ 0)

FirstZero-suc :
    (k bi : ℕ) (block : ℕ → ℕ) (o : Option ℕ)
    → bit_at block bi ≢ 0
    → FirstZero k (bi + 1) block o
    → FirstZero (suc k) bi block o
FirstZero-suc k bi block none n h = λ j l m. elim (ℕ_discrete bi j) [
  | yes e ↦ subst (λ j. bit_at block j ≢ 0) e n
  | no d ↦ h j (omega arith) (omega arith)
]
FirstZero-suc k bi block (some i) n h = (
  omega (arith, h.0),
  omega (arith, h.1),
  h.2,
  λ j l m. elim (ℕ_discrete bi j) [
    | yes e ↦ subst (λ j. bit_at block j ≢ 0) e n
    | no d ↦ h.3 j (omega arith) m
  ],
)

pub find_bit-FirstZero : (k bi : ℕ) (block : ℕ → ℕ) → FirstZero k bi block (find_bit k bi block)
unfolding find_bit
find_bit-FirstZero zero bi block = λ j l m. absurd (omega arith)
find_bit-FirstZero (suc k) bi block = elim (Bool-cases (bit_at block bi == 0)) [
  | inl z ↦ rw z (omega arith, omega arith, (==_iff _ 0).0 z, λ j l m. absurd (omega arith))
  | inr n ↦
      rw n (
        FirstZero-suc k bi block _ (λ e. ground (arith, n, e))
          (find_bit-FirstZero k (bi + 1) block))
]
