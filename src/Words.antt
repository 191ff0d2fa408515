-- ===== src/Words.antt =====
-- Numbers of 2 and 4 bytes in a block, the low byte first, as the processor reads them.
use operating_systems_ass.Base.{
  ℕ, ◌+◌, ◌*◌, ◌/◌, ◌%◌, ◌^◌, ◌<◌, ◌≡◌, refl, ◌≢◌, arith, ◌==◌, ==_ne, Bool-cases, inl, inr,
  if◌then◌else◌,
}

abbrev pub Bytes : Type 0
Bytes = ℕ → ℕ

-- The half word `j` of a block
unfoldable pub half_at : Bytes → ℕ → ℕ
half_at block j = block (2 * j) + 2 ^ 8 * block (2 * j + 1)

abbrev half_byte : ℕ → ℕ → ℕ
half_byte v k = if k == 0 then v % 2 ^ 8 else v / 2 ^ 8 % 2 ^ 8

unfoldable pub set_half : ℕ → ℕ → Bytes → Bytes
set_half j v block w = if j == w / 2 then half_byte v (w % 2) else block w

-- The word `j` of a block
unfoldable pub word_at : Bytes → ℕ → ℕ
word_at block j =
    block (4 * j)
    + 2 ^ 8 * block (4 * j + 1)
    + 2 ^ 16 * block (4 * j + 2)
    + 2 ^ 24 * block (4 * j + 3)

abbrev word_byte : ℕ → ℕ → ℕ
word_byte v k =
    if k == 0
    then v % 2 ^ 8
    else if k == 1
    then v / 2 ^ 8 % 2 ^ 8
    else if k == 2
    then v / 2 ^ 16 % 2 ^ 8
    else v / 2 ^ 24 % 2 ^ 8

unfoldable pub set_word : ℕ → ℕ → Bytes → Bytes
set_word j v block w = if j == w / 4 then word_byte v (w % 4) else block w

pub half_at-set_half :
    (j v : ℕ) (block : Bytes) (k : ℕ)
    → v < 2 ^ 16
    → half_at (set_half j v block) k ≡ (if j == k then v else half_at block k)
unfolding half_at set_half
half_at-set_half j v block k h = ground arith

set_word-byte :
    (j v : ℕ) (block : Bytes) (k c w : ℕ)
    → w ≡ 4 * k + c
    → c < 4
    → set_word j v block w ≡ (if j == k then word_byte v c else block w)
unfolding set_word
set_word-byte j v block k c w e h =
    let q : w / 4 ≡ k = omega arith in let r : w % 4 ≡ c = omega arith in rw (q, r) refl

word_parts :
    (v : ℕ)
    → v < 2 ^ 32
    → v % 2 ^ 8
        + 2 ^ 8 * (v / 2 ^ 8 % 2 ^ 8)
        + 2 ^ 16 * (v / 2 ^ 16 % 2 ^ 8)
        + 2 ^ 24 * (v / 2 ^ 24 % 2 ^ 8)
      ≡ v
word_parts v h = omega arith

pub word_at-set_word :
    (j v : ℕ) (block : Bytes) (k : ℕ)
    → v < 2 ^ 32
    → word_at (set_word j v block) k ≡ (if j == k then v else word_at block k)
unfolding word_at
word_at-set_word j v block k h =
    rw
      (
        set_word-byte j v block k 0 (4 * k) (omega arith) (omega arith),
        set_word-byte j v block k 1 (4 * k + 1) refl (omega arith),
        set_word-byte j v block k 2 (4 * k + 2) refl (omega arith),
        set_word-byte j v block k 3 (4 * k + 3) refl (omega arith),
      )
      (elim (Bool-cases (j == k)) [
        | inl same ↦ rw same (word_parts v h)
        | inr other ↦ rw other refl
      ])

pub set_half-IsBytes :
    (j v : ℕ) (block : Bytes) → ((w : ℕ) → block w < 2 ^ 8) → (w : ℕ) → set_half j v block w < 2 ^ 8
unfolding set_half
set_half-IsBytes j v block h w = ground (arith, h w)

pub set_word-IsBytes :
    (j v : ℕ) (block : Bytes) → ((w : ℕ) → block w < 2 ^ 8) → (w : ℕ) → set_word j v block w < 2 ^ 8
unfolding set_word
set_word-IsBytes j v block h w = ground (arith, h w)

-- The two kinds of numbers do not meet where their bytes do not.
pub half_at-set_word :
    (j v : ℕ) (block : Bytes) (k : ℕ) → j ≢ k / 2 → half_at (set_word j v block) k ≡ half_at block k
unfolding half_at set_word
half_at-set_word j v block k h =
    let q : 2 * k / 4 ≡ k / 2 = omega arith in
    let r : (2 * k + 1) / 4 ≡ k / 2 = omega arith in rw (q, r, ==_ne j (k / 2) h) refl

pub word_at-set_half :
    (j v : ℕ) (block : Bytes) (k : ℕ) → j / 2 ≢ k → word_at (set_half j v block) k ≡ word_at block k
unfolding word_at set_half
word_at-set_half j v block k h =
    rw
      (
        ==_ne j (4 * k / 2) (omega arith),
        ==_ne j ((4 * k + 1) / 2) (omega arith),
        ==_ne j ((4 * k + 2) / 2) (omega arith),
        ==_ne j ((4 * k + 3) / 2) (omega arith),
      )
      refl
