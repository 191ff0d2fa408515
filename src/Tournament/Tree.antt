-- ===== src/Tournament/Tree.antt =====
-- The arithmetic of user/libtournament.c: paths from the leaves to the root of a tree in heap order.
use Prim.Native.Nat.{bit_and}
use native.Mathlib.Nat.{
  div-div-eq-div-mul, div-lt_iff_lt-mul, pow-suc, pow-le-pow_right, one-le-pow,
}
use native.Mathlib.Decide.{dec_lt}
use operating_systems_ass.Base.{
  ℕ, zero, suc, ◌+◌, ◌-◌, ◌*◌, ◌/◌, ◌%◌, ◌^◌, ◌≤◌, ◌<◌, ◌≡◌, refl, ◌≢◌, ◌∙◌, sym, ap, ◌&&◌, Bool,
  true, List, ℤ, some, arith, ◌==◌, ==_iff,
}
use operating_systems_ass.Tournament.{Player, role_of, node_of}

-- 16 processes at most
abbrev pub max_levels : ℕ
max_levels = 4

-- Whether masking bit `s` and shifting it down gives the bit of weight 2 ^ s.
abbrev agrees : ℕ → ℕ → Bool
agrees s p = (bit_and p (2 ^ s) / 2 ^ s) == (p / 2 ^ s % 2)

-- It does for each number under `n`.
row : ℕ → ℕ → Bool
row s zero = true
row s (suc n) = row s n && agrees s n

row-agrees : (s n p : ℕ) → row s n ≡ true → p < n → agrees s p ≡ true
unfolding row
row-agrees s zero p all l = absurd (omega arith)
row-agrees s (suc n) p all l = ground (arith, row-agrees s n p)

rows : (row 0 16 ≡ true) × (row 1 16 ≡ true) × (row 2 16 ≡ true) × (row 3 16 ≡ true)
unfolding row
rows = (refl, refl, refl, refl)

bit_of : (p s : ℕ) → p < 16 → s < max_levels → bit_and p (2 ^ s) / 2 ^ s ≡ p / 2 ^ s % 2
bit_of p zero hp hs = (==_iff _ _).0 (row-agrees 0 16 p rows.0 hp)
bit_of p (suc zero) hp hs = (==_iff _ _).0 (row-agrees 1 16 p rows.1 hp)
bit_of p (suc (suc zero)) hp hs = (==_iff _ _).0 (row-agrees 2 16 p rows.2 hp)
bit_of p (suc (suc (suc zero))) hp hs = (==_iff _ _).0 (row-agrees 3 16 p rows.3 hp)
bit_of p (suc (suc (suc (suc s)))) hp hs = absurd (omega arith)

halves : (p h : ℕ) → p / 2 ^ suc h ≡ p / 2 ^ h / 2
halves p h = ap (λ k. p / k) (pow-suc 2 h) ∙ sym (div-div-eq-div-mul p (2 ^ h) 2)

pub pow_pos : (h : ℕ) → 1 ≤ 2 ^ h
pow_pos h = one-le-pow h 2 (omega arith)

pow_cong : (a b : ℕ) → a ≡ b → 2 ^ a ≡ 2 ^ b
pow_cong a b e = ap (λ k. 2 ^ k) e

div_pow_cong : (p a b : ℕ) → a ≡ b → p / 2 ^ a ≡ p / 2 ^ b
div_pow_cong p a b e = ap (λ k. p / 2 ^ k) e

pow-add : (a b : ℕ) → 2 ^ (a + b) ≡ 2 ^ a * 2 ^ b
pow-add zero b = omega (arith, pow_cong (0 + b) b (omega arith))
pow-add (suc a) b =
    let e : 2 ^ (suc a + b) ≡ 2 ^ suc (a + b) = ap (λ k. 2 ^ k) (omega arith) in
    omega (arith, e, pow-suc 2 (a + b), ap (λ k. k * 2 ^ b) (pow-suc 2 a), pow-add a b)

-- The number of the subtree of process `p` at level `i`, counted from the left.
block_lt : (p i h : ℕ) → p < 2 ^ (i + h) → p / 2 ^ h < 2 ^ i
block_lt p i h l = (div-lt_iff_lt-mul (pow_pos h)).1 (omega (arith, pow-add i h))

heap_order : (a b i j : ℕ) → a < 2 ^ i → i < j → a + 2 ^ i - 1 ≢ b + 2 ^ j - 1
heap_order a b i j l h e = omega (
  arith,
  pow-suc 2 i,
  pow_pos i,
  pow_pos j,
  pow-le-pow_right {n = 2} (omega arith) {i = suc i} {j = j} h,
)

-- In heap order, a position names one level and one node of it.
heap_inj : (a b i j : ℕ) → a < 2 ^ i → b < 2 ^ j → a + 2 ^ i - 1 ≡ b + 2 ^ j - 1 → (i ≡ j) × (a ≡ b)
heap_inj a b i j ha hb e = elim (dec_lt i j) [
  | yes below ↦ absurd (heap_order a b i j ha below e)
  | no above ↦ elim (dec_lt j i) [
    | yes below ↦ absurd (heap_order b a j i hb below (sym e))
    | no other ↦
        let same : i ≡ j = omega arith in
        (same, omega (arith, pow_pos i, pow_pos j, ap (λ k. 2 ^ k) same))
  ]
]

-- The processes of a tournament with `levels` levels, each with the variables that
-- tournament_create leaves it.
abbrev pub player : ℕ → List ℤ → ℕ → Player
player levels ids p = record {
  proc_id = p;
  num_processes = 2 ^ levels;
  num_levels = levels;
  lock_ids = some ids;
}

module _ (levels : ℕ) (ids : List ℤ) (few : levels ≤ max_levels) where
  -- The subtree that process `p` competes in at level `i`.
  abbrev pub block : ℕ → ℕ → ℕ
  block p i = p / 2 ^ (levels - i)

  abbrev pub node : ℕ → ℕ → ℕ
  node p i = node_of (player levels ids p) i

  abbrev pub role : ℕ → ℕ → ℕ
  role p i = role_of (player levels ids p) i

  small : 2 ^ levels ≤ 16
  small = pow-le-pow_right {n = 2} (omega arith) {i = levels} {j = 4} few

  pub block-zero : (p : ℕ) → p < 2 ^ levels → block p 0 ≡ 0
  block-zero p h = omega (
    arith,
    block_lt p 0 levels (omega (arith, pow_cong (0 + levels) levels (omega arith))),
    div_pow_cong p (levels - 0) levels (omega arith),
  )

  role_bit : (p i : ℕ) → p < 2 ^ levels → i < levels → role p i ≡ block p (suc i) % 2
  unfolding role_of
  role_bit p i hp hi =
      bit_of p (levels - i - 1) (omega (arith, small)) (omega arith)
      ∙ ap (λ k. p / 2 ^ k % 2) (omega arith)

  pub role-lt : (p i : ℕ) → p < 2 ^ levels → i < levels → role p i < 2
  role-lt p i hp hi = omega (arith, role_bit p i hp hi)

  block_half : (p i : ℕ) → i < levels → block p i ≡ block p (suc i) / 2
  block_half p i hi = ap (λ k. p / 2 ^ k) (omega arith) ∙ halves p (levels - suc i)

  -- Two processes in one subtree and in one role there come from one half of it.
  pub block-suc :
      (p q i : ℕ)
      → p < 2 ^ levels
      → q < 2 ^ levels
      → i < levels
      → block p i ≡ block q i
      → role p i ≡ role q i
      → block p (suc i) ≡ block q (suc i)
  block-suc p q i hp hq hi e r =
      omega (arith, block_half p i hi, block_half q i hi, role_bit p i hp hi, role_bit q i hq hi)

  pub block-leaf : (p : ℕ) → block p levels ≡ p
  block-leaf p = omega (arith, div_pow_cong p (levels - levels) 0 (omega arith))

  block-lt : (p i : ℕ) → p < 2 ^ levels → i ≤ levels → block p i < 2 ^ i
  block-lt p i hp hi =
      block_lt p i (levels - i) (omega (arith, pow_cong (i + (levels - i)) levels (omega arith)))

  pub node_cong : (p q i : ℕ) → block p i ≡ block q i → node p i ≡ node q i
  unfolding node_of
  node_cong p q i e = ap (λ b. b + 2 ^ i - 1) e

  -- The locks of different subtrees are different.
  pub node-injective :
      (p q i j : ℕ)
      → p < 2 ^ levels
      → q < 2 ^ levels
      → i < levels
      → j < levels
      → node p i ≡ node q j
      → (i ≡ j) × (block p i ≡ block q j)
  unfolding node_of
  node-injective p q i j hp hq hi hj e =
      heap_inj (block p i) (block q j) i j (block-lt p i hp (omega arith))
        (block-lt q j hq (omega arith)) e

  pub node-lt : (p i : ℕ) → p < 2 ^ levels → i < levels → node p i + 1 < 2 ^ levels
  unfolding node_of
  node-lt p i hp hi = omega (
    arith,
    block-lt p i hp (omega arith),
    pow-suc 2 i,
    pow_pos i,
    pow-le-pow_right {n = 2} (omega arith) {i = suc i} {j = levels} hi,
  )

  pub node-lt-max : (p i : ℕ) → p < 2 ^ levels → i < levels → node p i < 15
  node-lt-max p i hp hi = omega (arith, node-lt p i hp hi, small)
