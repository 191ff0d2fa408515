-- ===== src/Blocks/Bits.antt =====
-- One bit of a byte changes, and the others stay.
use mathlib.Core.Path.{subst}
use operating_systems_ass.Base.{
  ℕ, zero, suc, ◌+◌, ◌-◌, ◌/◌, ◌%◌, ◌^◌, ◌<◌, ◌≡◌, refl, ◌≢◌, Bool, true, false, ◌&&◌, arith, ltb,
  ◌==◌, ==_iff, ==_ne, ltb→lt, if◌then◌else◌,
}

-- Of the byte `v`: bit `k` is 1 and can be cleared, or 0 and can be set, and bit `j` stays unless it is
-- bit `k`.
abbrev changes_if : Bool → ℕ → ℕ → ℕ → Bool
changes_if is_clear v k j =
    if is_clear
    then ltb (v + 2 ^ k) 256 && ((v + 2 ^ k) / 2 ^ j % 2 == (if k == j then 1 else v / 2 ^ j % 2))
    else (v - 2 ^ k) / 2 ^ j % 2 == (if k == j then 0 else v / 2 ^ j % 2)

abbrev changes : ℕ → ℕ → ℕ → Bool
changes v k j = changes_if (v / 2 ^ k % 2 == 0) v k j

-- `n` values of the last of three numbers, then of the second, then of the first.
bits : ℕ → ℕ → ℕ → Bool
bits v k zero = true
bits v k (suc j) = bits v k j && changes v k j

masks : ℕ → ℕ → Bool
masks v zero = true
masks v (suc k) = masks v k && bits v k 8

bytes : ℕ → Bool
bytes zero = true
bytes (suc v) = bytes v && masks v 8

all_bytes : bytes 256 ≡ true
unfolding bytes masks bits
all_bytes = refl

bits-changes : (v k n j : ℕ) → bits v k n ≡ true → j < n → changes v k j ≡ true
unfolding bits
bits-changes v k zero j h l = absurd (omega arith)
bits-changes v k (suc n) j h l = ground (arith, bits-changes v k n j)

masks-bits : (v n k : ℕ) → masks v n ≡ true → k < n → bits v k 8 ≡ true
unfolding masks
masks-bits v zero k h l = absurd (omega arith)
masks-bits v (suc n) k h l = ground (arith, masks-bits v n k)

bytes-masks : (n v : ℕ) → bytes n ≡ true → v < n → masks v 8 ≡ true
unfolding bytes
bytes-masks zero v h l = absurd (omega arith)
bytes-masks (suc n) v h l = ground (arith, bytes-masks n v)

&&_parts : (a b : Bool) → (a && b) ≡ true → (a ≡ true) × (b ≡ true)
&&_parts a b h = ground (arith, h)

module _ (v k j : ℕ) (byte : v < 256) (mask : k < 8) (other : j < 8) where
  changed : changes v k j ≡ true
  changed = bits-changes v k 8 j (masks-bits v 8 k (bytes-masks 256 v all_bytes byte) mask) other

  pub set_changes :
      v / 2 ^ k % 2 ≡ 0
      → (v + 2 ^ k < 256) × ((v + 2 ^ k) / 2 ^ j % 2 ≡ (if k == j then 1 else v / 2 ^ j % 2))
  set_changes z =
      let is_clear : (v / 2 ^ k % 2 == 0) ≡ true = (==_iff _ 0).1 z in
      let both = subst (λ b. changes_if b v k j ≡ true) is_clear changed in
      let parts = &&_parts _ _ both in (ltb→lt _ _ parts.0, (==_iff _ _).0 parts.1)

  pub clear_changes :
      v / 2 ^ k % 2 ≢ 0 → (v - 2 ^ k) / 2 ^ j % 2 ≡ (if k == j then 0 else v / 2 ^ j % 2)
  clear_changes n =
      let is_set : (v / 2 ^ k % 2 == 0) ≡ false = ==_ne _ 0 n in
      (==_iff _ _).0 (subst (λ b. changes_if b v k j ≡ true) is_set changed)
