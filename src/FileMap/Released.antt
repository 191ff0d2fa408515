-- ===== src/FileMap/Released.antt =====
-- The blocks of a file that are given back.
use native.Mathlib.Decide.{ℕ_discrete}
use operating_systems_ass.Base.{
  ℕ, suc, ◌<◌, ◌≤◌, ◌≡◌, refl, ◌≢◌, ◌∙◌, sym, ap, false, some, arith, ◌==◌, ==_ne,
}
use operating_systems_ass.Blocks.{Superblock, Store, bblock, bfree}
use operating_systems_ass.Blocks.Bitmap.{IsBytes}
use operating_systems_ass.Blocks.Alloc.{used, bfree-Freed}
use operating_systems_ass.Dinode.{Dinode}
use operating_systems_ass.FileMap.{maxfile}
use operating_systems_ass.FileMap.Slots.{slot, IsMapped}

module _ (sb : Superblock) (d : Dinode) (st : Store) (valid : IsMapped sb d st) where
  -- The first `n` blocks of the file are given back.
  pub record Released (n : ℕ) (st₁ : Store) : Type 0 where
    pub cleared : (l : ℕ) → l < n → slot d st l ≢ 0 → used sb st₁ (slot d st l) ≡ 0
    pub left :
        (y : ℕ)
        → ((l : ℕ) → l < n → slot d st l ≢ 0 → slot d st l ≢ y)
        → used sb st₁ y ≡ used sb st y
    pub rest : (c : ℕ) → ((y : ℕ) → y < sb.size → c ≢ bblock y sb) → st₁ c ≡ st c
    pub bytes : (c : ℕ) → IsBytes (st₁ c)

  pub none-Released : Released 0 st
  none-Released = record {
    cleared = λ l h. absurd (omega (arith, h));
    left = λ _ _. refl;
    rest = λ _ _. refl;
    bytes = valid.bytes;
  }

  pub skip-Released :
      (n : ℕ) (st₁ : Store) → slot d st n ≡ 0 → Released n st₁ → Released (suc n) st₁
  skip-Released n st₁ z r = record {
    cleared = λ l h m. elim (ℕ_discrete l n) [
      | yes e ↦ absurd (m (ap (slot d st) e ∙ z))
      | no e ↦ r.cleared l (omega arith) m
    ];
    left = λ y h. r.left y (λ l m. h l (omega arith));
    rest = r.rest;
    bytes = r.bytes;
  }

  pub free-Released :
      (n : ℕ) (st₁ : Store)
      → n ≤ maxfile
      → slot d st n ≢ 0
      → Released n st₁
      → (st₂ : Store) × (bfree sb (slot d st n) st₁ ≡ some st₂) × Released (suc n) st₂
  free-Released n st₁ top some_block r =
      let x = slot d st n in
      let busy : used sb st₁ x ≢ 0 = λ z. valid.in_use n top some_block (
        sym (
          r.left x (λ l h m e.
            let same : l ≡ n = valid.apart l n (omega arith) top m e in omega (arith, same, h)))
        ∙ z) in
      let freed = (bfree-Freed sb st₁ r.bytes x).1 busy in
      let f = freed.2 in
      (
        freed.0,
        freed.1,
        record {
          cleared = λ l h m. f.unmarks (slot d st l) ∙ elim (ℕ_discrete l n) [
            | yes e ↦
                let same : slot d st n ≡ slot d st l = ap (slot d st) (sym e) in
                ground (arith, same)
            | no e ↦
                let done : used sb st₁ (slot d st l) ≡ 0 = r.cleared l (omega arith) m in
                ground (arith, done)
          ];
          left = λ y h.
              let off : (slot d st n == y) ≡ false =
                ==_ne (slot d st n) y (h n (omega arith) some_block) in
              f.unmarks y ∙ rw off (r.left y (λ l m. h l (omega arith)));
          rest = λ c h. f.keeps c (h x (valid.in_size n top some_block)) ∙ r.rest c h;
          bytes = f.stays_bytes;
        },
      )
