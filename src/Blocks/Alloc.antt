-- ===== src/Blocks/Alloc.antt =====
-- balloc and bfree on the set of the blocks in use.
use mathlib.Core.Path.{subst, subst₂}
use native.Mathlib.Decide.{ℕ_discrete, dec_lt}
use operating_systems_ass.Base.{
  ℕ, zero, suc, ◌+◌, ◌-◌, ◌*◌, ◌/◌, ◌%◌, ◌<◌, ◌≤◌, ◌≡◌, refl, ◌≢◌, ◌⊎◌, ◌∙◌, sym, ap, min, Option,
  none, some, arith, ltb, ◌==◌, ==_ne, if◌then◌else◌, lt→ltb, ltb→lt, ltb→le, update, update_self,
  update_ne, Bool-cases, inl, inr,
}
use operating_systems_ass.Blocks.{
  bsize, bpb, Superblock, Store, bzero, bblock, bit_at, set_bit, clear_bit, balloc_round,
  balloc_from, balloc, bfree,
}
use operating_systems_ass.Blocks.Bitmap.{
  IsBytes, bit_at-set_bit, bit_at-clear_bit, set_bit-IsBytes, clear_bit-IsBytes, FirstZero,
  find_bit-FirstZero,
}

-- 1 for a block in use, and 0 for a free one
abbrev pub used : Superblock → Store → ℕ → ℕ
used sb st y = bit_at (st (bblock y sb)) (y % bpb)

-- The bitmap's block of `x` becomes `block`, in which only the bit of `x` changes.
used-put :
    (sb : Superblock) (st : Store) (x v : ℕ) (block : ℕ → ℕ) (y : ℕ)
    → ((j : ℕ) → bit_at block j ≡ (if x % bpb == j then v else bit_at (st (bblock x sb)) j))
    → used sb (update st (bblock x sb) block) y ≡ (if x == y then v else used sb st y)
used-put sb st x v block y e = elim (ℕ_discrete (bblock x sb) (bblock y sb)) [
  | yes same ↦
      let test : (x % bpb == y % bpb) ≡ (x == y) = ground (arith, same) in
      ap (λ (b : ℕ → ℕ). bit_at b (y % bpb))
        (subst (λ q. update st (bblock x sb) block q ≡ block) same
          (update_self st (bblock x sb) block))
      ∙ (e (y % bpb)
          ∙ (ap (λ t. if t then v else bit_at (st (bblock x sb)) (y % bpb)) test
              ∙ ap (λ q. if x == y then v else bit_at (st q) (y % bpb)) same))
  | no away ↦
      let apart : x ≢ y = λ h. away (ap (λ b. bblock b sb) h) in
      ap (λ (b : ℕ → ℕ). bit_at b (y % bpb)) (update_ne st (bblock x sb) (bblock y sb) block away)
      ∙ rw (==_ne x y apart) refl
]

pub update-IsBytes :
    (st : Store) (c : ℕ) (block : ℕ → ℕ)
    → ((d : ℕ) → IsBytes (st d))
    → IsBytes block
    → (d : ℕ) → IsBytes (update st c block d)
update-IsBytes st c block all one d = elim (ℕ_discrete c d) [
  | yes e ↦
      subst (λ d. IsBytes (update st c block d)) e
        (subst IsBytes (sym (update_self st c block)) one)
  | no n ↦ subst IsBytes (sym (update_ne st c d block n)) (all d)
]

module _ (sb : Superblock) (st : Store) (bytes : (c : ℕ) → IsBytes (st c)) where
  -- Block `x`, the first free one, is taken and cleared.
  pub record Taken (x : ℕ) (st' : Store) : Type 0 where
    pub within : x < sb.size
    pub was_free : used sb st x ≡ 0
    pub first : (y : ℕ) → y < x → used sb st y ≢ 0
    pub marks : (y : ℕ) → y < sb.size → used sb st' y ≡ (if x == y then 1 else used sb st y)
    pub cleared : (w : ℕ) → w < bsize → st' x w ≡ 0
    pub others : (c : ℕ) → c ≢ x → c ≢ bblock x sb → st' c ≡ st c
    pub still_bytes : (c : ℕ) → IsBytes (st' c)

  -- The blocks of the bitmap are in use themselves.
  abbrev pub MapUsed : Type 0
  MapUsed = (y : ℕ) → y < sb.size → used sb st (bblock y sb) ≢ 0

  take_block : (x : ℕ) → Store
  take_block x = bzero x (update st (bblock x sb) (set_bit (x % bpb) (st (bblock x sb))))

  take-Taken :
      (x : ℕ)
      → MapUsed
      → x < sb.size
      → used sb st x ≡ 0
      → ((y : ℕ) → y < x → used sb st y ≢ 0)
      → Taken x (take_block x)
  unfolding take_block bzero
  take-Taken x meta within free first =
      let old = st (bblock x sb) in
      let marked = set_bit (x % bpb) old in
      let st₁ = update st (bblock x sb) marked in
      let wiped = λ (w : ℕ). if ltb w bsize then 0 else st₁ x w in
      record {
        within = within;
        was_free = free;
        first = first;
        marks = λ y l.
            let map_kept : x ≢ bblock y sb = λ e. meta y l (subst (λ c. used sb st c ≡ 0) e free) in
            ap (λ (b : ℕ → ℕ). bit_at b (y % bpb)) (update_ne st₁ x (bblock y sb) wiped map_kept)
            ∙ used-put sb st x 1 marked y
                (λ j. bit_at-set_bit (x % bpb) old (bytes (bblock x sb)) j free);
        cleared =
            λ w l. ap (λ (b : ℕ → ℕ). b w) (update_self st₁ x wiped) ∙ rw (lt→ltb w bsize l) refl;
        others = λ c n m.
            update_ne st₁ x c wiped (λ e. n (sym e))
            ∙ update_ne st (bblock x sb) c marked (λ e. m (sym e));
        still_bytes =
            let first_bytes =
              update-IsBytes st (bblock x sb) marked bytes
                (set_bit-IsBytes (x % bpb) old (bytes (bblock x sb)) free) in
            update-IsBytes st₁ x wiped first_bytes (λ w. elim (Bool-cases (ltb w bsize)) [
              | inl t ↦ rw t (omega arith)
              | inr f ↦ rw f (first_bytes x w)
            ]);
      }

  -- balloc returns the first free block, taken and cleared, or 0 and changes nothing where all
  -- blocks are in use.
  abbrev pub Allocates : ℕ × Store → Type 0
  Allocates (x, st') =
      Taken x st' ⊎ ((x ≡ 0) × (st' ≡ st) × ((y : ℕ) → y < sb.size → used sb st y ≢ 0))

  module _ (meta : MapUsed) where
    round-Allocates :
        (b : ℕ) (next : ℕ × Store) (o : Option ℕ)
        → b % bpb ≡ 0
        → b < sb.size
        → ((y : ℕ) → y < b → used sb st y ≢ 0)
        → FirstZero (min bpb (sb.size - b)) 0 (st (bblock b sb)) o
        → (((y : ℕ) → y < b + bpb → y < sb.size → used sb st y ≢ 0) → Allocates next)
        → Allocates (balloc_round sb b st next o)
    unfolding balloc_round take_block
    round-Allocates b next none start l below none_free go = go (λ y m within. elim (dec_lt y b) [
      | yes lower ↦ below y lower
      | no upper ↦
          let same_map : bblock b sb ≡ bblock y sb = omega arith in
          subst (λ q. bit_at (st q) (y % bpb) ≢ 0) same_map
            (none_free (y % bpb) (omega arith) (omega arith))
    ])
    round-Allocates b next (some bi) start l below at go =
        let bound : bi < min bpb (sb.size - b) = omega (arith, at.1) in
        let same_map : bblock b sb ≡ bblock (b + bi) sb = omega arith in
        let same_bit : bi ≡ (b + bi) % bpb = omega arith in
        let free : used sb st (b + bi) ≡ 0 =
          subst₂ (λ q j. bit_at (st q) j ≡ 0) same_map same_bit at.2 in
        inl (
          subst₂ (λ q j. Taken (b + bi) (bzero (b + bi) (update st q (set_bit j (st q)))))
            (sym same_map) (sym same_bit) (take-Taken (b + bi) meta (omega arith) free first))
      where
        first : (y : ℕ) → y < b + bi → used sb st y ≢ 0
        first y m = elim (dec_lt y b) [
          | yes lower ↦ below y lower
          | no upper ↦
              let within : bi < min bpb (sb.size - b) = omega (arith, at.1) in
              let map : bblock b sb ≡ bblock y sb = omega arith in
              subst (λ q. bit_at (st q) (y % bpb) ≢ 0) map
                (at.3 (y % bpb) (omega arith) (omega arith))
        ]

    from-Allocates :
        (fuel b : ℕ)
        → b % bpb ≡ 0
        → sb.size ≤ b + fuel * bpb
        → ((y : ℕ) → y < b → y < sb.size → used sb st y ≢ 0)
        → Allocates (balloc_from fuel sb b st)
    unfolding balloc_from
    from-Allocates zero b start enough below = inr (refl, refl, λ y l. below y (omega arith) l)
    from-Allocates (suc fuel) b start enough below = elim (Bool-cases (ltb b sb.size)) [
      | inl l ↦ rw l (
          round-Allocates b (balloc_from fuel sb (b + bpb) st) _ start (ltb→lt b sb.size l)
            (λ y m. below y m (omega (arith, ltb→lt b sb.size l)))
            (find_bit-FirstZero (min bpb (sb.size - b)) 0 (st (bblock b sb)))
            (from-Allocates fuel (b + bpb) (omega arith) (omega arith)))
      | inr l ↦ rw l (inr (refl, refl, λ y m. below y (omega (arith, ltb→le b sb.size l)) m))
    ]

    -- On blocks of bytes, where the blocks of the bitmap are in use themselves: balloc returns the
    -- first free block below the size of the file system, marks it as in use, clears it, and changes
    -- no other bit and no block but it and its block of the bitmap; or, where all blocks are in use,
    -- it returns 0 and changes nothing.
    pub balloc-Allocates : Allocates (balloc sb st)
    unfolding balloc
    balloc-Allocates =
        from-Allocates (sb.size / bpb + 1) 0 (omega arith) (omega arith)
          (λ y m l. absurd (omega arith))

  -- Block `x` is given back.
  pub record Freed (x : ℕ) (st' : Store) : Type 0 where
    pub unmarks : (y : ℕ) → used sb st' y ≡ (if x == y then 0 else used sb st y)
    pub keeps : (c : ℕ) → c ≢ bblock x sb → st' c ≡ st c
    pub stays_bytes : (c : ℕ) → IsBytes (st' c)

  -- On blocks of bytes: bfree of a free block panics; of a block in use, it marks that block as free
  -- and changes no other bit and no block but its block of the bitmap.
  pub bfree-Freed :
      (x : ℕ)
      → (used sb st x ≡ 0 → bfree sb x st ≡ none)
        × (used sb st x ≢ 0 → (st' : Store) × (bfree sb x st ≡ some st') × Freed x st')
  unfolding bfree
  bfree-Freed x = (
    λ z. rw z refl,
    λ n.
        let old = st (bblock x sb) in
        let block = clear_bit (x % bpb) old in
        (
          update st (bblock x sb) block,
          rw (==_ne _ 0 n) refl,
          record {
            unmarks = λ y.
                used-put sb st x 0 block y
                  (λ j. bit_at-clear_bit (x % bpb) old (bytes (bblock x sb)) j n);
            keeps = λ c m. update_ne st (bblock x sb) c block (λ e. m (sym e));
            stays_bytes =
                update-IsBytes st (bblock x sb) block bytes
                  (clear_bit-IsBytes (x % bpb) old (bytes (bblock x sb)));
          },
        ),
  )
