-- ===== src/Dinode/Ialloc.antt =====
-- ialloc takes the first inode that is free.
use native.Mathlib.Decide.{ℕ_discrete}
use operating_systems_ass.Base.{
  ℕ, zero, suc, ◌+◌, ◌-◌, ◌%◌, ◌^◌, ◌<◌, ◌≤◌, ◌≡◌, ◌≢◌, arith, ◌==◌, ==_iff, Bool-cases, inl, inr,
}
use operating_systems_ass.Dinode.{read_dinode}
use mathlib.Core.Path.{subst}
use operating_systems_ass.Base.{Option, none, some}
use operating_systems_ass.Blocks.{Superblock, Store}
use operating_systems_ass.Dinode.{ipb, iblock, blank, ialloc_from, ialloc}
use operating_systems_ass.Dinode.Layout.{IsFit, Agrees}
use operating_systems_ass.Dinode.Copies.{dinode_at, write_at, written-Agrees, kept-Agrees}

-- What ialloc gives: the first free inode from `inum` on, marked and with nothing in its other fields.
abbrev pub Marked : Superblock → Store → (type inum k : ℕ) → Option (ℕ × Store) → Type 0
Marked sb st type inum k none = (j : ℕ) → inum ≤ j → j < inum + k → (dinode_at sb st j).type ≢ 0
Marked sb st type inum k (some (i, st')) =
    (inum ≤ i)
    × (i < inum + k)
    × ((dinode_at sb st i).type ≡ 0)
    × ((j : ℕ) → inum ≤ j → j < i → (dinode_at sb st j).type ≢ 0)
    × Agrees (dinode_at sb st' i) (blank type)
    × ((j : ℕ) → i ≢ j → Agrees (dinode_at sb st' j) (dinode_at sb st j))

blank-IsFit : (type : ℕ) → type < 2 ^ 16 → IsFit (blank type)
blank-IsFit type h = record {
  type_fits = h;
  major_fits = omega arith;
  minor_fits = omega arith;
  nlink_fits = omega arith;
  size_fits = omega arith;
  addrs_fit = λ _ _. omega arith;
}

module _ (sb : Superblock) (st : Store) (type : ℕ) where
  -- Inode `inum` is in use as well.
  Marked-suc :
      (inum k : ℕ) (o : Option (ℕ × Store))
      → (dinode_at sb st inum).type ≢ 0
      → Marked sb st type (inum + 1) k o
      → Marked sb st type inum (suc k) o
  Marked-suc inum k none n h = λ j l m. elim (ℕ_discrete inum j) [
    | yes e ↦ subst (λ j. (dinode_at sb st j).type ≢ 0) e n
    | no d ↦ h j (omega arith) (omega arith)
  ]
  Marked-suc inum k (some (i, st')) n h = (
    omega (arith, h.0),
    omega (arith, h.1),
    h.2,
    λ j l m. elim (ℕ_discrete inum j) [
      | yes e ↦ subst (λ j. (dinode_at sb st j).type ≢ 0) e n
      | no d ↦ h.3 j (omega arith) m
    ],
    h.4,
    h.5,
  )

  ialloc_from-Marked :
      (k inum : ℕ) → type < 2 ^ 16 → Marked sb st type inum k (ialloc_from k sb type inum st)
  unfolding ialloc_from write_at
  ialloc_from-Marked zero inum fits = λ j l m. absurd (omega arith)
  ialloc_from-Marked (suc k) inum fits =
      let block = st (iblock inum sb) in
      elim (Bool-cases ((read_dinode (inum % ipb) block).type == 0)) [
        | inl z ↦ rw z (
          omega arith,
          omega arith,
          (==_iff _ 0).0 z,
          λ j l m. absurd (omega arith),
          written-Agrees sb st inum (blank type) (blank-IsFit type fits),
          kept-Agrees sb st inum (blank type) (blank-IsFit type fits),
        )
        | inr n ↦ rw n (
            Marked-suc inum k (ialloc_from k sb type (inum + 1) st) (λ e. ground (arith, n, e))
              (ialloc_from-Marked k (inum + 1) fits))
      ]

  -- For a type that fits: ialloc takes the first inode from 1 on that has type 0, gives it the
  -- type and zeroes in its other fields, and leaves each other inode as it was; it gives none only
  -- if no inode below the number of inodes has type 0.
  pub ialloc-Marked : type < 2 ^ 16 → Marked sb st type 1 (sb.ninodes - 1) (ialloc sb type st)
  unfolding ialloc
  ialloc-Marked fits = ialloc_from-Marked (sb.ninodes - 1) 1 fits
