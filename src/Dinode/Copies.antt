-- ===== src/Dinode/Copies.antt =====
-- Inodes are copied to the disk and back.
use native.Mathlib.Decide.{ℕ_discrete}
use operating_systems_ass.Base.{
  ℕ, ◌+◌, ◌-◌, ◌*◌, ◌%◌, ◌^◌, ◌<◌, ◌≡◌, refl, ◌≢◌, ◌∙◌, sym, ap, true, false, arith, ◌==◌, ltb, leb,
  ◌&&◌, ==_ne, if◌then◌else◌,
}
use operating_systems_ass.Words.{Bytes, half_at, word_at}
use operating_systems_ass.Dinode.{Dinode, write_dinode, read_dinode}
use mathlib.Core.Path.{subst}
use operating_systems_ass.Base.{some, update, update_self, update_ne}
use operating_systems_ass.Blocks.{Superblock, Store}
use operating_systems_ass.Dinode.{ipb, iblock, Inode, iupdate, load}
use operating_systems_ass.Dinode.Layout.{
  IsFit, Agrees, half_after, word_after, write_dinode-IsBytes,
}
use operating_systems_ass.Blocks.Alloc.{update-IsBytes}

module _ (n : ℕ) (d : Dinode) (block : Bytes) (fit : IsFit d) where
  read-write_self : Agrees (read_dinode n (write_dinode n d block)) d
  unfolding read_dinode
  read-write_self =
      let base : 32 * n ≡ 32 * n + 0 = omega arith in
      record {
        same_type =
            ap (half_at (write_dinode n d block)) base
            ∙ (half_after n d block fit n 0 (omega arith) ∙ ground arith);
        same_major = half_after n d block fit n 1 (omega arith) ∙ ground arith;
        same_minor = half_after n d block fit n 2 (omega arith) ∙ ground arith;
        same_nlink = half_after n d block fit n 3 (omega arith) ∙ ground arith;
        same_size = word_after n d block fit n 2 (omega arith) (omega arith) ∙ ground arith;
        same_addrs = λ k h.
            let at : 16 * n + 3 + k ≡ 16 * n + (3 + k) = omega arith in
            let index : 3 + k - 3 ≡ k = omega arith in
            let mine : ((n == n) && (leb 3 (3 + k) && ltb (3 + k) 16)) ≡ true = ground arith in
            ap (word_at (write_dinode n d block)) at
            ∙ (word_after n d block fit n (3 + k) (omega arith) (omega arith)
                ∙ rw (mine, index) refl);
      }

  read-write_other :
      (m : ℕ) → n ≢ m → Agrees (read_dinode m (write_dinode n d block)) (read_dinode m block)
  unfolding read_dinode
  read-write_other m apart =
      let base : 32 * m ≡ 32 * m + 0 = omega arith in
      record {
        same_type =
            ap (half_at (write_dinode n d block)) base
            ∙ (half_after n d block fit m 0 (omega arith)
                ∙ (half_apart 0 (omega arith) ∙ ap (half_at block) (sym base)));
        same_major = half_after n d block fit m 1 (omega arith) ∙ half_apart 1 (omega arith);
        same_minor = half_after n d block fit m 2 (omega arith) ∙ half_apart 2 (omega arith);
        same_nlink = half_after n d block fit m 3 (omega arith) ∙ half_apart 3 (omega arith);
        same_size =
            word_after n d block fit m 2 (omega arith) (omega arith) ∙ word_apart 2 (omega arith);
        same_addrs = λ k h.
            let at : 16 * m + 3 + k ≡ 16 * m + (3 + k) = omega arith in
            ap (word_at (write_dinode n d block)) at
            ∙ (word_after n d block fit m (3 + k) (omega arith) (omega arith)
                ∙ (word_apart (3 + k) (omega arith) ∙ ap (word_at block) (sym at)));
      }
    where
      half_apart :
          (c : ℕ)
          → c < 4
          → (if 32 * n + 3 == 32 * m + c
              then d.nlink
              else if 32 * n + 2 == 32 * m + c
              then d.minor
              else if 32 * n + 1 == 32 * m + c
              then d.major
              else if 32 * n == 32 * m + c
              then d.type
              else half_at block (32 * m + c))
            ≡ half_at block (32 * m + c)
      half_apart c h =
          rw
            (
              ==_ne (32 * n + 3) (32 * m + c) (omega arith),
              ==_ne (32 * n + 2) (32 * m + c) (omega arith),
              ==_ne (32 * n + 1) (32 * m + c) (omega arith),
              ==_ne (32 * n) (32 * m + c) (omega arith),
            )
            refl

      word_apart :
          (c : ℕ)
          → c < 16
          → (if (n == m) && (leb 3 c && ltb c 16)
              then d.addrs (c - 3)
              else if 16 * n + 2 == 16 * m + c
              then d.size
              else word_at block (16 * m + c))
            ≡ word_at block (16 * m + c)
      word_apart c h = rw (==_ne n m apart, ==_ne (16 * n + 2) (16 * m + c) (omega arith)) refl

-- The inode `i` as it is on the disk
abbrev pub dinode_at : Superblock → Store → ℕ → Dinode
dinode_at sb st i = read_dinode (i % ipb) (st (iblock i sb))

Agrees-refl : (d : Dinode) → Agrees d d
Agrees-refl d = record {
  same_type = refl;
  same_major = refl;
  same_minor = refl;
  same_nlink = refl;
  same_size = refl;
  same_addrs = λ _ _. refl;
}

module _ (sb : Superblock) (st : Store) (i : ℕ) (d : Dinode) (fit : IsFit d) where
  -- Inode `i` is written.
  unfoldable pub write_at : Store
  write_at = update st (iblock i sb) (write_dinode (i % ipb) d (st (iblock i sb)))

  same_block : (c : ℕ) → iblock i sb ≡ c → write_at c ≡ write_dinode (i % ipb) d (st (iblock i sb))
  unfolding write_at
  same_block c e =
      subst (λ c. write_at c ≡ write_dinode (i % ipb) d (st (iblock i sb))) e
        (update_self st (iblock i sb) (write_dinode (i % ipb) d (st (iblock i sb))))

  other_block : (c : ℕ) → iblock i sb ≢ c → write_at c ≡ st c
  unfolding write_at
  other_block c n = update_ne st (iblock i sb) c (write_dinode (i % ipb) d (st (iblock i sb))) n

  pub written-Agrees : Agrees (dinode_at sb write_at i) d
  written-Agrees =
      subst (λ block. Agrees (read_dinode (i % ipb) block) d) (sym (same_block (iblock i sb) refl))
        (read-write_self (i % ipb) d (st (iblock i sb)) fit)

  pub kept-Agrees : (j : ℕ) → i ≢ j → Agrees (dinode_at sb write_at j) (dinode_at sb st j)
  kept-Agrees j n = elim (ℕ_discrete (iblock i sb) (iblock j sb)) [
    | yes e ↦
        let apart : i % ipb ≢ j % ipb = λ h. n (omega (arith, e, h)) in
        subst (λ block. Agrees (read_dinode (j % ipb) block) (dinode_at sb st j))
          (sym (same_block (iblock j sb) e))
          (subst
            (λ c.
              Agrees (read_dinode (j % ipb) (write_dinode (i % ipb) d (st (iblock i sb))))
                (read_dinode (j % ipb) (st c)))
            e (read-write_other (i % ipb) d (st (iblock i sb)) fit (j % ipb) apart))
    | no d ↦
        subst (λ block. Agrees (read_dinode (j % ipb) block) (dinode_at sb st j))
          (sym (other_block (iblock j sb) d)) (Agrees-refl (dinode_at sb st j))
  ]

-- What an ilock of `q`, an entry for inode `i` that is not read in, makes of it: the copy is `d`.
abbrev pub Loads : Superblock → Store → Inode → Dinode → Type 0
Loads sb st q d =
    (r : Inode) × (load sb st q ≡ some r)
    × Agrees r.copy d
    × (r.valid ≡ true)
    × (r.inum ≡ q.inum)
    × (r.ref ≡ q.ref)

-- iupdate of an inode whose fields fit and whose type is not 0: the next ilock of that inode, by any
-- entry that is not read in, reads those fields back, and each other inode is on the disk as it was.
pub load-iupdate :
    (sb : Superblock) (st : Store) (ip q : Inode)
    → IsFit ip.copy
    → ip.copy.type ≢ 0
    → q.inum ≡ ip.inum
    → q.valid ≡ false
    → Loads sb (iupdate sb ip st) q ip.copy
      × ((j : ℕ) → ip.inum ≢ j → Agrees (dinode_at sb (iupdate sb ip st) j) (dinode_at sb st j))
unfolding iupdate load write_at
load-iupdate sb st ip q fit typed same unread =
    let d = dinode_at sb (iupdate sb ip st) q.inum in
    let read : Agrees d ip.copy =
      subst (λ i. Agrees (dinode_at sb (iupdate sb ip st) i) ip.copy) (sym same)
        (written-Agrees sb st ip.inum ip.copy fit) in
    let test : (d.type == 0) ≡ false = ==_ne _ 0 (λ z. typed (sym read.same_type ∙ z)) in
    (
      (record q { copy = d; valid = true }, rw (unread, test) refl, read, refl, refl, refl),
      kept-Agrees sb st ip.inum ip.copy fit,
    )

pub iupdate-IsBytes :
    (sb : Superblock) (ip : Inode) (st : Store)
    → ((c w : ℕ) → st c w < 2 ^ 8)
    → (c w : ℕ) → iupdate sb ip st c w < 2 ^ 8
unfolding iupdate
iupdate-IsBytes sb ip st h c =
    update-IsBytes st (iblock ip.inum sb) _ h
      (write_dinode-IsBytes (ip.inum % ipb) ip.copy (st (iblock ip.inum sb))
        (h (iblock ip.inum sb)))
      c
