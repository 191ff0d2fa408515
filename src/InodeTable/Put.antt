-- ===== src/InodeTable/Put.antt =====
-- iput, with the release of an inode that has no links.
use mathlib.Core.Path.{subst}
use operating_systems_ass.Base.{
  ◌-◌, update_self, ℕ, ◌<◌, ◌≤◌, ◌%◌, ◌≡◌, refl, ◌≢◌, ◌∙◌, sym, ap, true, false, some, arith,
}
use operating_systems_ass.Blocks.{Superblock, Store, bblock, bit_at, bpb}
use operating_systems_ass.Blocks.Alloc.{used}
use operating_systems_ass.Dinode.{Inode, iblock, iupdate}
use operating_systems_ass.Dinode.Layout.{IsFit, Agrees}
use operating_systems_ass.Dinode.Copies.{dinode_at, write_at, written-Agrees}
use operating_systems_ass.FileMap.{maxfile}
use operating_systems_ass.FileMap.Slots.{slot, IsMapped}
use operating_systems_ass.FileMap.Truncate.{Truncates, itrunc-Truncates, not_written}
use operating_systems_ass.InodeTable.{ninode, Itable, drop_ref, put_last, is_last, iput}
use operating_systems_ass.InodeTable.References.{IsTable, Puts, drop_ref-Puts}

-- An inode that can be written and released
pub record IsRemovable (sb : Superblock) (ip : Inode) (st : Store) : Type 0 where
  pub fit : IsFit ip.copy
  pub mapped : IsMapped sb ip.copy st
  pub away : (y : ℕ) → y < sb.size → iblock ip.inum sb ≢ bblock y sb

-- The file of an inode is gone: its blocks are free, no others are, and it has no type on the disk.
pub record Gone (sb : Superblock) (ip : Inode) (st st' : Store) : Type 0 where
  pub no_type : (dinode_at sb st' ip.inum).type ≡ 0
  pub no_links : (dinode_at sb st' ip.inum).nlink ≡ 0
  pub no_content : (dinode_at sb st' ip.inum).size ≡ 0
  pub freed : (k : ℕ) → k ≤ maxfile → slot ip.copy st k ≢ 0 → used sb st' (slot ip.copy st k) ≡ 0
  pub freed_only :
      (y : ℕ)
      → y < sb.size
      → ((k : ℕ) → k ≤ maxfile → slot ip.copy st k ≢ 0 → slot ip.copy st k ≢ y)
      → used sb st' y ≡ used sb st y
  pub untouched :
      (c : ℕ) → ((y : ℕ) → y < sb.size → c ≢ bblock y sb) → c ≢ iblock ip.inum sb → st' c ≡ st c

module _ (sb : Superblock) (t : Itable) (i : ℕ) (st : Store) (ok : IsTable t) (h : i < ninode)
    (live : 0 < (t i).ref) where
  -- The inode that itrunc leaves is written once more, without a type.
  put_last-Gone :
      (ip : Inode) (st₁ : Store)
      → Truncates sb (t i) st ip st₁
      → IsFit (t i).copy
      → (t i).copy.nlink ≡ 0
      → ((y : ℕ) → y < sb.size → iblock (t i).inum sb ≢ bblock y sb)
      → IsMapped sb (t i).copy st
      → (t' : Itable) × (st' : Store) × (put_last sb i t (ip, st₁) ≡ some (t', st'))
        × Puts t ok i t'
        × ((t' i).valid ≡ false)
        × Gone sb (t i) st st'
  unfolding put_last iupdate write_at drop_ref
  put_last-Gone ip st₁ tr fit unlinked away mapped =
      let ip₁ : Inode = record ip { copy = record (ip.copy) { type = 0 } } in
      let same : ip.inum ≡ (t i).inum = tr.keeps_entry.0 in
      let fit₁ : IsFit ip₁.copy = record {
        type_fits = omega arith;
        major_fits = omega (arith, fit.major_fits, tr.keeps_major);
        minor_fits = omega (arith, fit.minor_fits, tr.keeps_minor);
        nlink_fits = omega (arith, fit.nlink_fits, tr.keeps_nlink);
        size_fits = omega (arith, tr.no_size);
        addrs_fit = λ k l. omega (arith, tr.no_blocks k l);
      } in
      let st₂ : Store = iupdate sb ip₁ st₁ in
      let agrees : Agrees (dinode_at sb st₂ (t i).inum) ip₁.copy =
        subst (λ n. Agrees (dinode_at sb st₂ n) ip₁.copy) same
          (written-Agrees sb st₁ ip.inum ip₁.copy fit₁) in
      let kept : (c : ℕ) → c ≢ iblock (t i).inum sb → st₂ c ≡ st₁ c =
        λ c n. not_written sb ip₁ st₁ c (λ e. n (e ∙ ap (λ k. iblock k sb) same)) in
      let marks : (y : ℕ) → y < sb.size → used sb st₂ y ≡ used sb st₁ y = λ y l.
        ap (λ (b : ℕ → ℕ). bit_at b (y % bpb)) (kept (bblock y sb) (λ e. away y l (sym e))) in
      (
        drop_ref i t (record ip₁ { valid = false }),
        st₂,
        refl,
        drop_ref-Puts t ok i (record ip₁ { valid = false }) h live tr.keeps_entry.2 tr.keeps_entry.1
            same,
        ap (λ (q : Inode). q.valid)
            (update_self t i (record ip₁ { valid = false; ref = ip₁.ref - 1 })),
        record {
          no_type = agrees.same_type;
          no_links = agrees.same_nlink ∙ (tr.keeps_nlink ∙ unlinked);
          no_content = agrees.same_size ∙ tr.no_size;
          freed = λ k l n. marks (slot (t i).copy st k) (mapped.in_size k l n) ∙ tr.frees k l n;
          freed_only = λ y l n. marks y l ∙ tr.frees_only y l n;
          untouched = λ c m n. kept c n ∙ tr.elsewhere c m n;
        },
      )

  -- For an entry with references, on a table where no inode has two entries with references, and
  -- where, if iput is to remove the inode, its fields fit, its blocks are in use, different, and none
  -- of the bitmap, and it is not in a block of the bitmap: iput does not panic, leaves the entry with one
  -- reference less and of the same inode, and changes no other entry. If that was the last reference
  -- and the inode is read in and has no links, the entry is to be read in anew, and iput leaves the
  -- inode on the disk without type, links and content and marks its blocks, and no others, as free.
  -- Otherwise the rest of the entry and the blocks are as they were.
  pub iput-Puts :
      (is_last (t i) ≡ true → IsRemovable sb (t i) st)
      → (is_last (t i) ≡ false
          → (t' : Itable) × (iput sb i t st ≡ some (t', st))
            × Puts t ok i t'
            × (t' i ≡ record (t i) { ref = (t i).ref - 1 }))
        × (is_last (t i) ≡ true
            → (t' : Itable) × (st' : Store) × (iput sb i t st ≡ some (t', st'))
              × Puts t ok i t'
              × ((t' i).valid ≡ false)
              × Gone sb (t i) st st')
  unfolding iput drop_ref
  iput-Puts removable = (
    λ off. (
      drop_ref i t (t i),
      rw off refl,
      drop_ref-Puts t ok i (t i) h live refl refl refl,
      update_self t i (record (t i) { ref = (t i).ref - 1 }),
    ),
    λ on.
        let inode = removable on in
        let unlinked : (t i).copy.nlink ≡ 0 = ground (arith, on) in
        let cut = itrunc-Truncates sb (t i) st inode.mapped inode.away in
        let last = put_last-Gone cut.0 cut.1 cut.3 inode.fit unlinked inode.away inode.mapped in
        (last.0, last.1, rw (on, cut.2) last.2, last.3, last.4, last.5),
  )
