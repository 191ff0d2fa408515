-- ===== src/FileMap/Truncate.antt =====
-- itrunc on the blocks of a file.
use operating_systems_ass.Base.{
  ℕ, ◌%◌, ◌<◌, ◌≤◌, ◌≡◌, refl, ◌≢◌, ◌∙◌, sym, ap, some, arith, update_ne,
}
use operating_systems_ass.Blocks.{bpb, bit_at, Superblock, Store, bblock}
use operating_systems_ass.Blocks.Alloc.{used}
use operating_systems_ass.Dinode.{Inode, iblock, iupdate, ndirect}
use operating_systems_ass.FileMap.{maxfile, itrunc}
use operating_systems_ass.FileMap.Slots.{slot, IsMapped}
use operating_systems_ass.FileMap.Release.{free_addrs_lem, free_indirect_lem}

pub not_written :
    (sb : Superblock) (ip : Inode) (st : Store) (c : ℕ)
    → c ≢ iblock ip.inum sb
    → iupdate sb ip st c ≡ st c
unfolding iupdate
not_written sb ip st c n = update_ne st (iblock ip.inum sb) c _ (λ e. n (sym e))

-- The file after itrunc
pub record Truncates (sb : Superblock) (ip : Inode) (st : Store) (ip' : Inode) (st' : Store)
    : Type 0 where
  pub no_blocks : (i : ℕ) → i ≤ ndirect → ip'.copy.addrs i ≡ 0
  pub no_size : ip'.copy.size ≡ 0
  pub keeps_type : ip'.copy.type ≡ ip.copy.type
  pub keeps_nlink : ip'.copy.nlink ≡ ip.copy.nlink
  pub keeps_major : ip'.copy.major ≡ ip.copy.major
  pub keeps_minor : ip'.copy.minor ≡ ip.copy.minor
  pub keeps_entry : (ip'.inum ≡ ip.inum) × (ip'.dev ≡ ip.dev) × (ip'.ref ≡ ip.ref)
  pub frees : (k : ℕ) → k ≤ maxfile → slot ip.copy st k ≢ 0 → used sb st' (slot ip.copy st k) ≡ 0
  pub frees_only :
      (y : ℕ)
      → y < sb.size
      → ((k : ℕ) → k ≤ maxfile → slot ip.copy st k ≢ 0 → slot ip.copy st k ≢ y)
      → used sb st' y ≡ used sb st y
  pub elsewhere :
      (c : ℕ) → ((y : ℕ) → y < sb.size → c ≢ bblock y sb) → c ≢ iblock ip.inum sb → st' c ≡ st c

-- For a file whose blocks are in use, different, and none of the bitmap, and whose inode is not in a
-- block of the bitmap: itrunc does not panic; it leaves no address and no size, and the type, device and
-- number of links as they were; it marks the blocks with the content and the indirect block as free,
-- and no others, and writes no block but those of the bitmap and that of the inode.
pub itrunc-Truncates :
    (sb : Superblock) (ip : Inode) (st : Store)
    → IsMapped sb ip.copy st
    → ((y : ℕ) → y < sb.size → iblock ip.inum sb ≢ bblock y sb)
    → (ip' : Inode) × (st' : Store) × (itrunc sb ip st ≡ some (ip', st'))
      × Truncates sb ip st ip' st'
unfolding itrunc
itrunc-Truncates sb ip st valid away =
    let one = free_addrs_lem sb ip.copy st valid ndirect (omega arith) in
    let two = free_indirect_lem sb ip.copy st valid one.0 one.1 one.3 one.4 in
    let ip' : Inode = record ip { copy = record (two.0) { size = 0 } } in
    let mapped : (y : ℕ) → y < sb.size → used sb (iupdate sb ip' two.1) y ≡ used sb two.1 y = λ y h.
      ap (λ (b : ℕ → ℕ). bit_at b (y % bpb))
        (not_written sb ip' two.1 (bblock y sb) (λ e. away y h (sym e))) in
    (
      ip',
      iupdate sb ip' two.1,
      rw (one.2, two.2) refl,
      record {
        no_blocks = λ i h. two.3.zeroed i (omega arith);
        no_size = refl;
        keeps_type = two.3.same_type;
        keeps_nlink = two.3.same_nlink;
        keeps_major = two.3.same_major;
        keeps_minor = two.3.same_minor;
        keeps_entry = (refl, refl, refl);
        frees = λ k h n.
            mapped (slot ip.copy st k) (valid.in_size k h n) ∙ two.4.cleared k (omega arith) n;
        frees_only = λ y h apart. mapped y h ∙ two.4.left y (λ l m. apart l (omega arith));
        elsewhere = λ c h n. not_written sb ip' two.1 c n ∙ two.4.rest c h;
      },
    )
