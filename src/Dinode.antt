-- ===== src/Dinode.antt =====
-- kernel/fs.c, inodes on the disk: `struct dinode` of kernel/fs.h in the bytes of its block, and the
-- operations that copy an inode between memory and its block.
pub mod Layout
pub mod Copies
pub mod Ialloc
mod Tests
use operating_systems_ass.Base.{
  ℕ, zero, suc, ◌+◌, ◌-◌, ◌*◌, ◌/◌, ◌%◌, Bool, true, false, Option, none, some, ltb, ◌==◌,
  if◌then◌else◌, update,
}
use operating_systems_ass.Blocks.{Superblock, Store}
use operating_systems_ass.Words.{Bytes, half_at, set_half, word_at, set_word}

abbrev pub ndirect : ℕ
ndirect = 12

-- Inodes per block
abbrev pub ipb : ℕ
ipb = 16

-- `IBLOCK`
abbrev pub iblock : ℕ → Superblock → ℕ
iblock i sb = i / ipb + sb.inodestart

-- The shorts are kept as their bits.
pub record Dinode : Type 0 where
  pub type : ℕ
  pub major : ℕ
  pub minor : ℕ
  pub nlink : ℕ
  pub size : ℕ
  pub addrs : ℕ → ℕ  -- read up to `ndirect`

-- `memmove(dip->addrs, ip->addrs, sizeof(ip->addrs))`, for the first addresses
unfoldable pub set_addrs : ℕ → ℕ → (ℕ → ℕ) → Bytes → Bytes
set_addrs zero n addrs block = block
set_addrs (suc k) n addrs block = set_word (16 * n + 3 + k) (addrs k) (set_addrs k n addrs block)

-- The `n`-th inode of a block, as it is assigned field by field
unfoldable pub write_dinode : ℕ → Dinode → Bytes → Bytes
write_dinode n d block =
    let block₁ = set_half (32 * n) d.type block in
    let block₂ = set_half (32 * n + 1) d.major block₁ in
    let block₃ = set_half (32 * n + 2) d.minor block₂ in
    let block₄ = set_half (32 * n + 3) d.nlink block₃ in
    let block₅ = set_word (16 * n + 2) d.size block₄ in set_addrs (ndirect + 1) n d.addrs block₅

unfoldable pub read_dinode : ℕ → Bytes → Dinode
read_dinode n block = record {
  type = half_at block (32 * n);
  major = half_at block (32 * n + 1);
  minor = half_at block (32 * n + 2);
  nlink = half_at block (32 * n + 3);
  size = word_at block (16 * n + 2);
  addrs = λ k. word_at block (16 * n + 3 + k);
}

-- `struct inode`, without its lock
pub record Inode : Type 0 where
  pub dev : ℕ
  pub inum : ℕ
  pub ref : ℕ
  pub valid : Bool
  pub copy : Dinode

unfoldable pub iupdate : Superblock → Inode → Store → Store
iupdate sb ip st =
    update st (iblock ip.inum sb) (write_dinode (ip.inum % ipb) ip.copy (st (iblock ip.inum sb)))

-- The part of ilock that reads the inode; `none` is the panic of an inode without a type.
unfoldable pub load : Superblock → Store → Inode → Option Inode
load sb st ip =
    let d = read_dinode (ip.inum % ipb) (st (iblock ip.inum sb)) in
    if ip.valid
    then some ip
    else if d.type == 0
    then none
    else some (record ip { copy = d; valid = true })

abbrev pub blank : ℕ → Dinode
blank type = record { type = type; major = 0; minor = 0; nlink = 0; size = 0; addrs = λ _. 0 }

-- The loop of ialloc from `inum` on: the inode that it marks as allocated.
unfoldable pub ialloc_from : ℕ → Superblock → (type inum : ℕ) → Store → Option (ℕ × Store)
ialloc_from zero sb type inum st = none
ialloc_from (suc k) sb type inum st =
    let rest = ialloc_from k sb type (inum + 1) st in
    let block = st (iblock inum sb) in
    if (read_dinode (inum % ipb) block).type == 0
    then some (inum, update st (iblock inum sb) (write_dinode (inum % ipb) (blank type) block))
    else rest

-- `ialloc` up to its call of iget
unfoldable pub ialloc : Superblock → ℕ → Store → Option (ℕ × Store)
ialloc sb type st = ialloc_from (sb.ninodes - 1) sb type 1 st
