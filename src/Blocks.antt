-- ===== src/Blocks.antt =====
-- kernel/fs.c, the block layer: the bitmap of the blocks in use, on the contents of blocks that bread
-- gives and that log_write records. There is one device. Bit k of a byte v is `v / 2 ^ k % 2`: to set
-- it when it is 0 adds 2 ^ k, and to clear it when it is 1 takes 2 ^ k away.
pub mod Bits
pub mod Bitmap
pub mod Alloc
mod Tests
use operating_systems_ass.Base.{
  ℕ, zero, suc, ◌+◌, ◌-◌, ◌*◌, ◌/◌, ◌%◌, ◌^◌, min, Bool, Option, none, some, ltb, ◌==◌,
  if◌then◌else◌, update,
}
use operating_systems_ass.Words.{word_at}

abbrev pub bsize : ℕ
bsize = 1024

-- Bitmap bits per block
abbrev pub bpb : ℕ
bpb = bsize * 8

abbrev pub fsmagic : ℕ
fsmagic = 0x10203040

pub record Superblock : Type 0 where
  pub magic : ℕ
  pub size : ℕ
  pub nblocks : ℕ
  pub ninodes : ℕ
  pub nlog : ℕ
  pub logstart : ℕ
  pub inodestart : ℕ
  pub bmapstart : ℕ

-- The bytes of each block
abbrev pub Store : Type 0
Store = ℕ → ℕ → ℕ

-- `memmove(sb, bp->data, sizeof(*sb))`
unfoldable pub readsb : Store → Superblock
readsb st = record {
  magic = word_at (st 1) 0;
  size = word_at (st 1) 1;
  nblocks = word_at (st 1) 2;
  ninodes = word_at (st 1) 3;
  nlog = word_at (st 1) 4;
  logstart = word_at (st 1) 5;
  inodestart = word_at (st 1) 6;
  bmapstart = word_at (st 1) 7;
}

-- `fsinit` up to its call of initlog; `none` is the panic.
unfoldable pub fsinit : Store → Option Superblock
fsinit st = let sb = readsb st in if sb.magic == fsmagic then some sb else none

unfoldable pub bzero : ℕ → Store → Store
bzero bno st = update st bno (λ w. if ltb w bsize then 0 else st bno w)

-- `BBLOCK`
abbrev pub bblock : ℕ → Superblock → ℕ
bblock b sb = b / bpb + sb.bmapstart

-- `bp->data[bi/8] & m`, as 0 or 1
abbrev pub bit_at : (ℕ → ℕ) → ℕ → ℕ
bit_at block bi = block (bi / 8) / 2 ^ (bi % 8) % 2

-- The inner loop of balloc from `bi` on
unfoldable pub find_bit : ℕ → ℕ → (ℕ → ℕ) → Option ℕ
find_bit zero bi block = none
find_bit (suc k) bi block =
    let rest = find_bit k (bi + 1) block in if bit_at block bi == 0 then some bi else rest

-- `bp->data[bi/8] |= m` of a bit that is 0
unfoldable pub set_bit : ℕ → (ℕ → ℕ) → ℕ → ℕ
set_bit bi block = update block (bi / 8) (block (bi / 8) + 2 ^ (bi % 8))

-- `bp->data[bi/8] &= ~m` of a bit that is 1
unfoldable pub clear_bit : ℕ → (ℕ → ℕ) → ℕ → ℕ
clear_bit bi block = update block (bi / 8) (block (bi / 8) - 2 ^ (bi % 8))

-- A round of the outer loop with what the inner loop finds; `next` is the next round.
unfoldable pub balloc_round : Superblock → ℕ → Store → (next : ℕ × Store) → Option ℕ → ℕ × Store
balloc_round sb b st next none = next
balloc_round sb b st next (some bi) =
    (b + bi, bzero (b + bi) (update st (bblock b sb) (set_bit bi (st (bblock b sb)))))

-- The outer loop from `b` on
unfoldable pub balloc_from : ℕ → Superblock → ℕ → Store → ℕ × Store
balloc_from zero sb b st = (0, st)
balloc_from (suc fuel) sb b st =
    let next = balloc_from fuel sb (b + bpb) st in
    if ltb b sb.size
    then balloc_round sb b st next (find_bit (min bpb (sb.size - b)) 0 (st (bblock b sb)))
    else (0, st)

-- `balloc`, with one round for each block of the bitmap; it returns 0 when no block is free.
unfoldable pub balloc : Superblock → Store → ℕ × Store
balloc sb st = balloc_from (sb.size / bpb + 1) sb 0 st

-- `none` is the panic.
unfoldable pub bfree : Superblock → ℕ → Store → Option Store
bfree sb b st =
    let block = st (bblock b sb) in
    if bit_at block (b % bpb) == 0
    then none
    else some (update st (bblock b sb) (clear_bit (b % bpb) block))
