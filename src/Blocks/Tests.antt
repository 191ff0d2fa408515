-- ===== src/Blocks/Tests.antt =====
-- Tests of the bitmap of the blocks, and the theorems at concrete inputs.
use operating_systems_ass.Base.{ℕ, ◌≡◌, refl, none, arith, if◌then◌else◌, ◌==◌, ◌/◌}
use operating_systems_ass.Blocks.{
  bpb, Superblock, Store, fsmagic, fsinit, readsb, find_bit, balloc_round, balloc_from, balloc,
  bfree,
}
use operating_systems_ass.Words.{word_at}
use operating_systems_ass.Blocks.Bitmap.{IsBytes}
use operating_systems_ass.Blocks.Alloc.{Allocates, balloc-Allocates, MapUsed}

abbrev sb : Superblock
sb = record {
  magic = fsmagic;
  size = 20;
  nblocks = 12;
  ninodes = 16;
  nlog = 3;
  logstart = 2;
  inodestart = 5;
  bmapstart = 6;
}

-- Blocks 0 to 9 are in use.
abbrev disk : Store
disk c w = if c == 6 then (if w == 0 then 255 else if w == 1 then 3 else 0) else 77

disk_bytes : (c : ℕ) → IsBytes (disk c)
disk_bytes c w = ground arith

map_used : MapUsed sb disk disk_bytes
map_used y h = let map : y / bpb ≡ 0 = omega arith in rw map (omega arith)

not_made : fsinit disk ≡ none
unfolding fsinit readsb word_at
not_made = refl

next_free : (balloc sb disk).0 ≡ 10
unfolding balloc balloc_from balloc_round find_bit
next_free = refl

double_free : bfree sb 11 disk ≡ none
unfolding bfree
double_free = refl

balloc-Allocates_example : Allocates sb disk disk_bytes (balloc sb disk)
balloc-Allocates_example = balloc-Allocates sb disk disk_bytes map_used
