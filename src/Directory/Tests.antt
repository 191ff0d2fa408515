-- ===== src/Directory/Tests.antt =====
-- Tests of dirlookup, and the theorem at a concrete directory.
use operating_systems_ass.Base.{
  ℕ, ◌≡◌, refl, Option, none, some, arith, ◌+◌, ◌<◌, ◌≤◌, ◌≢◌, ◌⊎◌, inr, if◌then◌else◌, ◌==◌, ◌/◌,
}
use operating_systems_ass.Blocks.{bsize, Store}
use operating_systems_ass.Dinode.{Dinode}
use operating_systems_ass.FileMap.{bmap, get_addr}
use operating_systems_ass.FileMap.Slots.{slot}
use operating_systems_ass.FileMap.Sample.{sb}
use operating_systems_ass.Memory.{strncmp}
use operating_systems_ass.PathName.{dirsiz}
use operating_systems_ass.Content.{Bytes, read_from, read_block, read_rest, readi}
use operating_systems_ass.Content.Reading.{IsFull}
use operating_systems_ass.Directory.{
  dirent_size, t_dir, Looked, namecmp, look_at, dirlookup_from, dirlookup,
}
use operating_systems_ass.Directory.Lookup.{Result, dirlookup-Finds}

-- Two entries, in block 8: one that is not in use, and inode 7 with the name "a"
abbrev disk : Store
disk c w = if c == 8 then (if w == 16 then 7 else if w == 18 then b'a' else 0) else 0

abbrev dir : Dinode
dir = record {
  type = 1;
  major = 0;
  minor = 0;
  nlink = 1;
  size = 32;
  addrs = λ k. if k == 0 then 8 else 0;
}

-- The names "a" at 100 and "b" at 200
abbrev names : Bytes
names p = if p == 100 then b'a' else if p == 200 then b'b' else 0

abbrev found_in : Option Looked → Option (ℕ × ℕ)
found_in none = none
found_in (some l) = l.found

second_entry : found_in (dirlookup sb dir 100 0 disk names) ≡ some (16, 7)
unfolding dirlookup dirlookup_from look_at namecmp strncmp readi read_from read_block read_rest bmap
    get_addr
second_entry = refl

no_entry : found_in (dirlookup sb dir 200 0 disk names) ≡ none
unfolding dirlookup dirlookup_from look_at namecmp strncmp readi read_from read_block read_rest bmap
    get_addr
no_entry = refl

dir-IsFull : IsFull dir disk
unfolding slot
dir-IsFull = record {
  bounded = omega arith;
  has_block = λ i h. let first : i / bsize ≡ 0 = omega arith in rw first (omega arith);
}

apart : (i : ℕ) → i < dirsiz → (100 + i < 0) ⊎ (0 + dirent_size ≤ 100 + i)
apart i h = inr (omega arith)

dirlookup-Finds_example :
    (1 ≢ t_dir → dirlookup sb dir 100 0 disk names ≡ none)
    × (1 ≡ t_dir
        → Result sb dir disk dir-IsFull refl names 100 0 apart 0
            (dirlookup sb dir 100 0 disk names))
dirlookup-Finds_example = dirlookup-Finds sb dir disk dir-IsFull refl names 100 0 apart
