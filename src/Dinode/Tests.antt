-- ===== src/Dinode/Tests.antt =====
-- Tests of the inodes on the disk, and the theorems at concrete inputs.
use operating_systems_ass.Base.{
  ℕ, ◌≡◌, refl, true, false, Option, none, some, arith, ◌+◌, ◌≢◌, if◌then◌else◌, ltb,
}
use operating_systems_ass.Blocks.{Superblock, Store, fsmagic}
use operating_systems_ass.Dinode.{
  Dinode, Inode, iupdate, load, blank, ialloc, read_dinode, write_dinode, set_addrs,
}
use operating_systems_ass.Dinode.Layout.{IsFit, Agrees}
use operating_systems_ass.Dinode.Copies.{dinode_at, Loads, load-iupdate}
use operating_systems_ass.Dinode.Ialloc.{Marked, ialloc-Marked}
use operating_systems_ass.Words.{half_at, set_half, word_at, set_word}

abbrev sb : Superblock
sb = record {
  magic = fsmagic;
  size = 2000;
  nblocks = 1953;
  ninodes = 200;
  nlog = 30;
  logstart = 2;
  inodestart = 32;
  bmapstart = 45;
}

abbrev empty : Store
empty _ _ = 0

abbrev file : Dinode
file = record {
  type = 2;
  major = 0;
  minor = 0;
  nlink = 1;
  size = 70000;
  addrs = λ k. if ltb k 3 then 1000 + k else 0;
}

abbrev entry : Inode
entry = record { dev = 1; inum = 17; ref = 1; valid = true; copy = file }

abbrev unread : Inode
unread = record { dev = 1; inum = 17; ref = 2; valid = false; copy = blank 0 }

abbrev size_of : Option Inode → ℕ
size_of none = 0
size_of (some ip) = ip.copy.size

size_kept : size_of (load sb (iupdate sb entry empty) unread) ≡ 70000
unfolding load iupdate read_dinode write_dinode set_addrs half_at set_half word_at set_word
size_kept = refl

no_type : load sb empty unread ≡ none
unfolding load read_dinode half_at
no_type = refl

file-IsFit : IsFit file
file-IsFit = record {
  type_fits = omega arith;
  major_fits = omega arith;
  minor_fits = omega arith;
  nlink_fits = omega arith;
  size_fits = omega arith;
  addrs_fit = λ i _. ground arith;
}

load-iupdate_example :
    Loads sb (iupdate sb entry empty) unread file
    × ((j : ℕ) → 17 ≢ j → Agrees (dinode_at sb (iupdate sb entry empty) j) (dinode_at sb empty j))
load-iupdate_example = load-iupdate sb empty entry unread file-IsFit (omega arith) refl refl

ialloc-Marked_example :
    Marked sb (iupdate sb entry empty) 1 1 199 (ialloc sb 1 (iupdate sb entry empty))
ialloc-Marked_example = ialloc-Marked sb (iupdate sb entry empty) 1 (omega arith)
