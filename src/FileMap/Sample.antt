-- ===== src/FileMap/Sample.antt =====
-- A small file, for the tests.
use operating_systems_ass.Base.{ℕ, ◌≡◌, arith, ◌≢◌, if◌then◌else◌, ◌==◌, ◌/◌, ◌∙◌, sym}
use mathlib.Core.Path.{subst}
use operating_systems_ass.Blocks.{bpb, Superblock, Store, fsmagic, bblock}
use operating_systems_ass.Dinode.{Dinode}
use operating_systems_ass.FileMap.Slots.{slot, word_of, IsMapped}

abbrev pub sb : Superblock
sb = record {
  magic = fsmagic;
  size = 20;
  nblocks = 12;
  ninodes = 16;
  nlog = 3;
  logstart = 2;
  inodestart = 5;
  bmapstart = 6;
}

-- Blocks 0 to 9 are in use.
abbrev pub disk : Store
disk c w = if c == 6 then (if w == 0 then 255 else if w == 1 then 3 else 0) else 77

-- The first block of the file is block 8.
abbrev pub file : Dinode
file = record {
  type = 2;
  major = 0;
  minor = 0;
  nlink = 1;
  size = 100;
  addrs = λ k. if k == 0 then 8 else 0;
}

pub slots : (k : ℕ) → slot file disk k ≡ (if k == 0 then 8 else 0)
unfolding slot word_of
slots k = ground arith

pub one_block : (k : ℕ) → slot file disk k ≢ 0 → k ≡ 0
one_block k n = ground (arith, slots k, n)

pub file-IsMapped : IsMapped sb file disk
unfolding slot
file-IsMapped = record {
  bytes = λ c w. ground arith;
  map_within = λ y h. omega arith;
  map_used = λ y h. let map : y / bpb ≡ 0 = omega arith in rw map (omega arith);
  boot_used = omega arith;
  in_use = λ k h n. rw (one_block k n) (omega arith);
  in_size = λ k h n. rw (one_block k n) (omega arith);
  not_map = λ k y h l n e.
      let at : slot file disk 0 ≡ bblock y sb =
        subst (λ k. slot file disk k ≡ bblock y sb) (one_block k n) e in
      omega (arith, at);
  apart = λ k l hk hl n e. one_block k n ∙ sym (one_block l (λ z. n (e ∙ z)));
}
