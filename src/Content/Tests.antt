-- ===== src/Content/Tests.antt =====
-- Tests of readi and writei, and the theorems at concrete inputs.
use operating_systems_ass.Base.{
  ℕ, ◌≡◌, refl, true, Option, none, some, arith, ◌+◌, ◌*◌, ◌<◌, ◌≤◌, ◌⊎◌, ◌/◌,
}
use operating_systems_ass.Blocks.{bsize, Store}
use operating_systems_ass.Dinode.{Inode}
use operating_systems_ass.FileMap.{maxfile, bmap, get_addr}
use operating_systems_ass.FileMap.Slots.{slot}
use operating_systems_ass.FileMap.Sample.{sb, disk, file, one_block, file-IsMapped}
use operating_systems_ass.Content.{
  Bytes, kernel_copyout, kernel_copyin, ReadResult, read_from, read_block, read_rest, readi, writei,
}
use operating_systems_ass.Content.Reading.{IsFull, Reads, readi-Reads, readable}
use operating_systems_ass.Content.Writing.{HasOwn, Writes, writei-Writes}

abbrev zeroes : Bytes
zeroes _ = 0

abbrev count_of : Option ReadResult → Option ℕ
count_of none = none
count_of (some r) = r.count

abbrev byte_of : ℕ → Option ReadResult → ℕ
byte_of p none = 0
byte_of p (some r) = r.memory p

three_left : count_of (readi kernel_copyout sb file 500 97 20 disk zeroes) ≡ some 3
unfolding readi read_from read_block read_rest bmap get_addr
three_left = refl

last_byte : byte_of 502 (readi kernel_copyout sb file 500 97 20 disk zeroes) ≡ 77
unfolding readi read_from read_block read_rest bmap get_addr
last_byte = refl

behind_end : count_of (readi kernel_copyout sb file 500 101 20 disk zeroes) ≡ some 0
unfolding readi
behind_end = refl

file-IsFull : IsFull file disk
unfolding slot
file-IsFull = record {
  bounded = omega arith;
  has_block = λ i h. let first : i / bsize ≡ 0 = omega arith in rw first (omega arith);
}

abbrev inode : Inode
inode = record { dev = 1; inum = 3; ref = 1; valid = true; copy = file }

inode-HasOwn : HasOwn sb inode disk
unfolding slot
inode-HasOwn = record {
  in_size = omega arith;
  in_use = omega arith;
  not_map = λ y h. omega arith;
  not_own = λ k h n. rw (one_block k n) (omega arith);
}

readi-Reads_example :
    Reads file disk
      (readable sb file disk file-IsFull 97 20)
      97
      500
      (readable sb file disk file-IsFull 97 20)
      zeroes
      (readi kernel_copyout sb file 500 97 20 disk zeroes)
readi-Reads_example = readi-Reads sb file disk file-IsFull 500 97 20 zeroes (omega arith)

writei-Writes_example :
    ((100 < 90) ⊎ (maxfile * bsize < 90 + 2000)
      → writei (kernel_copyin zeroes) sb inode 4096 90 2000 disk ≡ some (none, inode, disk))
    × (90 ≤ 100
        → 90 + 2000 ≤ maxfile * bsize
        → (ip' : Inode) × (st' : Store) × (t : ℕ) × (writei
              (kernel_copyin zeroes)
              sb
              inode
              4096
              90
              2000
              disk
            ≡ some (some t, ip', st'))
          × Writes sb inode disk zeroes 4096 90 2000 ip' st' t)
writei-Writes_example =
    writei-Writes sb inode disk (omega arith) zeroes (λ w. omega arith) 4096 90 2000 file-IsMapped
      file-IsFull inode-HasOwn (omega arith)
