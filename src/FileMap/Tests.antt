-- ===== src/FileMap/Tests.antt =====
-- Tests of the blocks of a file, and the theorems at concrete inputs.
use operating_systems_ass.Base.{ℕ, ◌≡◌, refl, true, Option, none, some, arith, ◌<◌, ◌≤◌}
use operating_systems_ass.Blocks.{
  Store, bzero, find_bit, set_bit, balloc_round, balloc_from, balloc,
}
use operating_systems_ass.Dinode.{Inode}
use operating_systems_ass.FileMap.{maxfile, Mapped, bmap, get_addr, put_addr, itrunc}
use operating_systems_ass.FileMap.Mapping.{Gets}
use operating_systems_ass.FileMap.Bmap.{bmap-Gets}
use operating_systems_ass.FileMap.Truncate.{Truncates, itrunc-Truncates}
use operating_systems_ass.FileMap.Sample.{sb, disk, file, file-IsMapped}

abbrev addr_of : Option Mapped → ℕ
addr_of none = 0
addr_of (some mp) = mp.addr

mapped_block : addr_of (bmap sb file 0 disk) ≡ 8
unfolding bmap get_addr
mapped_block = refl

new_block : addr_of (bmap sb file 1 disk) ≡ 10
unfolding bmap get_addr put_addr balloc balloc_from balloc_round find_bit bzero set_bit
new_block = refl

out_of_range : bmap sb file 268 disk ≡ none
unfolding bmap
out_of_range = refl

bmap-Gets_example :
    (13 < maxfile
      → (mp : Mapped) × (bmap sb file 13 disk ≡ some mp) × Gets sb file disk maxfile 13 mp)
    × (maxfile ≤ 13 → bmap sb file 13 disk ≡ none)
bmap-Gets_example = bmap-Gets sb file disk file-IsMapped (omega arith) 13

abbrev inode : Inode
inode = record { dev = 1; inum = 3; ref = 1; valid = true; copy = file }

itrunc-Truncates_example :
    (ip' : Inode) × (st' : Store) × (itrunc sb inode disk ≡ some (ip', st'))
    × Truncates sb inode disk ip' st'
itrunc-Truncates_example = itrunc-Truncates sb inode disk file-IsMapped (λ y h. omega arith)
