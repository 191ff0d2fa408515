-- ===== src/FileMap.antt =====
-- kernel/fs.c, the content of an inode: the blocks that it maps, and their release. The operations work
-- on the copy of the inode in memory and on the contents of the blocks; the caller holds the inode's lock.
pub mod Slots
pub mod Mapping
pub mod Indirect
pub mod Bmap
pub mod Released
pub mod Release
pub mod Truncate
pub mod Sample
mod Tests
use operating_systems_ass.Base.{
  ℕ, zero, suc, ◌+◌, ◌-◌, ◌*◌, ◌/◌, ◌%◌, Bool, true, false, Option, none, some, ltb, ◌==◌,
  if◌then◌else◌, update, ◌>>=◌,
}
use operating_systems_ass.Words.{word_at, set_word}
use operating_systems_ass.Blocks.{Superblock, Store, balloc, bfree, bsize}
use operating_systems_ass.Dinode.{Dinode, Inode, iupdate, ndirect}

abbrev pub nindirect : ℕ
nindirect = bsize / 4

abbrev pub maxfile : ℕ
maxfile = ndirect + nindirect

-- What bmap returns, with the inode and the blocks that it leaves.
pub record Mapped : Type 0 where
  pub addr : ℕ
  pub copy : Dinode
  pub store : Store

-- `ip->addrs[k] = addr`, unless balloc gave 0
unfoldable pub put_addr : ℕ → Dinode → ℕ × Store → Mapped
put_addr k d (a, st) = record {
  addr = a;
  copy = if a == 0 then d else record d { addrs = update d.addrs k a };
  store = st;
}

-- `ip->addrs[k]`, with a block allocated if it is 0
unfoldable pub get_addr : Superblock → ℕ → Dinode → Store → Mapped
get_addr sb k d st =
    if d.addrs k == 0
    then put_addr k d (balloc sb st)
    else record { addr = d.addrs k; copy = d; store = st }

-- `a[j] = addr` in the indirect block `p`, unless balloc gave 0
unfoldable pub put_word : ℕ → ℕ → Dinode → ℕ × Store → Mapped
put_word j p d (a, st) = record {
  addr = a;
  copy = d;
  store = if a == 0 then st else update st p (set_word j a (st p));
}

-- `a[j]` of the indirect block that was looked up, with a block allocated if it is 0
unfoldable pub get_word : Superblock → ℕ → Mapped → Mapped
get_word sb j mp =
    if mp.addr == 0
    then mp
    else if word_at (mp.store mp.addr) j == 0
    then put_word j mp.addr mp.copy (balloc sb mp.store)
    else record mp { addr = word_at (mp.store mp.addr) j }

-- `none` is the panic.
unfoldable pub bmap : Superblock → Dinode → ℕ → Store → Option Mapped
bmap sb d bn st =
    if ltb bn ndirect
    then some (get_addr sb bn d st)
    else if ltb (bn - ndirect) nindirect
    then some (get_word sb (bn - ndirect) (get_addr sb ndirect d st))
    else none

-- `bfree(ip->dev, ip->addrs[k]); ip->addrs[k] = 0`, unless that address is 0
unfoldable pub free_addr : Superblock → ℕ → Dinode × Store → Option (Dinode × Store)
free_addr sb k (d, st) =
    if d.addrs k == 0
    then some (d, st)
    else do st₁ ← bfree sb (d.addrs k) st; some (record d { addrs = update d.addrs k 0 }, st₁)

-- The first rounds of itrunc's loop over the addresses
unfoldable pub free_addrs : ℕ → Superblock → Dinode → Store → Option (Dinode × Store)
free_addrs zero sb d st = some (d, st)
free_addrs (suc k) sb d st = do r ← free_addrs k sb d st; free_addr sb k r

-- The first rounds of its loop over the entries of the indirect block `p`
unfoldable pub free_words : ℕ → Superblock → ℕ → Store → Option Store
free_words zero sb p st = some st
free_words (suc j) sb p st = do
  st₁ ← free_words j sb p st
  if word_at (st₁ p) j == 0 then some st₁ else bfree sb (word_at (st₁ p) j) st₁

unfoldable pub free_indirect : Superblock → Dinode × Store → Option (Dinode × Store)
free_indirect sb (d, st) =
    if d.addrs ndirect == 0
    then some (d, st)
    else do st₁ ← free_words nindirect sb (d.addrs ndirect) st; free_addr sb ndirect (d, st₁)

-- `none` is the panic of bfree.
unfoldable pub itrunc : Superblock → Inode → Store → Option (Inode × Store)
itrunc sb ip st = do
  r ← free_addrs ndirect sb ip.copy st
  r₁ ← free_indirect sb r
  some (
    record ip { copy = record (r₁.0) { size = 0 } },
    iupdate sb (record ip { copy = record (r₁.0) { size = 0 } }) r₁.1,
  )
