-- ===== src/InodeTable.antt =====
-- kernel/fs.c, the table of the inodes in memory: iget, idup and iput. An entry is named by its index.
-- Each operation is one step: iget and idup run under the table's lock, and so does iput but for
-- itrunc and iupdate, around which it lets the lock go, while the caller's is the only reference.
pub mod Search
pub mod References
pub mod Put
mod Tests
use operating_systems_ass.Base.{
  ℕ, zero, suc, ◌+◌, ◌-◌, Bool, true, false, ◌&&◌, Option, none, some, ltb, ◌==◌, if◌then◌else◌,
  update, ◌>>=◌,
}
use operating_systems_ass.Blocks.{Superblock, Store}
use operating_systems_ass.Dinode.{Inode, iupdate}
use operating_systems_ass.FileMap.{itrunc}

abbrev pub ninode : ℕ
ninode = 50

abbrev pub Itable : Type 0
Itable = ℕ → Inode

-- `ip->ref > 0 && ip->dev == dev && ip->inum == inum`
abbrev pub is_entry : Inode → ℕ → ℕ → Bool
is_entry ip dev inum = ltb 0 ip.ref && (ip.dev == dev && ip.inum == inum)

-- How the loop of iget ends: at the entry of the inode, or with `empty`
pub data Found : Type 0 where
  cached : ℕ → Found
  recycles : Option ℕ → Found

-- `if(empty == 0 && ip->ref == 0) empty = ip;`
unfoldable pub remember : Option ℕ → ℕ → Inode → Option ℕ
remember none i ip = if ip.ref == 0 then some i else none
remember (some e) i ip = some e

-- The loop of iget over `k` entries from `i` on
unfoldable pub find_entry : ℕ → ℕ → Itable → (dev inum : ℕ) → Option ℕ → Found
find_entry zero i t dev inum empty = recycles empty
find_entry (suc k) i t dev inum empty =
    let rest = find_entry k (i + 1) t dev inum (remember empty i (t i)) in
    if is_entry (t i) dev inum then cached i else rest

unfoldable pub iget_from : Itable → (dev inum : ℕ) → Found → Option (ℕ × Itable)
iget_from t dev inum (cached i) = some (i, update t i (record (t i) { ref = (t i).ref + 1 }))
iget_from t dev inum (recycles none) = none
iget_from t dev inum (recycles (some i)) =
    some (i, update t i (record (t i) { dev = dev; inum = inum; ref = 1; valid = false }))

-- `none` is the panic.
unfoldable pub iget : Itable → (dev inum : ℕ) → Option (ℕ × Itable)
iget t dev inum = iget_from t dev inum (find_entry ninode 0 t dev inum none)

unfoldable pub idup : ℕ → Itable → ℕ × Itable
idup i t = (i, update t i (record (t i) { ref = (t i).ref + 1 }))

-- `ip->ref--`, of an entry that is referenced
unfoldable pub drop_ref : ℕ → Itable → Inode → Itable
drop_ref i t ip = update t i (record ip { ref = ip.ref - 1 })

-- What follows itrunc in iput, with the inode and the blocks that itrunc leaves
unfoldable pub put_last : Superblock → ℕ → Itable → Inode × Store → Option (Itable × Store)
put_last sb i t (ip, st) =
    let ip₁ : Inode = record ip { copy = record (ip.copy) { type = 0 } } in
    some (drop_ref i t (record ip₁ { valid = false }), iupdate sb ip₁ st)

-- `ip->ref == 1 && ip->valid && ip->nlink == 0`
abbrev pub is_last : Inode → Bool
is_last ip = (ip.ref == 1) && (ip.valid && (ip.copy.nlink == 0))

-- `none` is a panic in itrunc.
unfoldable pub iput : Superblock → ℕ → Itable → Store → Option (Itable × Store)
iput sb i t st =
    if is_last (t i) then itrunc sb (t i) st >>= put_last sb i t else some (drop_ref i t (t i), st)
