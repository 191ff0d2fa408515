-- ===== src/Directory.antt =====
-- kernel/fs.c, directories: dirlookup, over readi. The entry `de` on the stack and the name that is
-- looked up are regions of one memory.
pub mod Names
pub mod Lookup
mod Tests
use operating_systems_ass.Base.{
  ℕ, zero, suc, ◌+◌, ◌*◌, ◌/◌, ◌^◌, ℤ, pos, negsuc, Bool, true, false, Option, none, some, ltb,
  ◌==◌, if◌then◌else◌, ◌>>=◌,
}
use operating_systems_ass.Blocks.{Superblock, Store}
use operating_systems_ass.Dinode.{Dinode}
use operating_systems_ass.Memory.{strncmp}
use operating_systems_ass.Content.{Bytes, kernel_copyout, ReadResult, readi}
use operating_systems_ass.PathName.{dirsiz}

-- `T_DIR`
abbrev pub t_dir : ℕ
t_dir = 1

-- `sizeof(struct dirent)`: the number of the inode in two bytes, then the name
abbrev pub dirent_size : ℕ
dirent_size = 2 + dirsiz

abbrev pub short_at : Bytes → ℕ → ℕ
short_at m p = m p + 2 ^ 8 * m (p + 1)

abbrev pub is_zero : ℤ → Bool
is_zero (pos zero) = true
is_zero (pos (suc n)) = false
is_zero (negsuc n) = false

unfoldable pub namecmp : (s t : ℕ) → Bytes → ℤ
namecmp s t m = strncmp s t dirsiz m

-- The offset and the number of the entry, and what the calls of readi leave
pub record Looked : Type 0 where
  pub found : Option (ℕ × ℕ)
  pub dir : Dinode
  pub store : Store
  pub memory : Bytes

abbrev pub is_count : ℕ → Option ℕ → Bool
is_count n none = false
is_count n (some k) = k == n

-- A round of dirlookup after its call of readi; `next` is the next round.
unfoldable pub look_at :
    (next : ReadResult → Option Looked) → (name de off : ℕ) → ReadResult → Option Looked
look_at next name de off r =
    let inum = short_at r.memory de in
    let rest = next r in
    if is_count dirent_size r.count
    then (if inum == 0
        then rest
        else if is_zero (namecmp name (de + 2) r.memory)
        then some
            (record { found = some (off, inum); dir = r.copy; store = r.store; memory = r.memory })
        else rest)
    else none

-- The loop of dirlookup; `none` is a panic, or the end of the fuel.
unfoldable pub dirlookup_from :
    ℕ → Superblock → Dinode → (name de off : ℕ) → Store → Bytes → Option Looked
dirlookup_from zero sb d name de off st memory = none
dirlookup_from (suc fuel) sb d name de off st memory =
    let next = λ (r : ReadResult).
      dirlookup_from fuel sb r.copy name de (off + dirent_size) r.store r.memory in
    if ltb off d.size
    then readi kernel_copyout sb d de off dirent_size st memory >>= look_at next name de off
    else some (record { found = none; dir = d; store = st; memory = memory })

-- `dirlookup` up to its call of iget
unfoldable pub dirlookup : Superblock → Dinode → (name de : ℕ) → Store → Bytes → Option Looked
dirlookup sb d name de st memory =
    if d.type == t_dir
    then dirlookup_from (d.size / dirent_size + 2) sb d name de 0 st memory
    else none
