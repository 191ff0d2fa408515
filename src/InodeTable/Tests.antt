-- ===== src/InodeTable/Tests.antt =====
-- Tests of the table of inodes, and the theorems at concrete inputs.
use operating_systems_ass.Base.{
  ℕ, ◌≡◌, refl, true, false, Option, none, some, arith, if◌then◌else◌, ◌==◌,
}
use operating_systems_ass.Blocks.{Store}
use operating_systems_ass.Dinode.{Dinode, blank}
use operating_systems_ass.Dinode.Layout.{IsFit}
use operating_systems_ass.FileMap.Slots.{slot, IsMapped}
use operating_systems_ass.Content.Holding.{same-IsMapped}
use operating_systems_ass.FileMap.Sample.{sb, disk, file, file-IsMapped}
use operating_systems_ass.InodeTable.{
  Itable, ninode, is_entry, find_entry, remember, iget_from, iget, is_last, iput,
}
use operating_systems_ass.InodeTable.References.{IsTable, GivesOr, iget-Gives, Puts}
use operating_systems_ass.InodeTable.Put.{IsRemovable, Gone, iput-Puts}

abbrev unlinked : Dinode
unlinked = record file { nlink = 0 }

-- Entry 1 is of inode 3, which has no links.
abbrev table : Itable
table i =
    if i == 1
    then record { dev = 1; inum = 3; ref = 1; valid = true; copy = unlinked }
    else record { dev = 0; inum = 0; ref = 0; valid = false; copy = blank 0 }

index_of : Option (ℕ × Itable) → ℕ
index_of none = ninode
index_of (some (i, t)) = i

cached_entry : index_of (iget table 1 3) ≡ 1
unfolding index_of iget iget_from find_entry remember
cached_entry = refl

first_empty : index_of (iget table 1 4) ≡ 0
unfolding index_of iget iget_from find_entry remember
first_empty = refl

only_one : (i dev inum : ℕ) → is_entry (table i) dev inum ≡ true → i ≡ 1
only_one i dev inum h = ground (arith, h)

table-IsTable : IsTable table
table-IsTable = record {
  unique =
      λ dev inum i j hi hj ei ej. omega (arith, only_one i dev inum ei, only_one j dev inum ej);
}

iget-Gives_example : GivesOr table 1 4 (iget table 1 4)
iget-Gives_example = iget-Gives table table-IsTable 1 4

file-IsFit : IsFit unlinked
file-IsFit = record {
  type_fits = omega arith;
  major_fits = omega arith;
  minor_fits = omega arith;
  nlink_fits = omega arith;
  size_fits = omega arith;
  addrs_fit = λ k _. ground arith;
}

unlinked-IsMapped : IsMapped sb unlinked disk
unfolding slot
unlinked-IsMapped =
    same-IsMapped sb file unlinked disk disk file-IsMapped (omega arith) (λ _ _. refl) (λ _ _. refl)
      file-IsMapped.bytes

removable : IsRemovable sb (table 1) disk
removable = record { fit = file-IsFit; mapped = unlinked-IsMapped; away = λ y h. omega arith }

iput-Puts_example :
    (is_last (table 1) ≡ false
      → (t' : Itable) × (iput sb 1 table disk ≡ some (t', disk))
        × Puts table table-IsTable 1 t'
        × (t' 1 ≡ record (table 1) { ref = 0 }))
    × (is_last (table 1) ≡ true
        → (t' : Itable) × (st' : Store) × (iput sb 1 table disk ≡ some (t', st'))
          × Puts table table-IsTable 1 t'
          × ((t' 1).valid ≡ false)
          × Gone sb (table 1) disk st')
iput-Puts_example =
    iput-Puts sb table 1 disk table-IsTable (omega arith) (omega arith) (λ _. removable)
