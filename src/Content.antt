-- ===== src/Content.antt =====
-- kernel/fs.c, the bytes of a file: readi and writei. The copies to and from the caller, either_copyout
-- and either_copyin, are arguments: `kernel_copyout` and `kernel_copyin` are their branches for
-- addresses of the kernel. A copy says whether it succeeded, and what is in the memory or in the block
-- then. Numbers of bytes and blocks are as they are in the source; the test against wrap-around of
-- `off + n` is at 32 bits.
pub mod Reading
pub mod Holding
pub mod Block
pub mod Loop
pub mod Writing
mod Tests
use operating_systems_ass.Base.{
  ℕ, zero, suc, ◌+◌, ◌-◌, ◌*◌, ◌/◌, ◌%◌, ◌^◌, min, Bool, true, false, ◌&&◌, ◌||◌, Option, none,
  some, ltb, leb, ◌==◌, if◌then◌else◌, update, ◌>>=◌,
}
use operating_systems_ass.Blocks.{Superblock, Store, bsize}
use operating_systems_ass.Dinode.{Dinode, Inode, iupdate}
use operating_systems_ass.FileMap.{maxfile, Mapped, bmap}

abbrev pub Bytes : Type 0
Bytes = ℕ → ℕ

-- `len` bytes of `from` at `start`, into `to` at `at`
abbrev pub paste : (from : Bytes) → (start : ℕ) → (to : Bytes) → (at len : ℕ) → Bytes
paste from start to at len p =
    if leb at p && ltb p (at + len) then from (start + (p - at)) else to p

-- The destination, the block, where in the block to start, the number of bytes, the memory
abbrev pub Copyout : Type 0
Copyout = ℕ → Bytes → ℕ → ℕ → Bytes → Bool × Bytes

abbrev pub kernel_copyout : Copyout
kernel_copyout dst block start len memory = (true, paste block start memory dst len)

-- The source, where in the block to start, the number of bytes, the block
abbrev pub Copyin : Type 0
Copyin = ℕ → ℕ → ℕ → Bytes → Bool × Bytes

abbrev pub kernel_copyin : Bytes → Copyin
kernel_copyin memory src start len block = (true, paste memory src block start len)

-- The number of bytes that readi returns, `none` for -1, and what it leaves
pub record ReadResult : Type 0 where
  pub count : Option ℕ
  pub copy : Dinode
  pub store : Store
  pub memory : Bytes

unfoldable pub read_rest :
    (next : Bytes → Option ReadResult) → Mapped → Bool × Bytes → Option ReadResult
read_rest next mp (true, memory) = next memory
read_rest next mp (false, memory) =
    some (record { count = none; copy = mp.copy; store = mp.store; memory = memory })

-- A round of readi once bmap has returned; `next` goes on after `m` bytes.
unfoldable pub read_block :
    Copyout
    → (next : ℕ → Mapped → Bytes → Option ReadResult) → (tot n off dst : ℕ) → Bytes
    → Mapped
    → Option ReadResult
read_block copyout next tot n off dst memory mp =
    let m = min (n - tot) (bsize - off % bsize) in
    if mp.addr == 0
    then some (record { count = some tot; copy = mp.copy; store = mp.store; memory = memory })
    else read_rest (next m mp) mp (copyout dst (mp.store mp.addr) (off % bsize) m memory)

-- The loop of readi; `none` is a panic, or the end of the fuel.
unfoldable pub read_from :
    ℕ → Copyout → Superblock → Dinode → (tot n off dst : ℕ) → Store → Bytes → Option ReadResult
read_from zero copyout sb d tot n off dst st memory = none
read_from (suc fuel) copyout sb d tot n off dst st memory =
    let next = λ (m : ℕ) (mp : Mapped) (memory : Bytes).
      read_from fuel copyout sb mp.copy (tot + m) n (off + m) (dst + m) mp.store memory in
    if ltb tot n
    then bmap sb d (off / bsize) st >>= read_block copyout next tot n off dst memory
    else some (record { count = some tot; copy = d; store = st; memory = memory })

unfoldable pub readi :
    Copyout → Superblock → Dinode → (dst off n : ℕ) → Store → Bytes → Option ReadResult
readi copyout sb d dst off n st memory =
    if ltb d.size off || ltb ((off + n) % 2 ^ 32) off
    then some (record { count = some 0; copy = d; store = st; memory = memory })
    else let n = if ltb d.size (off + n) then d.size - off else n in
      read_from (n + 1) copyout sb d 0 n off dst st memory

-- What the loop of writei leaves
pub record Written : Type 0 where
  pub total : ℕ
  pub end : ℕ  -- `off`
  pub new_copy : Dinode
  pub new_store : Store

unfoldable pub write_rest :
    (next : Store → Option Written) → (tot off : ℕ) → Mapped → Bool × Bytes → Option Written
write_rest next tot off mp (true, block) = next (update mp.store mp.addr block)
write_rest next tot off mp (false, block) = some (record {
  total = tot;
  end = off;
  new_copy = mp.copy;
  new_store = update mp.store mp.addr block;
})

unfoldable pub write_block :
    Copyin
    → (next : ℕ → Mapped → Store → Option Written) → (tot n off src : ℕ) → Mapped
    → Option Written
write_block copyin next tot n off src mp =
    let m = min (n - tot) (bsize - off % bsize) in
    if mp.addr == 0
    then some (record { total = tot; end = off; new_copy = mp.copy; new_store = mp.store })
    else write_rest (next m mp) tot off mp (copyin src (off % bsize) m (mp.store mp.addr))

-- The loop of writei; `none` is a panic, or the end of the fuel.
unfoldable pub write_from :
    ℕ → Copyin → Superblock → Dinode → (tot n off src : ℕ) → Store → Option Written
write_from zero copyin sb d tot n off src st = none
write_from (suc fuel) copyin sb d tot n off src st =
    let next = λ (m : ℕ) (mp : Mapped) (st : Store).
      write_from fuel copyin sb mp.copy (tot + m) n (off + m) (src + m) st in
    if ltb tot n
    then bmap sb d (off / bsize) st >>= write_block copyin next tot n off src
    else some (record { total = tot; end = off; new_copy = d; new_store = st })

-- After the loop: the size, the copy of the inode on the disk, and the number of bytes
unfoldable pub finish_write : Superblock → Inode → Written → Option (Option ℕ × Inode × Store)
finish_write sb ip w =
    let size = if ltb w.new_copy.size w.end then w.end else w.new_copy.size in
    let ip' : Inode = record ip { copy = record (w.new_copy) { size = size } } in
    some (some (w.total), ip', iupdate sb ip' w.new_store)

-- The number of bytes that were written, `none` for -1
unfoldable pub writei :
    Copyin → Superblock → Inode → (src off n : ℕ) → Store → Option (Option ℕ × Inode × Store)
writei copyin sb ip src off n st =
    if ltb ip.copy.size off || ltb ((off + n) % 2 ^ 32) off
    then some (none, ip, st)
    else if ltb (maxfile * bsize) (off + n)
    then some (none, ip, st)
    else write_from (n + 1) copyin sb ip.copy 0 n off src st >>= finish_write sb ip
