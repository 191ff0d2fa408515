-- ===== src/Log.antt =====
-- kernel/log.c: the write-ahead log of the file system. A block is an array of words. The buffer
-- cache is what bread returns for each block number, with the counts that bpin and bunpin keep;
-- an operation gives the cache that it leaves and the blocks that it writes to the disk, in order,
-- so that a crash is a prefix of these. The header in memory is the list of its block numbers.
pub mod Crash
mod Header
pub mod Phases
pub mod Atomic
pub mod Space
pub mod Small
mod Tests
use operating_systems_ass.Base.{
  ℕ, zero, suc, ◌+◌, ◌-◌, ◌*◌, Bool, true, false, not, ◌||◌, Option, none, some, List, [], ◌∷◌,
  ◌++◌, length, get_or, ltb, leb, ◌==◌, if◌then◌else◌, update,
}

abbrev pub max_op_blocks : ℕ
max_op_blocks = 10

abbrev pub log_size : ℕ
log_size = max_op_blocks * 3

abbrev pub Block : Type 0
Block = ℕ → ℕ

abbrev pub Disk : Type 0
Disk = ℕ → Block

abbrev pub Writes : Type 0
Writes = List (ℕ × Block)

-- The disk after some writes.
unfoldable pub apply : Writes → Disk → Disk
apply [] d = d
apply ((b, c) ∷ ws) d = apply ws (update d b c)

pub record Cache : Type 0 where
  pub view : ℕ → Block
  pub pins : ℕ → ℕ

-- The header block with the numbers `bs` written over it: word 0 counts them.
unfoldable pub header : List ℕ → Block → Block
header bs old w =
    if w == 0 then length bs else if leb w (length bs) then get_or bs (w - 1) 0 else old w

-- `read_head`: the `n` numbers from word `i + 1` on
unfoldable pub read_blocks : Block → ℕ → ℕ → List ℕ
read_blocks w i zero = []
read_blocks w i (suc n) = w (i + 1) ∷ read_blocks w (suc i) n

unfoldable pub read_head : (start : ℕ) → Cache → List ℕ
unfolding read_blocks
read_head start c = read_blocks (c.view start) 0 (c.view start 0)

unfoldable pub write_head : (start : ℕ) → List ℕ → Cache → Cache × Writes
unfolding header
write_head start bs c =
    let block = header bs (c.view start) in
    (record c { view = update c.view start block }, (start, block) ∷ [])

-- The loop of `install_trans` from `tail` on.
unfoldable pub install_trans :
    (recovering : Bool) → (start tail : ℕ) → List ℕ → Cache → Cache × Writes
install_trans recovering start tail [] c = (c, [])
install_trans recovering start tail (b ∷ bs) c =
    let block = c.view (start + tail + 1) in
    let c' : Cache = record {
      view = update c.view b block;
      pins = if recovering then c.pins else update c.pins b (c.pins b - 1);
    } in
    let rest = install_trans recovering start (suc tail) bs c' in (rest.0, (b, block) ∷ rest.1)

-- The loop of `write_log` from `tail` on.
unfoldable pub write_log : (start tail : ℕ) → List ℕ → Cache → Cache × Writes
write_log start tail [] c = (c, [])
write_log start tail (b ∷ bs) c =
    let block = c.view b in
    let c' = record c { view = update c.view (start + tail + 1) block } in
    let rest = write_log start (suc tail) bs c' in (rest.0, (start + tail + 1, block) ∷ rest.1)

-- `recover_from_log`
unfoldable pub recover_from_log : (start : ℕ) → Cache → Cache × Writes
recover_from_log start c =
    let (c₁, ws₁) = install_trans true start 0 (read_head start c) c in
    let (c₂, ws₂) = write_head start [] c₁ in (c₂, ws₁ ++ ws₂)

-- `commit` of the header `bs`, which is empty afterwards
unfoldable pub commit : (start : ℕ) → List ℕ → Cache → Cache × Writes
commit start [] c = (c, [])
commit start (b ∷ bs) c =
    let (c₁, ws₁) = write_log start 0 (b ∷ bs) c in
    let (c₂, ws₂) = write_head start (b ∷ bs) c₁ in
    let (c₃, ws₃) = install_trans false start 0 (b ∷ bs) c₂ in
    let (c₄, ws₄) = write_head start [] c₃ in (c₄, ws₁ ++ (ws₂ ++ (ws₃ ++ ws₄)))

-- The fields of `struct log` that its lock protects.
pub record Log : Type 0 where
  pub start : ℕ
  pub size : ℕ
  pub outstanding : ℕ
  pub committing : Bool
  pub blocks : List ℕ  -- `lh`

pub data Result (A : Type 0) : Type 0 where
  ok : A → Result A
  sleeping : Result A
  panic : Result A

-- One round of the loop of `begin_op`.
unfoldable pub begin_op : Log → Result Log
begin_op l =
    if l.committing
    then sleeping
    else if ltb log_size (length l.blocks + (l.outstanding + 1) * max_op_blocks)
    then sleeping
    else ok (record l { outstanding = l.outstanding + 1 })

-- The first half of `end_op`: whether the caller is to commit. (`outstanding` is an int that the
-- calls keep above 0.)
unfoldable pub end_op : Log → Result (Log × Bool)
end_op l =
    if l.committing
    then panic
    else if l.outstanding - 1 == 0
    then ok (record l { outstanding = l.outstanding - 1; committing = true }, true)
    else ok (record l { outstanding = l.outstanding - 1 }, false)

-- The second half, where the caller commits.
unfoldable pub finish_commit : Log → Cache → Log × Cache × Writes
finish_commit l c =
    let (c', ws) = commit l.start l.blocks c in
    (record l { committing = false; blocks = [] }, c', ws)

-- The search of `log_write` for the block: with absorption, or the block at the end.
unfoldable pub log_block : ℕ → List ℕ → List ℕ × Bool
log_block b [] = (b ∷ [], true)
log_block b (x ∷ xs) =
    let (rest, new) = log_block b xs in if x == b then (x ∷ xs, false) else (x ∷ rest, new)

-- `log_write` of block number `b`
unfoldable pub log_write : ℕ → Log → Cache → Result (Log × Cache)
log_write b l c =
    let (blocks, new) = log_block b l.blocks in
    if leb log_size (length l.blocks) || leb (l.size - 1) (length l.blocks)
    then panic
    else if ltb l.outstanding 1
    then panic
    else ok (
      record l { blocks = blocks },
      if new then record c { pins = update c.pins b (c.pins b + 1) } else c,
    )
