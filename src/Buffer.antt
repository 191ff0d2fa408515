-- ===== src/Buffer.antt =====
-- kernel/bio.c: the buffer cache. A buffer is its index in the array, and the list through `prev` and
-- `next` is a list of these, the most recently used first. The lock of a buffer is the process that
-- holds it. virtio_disk_rw reads and writes `disk`.
pub mod Find
pub mod View
pub mod Recycle
pub mod Read
mod Tests
use operating_systems_ass.Base.{
  ℕ, zero, suc, ◌+◌, ◌-◌, ◌%◌, ◌^◌, Bool, true, false, not, ◌&&◌, Option, none, some, List, [], ◌∷◌,
  ◌==◌, if◌then◌else◌, update,
}

abbrev pub nbuf : ℕ
nbuf = 30

abbrev pub Data : Type 0
Data = ℕ → ℕ

-- `struct buf`, without `disk` and the list
pub record Buf : Type 0 where
  pub valid : Bool
  pub dev : ℕ
  pub blockno : ℕ
  pub lock : Option ℕ
  pub refcnt : ℕ
  pub content : Data

pub record Bcache : Type 0 where
  pub bufs : ℕ → Buf  -- read below `nbuf` only
  pub order : List ℕ

abbrev pub Drive : Type 0
Drive = ℕ → ℕ → Data

-- The loop of binit: `n` buffers, each in front of those before it
pub link_all : ℕ → List ℕ
link_all zero = []
link_all (suc n) = n ∷ link_all n

pub binit : (ℕ → Buf) → Bcache
unfolding link_all
binit t = record { bufs = t; order = link_all nbuf }

abbrev pub is_block : Buf → (dev blockno : ℕ) → Bool
is_block b dev blockno = b.dev == dev && b.blockno == blockno

-- The first loop of bget
unfoldable pub find_cached : (ℕ → Buf) → List ℕ → (dev blockno : ℕ) → Option ℕ
find_cached t [] dev blockno = none
find_cached t (i ∷ l) dev blockno =
    if is_block (t i) dev blockno then some i else find_cached t l dev blockno

abbrev pub or_here : Option ℕ → Option ℕ → Option ℕ
or_here none o = o
or_here (some i) o = some i

-- The second loop, which goes through the list from its end
unfoldable pub find_free : (ℕ → Buf) → List ℕ → Option ℕ
find_free t [] = none
find_free t (i ∷ l) = or_here (find_free t l) (if (t i).refcnt == 0 then some i else none)

-- The buffer that a call returns, the one that it sleeps for with its reference counted, or a panic
pub data Got : Type 0 where
  got : ℕ → Bcache → Got
  sleeps : ℕ → Bcache → Got
  panics : Got

abbrev pub put_buf : Bcache → ℕ → Buf → Bcache
put_buf c i b = record c { bufs = update c.bufs i b }

abbrev pub decrement : ℕ → ℕ
decrement n = (n + 2 ^ 32 - 1) % 2 ^ 32

-- acquiresleep of a buffer's lock by process `me`
unfoldable pub lock_from : ℕ → ℕ → Bcache → Option ℕ → Got
lock_from me i c none = got i (put_buf c i (record (c.bufs i) { lock = some me }))
lock_from me i c (some _) = sleeps i c

unfoldable pub lock_buf : ℕ → ℕ → Bcache → Got
lock_buf me i c = lock_from me i c (c.bufs i).lock

unfoldable pub recycle : ℕ → (dev blockno : ℕ) → Bcache → Option ℕ → Got
recycle me dev blockno c none = panics
recycle me dev blockno c (some i) =
    lock_buf me i
      (put_buf c i (record (c.bufs i) { dev = dev; blockno = blockno; valid = false; refcnt = 1 }))

unfoldable pub bget_from : ℕ → (dev blockno : ℕ) → Bcache → Option ℕ → Got
bget_from me dev blockno c (some i) =
    lock_buf me i (put_buf c i (record (c.bufs i) { refcnt = ((c.bufs i).refcnt + 1) % 2 ^ 32 }))
bget_from me dev blockno c none = recycle me dev blockno c (find_free c.bufs c.order)

unfoldable pub bget : ℕ → (dev blockno : ℕ) → Bcache → Got
bget me dev blockno c = bget_from me dev blockno c (find_cached c.bufs c.order dev blockno)

-- bread once bget has returned
unfoldable pub fill : Drive → Got → Got
fill disk (got i c) =
    let b = c.bufs i in
    got i (
      if b.valid
      then c
      else put_buf c i (record b { content = disk b.dev b.blockno; valid = true }))
fill disk (sleeps i c) = sleeps i c
fill disk panics = panics

unfoldable pub bread : Drive → ℕ → (dev blockno : ℕ) → Bcache → Got
bread disk me dev blockno c = fill disk (bget me dev blockno c)

abbrev pub holds : ℕ → Buf → Bool
holds me b = elim b.lock [ none ↦ false | some p ↦ p == me ]

-- `none` is a panic, here and in brelse.
unfoldable pub bwrite : ℕ → ℕ → Bcache → Drive → Option Drive
bwrite me i c disk =
    let b = c.bufs i in
    if not (holds me b)
    then none
    else some (update disk b.dev (update (disk b.dev) b.blockno b.content))

unfoldable pub remove : ℕ → List ℕ → List ℕ
remove i [] = []
remove i (j ∷ l) = if j == i then l else j ∷ remove i l

unfoldable pub brelse : ℕ → ℕ → Bcache → Option Bcache
brelse me i c =
    let b = c.bufs i in
    let n = decrement b.refcnt in
    let c' = put_buf c i (record b { lock = none; refcnt = n }) in
    if not (holds me b)
    then none
    else some (if n == 0 then record c' { order = i ∷ remove i c.order } else c')

unfoldable pub bpin : ℕ → Bcache → Bcache
bpin i c = put_buf c i (record (c.bufs i) { refcnt = ((c.bufs i).refcnt + 1) % 2 ^ 32 })

unfoldable pub bunpin : ℕ → Bcache → Bcache
bunpin i c = put_buf c i (record (c.bufs i) { refcnt = decrement (c.bufs i).refcnt })
