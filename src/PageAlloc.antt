-- ===== src/PageAlloc.antt =====
-- kernel/kalloc.c: the allocator of physical pages. A free page holds in its first word the address of
-- the next one; the model keeps the first word of each page.
pub mod FreeList
mod Tests
use operating_systems_ass.Base.{
  ℕ, zero, suc, ◌+◌, ◌-◌, ◌*◌, ◌/◌, ◌%◌, ◌^◌, Bool, not, ◌||◌, Option, none, some, ltb, leb, ◌==◌,
  if◌then◌else◌, update,
}

abbrev pub pgsize : ℕ
pgsize = 4096

-- `KERNBASE + 128*1024*1024`
abbrev pub phystop : ℕ
phystop = 0x80000000 + 128 * 1024 * 1024

-- `PGROUNDUP`
unfoldable pub pg_round_up : ℕ → ℕ
pg_round_up sz = (sz + pgsize - 1) / pgsize * pgsize

pub record Kmem : Type 0 where
  pub next : ℕ → ℕ  -- the first word of each page
  pub freelist : ℕ

-- A word of 8 bytes `c`, as memset leaves it
unfoldable pub junk : ℕ → ℕ
junk c = c * 0x0101010101010101

-- The test at the head of kfree; `end` is the first address after the kernel.
unfoldable pub is_bad_page : (end pa : ℕ) → Bool
is_bad_page end pa = not (pa % pgsize == 0) || ltb pa end || leb phystop pa

-- `none` is the panic.
unfoldable pub kfree : (end pa : ℕ) → Kmem → Option Kmem
kfree end pa k =
    let filled = update k.next pa (junk 1) in
    if is_bad_page end pa
    then none
    else some (record { next = update filled pa k.freelist; freelist = pa })

-- `kalloc`: the page, or 0
unfoldable pub kalloc : Kmem → ℕ × Kmem
kalloc k =
    let r = k.freelist in
    let taken = record k { freelist = k.next r } in
    if r == 0 then (0, k) else (r, record taken { next = update taken.next r (junk 5) })

-- The loop of freerange from page `p` on
unfoldable pub free_from : ℕ → (end p pa_end : ℕ) → Kmem → Option Kmem
free_from zero end p pa_end k = some k
free_from (suc fuel) end p pa_end k =
    if leb (p + pgsize) pa_end
    then elim (kfree end p k) [ none ↦ none | some k' ↦ free_from fuel end (p + pgsize) pa_end k' ]
    else some k

-- Each round adds a page to `p`, so that there are at most `pa_end / pgsize` rounds that go on.
unfoldable pub freerange : (end pa_start pa_end : ℕ) → Kmem → Option Kmem
freerange end pa_start pa_end k =
    free_from (pa_end / pgsize + 1) end (pg_round_up pa_start) pa_end k

unfoldable pub kinit : (end : ℕ) → Kmem → Option Kmem
kinit end k = freerange end end phystop k
