-- ===== src/PageAlloc/Tests.antt =====
-- Tests of kernel/kalloc.c, and the theorems at concrete inputs.
use operating_systems_ass.Base.{ℕ, ◌≡◌, refl, List, [], ◌∷◌, some, none, false, arith}
use operating_systems_ass.PageAlloc.{Kmem, kfree, kalloc, is_bad_page, pg_round_up}
use operating_systems_ass.PageAlloc.FreeList.{Linked, kalloc-kfree}

-- The kernel ends at 0x80020000, and one page is free.
abbrev one_free : Kmem
one_free = record { next = λ _. 0; freelist = 0x80021000 }

abbrev free : List ℕ
free = 0x80021000 ∷ []

-- A page of the kernel is refused.
refused : kfree 0x80020000 0x8001f000 one_free ≡ none
unfolding kfree is_bad_page
refused = refl

rounded : pg_round_up 0x80020001 ≡ 0x80021000
unfolding pg_round_up
rounded = refl

page_is_good : is_bad_page 0x80020000 0x80023000 ≡ false
unfolding is_bad_page
page_is_good = refl

kalloc-kfree_example :
    (k' : Kmem) × (kfree 0x80020000 0x80023000 one_free ≡ some k')
    × Linked k'.next k'.freelist (0x80023000 ∷ free)
    × ((kalloc k').0 ≡ 0x80023000)
    × Linked (kalloc k').1.next (kalloc k').1.freelist free
    × (free ≡ [] → kalloc one_free ≡ (0, one_free))
kalloc-kfree_example =
    kalloc-kfree 0x80020000 0x80023000 one_free free (omega arith) page_is_good (omega arith, tt)
      (refl, omega arith, tt, refl)
