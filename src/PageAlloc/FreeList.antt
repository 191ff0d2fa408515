-- ===== src/PageAlloc/FreeList.antt =====
-- kernel/kalloc.c: the free list as a list of different pages.
use mathlib.Core.Path.{subst}
use operating_systems_ass.Base.{
  ℕ, ◌<◌, ◌≡◌, refl, ◌≢◌, true, false, some, List, [], ◌∷◌, arith, ◌==◌, ==_ne, update, update_self,
  update_ne,
}
use operating_systems_ass.PageAlloc.{Kmem, junk, is_bad_page, kfree, kalloc}

-- `p` is not in the list.
abbrev pub Absent : ℕ → List ℕ → Type 0
Absent p [] = Unit
Absent p (q ∷ l) = (p ≢ q) × Absent p l

-- From `head` on, the words `next` link the pages of `l`, all different, in order.
abbrev pub Linked : (next : ℕ → ℕ) → (head : ℕ) → List ℕ → Type 0
Linked next head [] = head ≡ 0
Linked next head (p ∷ l) = (head ≡ p) × (p ≢ 0) × Absent p l × Linked next (next p) l

Linked-update :
    (next : ℕ → ℕ) (head p v : ℕ) (l : List ℕ)
    → Absent p l
    → Linked next head l
    → Linked (update next p v) head l
Linked-update next head p v [] a h = h
Linked-update next head p v (q ∷ l) a h =
    (h.0, h.1, h.2, rw (update_ne next p q v a.0) (Linked-update next (next q) p v l a.1 h.3))

-- With the pages of `l` free, and `end` above 0: kfree of a page outside `l` that passes its test
-- does not panic and puts the page in front of the list; and kalloc then returns that page and leaves
-- the pages of `l` free. With no page free, kalloc returns 0 and changes nothing.
pub kalloc-kfree :
    (end pa : ℕ) (k : Kmem) (l : List ℕ)
    → 0 < end
    → is_bad_page end pa ≡ false
    → Absent pa l
    → Linked k.next k.freelist l
    → (k' : Kmem) × (kfree end pa k ≡ some k')
      × Linked k'.next k'.freelist (pa ∷ l)
      × ((kalloc k').0 ≡ pa)
      × Linked (kalloc k').1.next (kalloc k').1.freelist l
      × (l ≡ [] → kalloc k ≡ (0, k))
unfolding kfree kalloc is_bad_page
kalloc-kfree end pa k l pos good out linked =
    let filled = update k.next pa (junk 1) in
    let next = update filled pa k.freelist in
    let head : next pa ≡ k.freelist = update_self filled pa k.freelist in
    let nonzero : pa ≢ 0 = ground (arith, good, pos) in
    let kept =
      Linked-update filled k.freelist pa k.freelist l out
        (Linked-update k.next k.freelist pa (junk 1) l out linked) in
    (
      record { next = next; freelist = pa },
      rw good refl,
      (refl, nonzero, out, rw head kept),
      rw (==_ne pa 0 nonzero) refl,
      rw (==_ne pa 0 nonzero, head) (Linked-update next k.freelist pa (junk 5) l out kept),
      λ e.
          let empty : k.freelist ≡ 0 = subst (Linked k.next k.freelist) e linked in
          let zero_head : (k.freelist == 0) ≡ true = ground (arith, empty) in rw zero_head refl,
    )
