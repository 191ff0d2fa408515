-- ===== src/Buffer/View.antt =====
-- The buffer cache as a map from block numbers to contents, and bread as its lookup.
use native.Mathlib.Decide.{ℕ_discrete}
use mathlib.Core.Path.{subst}
use operating_systems_ass.Base.{
  ℕ, ◌≡◌, refl, ◌≢◌, ◌⊎◌, inl, inr, ◌∙◌, sym, ap, true, false, Option, none, some, List, [], ◌∷◌,
  arith, if◌then◌else◌, update, update_self, update_ne, Bool-cases,
}
use operating_systems_ass.Buffer.{Data, Buf, Bcache, Drive, is_block, find_cached, put_buf}
use operating_systems_ass.Buffer.Find.{Elem, cached-Elem}

-- What the cache and the disk hold of a block
abbrev pub entry : (ℕ → Buf) → Drive → (dev blockno : ℕ) → Option ℕ → Data
entry t disk dev blockno none = disk dev blockno
entry t disk dev blockno (some i) = if (t i).valid then (t i).content else disk dev blockno

abbrev pub view : Bcache → Drive → (dev blockno : ℕ) → Data
view c disk dev blockno = entry c.bufs disk dev blockno (find_cached c.bufs c.order dev blockno)

-- No block of a device has two buffers (those that were never used are of device 0), and a buffer
-- without a reference holds what the disk holds.
pub record IsCoherent (c : Bcache) (disk : Drive) : Type 0 where
  pub unique :
      (i j dev blockno : ℕ)
      → dev ≢ 0
      → Elem i c.order
      → Elem j c.order
      → is_block (c.bufs i) dev blockno ≡ true
      → is_block (c.bufs j) dev blockno ≡ true
      → i ≡ j
  pub clean :
      (i : ℕ)
      → Elem i c.order
      → (c.bufs i).refcnt ≡ 0
      → (c.bufs i).valid ≡ true
      → (c.bufs i).content ≡ disk (c.bufs i).dev (c.bufs i).blockno

-- The blocks of the devices read the same.
abbrev pub SameView : Bcache → Bcache → Drive → Type 0
SameView c c' disk =
    (dev blockno : ℕ) → dev ≢ 0 → view c' disk dev blockno ≡ view c disk dev blockno

pub block_numbers :
    (b : Buf) (dev blockno : ℕ)
    → is_block b dev blockno ≡ true
    → (b.dev ≡ dev) × (b.blockno ≡ blockno)
block_numbers b dev blockno h = ground (arith, h)

-- Buffer `i` is changed to `b`, which is of the same block.
module _ (disk : Drive) (c : Bcache) (i : ℕ) (b : Buf) (same_dev : b.dev ≡ (c.bufs i).dev)
    (same_blockno : b.blockno ≡ (c.bufs i).blockno)
    (held : ((b.valid ≡ (c.bufs i).valid) × (b.content ≡ (c.bufs i).content))
      ⊎ (((c.bufs i).valid ≡ false) × (b.content ≡ disk b.dev b.blockno)))
    (counted : b.refcnt ≡ 0
      → (b.valid ≡ (c.bufs i).valid)
        × (b.content ≡ (c.bufs i).content)
        × ((c.bufs i).refcnt ≡ 0)) where
  is_block-put :
      (j dev blockno : ℕ)
      → is_block (update c.bufs i b j) dev blockno ≡ is_block (c.bufs j) dev blockno
  is_block-put j dev blockno = elim (ℕ_discrete i j) [
    | yes e ↦
        subst (λ j. is_block (update c.bufs i b j) dev blockno ≡ is_block (c.bufs j) dev blockno) e
          (ap (λ (r : Buf). is_block r dev blockno) (update_self c.bufs i b)
            ∙ rw (same_dev, same_blockno) refl)
    | no d ↦ ap (λ (r : Buf). is_block r dev blockno) (update_ne c.bufs i j b d)
  ]

  find-put :
      (l : List ℕ) (dev blockno : ℕ)
      → find_cached (update c.bufs i b) l dev blockno ≡ find_cached c.bufs l dev blockno
  unfolding find_cached
  find-put [] dev blockno = refl
  find-put (j ∷ l) dev blockno = rw (is_block-put j dev blockno, find-put l dev blockno) refl

  at_i :
      (dev blockno : ℕ)
      → is_block (c.bufs i) dev blockno ≡ true
      → entry (update c.bufs i b) disk dev blockno (some i) ≡ entry c.bufs disk dev blockno (some i)
  at_i dev blockno h =
      let old = block_numbers (c.bufs i) dev blockno h in
      let here : disk b.dev b.blockno ≡ disk dev blockno =
        rw (same_dev ∙ old.0, same_blockno ∙ old.1) refl in
      rw (update_self c.bufs i b) (elim held [
        | inl k ↦ rw (k.0, k.1) refl
        | inr k ↦ elim (Bool-cases b.valid) [
          | inl v ↦ rw (v, k.0) (k.1 ∙ here)
          | inr v ↦ rw (v, k.0) refl
        ]
      ])

  entry-put :
      (dev blockno : ℕ) (o : Option ℕ)
      → find_cached c.bufs c.order dev blockno ≡ o
      → entry (update c.bufs i b) disk dev blockno o ≡ entry c.bufs disk dev blockno o
  entry-put dev blockno none e = refl
  entry-put dev blockno (some j) e = elim (ℕ_discrete i j) [
    | yes same ↦
        let at = (cached-Elem c.bufs dev blockno c.order j e).1 in
        subst
          (λ j.
            is_block (c.bufs j) dev blockno ≡ true
            → entry (update c.bufs i b) disk dev blockno (some j)
              ≡ entry c.bufs disk dev blockno (some j))
          same (at_i dev blockno) at
    | no d ↦
        ap (λ (r : Buf). if r.valid then r.content else disk dev blockno) (update_ne c.bufs i j b d)
  ]

  pub SameView-put : SameView c (put_buf c i b) disk
  SameView-put dev blockno n =
      ap (entry (update c.bufs i b) disk dev blockno) (find-put c.order dev blockno)
      ∙ entry-put dev blockno _ refl

  pub put-IsCoherent : IsCoherent c disk → IsCoherent (put_buf c i b) disk
  put-IsCoherent coherent = record {
    unique = λ j k dev blockno n mj mk hj hk.
        coherent.unique j k dev blockno n mj mk (sym (is_block-put j dev blockno) ∙ hj)
          (sym (is_block-put k dev blockno) ∙ hk);
    clean = λ j m z v. elim (ℕ_discrete i j) [
      | yes e ↦ clean_i (subst (λ j. Elem j c.order) (sym e) m) j e z v
      | no d ↦
          subst (λ (r : Buf). r.refcnt ≡ 0 → r.valid ≡ true → r.content ≡ disk r.dev r.blockno)
            (sym (update_ne c.bufs i j b d)) (coherent.clean j m) z v
    ];
  }
    where
      clean_b : Elem i c.order → b.refcnt ≡ 0 → b.valid ≡ true → b.content ≡ disk b.dev b.blockno
      clean_b m z v =
          let old = counted z in
          old.1 ∙ (coherent.clean i m old.2 (sym old.0 ∙ v) ∙ rw (same_dev, same_blockno) refl)

      clean_i :
          Elem i c.order
          → (j : ℕ) → i ≡ j
          → (update c.bufs i b j).refcnt ≡ 0
          → (update c.bufs i b j).valid ≡ true
          → (update c.bufs i b j).content
            ≡ disk (update c.bufs i b j).dev (update c.bufs i b j).blockno
      clean_i m j e =
          subst
            (λ j.
              (update c.bufs i b j).refcnt ≡ 0
              → (update c.bufs i b j).valid ≡ true
              → (update c.bufs i b j).content
                ≡ disk (update c.bufs i b j).dev (update c.bufs i b j).blockno)
            e (rw (update_self c.bufs i b) (clean_b m))
