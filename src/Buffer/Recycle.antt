-- ===== src/Buffer/Recycle.antt =====
-- A buffer is taken for another block.
use native.Mathlib.Decide.{ℕ_discrete}
use mathlib.Core.Path.{subst, subst₂}
use operating_systems_ass.Base.{
  ℕ, ◌≡◌, refl, ◌≢◌, ◌⊎◌, inl, inr, ◌∙◌, sym, ap, true, false, false≢true, Option, none, some,
  ==_self, if◌then◌else◌, update, update_self, update_ne, Bool-cases,
}
use operating_systems_ass.Buffer.{Buf, Bcache, Drive, is_block, find_cached, put_buf}
use operating_systems_ass.Buffer.Find.{Elem, cached-Elem, cached_none, cached_only, cached_absent}
use operating_systems_ass.Buffer.View.{entry, view, IsCoherent, SameView, block_numbers}

-- Buffer `i`, without a reference, is taken for a block that has no buffer.
module _ (disk : Drive) (c : Bcache) (i dev blockno : ℕ) (b : Buf) (new_dev : b.dev ≡ dev)
    (new_blockno : b.blockno ≡ blockno) (empty : b.valid ≡ false) (referred : b.refcnt ≢ 0)
    (device : dev ≢ 0) (none_cached : find_cached c.bufs c.order dev blockno ≡ none)
    (listed : Elem i c.order) (unreferred : (c.bufs i).refcnt ≡ 0) where
  abbrev after : ℕ → Buf
  after = update c.bufs i b

  -- What block a buffer is of, afterwards
  block_after :
      (j dev' blockno' : ℕ)
      → is_block (after j) dev' blockno' ≡ true
      → ((i ≡ j) × (dev ≡ dev') × (blockno ≡ blockno'))
        ⊎ ((i ≢ j) × (is_block (c.bufs j) dev' blockno' ≡ true))
  block_after j dev' blockno' h = elim (ℕ_discrete i j) [
    | yes e ↦
        let at : is_block b dev' blockno' ≡ true =
          ap (λ (r : Buf). is_block r dev' blockno') (sym (update_self c.bufs i b))
          ∙ (ap (λ j. is_block (after j) dev' blockno') e ∙ h) in
        let numbers = block_numbers b dev' blockno' at in
        inl (e, sym new_dev ∙ numbers.0, sym new_blockno ∙ numbers.1)
    | no d ↦
        inr (d, ap (λ (r : Buf). is_block r dev' blockno') (sym (update_ne c.bufs i j b d)) ∙ h)
  ]

  not_cached :
      (j dev' blockno' : ℕ)
      → Elem j c.order
      → dev ≡ dev'
      → blockno ≡ blockno'
      → is_block (c.bufs j) dev' blockno' ≡ true
      → ⊥
  not_cached j dev' blockno' m e f h =
      let off = cached_none c.bufs dev blockno c.order j none_cached m in
      false≢true (sym off ∙ rw (e, f) h)

  pub recycle-IsCoherent : IsCoherent c disk → IsCoherent (put_buf c i b) disk
  recycle-IsCoherent coherent = record {
    unique = λ j k dev' blockno' n mj mk hj hk. elim (block_after j dev' blockno' hj) [
      | inl (ej, ed, eb) ↦ elim (block_after k dev' blockno' hk) [
        | inl (ek, fd, fb) ↦ sym ej ∙ ek
        | inr (dk, ok) ↦ absurd (not_cached k dev' blockno' mk ed eb ok)
      ]
      | inr (dj, oj) ↦ elim (block_after k dev' blockno' hk) [
        | inl (ek, fd, fb) ↦ absurd (not_cached j dev' blockno' mj fd fb oj)
        | inr (dk, ok) ↦ coherent.unique j k dev' blockno' n mj mk oj ok
      ]
    ];
    clean = λ j m. elim (ℕ_discrete i j) [
      | yes e ↦
          subst
            (λ j.
              (after j).refcnt ≡ 0
              → (after j).valid ≡ true
              → (after j).content ≡ disk (after j).dev (after j).blockno)
            e (rw (update_self c.bufs i b) (λ z v. absurd (referred z)))
      | no d ↦
          subst (λ (r : Buf). r.refcnt ≡ 0 → r.valid ≡ true → r.content ≡ disk r.dev r.blockno)
            (sym (update_ne c.bufs i j b d)) (coherent.clean j m)
    ];
  }

  no_match :
      (dev' blockno' : ℕ)
      → ((k : ℕ) → Elem k c.order → is_block (after k) dev' blockno' ≡ true → ⊥)
      → view (put_buf c i b) disk dev' blockno' ≡ disk dev' blockno'
  no_match dev' blockno' out = ap (entry after disk dev' blockno') (
      cached_absent after dev' blockno' c.order (λ k m.
        elim (Bool-cases (is_block (after k) dev' blockno')) [
          | inl h ↦ absurd (out k m h)
          | inr h ↦ h
        ]))

  -- The contents that the buffer loses are those of the disk.
  lost :
      (dev' blockno' j : ℕ)
      → IsCoherent c disk
      → Elem j c.order
      → i ≡ j
      → is_block (c.bufs j) dev' blockno' ≡ true
      → disk dev' blockno' ≡ entry c.bufs disk dev' blockno' (some j)
  lost dev' blockno' j coherent m e h = elim (Bool-cases ((c.bufs j).valid)) [
    | inl v ↦
        let numbers = block_numbers (c.bufs j) dev' blockno' h in
        let free : (c.bufs j).refcnt ≡ 0 = subst (λ j. (c.bufs j).refcnt ≡ 0) e unreferred in
        let same : disk (c.bufs j).dev (c.bufs j).blockno ≡ disk dev' blockno' =
          rw (numbers.0, numbers.1) refl in
        rw v (sym (coherent.clean j m free v ∙ same))
    | inr v ↦ rw v refl
  ]

  -- The other blocks read as before.
  other_view :
      (dev' blockno' : ℕ) (o : Option ℕ)
      → IsCoherent c disk
      → dev' ≢ 0
      → (dev ≡ dev' → blockno ≡ blockno' → ⊥)
      → find_cached c.bufs c.order dev' blockno' ≡ o
      → view (put_buf c i b) disk dev' blockno' ≡ entry c.bufs disk dev' blockno' o
  other_view dev' blockno' none coherent n away e = no_match dev' blockno' (λ k m h.
      elim (block_after k dev' blockno' h) [
        | inl (same, ed, eb) ↦ away ed eb
        | inr (d, old) ↦ false≢true (sym (cached_none c.bufs dev' blockno' c.order k e m) ∙ old)
      ])
  other_view dev' blockno' (some j) coherent n away e =
      let at = cached-Elem c.bufs dev' blockno' c.order j e in
      elim (ℕ_discrete i j) [
        | yes same ↦
            no_match dev' blockno' (λ k m h. elim (block_after k dev' blockno' h) [
              | inl (_, ed, eb) ↦ away ed eb
              | inr (d, old) ↦ d (same ∙ coherent.unique j k dev' blockno' n at.0 m at.1 old)
            ])
            ∙ lost dev' blockno' j coherent at.0 same at.1
        | no d ↦
            let keeps : after j ≡ c.bufs j = update_ne c.bufs i j b d in
            let first : find_cached after c.order dev' blockno' ≡ some j =
              cached_only after dev' blockno' c.order j at.0
                (ap (λ (r : Buf). is_block r dev' blockno') keeps ∙ at.1)
                (λ k m h. elim (block_after k dev' blockno' h) [
                  | inl (_, ed, eb) ↦ absurd (away ed eb)
                  | inr (_, old) ↦ coherent.unique k j dev' blockno' n m at.0 old at.1
                ]) in
            ap (entry after disk dev' blockno') first
            ∙ ap (λ (r : Buf). if r.valid then r.content else disk dev' blockno') keeps
      ]

  -- The block itself reads from the disk, as before.
  own_view : view (put_buf c i b) disk dev blockno ≡ disk dev blockno
  own_view =
      let here : after i ≡ b = update_self c.bufs i b in
      let first : find_cached after c.order dev blockno ≡ some i =
        cached_only after dev blockno c.order i listed
          (rw (here, new_dev, new_blockno, ==_self dev, ==_self blockno) refl)
          (λ k m h. elim (block_after k dev blockno h) [
            | inl (same, _, _) ↦ sym same
            | inr (_, old) ↦ absurd (not_cached k dev blockno m refl refl old)
          ]) in
      ap (entry after disk dev blockno) first ∙ rw (here, empty) refl

  pub SameView-recycle : IsCoherent c disk → SameView c (put_buf c i b) disk
  SameView-recycle coherent dev' blockno' n = elim (ℕ_discrete dev dev') [
    | yes ed ↦ elim (ℕ_discrete blockno blockno') [
      | yes eb ↦
          subst₂
            (λ dev' blockno'. view (put_buf c i b) disk dev' blockno' ≡ view c disk dev' blockno')
            ed eb (own_view ∙ sym (ap (entry c.bufs disk dev blockno) none_cached))
      | no db ↦ other_view dev' blockno' _ coherent n (λ _ e. db e) refl
    ]
    | no dd ↦ other_view dev' blockno' _ coherent n (λ e _. dd e) refl
  ]
