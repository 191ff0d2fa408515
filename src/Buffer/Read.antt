-- ===== src/Buffer/Read.antt =====
-- bread of the buffer cache, in its stages.
use mathlib.Core.Path.{subst}
use operating_systems_ass.Base.{
  ℕ, ◌+◌, ◌%◌, ◌^◌, ◌<◌, ◌≡◌, refl, ◌≢◌, ◌⊎◌, inl, inr, ◌∙◌, sym, ap, true, false, Option, none,
  some, List, [], ◌∷◌, arith, ==_self, update_self, Bool-cases,
}
use operating_systems_ass.Buffer.{
  Buf, Bcache, Drive, is_block, find_cached, find_free, Got, got, sleeps, panics, put_buf,
  lock_from, lock_buf, or_here, recycle, bget_from, bget, fill, bread,
}
use operating_systems_ass.Buffer.Find.{Elem, cached-Elem, cached_only, free-Elem}
use operating_systems_ass.Buffer.View.{
  view, entry, IsCoherent, SameView, SameView-put, put-IsCoherent,
}
use operating_systems_ass.Buffer.Recycle.{recycle-IsCoherent, SameView-recycle}

or_here-none : (o p : Option ℕ) → or_here o p ≡ none → (o ≡ none) × (p ≡ none)
or_here-none none p e = (refl, e)
or_here-none (some i) p e = absurd (cc e)

free_none :
    (t : ℕ → Buf) (l : List ℕ) → find_free t l ≡ none → (j : ℕ) → Elem j l → (t j).refcnt ≢ 0
unfolding find_free
free_none t [] e j m z = elim m [ ]
free_none t (k ∷ l) e j m z =
    let both = or_here-none (find_free t l) _ e in
    elim m [
      | inl same ↦
          let own : (t k).refcnt ≡ 0 = subst (λ j. (t j).refcnt ≡ 0) (sym same) z in
          absurd (ground (arith, own, both.1))
      | inr m' ↦ free_none t l both.0 j m' z
    ]

module _ (disk : Drive) (me dev blockno : ℕ) (device : dev ≢ 0) (c : Bcache) where
  -- Buffer `i` of `c'` is that of the block, and has a reference.
  record Stage (c' : Bcache) (i : ℕ) : Type 0 where
    listed : Elem i c'.order
    is_it : is_block (c'.bufs i) dev blockno ≡ true
    referred : (c'.bufs i).refcnt ≢ 0
    same_view : SameView c c' disk
    coherent : IsCoherent c' disk

  -- bread returns the block's buffer, locked by the caller, with what the cache and the disk held of
  -- the block; or it sleeps for the lock of that buffer; or each buffer is in use and none is of the
  -- block. What other reads give has not changed.
  abbrev pub Reads : Got → Type 0
  Reads (got i c') =
      (is_block (c'.bufs i) dev blockno ≡ true)
      × ((c'.bufs i).valid ≡ true)
      × ((c'.bufs i).content ≡ view c disk dev blockno)
      × ((c'.bufs i).lock ≡ some me)
      × SameView c c' disk
      × IsCoherent c' disk
  Reads (sleeps i c') =
      (is_block (c'.bufs i) dev blockno ≡ true) × SameView c c' disk × IsCoherent c' disk
  Reads panics =
      (find_cached c.bufs c.order dev blockno ≡ none)
      × ((j : ℕ) → Elem j c.order → (c.bufs j).refcnt ≢ 0)

  held_view :
      (c' : Bcache) (i : ℕ)
      → Stage c' i
      → (c'.bufs i).valid ≡ true
      → (c'.bufs i).content ≡ view c disk dev blockno
  held_view c' i s v =
      let first : find_cached c'.bufs c'.order dev blockno ≡ some i =
        cached_only c'.bufs dev blockno c'.order i s.listed s.is_it
          (λ k m h. s.coherent.unique k i dev blockno device m s.listed h s.is_it) in
      let own : view c' disk dev blockno ≡ (c'.bufs i).content =
        ap (entry c'.bufs disk dev blockno) first ∙ rw v refl in
      sym own ∙ s.same_view dev blockno device

  -- A change of the buffer that keeps it of its block.
  Stage-put :
      (c' : Bcache) (i : ℕ) (b : Buf)
      → Stage c' i
      → b.dev ≡ (c'.bufs i).dev
      → b.blockno ≡ (c'.bufs i).blockno
      → b.refcnt ≡ (c'.bufs i).refcnt
      → ((b.valid ≡ (c'.bufs i).valid) × (b.content ≡ (c'.bufs i).content))
        ⊎ (((c'.bufs i).valid ≡ false) × (b.content ≡ disk b.dev b.blockno))
      → Stage (put_buf c' i b) i
  Stage-put c' i b s ed eb er held =
      let here = update_self c'.bufs i b in
      let counted = λ (z : b.refcnt ≡ 0).
        absurd
          {A = (b.valid ≡ (c'.bufs i).valid)
            × (b.content ≡ (c'.bufs i).content)
            × ((c'.bufs i).refcnt ≡ 0)}
          (s.referred (sym er ∙ z)) in
      record {
        listed = s.listed;
        is_it = rw (here, ed, eb) s.is_it;
        referred = rw (here, er) s.referred;
        same_view = λ d n h. SameView-put disk c' i b ed eb held counted d n h ∙ s.same_view d n h;
        coherent = put-IsCoherent disk c' i b ed eb held counted s.coherent;
      }

  fill-Reads :
      (c' : Bcache) (i : ℕ) → Stage c' i → (c'.bufs i).lock ≡ some me → Reads (fill disk (got i c'))
  unfolding fill
  fill-Reads c' i s k = elim (Bool-cases ((c'.bufs i).valid)) [
    | inl v ↦ rw v (s.is_it, v, held_view c' i s v, k, s.same_view, s.coherent)
    | inr v ↦
        let old = c'.bufs i in
        let b = record old { content = disk old.dev old.blockno; valid = true } in
        let here = update_self c'.bufs i b in
        let s' = Stage-put c' i b s refl refl refl (inr (v, refl)) in
        let valid_now = ap (λ (r : Buf). r.valid) here in
        rw v (
          s'.is_it,
          valid_now,
          held_view (put_buf c' i b) i s' valid_now,
          ap (λ (r : Buf). r.lock) here ∙ k,
          s'.same_view,
          s'.coherent,
        )
  ]

  lock-Reads :
      (c' : Bcache) (i : ℕ) (o : Option ℕ) → Stage c' i → Reads (fill disk (lock_from me i c' o))
  unfolding lock_from fill
  lock-Reads c' i none s =
      fill-Reads (put_buf c' i (record (c'.bufs i) { lock = some me })) i
        (Stage-put c' i (record (c'.bufs i) { lock = some me }) s refl refl refl (inl (refl, refl)))
        (ap (λ (r : Buf). r.lock) (update_self c'.bufs i (record (c'.bufs i) { lock = some me })))
  lock-Reads c' i (some p) s = (s.is_it, s.same_view, s.coherent)

  module _ (coherent : IsCoherent c disk) (few : (i : ℕ) → (c.bufs i).refcnt + 1 < 2 ^ 32) where
    recycle-Reads :
        (o : Option ℕ)
        → find_cached c.bufs c.order dev blockno ≡ none
        → find_free c.bufs c.order ≡ o
        → Reads (fill disk (recycle me dev blockno c o))
    unfolding recycle lock_buf fill
    recycle-Reads none absent e = (absent, free_none c.bufs c.order e)
    recycle-Reads (some i) absent e =
        let b = record (c.bufs i) { dev = dev; blockno = blockno; valid = false; refcnt = 1 } in
        let free = free-Elem c.bufs c.order i e in
        let here = update_self c.bufs i b in
        lock-Reads (put_buf c i b) i _ (record {
          listed = free.0;
          is_it = rw (here, ==_self dev, ==_self blockno) refl;
          referred = rw here (omega arith);
          same_view =
              SameView-recycle disk c i dev blockno b refl refl refl (omega arith) device absent
                free.0 free.1 coherent;
          coherent =
              recycle-IsCoherent disk c i dev blockno b refl refl refl (omega arith) device absent
                free.0 free.1 coherent;
        })

    bget_from-Reads :
        (o : Option ℕ)
        → find_cached c.bufs c.order dev blockno ≡ o
        → Reads (fill disk (bget_from me dev blockno c o))
    unfolding bget_from lock_buf
    bget_from-Reads none e = recycle-Reads _ e refl
    bget_from-Reads (some i) e =
        let b = record (c.bufs i) { refcnt = ((c.bufs i).refcnt + 1) % 2 ^ 32 } in
        let at = cached-Elem c.bufs dev blockno c.order i e in
        let here = update_self c.bufs i b in
        let referred : b.refcnt ≢ 0 = omega (arith, few i) in
        let counted = λ (z : b.refcnt ≡ 0).
          absurd
            {A = (b.valid ≡ (c.bufs i).valid)
              × (b.content ≡ (c.bufs i).content)
              × ((c.bufs i).refcnt ≡ 0)}
            (referred z) in
        lock-Reads (put_buf c i b) i _ (record {
          listed = at.0;
          is_it = rw here at.1;
          referred = rw here referred;
          same_view = SameView-put disk c i b refl refl (inl (refl, refl)) counted;
          coherent = put-IsCoherent disk c i b refl refl (inl (refl, refl)) counted coherent;
        })

    -- For a block of a device other than 0, in a cache where no block of such a device has two
    -- buffers, unreferenced buffers agree with the disk, and no reference count is about to wrap: if
    -- bread returns, it is with a locked buffer that holds what the cache and the disk held of the
    -- block; if it sleeps, it is for the lock of the block's buffer; either way, what is read of each
    -- block and those properties of the cache are kept; and it panics only if the block has no
    -- buffer and each buffer is referenced.
    pub bread-Reads : Reads (bread disk me dev blockno c)
    unfolding bread bget
    bread-Reads = bget_from-Reads _ refl
