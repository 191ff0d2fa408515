-- ===== src/FileMap/Bmap.antt =====
-- bmap as a whole.
use mathlib.Core.Path.{subst}
use native.Mathlib.Decide.{ℕ_discrete, dec_lt}
use operating_systems_ass.Base.{
  ℕ, ◌+◌, ◌-◌, ◌^◌, ◌<◌, ◌≤◌, ◌≡◌, refl, ◌≢◌, ◌∙◌, sym, ap, none, some, arith, ◌==◌, ==_iff, ==_ne,
  if◌then◌else◌, lt→ltb, le→ltb,
}
use operating_systems_ass.Words.{word_at}
use operating_systems_ass.Blocks.{Superblock, Store}
use operating_systems_ass.Blocks.Alloc.{used}
use operating_systems_ass.Dinode.{Dinode, ndirect}
use operating_systems_ass.FileMap.{nindirect, maxfile, Mapped, get_addr, get_word, bmap}
use operating_systems_ass.FileMap.Slots.{
  slot, word_of, slot_direct, slot_indirect, slot_word, word_of_some, word_of_none, IsMapped,
}
use operating_systems_ass.FileMap.Mapping.{Gets, get_addr-Gets}
use operating_systems_ass.FileMap.Indirect.{get_word-Gets}

-- The indirect block is looked up first.
chain-Gets :
    (sb : Superblock) (d : Dinode) (st : Store) (k : ℕ) (mp mp' : Mapped)
    → k < maxfile
    → Gets sb d st (maxfile + 1) maxfile mp
    → Gets sb mp.copy mp.store (maxfile + 1) k mp'
    → Gets sb d st maxfile k mp'
chain-Gets sb d st k mp mp' h g g' =
    let same : slot mp.copy mp.store k ≡ slot d st k = g.others k (omega arith) (omega arith) in
    let indirect : slot mp'.copy mp'.store maxfile ≡ slot mp.copy mp.store maxfile =
      g'.others maxfile (omega arith) (omega arith) in
    record {
      valid = g'.valid;
      here = g'.here;
      existing = λ n. g'.existing (λ z. n (sym same ∙ z)) ∙ same;
      others = λ l m n. g'.others l (omega arith) n ∙ g.others l (omega arith) (omega arith);
      fresh = λ z. g'.fresh (same ∙ z);
      full = g'.full;
      stays_used = λ y l u. g'.stays_used y l (g.stays_used y l u);
      elsewhere = λ c l u m n.
          g'.elsewhere c l (g.stays_used c l u) m n
          ∙ g.elsewhere c l u m (subst (λ q. c ≢ q) indirect n);
      was_free = λ l m n ne.
          elim (ℕ_discrete (slot mp'.copy mp'.store l) (slot mp.copy mp.store l)) [
            | yes e ↦
                subst (λ q. used sb st q ≡ 0) (sym e)
                  (g.was_free l m (λ z. n (e ∙ z)) (λ z. ne (e ∙ z)))
            | no e ↦ elim (ℕ_discrete (used sb st (slot mp'.copy mp'.store l)) 0) [
              | yes z ↦ z
              | no u ↦ absurd (
                  g.stays_used (slot mp'.copy mp'.store l) (g'.valid.in_size l m n) u
                    (g'.was_free l m n e))
            ]
          ];
      same_size = g'.same_size ∙ g.same_size;
    }

-- Without an indirect block
unmapped-Gets :
    (sb : Superblock) (d : Dinode) (st : Store) (k : ℕ) (mp : Mapped)
    → ndirect ≤ k
    → k < maxfile
    → mp.addr ≡ 0
    → Gets sb d st (maxfile + 1) maxfile mp
    → Gets sb d st maxfile k mp
unmapped-Gets sb d st k mp low h z g =
    let same : slot mp.copy mp.store k ≡ slot d st k = g.others k (omega arith) (omega arith) in
    let no_block : mp.copy.addrs ndirect ≡ 0 =
      sym (slot_indirect mp.copy mp.store) ∙ (g.here ∙ z) in
    let nothing : slot mp.copy mp.store k ≡ 0 =
      slot_word mp.copy mp.store k low h
      ∙ word_of_none (mp.copy.addrs ndirect) mp.store (k - ndirect) no_block in
    record {
      valid = g.valid;
      here = nothing ∙ sym z;
      existing = λ n. absurd (n (sym same ∙ nothing));
      others = λ l m n. g.others l (omega arith) (omega arith);
      fresh = λ _ n. absurd (n z);
      full = g.full;
      stays_used = g.stays_used;
      elsewhere = g.elsewhere;
      was_free = g.was_free;
      same_size = g.same_size;
    }

narrow-Gets :
    (sb : Superblock) (d : Dinode) (st : Store) (k : ℕ) (mp : Mapped)
    → Gets sb d st (maxfile + 1) k mp
    → Gets sb d st maxfile k mp
narrow-Gets sb d st k mp g = record {
  valid = g.valid;
  here = g.here;
  existing = g.existing;
  others = λ l m. g.others l (omega arith);
  fresh = g.fresh;
  full = g.full;
  stays_used = g.stays_used;
  elsewhere = g.elsewhere;
  was_free = g.was_free;
  same_size = g.same_size;
}

module _ (sb : Superblock) (d : Dinode) (st : Store) (valid : IsMapped sb d st)
    (small : sb.size ≤ 2 ^ 32) where
  after_indirect :
      (j : ℕ) (mp : Mapped)
      → j < nindirect
      → Gets sb d st (maxfile + 1) maxfile mp
      → Gets sb d st maxfile (ndirect + j) (get_word sb j mp)
  unfolding get_word
  after_indirect j mp h g = elim (ℕ_discrete mp.addr 0) [
    | yes z ↦
        rw ((==_iff mp.addr 0).1 z)
          (unmapped-Gets sb d st (ndirect + j) mp (omega arith) (omega arith) z g)
    | no n ↦
        let block : mp.copy.addrs ndirect ≡ mp.addr =
          sym (slot_indirect mp.copy mp.store) ∙ g.here in
        chain-Gets sb d st (ndirect + j) mp _ (omega arith) g (
          subst
            (λ a.
              Gets sb mp.copy mp.store (maxfile + 1) (ndirect + j)
                (get_word sb j (record { addr = a; copy = mp.copy; store = mp.store })))
            block (get_word-Gets sb mp.copy mp.store g.valid j h small (λ z. n (sym block ∙ z))))
  ]

  -- For a file whose blocks are in use, different, and none of the bitmap, on a file system of at
  -- most 2 ^ 32 blocks: bmap of a block number from maxfile on panics. Below it, bmap returns the
  -- block that the file has there, or else a new one, which was free and is full of zeroes, or 0 if
  -- no block is free.
  -- The block is there then, the other blocks of the file are the ones that were there, blocks in
  -- use stay in use and keep their contents (but for the bitmap and the file's indirect block), the
  -- size stays, and the file is as it was assumed to be.
  pub bmap-Gets :
      (bn : ℕ)
      → (bn < maxfile → (mp : Mapped) × (bmap sb d bn st ≡ some mp) × Gets sb d st maxfile bn mp)
        × (maxfile ≤ bn → bmap sb d bn st ≡ none)
  unfolding bmap
  bmap-Gets bn = (
    λ h. elim (dec_lt bn ndirect) [
      | yes l ↦
          let at : (if bn == ndirect then maxfile else bn) ≡ bn = ground arith in
          (
            get_addr sb bn d st,
            rw (lt→ltb bn ndirect l) refl,
            narrow-Gets sb d st bn (get_addr sb bn d st) (
                subst (λ k. Gets sb d st (maxfile + 1) k (get_addr sb bn d st)) at
                  (get_addr-Gets sb d st valid bn (omega arith))),
          )
      | no l ↦
          let index : ndirect + (bn - ndirect) ≡ bn = omega arith in
          (
            get_word sb (bn - ndirect) (get_addr sb ndirect d st),
            rw (le→ltb bn ndirect (omega arith), lt→ltb (bn - ndirect) nindirect (omega arith))
                refl,
            subst
                (λ k.
                  Gets sb d st maxfile k (get_word sb (bn - ndirect) (get_addr sb ndirect d st)))
                index
                (after_indirect (bn - ndirect) (get_addr sb ndirect d st) (omega arith)
                  (get_addr-Gets sb d st valid ndirect (omega arith))),
          )
    ],
    λ h. rw (le→ltb bn ndirect (omega arith), le→ltb (bn - ndirect) nindirect (omega arith)) refl,
  )

-- bmap of a block that the file has changes nothing.
pub bmap_existing :
    (sb : Superblock) (d : Dinode) (st : Store) (bn : ℕ)
    → bn < maxfile
    → slot d st bn ≢ 0
    → bmap sb d bn st ≡ some (record { addr = slot d st bn; copy = d; store = st })
unfolding bmap get_addr get_word
bmap_existing sb d st bn h n = elim (dec_lt bn ndirect) [
  | yes l ↦
      let at : slot d st bn ≡ d.addrs bn = slot_direct d st bn l in
      rw (lt→ltb bn ndirect l, ==_ne (d.addrs bn) 0 (λ z. n (at ∙ z)))
        (ap (λ a. some (record { addr = a; copy = d; store = st })) (sym at))
  | no l ↦
      let p = d.addrs ndirect in
      let at : slot d st bn ≡ word_of p st (bn - ndirect) = slot_word d st bn (omega arith) h in
      let present : p ≢ 0 = λ z. n (at ∙ word_of_none p st (bn - ndirect) z) in
      let entry : slot d st bn ≡ word_at (st p) (bn - ndirect) =
        at ∙ word_of_some p st (bn - ndirect) present in
      rw
        (
          le→ltb bn ndirect (omega arith),
          lt→ltb (bn - ndirect) nindirect (omega arith),
          ==_ne p 0 present,
          ==_ne p 0 present,
          ==_ne (word_at (st p) (bn - ndirect)) 0 (λ z. n (entry ∙ z)),
        )
        (ap (λ a. some (record { addr = a; copy = d; store = st })) (sym entry))
]
