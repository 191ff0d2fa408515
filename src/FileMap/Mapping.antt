-- ===== src/FileMap/Mapping.antt =====
-- bmap on the blocks of a file.
use mathlib.Core.Path.{subst}
use native.Mathlib.Decide.{ℕ_discrete}
use operating_systems_ass.Base.{
  ℕ, ◌+◌, ◌-◌, ◌*◌, ◌<◌, ◌≤◌, ◌≡◌, refl, ◌≢◌, ◌∙◌, sym, ap, false, arith, ◌==◌, ==_iff, ==_ne,
  if◌then◌else◌, lt→ltb, update, update_ne, inl, inr,
}
use operating_systems_ass.Words.{word_at}
use operating_systems_ass.Blocks.{bsize, Superblock, Store, bblock, balloc}
use operating_systems_ass.Blocks.Bitmap.{IsBytes}
use operating_systems_ass.Blocks.Alloc.{used, Taken, Allocates, balloc-Allocates}
use operating_systems_ass.Dinode.{Dinode, ndirect}
use operating_systems_ass.FileMap.{nindirect, maxfile, Mapped, put_addr, get_addr}
use operating_systems_ass.FileMap.Slots.{
  slot, word_of, slot_direct, slot_indirect, slot_word, slot_kind, word_of_kept, word_of_some,
  word_of_none, IsMapped, put-IsMapped, not_free,
}

-- The block `k` of a file is looked up, or allocated; `top` bounds the other blocks that stay.
pub record Gets (sb : Superblock) (d : Dinode) (st : Store) (top k : ℕ) (mp : Mapped) : Type 0 where
  pub valid : IsMapped sb mp.copy mp.store
  pub here : slot mp.copy mp.store k ≡ mp.addr
  pub existing : slot d st k ≢ 0 → mp.addr ≡ slot d st k
  pub others : (l : ℕ) → l < top → l ≢ k → slot mp.copy mp.store l ≡ slot d st l
  pub fresh : slot d st k ≡ 0 → mp.addr ≢ 0 → (w : ℕ) → w < bsize → mp.store mp.addr w ≡ 0
  pub full : mp.addr ≡ 0 → (y : ℕ) → y < sb.size → used sb mp.store y ≢ 0
  pub stays_used : (y : ℕ) → y < sb.size → used sb st y ≢ 0 → used sb mp.store y ≢ 0
  pub elsewhere :
      (c : ℕ)
      → c < sb.size
      → used sb st c ≢ 0
      → ((y : ℕ) → y < sb.size → c ≢ bblock y sb)
      → c ≢ slot mp.copy mp.store maxfile
      → mp.store c ≡ st c
  pub was_free :
      (l : ℕ)
      → l ≤ maxfile
      → slot mp.copy mp.store l ≢ 0
      → slot mp.copy mp.store l ≢ slot d st l
      → used sb st (slot mp.copy mp.store l) ≡ 0
  pub same_size : mp.copy.size ≡ d.size

module _ (sb : Superblock) (d : Dinode) (st : Store) (valid : IsMapped sb d st) where
  -- Nothing is to be done, or nothing can be done.
  pub stay-Gets :
      (k top a : ℕ)
      → slot d st k ≡ a
      → (a ≡ 0 → (y : ℕ) → y < sb.size → used sb st y ≢ 0)
      → Gets sb d st top k (record { addr = a; copy = d; store = st })
  stay-Gets k top a e full = record {
    valid = valid;
    here = e;
    existing = λ _. sym e;
    others = λ _ _ _. refl;
    fresh = λ z n. absurd (n (sym e ∙ z));
    full = full;
    stays_used = λ _ _ u. u;
    elsewhere = λ _ _ _ _ _. refl;
    was_free = λ l h n m. absurd (m refl);
    same_size = refl;
  }

  module _ (x : ℕ) (st₁ : Store) (took : Taken sb st valid.bytes x st₁) where
    pub taken_ne : x ≢ 0
    taken_ne = not_free sb st x 0 took.was_free valid.boot_used

    -- A block of the file is none of those that balloc writes.
    slot_stays : (k : ℕ) → k ≤ maxfile → slot d st k ≢ 0 → st₁ (slot d st k) ≡ st (slot d st k)
    slot_stays k h n =
        took.others (slot d st k)
          (λ e. not_free sb st x (slot d st k) took.was_free (valid.in_use k h n) (sym e))
          (valid.not_map k x h took.within n)

    pub indirect_stays : d.addrs ndirect ≢ 0 → st₁ (d.addrs ndirect) ≡ st (d.addrs ndirect)
    indirect_stays n =
        subst (λ q. q ≢ 0 → st₁ q ≡ st q) (slot_indirect d st) (slot_stays maxfile (omega arith)) n

    word_cleared : (j : ℕ) → j < nindirect → word_at (st₁ x) j ≡ 0
    unfolding word_at
    word_cleared j h =
        rw
          (
            took.cleared (4 * j) (omega arith),
            took.cleared (4 * j + 1) (omega arith),
            took.cleared (4 * j + 2) (omega arith),
            took.cleared (4 * j + 3) (omega arith),
          )
          refl

    stays : (y : ℕ) → y < sb.size → used sb st y ≢ 0 → used sb st₁ y ≢ 0
    stays y l u z = ground (arith, took.marks y l, u, z)

    module _ (d' : Dinode) (st' : Store) (k : ℕ) where
      -- The state after the free block is put into place `k`.
      pub placed-Gets :
          k ≤ maxfile
          → slot d st k ≡ 0
          → ((l : ℕ) → l ≤ maxfile → slot d' st' l ≡ (if k == l then x else slot d st l))
          → d'.size ≡ d.size
          → ((c : ℕ) → c ≢ d'.addrs ndirect → st' c ≡ st₁ c)
          → ((y : ℕ) → y < sb.size → used sb st' y ≡ used sb st₁ y)
          → ((c : ℕ) → IsBytes (st' c))
          → ((w : ℕ) → w < bsize → st' x w ≡ 0)
          → Gets sb d st (maxfile + 1) k (record { addr = x; copy = d'; store = st' })
      placed-Gets h z slots size same map bytes zeroes = record {
        valid =
            put-IsMapped sb d st valid k x h z took.was_free took.within d' st' slots
              (λ y l. map y l ∙ took.marks y l) bytes;
        here = slots k h ∙ ground arith;
        existing = λ n. absurd (n z);
        others = λ l m n. slots l (omega arith) ∙ ground (arith, n);
        fresh = λ _ _. zeroes;
        full = λ e. absurd (taken_ne e);
        stays_used = λ y l u. subst (λ v. v ≢ 0) (sym (map y l)) (stays y l u);
        elsewhere = λ c _ u m n.
            same c (subst (λ q. c ≢ q) (slot_indirect d' st') n)
            ∙ took.others c (λ e. not_free sb st x c took.was_free u (sym e)) (m x took.within);
        was_free = λ l m _ n. elim (ℕ_discrete k l) [
          | yes e ↦
              let new : slot d' st' l ≡ x = slots l m ∙ ground (arith, e) in
              subst (λ q. used sb st q ≡ 0) (sym new) took.was_free
          | no e ↦ absurd (n (slots l m ∙ ground (arith, e)))
        ];
        same_size = size;
      }

  -- The place of the address `k` of an inode
  abbrev place : ℕ → ℕ
  place k = if k == ndirect then maxfile else k

  slot-place : (k : ℕ) → k ≤ ndirect → slot d st (place k) ≡ d.addrs k
  unfolding slot
  slot-place k h = elim (ℕ_discrete k ndirect) [
    | yes e ↦ rw e refl
    | no n ↦ rw (==_ne k ndirect n, lt→ltb k ndirect (omega arith)) refl
  ]

  module _ (k : ℕ) (h : k ≤ ndirect) where
    -- The blocks after the free block `x` becomes the address `k`
    addr_slots :
        (x : ℕ) (st₁ : Store) (took : Taken sb st valid.bytes x st₁)
        → d.addrs k ≡ 0
        → (l : ℕ) → l ≤ maxfile
        → slot (record d { addrs = update d.addrs k x }) st₁ l
          ≡ (if place k == l then x else slot d st l)
    addr_slots x st₁ took z l m =
        let d' : Dinode = record d { addrs = update d.addrs k x } in
        elim (slot_kind l m) [
          | inl low ↦
              let test : (k == l) ≡ (place k == l) = ground arith in
              slot_direct d' st₁ l low
              ∙ (ap (λ t. if t then x else d.addrs l) test
                  ∙ ap (λ q. if place k == l then x else q) (sym (slot_direct d st l low)))
          | inr (inl at) ↦
              subst (λ l. slot d' st₁ l ≡ (if place k == l then x else slot d st l)) (sym at)
                (slot_indirect d' st₁
                  ∙ (let test : (k == ndirect) ≡ (place k == maxfile) = ground arith in
                      ap (λ t. if t then x else d.addrs ndirect) test
                      ∙ ap (λ q. if place k == maxfile then x else q) (sym (slot_indirect d st))))
          | inr (inr mid) ↦
              let off : (place k == l) ≡ false = ground arith in
              let old : slot d st l ≡ word_of (d.addrs ndirect) st (l - ndirect) =
                slot_word d st l mid.0 mid.1 in
              slot_word d' st₁ l mid.0 mid.1
              ∙ (elim (ℕ_discrete k ndirect) [
                | yes e ↦
                    let none_yet : word_of (d.addrs ndirect) st (l - ndirect) ≡ 0 =
                      word_of_none (d.addrs ndirect) st (l - ndirect)
                        (subst (λ k. d.addrs k ≡ 0) e z) in
                    let new : d'.addrs ndirect ≡ x = rw ((==_iff k ndirect).1 e) refl in
                    ap (λ p. word_of p st₁ (l - ndirect)) new
                    ∙ (word_of_some x st₁ (l - ndirect) (taken_ne x st₁ took)
                        ∙ (word_cleared x st₁ took (l - ndirect) (omega arith) ∙ sym none_yet))
                | no n ↦
                    let kept : d'.addrs ndirect ≡ d.addrs ndirect =
                      update_ne d.addrs k ndirect x n in
                    ap (λ p. word_of p st₁ (l - ndirect)) kept
                    ∙ word_of_kept (d.addrs ndirect) st st₁ (l - ndirect)
                        (indirect_stays x st₁ took)
              ]
                  ∙ rw off (sym old))
        ]

    put_addr-Gets :
        (r : ℕ × Store)
        → d.addrs k ≡ 0
        → Allocates sb st valid.bytes r
        → Gets sb d st (maxfile + 1) (place k) (put_addr k d r)
    unfolding put_addr
    put_addr-Gets (x, st₁) z (inl took) = rw (==_ne x 0 (taken_ne x st₁ took)) (
        placed-Gets x st₁ took (record d { addrs = update d.addrs k x }) st₁ (place k)
          (ground arith) (slot-place k h ∙ z) (addr_slots x st₁ took z) refl (λ _ _. refl)
          (λ _ _. refl) took.still_bytes took.cleared)
    put_addr-Gets (x, st₁) z (inr (e, same, full)) =
        subst (λ st₁. Gets sb d st (maxfile + 1) (place k) (put_addr k d (x, st₁))) (sym same)
          (rw ((==_iff x 0).1 e)
            (stay-Gets (place k) (maxfile + 1) x (slot-place k h ∙ (z ∙ sym e)) (λ _. full)))

    pub get_addr-Gets : Gets sb d st (maxfile + 1) (place k) (get_addr sb k d st)
    unfolding get_addr
    get_addr-Gets = elim (ℕ_discrete (d.addrs k) 0) [
      | yes z ↦
          rw ((==_iff (d.addrs k) 0).1 z)
            (put_addr-Gets (balloc sb st) z (balloc-Allocates sb st valid.bytes valid.map_used))
      | no n ↦
          rw (==_ne (d.addrs k) 0 n)
            (stay-Gets (place k) (maxfile + 1) (d.addrs k) (slot-place k h) (λ z. absurd (n z)))
    ]
