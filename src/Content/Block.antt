-- ===== src/Content/Block.antt =====
-- One block of a file is written.
use mathlib.Core.Path.{subst}
use native.Mathlib.Decide.{ℕ_discrete}
use operating_systems_ass.Base.{
  ℕ, ◌+◌, ◌-◌, ◌*◌, ◌/◌, ◌%◌, ◌<◌, ◌≤◌, ◌≡◌, refl, ◌≢◌, ◌∙◌, sym, ap, max, false, ◌&&◌, arith, ltb,
  leb, update, update_self, update_ne, Bool-cases, inl, inr,
}
use operating_systems_ass.Blocks.{bsize, Superblock, Store}
use operating_systems_ass.Dinode.{Dinode}
use operating_systems_ass.FileMap.{maxfile, Mapped}
use operating_systems_ass.Blocks.{bblock, bit_at, bpb}
use operating_systems_ass.Blocks.Bitmap.{IsBytes}
use operating_systems_ass.Blocks.Alloc.{used, update-IsBytes}
use operating_systems_ass.Dinode.{ndirect}
use operating_systems_ass.FileMap.Slots.{slot, slot_indirect, slot_kept}
use operating_systems_ass.FileMap.Mapping.{Gets}
use operating_systems_ass.Content.{Bytes, paste}
use operating_systems_ass.Content.Reading.{content}
use operating_systems_ass.Content.Holding.{same-IsMapped, Holds}

module _ (sb : Superblock) (own size : ℕ) (d : Dinode) (st : Store) (off : ℕ) (bytes : Bytes)
    (holds : Holds sb own size d st off bytes) (mp : Mapped)
    (gets : Gets sb d st maxfile (off / bsize) mp) (low : off / bsize < maxfile)
    (bound : size ≤ maxfile * bsize) where
  abbrev bn : ℕ
  bn = off / bsize

  -- A block of the file that was there keeps its number and its contents until the piece is pasted.
  old_block :
      (l : ℕ)
      → l < maxfile
      → slot d st l ≢ 0
      → (slot mp.copy mp.store l ≡ slot d st l) × (mp.store (slot d st l) ≡ st (slot d st l))
  old_block l h n =
      let same : slot mp.copy mp.store l ≡ slot d st l = elim (ℕ_discrete l bn) [
        | yes e ↦
            let mine : slot d st bn ≢ 0 = subst (λ l. slot d st l ≢ 0) e n in
            ap (slot mp.copy mp.store) e
            ∙ (gets.here ∙ (gets.existing mine ∙ ap (slot d st) (sym e)))
        | no e ↦ gets.others l h e
      ] in
      (
        same,
        gets.elsewhere (slot d st l) (holds.mapped.in_size l (omega arith) n)
            (holds.mapped.in_use l (omega arith) n)
            (λ y m. holds.mapped.not_map l y (omega arith) m n)
            (λ e.
              let clash : l ≡ maxfile =
                gets.valid.apart l maxfile (omega arith) (omega arith) (λ z. n (sym same ∙ z))
                  (same ∙ e) in
              omega (arith, clash)),
      )

  byte_kept :
      (i : ℕ)
      → i < max size off
      → i / bsize < maxfile
      → (mp.store (slot mp.copy mp.store (i / bsize)) (i % bsize)) ≡ bytes i
  unfolding content
  byte_kept i h l =
      let there = old_block (i / bsize) l (holds.has_blocks i h) in
      ap (λ q. mp.store q (i % bsize)) there.0
      ∙ (ap (λ (b : ℕ → ℕ). b (i % bsize)) there.1 ∙ holds.has_bytes i h)

  own_apart_after :
      (k : ℕ) → k ≤ maxfile → slot mp.copy mp.store k ≢ 0 → slot mp.copy mp.store k ≢ own
  own_apart_after k h n e = elim (ℕ_discrete (slot mp.copy mp.store k) (slot d st k)) [
    | yes same ↦ holds.own_apart k h (λ z. n (same ∙ z)) (sym same ∙ e)
    | no new ↦ holds.own_used (subst (λ q. used sb st q ≡ 0) e (gets.was_free k h n new))
  ]

  -- No block is free.
  pub full-Holds : Holds sb own size mp.copy mp.store off bytes
  unfolding content
  full-Holds = record {
    mapped = gets.valid;
    old_size = gets.same_size ∙ holds.old_size;
    has_blocks = λ i h z.
        let some_block : slot d st (i / bsize) ≢ 0 = holds.has_blocks i h in
        some_block (sym (old_block (i / bsize) (omega arith) some_block).0 ∙ z);
    has_bytes = λ i h. byte_kept i h (omega arith);
    own_within = holds.own_within;
    own_used = gets.stays_used own holds.own_within holds.own_used;
    own_apart = own_apart_after;
  }

  module _ (got : mp.addr ≢ 0) (memory : Bytes) (byte : IsBytes memory) (src m : ℕ)
      (fits : m ≤ bsize - off % bsize) where
    abbrev new_block : Bytes
    new_block = paste memory src (mp.store mp.addr) (off % bsize) m

    unfoldable pub after : Store
    after = update mp.store mp.addr new_block

    after_self : after mp.addr ≡ new_block
    unfolding after
    after_self = update_self mp.store mp.addr new_block

    after_ne : (c : ℕ) → mp.addr ≢ c → after c ≡ mp.store c
    unfolding after
    after_ne c n = update_ne mp.store mp.addr c new_block n

    block_some : slot mp.copy mp.store bn ≢ 0
    block_some z = got (sym gets.here ∙ z)

    -- The block is no other block of the file, and none of the bitmap.
    block_apart : (k : ℕ) → k ≤ maxfile → bn ≢ k → mp.addr ≢ slot mp.copy mp.store k
    block_apart k h n e = n (gets.valid.apart bn k (omega arith) h block_some (gets.here ∙ e))

    block_not_map : (y : ℕ) → y < sb.size → mp.addr ≢ bblock y sb
    block_not_map y h e = gets.valid.not_map bn y (omega arith) h block_some (gets.here ∙ e)

    block_within : mp.addr < sb.size
    block_within =
        subst (λ q. q < sb.size) gets.here (gets.valid.in_size bn (omega arith) block_some)

    after_slots : (k : ℕ) → k ≤ maxfile → slot mp.copy after k ≡ slot mp.copy mp.store k
    after_slots k h = slot_kept mp.copy mp.store after k h (λ _. after_ne (mp.copy.addrs ndirect) (
        subst (λ q. mp.addr ≢ q) (slot_indirect mp.copy mp.store)
          (block_apart maxfile (omega arith) (omega arith))))

    after_marks : (y : ℕ) → y < sb.size → used sb after y ≡ used sb mp.store y
    after_marks y h =
        ap (λ (b : ℕ → ℕ). bit_at b (y % bpb)) (after_ne (bblock y sb) (block_not_map y h))

    after-IsBytes : (c : ℕ) → IsBytes (after c)
    unfolding after
    after-IsBytes = update-IsBytes mp.store mp.addr new_block gets.valid.bytes (λ w.
        let old = gets.valid.bytes mp.addr w in
        let new = byte (src + (w - off % bsize)) in ground (arith, old, new))

    -- The place of the byte `i` in the block that is written
    in_piece :
        (i : ℕ)
        → i / bsize ≡ bn
        → (leb (off % bsize) (i % bsize) && ltb (i % bsize) (off % bsize + m))
          ≡ (leb off i && ltb i (off + m))
    in_piece i e = ground arith

    new_byte :
        (i : ℕ)
        → i / bsize ≡ bn
        → i < max size (off + m)
        → new_block (i % bsize) ≡ paste memory src bytes off m i
    new_byte i e h = elim (Bool-cases (leb off i && ltb i (off + m))) [
      | inl t ↦
          let index : i % bsize - off % bsize ≡ i - off = ground (arith, t, e) in
          rw (in_piece i e, t, index) refl
      | inr f ↦
          let before : i < max size off = ground (arith, f, h) in
          let here : slot mp.copy mp.store (i / bsize) ≡ mp.addr =
            ap (slot mp.copy mp.store) e ∙ gets.here in
          rw (in_piece i e, f)
            (ap (λ q. mp.store q (i % bsize)) (sym here)
              ∙ byte_kept i before (omega (arith, e, low)))
    ]

    byte_after :
        (i : ℕ) → i < max size (off + m) → content mp.copy after i ≡ paste memory src bytes off m i
    unfolding content
    byte_after i h =
        let l : i / bsize < maxfile = omega arith in
        ap (λ q. after q (i % bsize)) (after_slots (i / bsize) (omega arith))
        ∙ elim (ℕ_discrete (i / bsize) bn) [
          | yes e ↦
              let here : slot mp.copy mp.store (i / bsize) ≡ mp.addr =
                ap (slot mp.copy mp.store) e ∙ gets.here in
              ap (λ q. after q (i % bsize)) here
              ∙ (ap (λ (b : ℕ → ℕ). b (i % bsize)) after_self ∙ new_byte i e h)
          | no n ↦
              let outside : (leb off i && ltb i (off + m)) ≡ false = ground arith in
              ap (λ (b : ℕ → ℕ). b (i % bsize))
                (after_ne (slot mp.copy mp.store (i / bsize))
                  (block_apart (i / bsize) (omega arith) (λ e. n (sym e))))
              ∙ (byte_kept i (ground (arith, outside, n)) l ∙ rw outside refl)
        ]

    -- A piece is written into one block.
    pub block-Holds : Holds sb own size mp.copy after (off + m) (paste memory src bytes off m)
    block-Holds = record {
      mapped =
          same-IsMapped sb mp.copy mp.copy mp.store after gets.valid (omega (arith, block_within))
            after_slots after_marks after-IsBytes;
      old_size = gets.same_size ∙ holds.old_size;
      has_blocks = λ i h.
          let l : i / bsize < maxfile = omega arith in
          subst (λ q. q ≢ 0) (sym (after_slots (i / bsize) (omega arith)))
            (elim (ℕ_discrete (i / bsize) bn) [
              | yes e ↦ subst (λ l. slot mp.copy mp.store l ≢ 0) (sym e) block_some
              | no n ↦
                  let some_block : slot d st (i / bsize) ≢ 0 =
                    holds.has_blocks i (ground (arith, n)) in
                  subst (λ q. q ≢ 0) (sym (gets.others (i / bsize) l n)) some_block
            ]);
      has_bytes = byte_after;
      own_within = holds.own_within;
      own_used =
          subst (λ u. u ≢ 0) (sym (after_marks own holds.own_within))
            (gets.stays_used own holds.own_within holds.own_used);
      own_apart = λ k h. subst (λ q. q ≢ 0 → q ≢ own) (sym (after_slots k h)) (own_apart_after k h);
    }
