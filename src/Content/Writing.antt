-- ===== src/Content/Writing.antt =====
-- writei on the bytes of a file.
use mathlib.Core.Path.{subst}
use operating_systems_ass.Base.{
  ℕ, ◌+◌, ◌*◌, ◌/◌, ◌%◌, ◌^◌, ◌<◌, ◌≤◌, ◌≡◌, refl, ◌≢◌, ◌⊎◌, ◌∙◌, sym, ap, max, true, false, none,
  some, arith, ltb, if◌then◌else◌, le→ltb, Bool-cases, inl, inr,
}
use operating_systems_ass.Blocks.{bsize, Superblock, Store, bblock, bit_at, bpb}
use operating_systems_ass.Blocks.Bitmap.{IsBytes}
use operating_systems_ass.Blocks.Alloc.{used}
use operating_systems_ass.Dinode.{Dinode, Inode, iblock, iupdate, ndirect}
use operating_systems_ass.Dinode.Copies.{iupdate-IsBytes}
use operating_systems_ass.FileMap.Truncate.{not_written}
use operating_systems_ass.FileMap.{maxfile}
use operating_systems_ass.FileMap.Slots.{slot, slot_indirect, slot_kept, IsMapped}
use operating_systems_ass.Content.{Bytes, paste, kernel_copyin, Written, finish_write, writei}
use operating_systems_ass.Content.Reading.{content, IsFull}
use operating_systems_ass.Content.Holding.{same-IsMapped, Holds}
use operating_systems_ass.Content.Loop.{write_from_lem}

-- The inode in memory and on the disk after writei has written `t` bytes
pub record Writes (sb : Superblock) (ip : Inode) (st : Store) (memory : Bytes) (src off n : ℕ)
    (ip' : Inode) (st' : Store) (t : ℕ) : Type 0 where
  pub still_mapped : IsMapped sb ip'.copy st'
  pub still_full : IsFull ip'.copy st'
  pub new_size : ip'.copy.size ≡ max ip.copy.size (off + t)
  pub new_bytes :
      (i : ℕ)
      → i < ip'.copy.size
      → content ip'.copy st' i ≡ paste memory src (content ip.copy st) off t i
  pub at_most : t ≤ n
  pub out_of_blocks : t < n → (y : ℕ) → y < sb.size → used sb st' y ≢ 0

-- The block of an inode is in use, and neither of the bitmap nor of the inode's file.
pub record HasOwn (sb : Superblock) (ip : Inode) (st : Store) : Type 0 where
  pub in_size : iblock ip.inum sb < sb.size
  pub in_use : used sb st (iblock ip.inum sb) ≢ 0
  pub not_map : (y : ℕ) → y < sb.size → iblock ip.inum sb ≢ bblock y sb
  pub not_own :
      (k : ℕ) → k ≤ maxfile → slot ip.copy st k ≢ 0 → slot ip.copy st k ≢ iblock ip.inum sb

slot_resized :
    (d : Dinode) (size : ℕ) (st : Store) (k : ℕ)
    → slot (record d { size = size }) st k ≡ slot d st k
unfolding slot
slot_resized d size st k = refl

module _ (sb : Superblock) (ip : Inode) (st : Store) (small : sb.size ≤ 2 ^ 32) (memory : Bytes)
    (byte : IsBytes memory) where
  -- The end of writei
  finish :
      (src off n t : ℕ) (w : Written)
      → HasOwn sb ip st
      → ip.copy.size ≤ maxfile * bsize
      → off + t ≤ maxfile * bsize
      → w.end ≡ off + t
      → t ≤ n
      → (t < n → (y : ℕ) → y < sb.size → used sb w.new_store y ≢ 0)
      → Holds sb
          (iblock ip.inum sb)
          ip.copy.size
          w.new_copy
          w.new_store
          (off + t)
          (paste memory src (content ip.copy st) off t)
      → (ip' : Inode) × (st' : Store) × (finish_write sb ip w ≡ some (some (w.total), ip', st'))
        × Writes sb ip st memory src off n ip' st' t
  unfolding finish_write content
  finish src off n t w own bound top ends most full h =
      let size : ℕ = if ltb w.new_copy.size w.end then w.end else w.new_copy.size in
      let size_is : size ≡ max ip.copy.size (off + t) = ground (arith, ends, h.old_size) in
      let ip' : Inode = record ip { copy = record (w.new_copy) { size = size } } in
      let st' : Store = iupdate sb ip' w.new_store in
      let slots : (k : ℕ) → k ≤ maxfile → slot ip'.copy st' k ≡ slot w.new_copy w.new_store k =
        λ k l.
          slot_resized w.new_copy size st' k
          ∙ slot_kept w.new_copy w.new_store st' k l (λ n.
            not_written sb ip' w.new_store (w.new_copy.addrs ndirect) (
              subst (λ q. q ≢ 0 → q ≢ iblock ip.inum sb) (slot_indirect w.new_copy w.new_store)
                (h.own_apart maxfile (omega arith)) n)) in
      let marks : (y : ℕ) → y < sb.size → used sb st' y ≡ used sb w.new_store y = λ y l.
        ap (λ (b : ℕ → ℕ). bit_at b (y % bpb))
          (not_written sb ip' w.new_store (bblock y sb) (λ e. own.not_map y l (sym e))) in
      (
        ip',
        st',
        refl,
        record {
          still_mapped =
              same-IsMapped sb w.new_copy ip'.copy w.new_store st' h.mapped
                (omega (arith, own.in_size)) slots marks
                (iupdate-IsBytes sb ip' w.new_store h.mapped.bytes);
          still_full = record {
            bounded = omega (arith, size_is);
            has_block = λ i l.
                subst (λ q. q ≢ 0) (sym (slots (i / bsize) (omega (arith, size_is))))
                  (h.has_blocks i (omega (arith, size_is)));
          };
          new_size = size_is;
          new_bytes = λ i l.
              let within : i < max ip.copy.size (off + t) = omega (arith, size_is) in
              let k_top : i / bsize ≤ maxfile = omega arith in
              let some_block : slot w.new_copy w.new_store (i / bsize) ≢ 0 =
                h.has_blocks i within in
              ap (λ q. st' q (i % bsize)) (slots (i / bsize) k_top)
              ∙ (ap (λ (b : ℕ → ℕ). b (i % bsize))
                    (not_written sb ip' w.new_store (slot w.new_copy w.new_store (i / bsize))
                      (h.own_apart (i / bsize) k_top some_block))
                  ∙ h.has_bytes i within);
          at_most = most;
          out_of_blocks = λ less y l. subst (λ u. u ≢ 0) (sym (marks y l)) (full less y l);
        },
      )

  -- For a file with a block for each of its bytes, whose blocks are in use, different, and none of the
  -- bitmap, whose inode is in a block in use that is neither of the bitmap nor of the file, on a
  -- file system of at most 2 ^ 32 blocks, and for an end of the new bytes within 32 bits: writei
  -- from the kernel's memory returns -1 and changes nothing if it is to start behind the end of the
  -- file or to end behind the largest file. Otherwise it returns the number of bytes that it wrote;
  -- they are the first of those asked for, all of them unless no block is free then. The size is
  -- the larger of the old size and the end of the new bytes; up to it the bytes are the new ones
  -- where they were written and the old ones elsewhere; and the file is as it was assumed to be.
  pub writei-Writes :
      (src off n : ℕ)
      → IsMapped sb ip.copy st
      → IsFull ip.copy st
      → HasOwn sb ip st
      → off + n < 2 ^ 32
      → ((ip.copy.size < off) ⊎ (maxfile * bsize < off + n)
          → writei (kernel_copyin memory) sb ip src off n st ≡ some (none, ip, st))
        × (off ≤ ip.copy.size
            → off + n ≤ maxfile * bsize
            → (ip' : Inode) × (st' : Store) × (t : ℕ) × (writei
                  (kernel_copyin memory)
                  sb
                  ip
                  src
                  off
                  n
                  st
                ≡ some (some t, ip', st'))
              × Writes sb ip st memory src off n ip' st' t)
  unfolding writei
  writei-Writes src off n mapped whole own fits =
      let wraps : ltb ((off + n) % 2 ^ 32) off ≡ false = ground arith in
      (
        λ bad. rw wraps (elim (Bool-cases (ltb ip.copy.size off)) [
          | inl t ↦ rw t refl
          | inr f ↦
              let long : ltb (maxfile * bsize) (off + n) ≡ true = ground (arith, bad, f) in
              rw (f, long) refl
        ]),
        λ start end.
            let start_in : Holds sb (iblock ip.inum sb) ip.copy.size ip.copy st off
                (content ip.copy st) =
              record {
                mapped = mapped;
                old_size = refl;
                has_blocks = λ i l. whole.has_block i (omega arith);
                has_bytes = λ _ _. refl;
                own_within = own.in_size;
                own_used = own.in_use;
                own_apart = own.not_own;
              } in
            let loop =
              write_from_lem sb (iblock ip.inum sb) ip.copy.size n small memory byte whole.bounded
                (n + 1) 0 off src ip.copy st (content ip.copy st) (omega arith) (omega arith)
                (omega arith) start_in in
            let w = loop.0 in
            let l = loop.3 in
            let ended =
              finish src off n loop.1 w own whole.bounded (omega (arith, l.no_more)) l.ends
                (omega (arith, l.no_more)) (λ less. l.stops (omega arith)) l.holds in
            let total : w.total ≡ loop.1 = l.counts ∙ omega arith in
            (
              ended.0,
              ended.1,
              loop.1,
              rw
                  (
                    wraps,
                    le→ltb ip.copy.size off start,
                    le→ltb (maxfile * bsize) (off + n) end,
                    loop.2,
                  )
                  (ended.2 ∙ ap (λ t. some (some t, ended.0, ended.1)) total),
              ended.3,
            ),
      )
