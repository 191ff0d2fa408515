-- ===== src/Content/Loop.antt =====
-- The loop of writei.
use native.Mathlib.Decide.{ℕ_discrete, dec_lt}
use operating_systems_ass.Base.{
  ℕ, zero, suc, ◌+◌, ◌-◌, ◌*◌, ◌/◌, ◌%◌, ◌^◌, ◌<◌, ◌≤◌, ◌≡◌, refl, ◌≢◌, ◌∙◌, ap, min, Option, some,
  arith, ==_iff, ==_ne, lt→ltb, le→ltb,
}
use operating_systems_ass.Blocks.{bsize, Superblock, Store}
use operating_systems_ass.Blocks.Bitmap.{IsBytes}
use operating_systems_ass.Blocks.Alloc.{used}
use operating_systems_ass.Dinode.{Dinode}
use operating_systems_ass.FileMap.{maxfile, Mapped}
use operating_systems_ass.FileMap.Bmap.{bmap-Gets}
use operating_systems_ass.Content.{
  Bytes, paste, kernel_copyin, Written, write_rest, write_block, write_from,
}
use operating_systems_ass.Content.Reading.{paste_step}
use operating_systems_ass.Content.Holding.{Holds}
use operating_systems_ass.Content.Block.{full-Holds, block-Holds, after}

-- The same bytes, written down in another way
shown-Holds :
    (sb : Superblock) (own size : ℕ) (d : Dinode) (st : Store) (off off' : ℕ) (bytes bytes' : Bytes)
    → off ≡ off'
    → ((i : ℕ) → bytes i ≡ bytes' i)
    → Holds sb own size d st off bytes
    → Holds sb own size d st off' bytes'
shown-Holds sb own size d st off off' bytes bytes' e same h = record {
  mapped = h.mapped;
  old_size = h.old_size;
  has_blocks = λ i l. h.has_blocks i (omega arith);
  has_bytes = λ i l. h.has_bytes i (omega arith) ∙ same i;
  own_within = h.own_within;
  own_used = h.own_used;
  own_apart = h.own_apart;
}

module _ (sb : Superblock) (own size n : ℕ) (small : sb.size ≤ 2 ^ 32) (memory : Bytes)
    (byte : IsBytes memory) (bound : size ≤ maxfile * bsize) where
  -- The loop, from a file that holds `bytes`, writes the first `t` bytes of those that are left; it
  -- stops before the last of them only if no block is free.
  pub record Loops (tot off src : ℕ) (bytes : Bytes) (w : Written) (t : ℕ) : Type 0 where
    pub counts : w.total ≡ tot + t
    pub ends : w.end ≡ off + t
    pub no_more : t ≤ n - tot
    pub stops : t < n - tot → (y : ℕ) → y < sb.size → used sb w.new_store y ≢ 0
    pub holds : Holds sb own size w.new_copy w.new_store (off + t) (paste memory src bytes off t)

  abbrev pub Result : (tot off src : ℕ) → Bytes → Option Written → Type 0
  Result tot off src bytes o = (w : Written) × (t : ℕ) × (o ≡ some w) × Loops tot off src bytes w t

  -- No further byte is written.
  stop-Result :
      (tot off src : ℕ) (bytes : Bytes) (d : Dinode) (st : Store)
      → (0 < n - tot → (y : ℕ) → y < sb.size → used sb st y ≢ 0)
      → Holds sb own size d st off bytes
      → Result tot off src bytes
          (some (record { total = tot; end = off; new_copy = d; new_store = st }))
  stop-Result tot off src bytes d st full h = (
    record { total = tot; end = off; new_copy = d; new_store = st },
    0,
    refl,
    record {
      counts = omega arith;
      ends = omega arith;
      no_more = omega arith;
      stops = full;
      holds =
          shown-Holds sb own size d st off (off + 0) bytes (paste memory src bytes off 0)
            (omega arith) (λ i. ground arith) h;
    },
  )

  -- The bytes after a piece of `m` bytes
  step-Result :
      (tot off src m : ℕ) (bytes : Bytes) (o : Option Written)
      → m ≤ n - tot
      → Result (tot + m) (off + m) (src + m) (paste memory src bytes off m) o
      → Result tot off src bytes o
  step-Result tot off src m bytes o l (w, t, e, r) = (
    w,
    m + t,
    e,
    record {
      counts = omega (arith, r.counts);
      ends = omega (arith, r.ends);
      no_more = omega (arith, r.no_more);
      stops = λ h. r.stops (omega arith);
      holds =
          shown-Holds sb own size w.new_copy w.new_store (off + m + t) (off + (m + t))
            (paste memory (src + m) (paste memory src bytes off m) (off + m) t)
            (paste memory src bytes off (m + t)) (omega arith)
            (λ i.
              let len : t ≡ m + t - m = omega arith in
              ap (λ k. paste memory (src + m) (paste memory src bytes off m) (off + m) k i) len
              ∙ paste_step memory memory src src bytes off m (m + t) i (omega arith) (λ _ _. refl))
            r.holds;
    },
  )

  pub write_from_lem :
      (fuel tot off src : ℕ) (d : Dinode) (st : Store) (bytes : Bytes)
      → tot ≤ n
      → n - tot < fuel
      → off + (n - tot) ≤ maxfile * bsize
      → Holds sb own size d st off bytes
      → Result tot off src bytes (write_from fuel (kernel_copyin memory) sb d tot n off src st)
  unfolding write_from write_block write_rest after
  write_from_lem zero tot off src d st bytes h l b holds = absurd (omega (arith, l))
  write_from_lem (suc fuel) tot off src d st bytes h l b holds = elim (dec_lt tot n) [
    | no done ↦
        rw (le→ltb tot n (omega arith))
          (stop-Result tot off src bytes d st (λ m. absurd (omega (arith, m, done))) holds)
    | yes more ↦
        let low : off / bsize < maxfile = omega arith in
        let found = (bmap-Gets sb d st holds.mapped small (off / bsize)).0 low in
        let mp : Mapped = found.0 in
        let gets = found.2 in
        elim (ℕ_discrete mp.addr 0) [
          | yes z ↦
              rw (lt→ltb tot n more, found.1, (==_iff mp.addr 0).1 z)
                (stop-Result tot off src bytes mp.copy mp.store (λ _. gets.full z)
                  (full-Holds sb own size d st off bytes holds mp gets low bound))
          | no got ↦
              let m : ℕ = min (n - tot) (bsize - off % bsize) in
              rw (lt→ltb tot n more, found.1, ==_ne mp.addr 0 got)
                (step-Result tot off src m bytes _ (omega arith) (
                  write_from_lem fuel (tot + m) (off + m) (src + m) mp.copy _
                    (paste memory src bytes off m) (omega arith) (omega arith) (omega arith)
                    (block-Holds sb own size d st off bytes holds mp gets low bound got memory byte
                      src m (omega arith))))
        ]
  ]
