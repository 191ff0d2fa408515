-- ===== src/Content/Reading.antt =====
-- readi copies the bytes of a file.
use mathlib.Core.Path.{subst}
use native.Mathlib.Decide.{dec_lt}
use operating_systems_ass.Base.{
  ℕ, zero, suc, ◌+◌, ◌-◌, ◌*◌, ◌/◌, ◌%◌, ◌^◌, ◌<◌, ◌≤◌, ◌≡◌, refl, ◌≢◌, ◌∙◌, sym, ap, min, true,
  false, ◌&&◌, Option, some, arith, ltb, leb, ==_ne, if◌then◌else◌, lt→ltb, le→ltb, Bool-cases, inl,
  inr,
}
use operating_systems_ass.Blocks.{bsize, Superblock, Store}
use operating_systems_ass.Dinode.{Dinode}
use operating_systems_ass.FileMap.{maxfile}
use operating_systems_ass.FileMap.Slots.{slot}
use operating_systems_ass.FileMap.Bmap.{bmap_existing}
use operating_systems_ass.Content.{
  Bytes, paste, kernel_copyout, ReadResult, read_block, read_rest, read_from, readi,
}

-- The bytes of a file
unfoldable pub content : Dinode → Store → ℕ → ℕ
content d st i = st (slot d st (i / bsize)) (i % bsize)

-- The file has a block for each of its bytes.
pub record IsFull (d : Dinode) (st : Store) : Type 0 where
  pub bounded : d.size ≤ maxfile * bsize
  pub has_block : (i : ℕ) → i < d.size → slot d st (i / bsize) ≢ 0

pub content_in_block :
    (d : Dinode) (st : Store) (off i : ℕ)
    → i < bsize - off % bsize
    → content d st (off + i) ≡ st (slot d st (off / bsize)) (off % bsize + i)
unfolding content
content_in_block d st off i h =
    let q : (off + i) / bsize ≡ off / bsize = omega arith in
    let r : (off + i) % bsize ≡ off % bsize + i = omega arith in
    ap (λ k. st (slot d st k) ((off + i) % bsize)) q ∙ ap (st (slot d st (off / bsize))) r

-- What the loop leaves after it has read `len` bytes at `off` into `dst`
abbrev pub Reads : Dinode → Store → (n off dst len : ℕ) → Bytes → Option ReadResult → Type 0
Reads d st n off dst len memory o =
    (memory' : Bytes) × (o
      ≡ some (record { count = some n; copy = d; store = st; memory = memory' }))
    × ((p : ℕ) → memory' p ≡ paste (content d st) off memory dst len p)

-- A piece of `m` bytes, and then the others
pub paste_step :
    (from block : Bytes) (off start : ℕ) (memory : Bytes) (dst m len p : ℕ)
    → m ≤ len
    → ((i : ℕ) → i < m → block (start + i) ≡ from (off + i))
    → paste from (off + m) (paste block start memory dst m) (dst + m) (len - m) p
      ≡ paste from off memory dst len p
paste_step from block off start memory dst m len p h e = elim (dec_lt p dst) [
  | yes l ↦ ground (arith, l)
  | no l ↦ elim (dec_lt p (dst + m)) [
    | yes low ↦
        let here : block (start + (p - dst)) ≡ from (off + (p - dst)) = e (p - dst) (omega arith) in
        let a : (leb (dst + m) p && ltb p (dst + m + (len - m))) ≡ false = ground arith in
        let b : (leb dst p && ltb p (dst + m)) ≡ true = ground arith in
        let c : (leb dst p && ltb p (dst + len)) ≡ true = ground arith in rw (a, b, c) here
    | no high ↦
        let b : (leb dst p && ltb p (dst + m)) ≡ false = ground arith in
        let a : (leb (dst + m) p && ltb p (dst + m + (len - m)))
            ≡ (leb dst p && ltb p (dst + len)) =
          ground arith in
        let i : p < dst + len → off + m + (p - (dst + m)) ≡ off + (p - dst) = λ _. omega arith in
        rw (a, b)
          (elim (Bool-cases (leb dst p && ltb p (dst + len))) [
            | inl t ↦ rw t (ap from (i (ground (arith, t))))
            | inr f ↦ rw f refl
          ])
  ]
]

module _ (sb : Superblock) (d : Dinode) (st : Store) (whole : IsFull d st) where
  read_from_lem :
      (fuel tot n off dst : ℕ) (memory : Bytes)
      → tot ≤ n
      → n - tot < fuel
      → off + (n - tot) ≤ d.size
      → Reads d st n off dst
          (n - tot)
          memory
          (read_from fuel kernel_copyout sb d tot n off dst st memory)
  unfolding read_from read_block read_rest
  read_from_lem zero tot n off dst memory h l b = absurd (omega (arith, l))
  read_from_lem (suc fuel) tot n off dst memory h l b = elim (dec_lt tot n) [
    | no done ↦
        let all : tot ≡ n = omega arith in
        (
          memory,
          rw (le→ltb tot n (omega arith)) (
              ap (λ t. some (record { count = some t; copy = d; store = st; memory = memory }))
                all),
          λ p. ground arith,
        )
    | yes more ↦
        let m : ℕ = min (n - tot) (bsize - off % bsize) in
        let a : ℕ = slot d st (off / bsize) in
        let present : a ≢ 0 = whole.has_block off (omega arith) in
        let small : off / bsize < maxfile = omega (arith, whole.bounded) in
        let fits : m ≤ n - tot = omega arith in
        let left : n - (tot + m) ≡ n - tot - m = omega arith in
        let rest =
          read_from_lem fuel (tot + m) n (off + m) (dst + m)
            (paste (st a) (off % bsize) memory dst m) (omega arith) (omega arith) (omega arith) in
        (
          rest.0,
          rw
              (
                lt→ltb tot n more,
                bmap_existing sb d st (off / bsize) small present,
                ==_ne a 0 present,
              )
              rest.1,
          λ p.
              rest.2 p
              ∙ (ap
                    (λ k.
                      paste (content d st) (off + m) (paste (st a) (off % bsize) memory dst m)
                        (dst + m) k p)
                    left
                  ∙ paste_step (content d st) (st a) off (off % bsize) memory dst m (n - tot) p fits
                      (λ i h. sym (content_in_block d st off i (omega arith)))),
        )
  ]

  whole_read :
      (n dst off : ℕ) (memory : Bytes)
      → off + n ≤ d.size
      → Reads d st n off dst n memory (read_from (n + 1) kernel_copyout sb d 0 n off dst st memory)
  whole_read n dst off memory h =
      let all : n - 0 ≡ n = omega arith in
      subst
        (λ len.
          Reads d st n off dst len memory
            (read_from (n + 1) kernel_copyout sb d 0 n off dst st memory))
        all (read_from_lem (n + 1) 0 n off dst memory (omega arith) (omega arith) (omega arith))

  -- The number of bytes that readi reads
  abbrev pub readable : (off n : ℕ) → ℕ
  readable off n = if ltb d.size off then 0 else min n (d.size - off)

  -- For a file with a block for each of its bytes and an end of the bytes asked for within 32 bits:
  -- readi into the kernel's memory returns the number of those bytes that are before the end of
  -- the file, 0 from behind it; it copies them, in order, changes no other byte of the memory,
  -- and leaves the inode and the blocks as they were.
  pub readi-Reads :
      (dst off n : ℕ) (memory : Bytes)
      → off + n < 2 ^ 32
      → Reads d st
          (readable off n)
          off
          dst
          (readable off n)
          memory
          (readi kernel_copyout sb d dst off n st memory)
  unfolding readi
  readi-Reads dst off n memory fits =
      let wraps : ltb ((off + n) % 2 ^ 32) off ≡ false = ground arith in
      elim (dec_lt d.size off) [
        | yes behind ↦ rw (wraps, lt→ltb d.size off behind) (memory, refl, λ p. ground arith)
        | no before ↦
            let within : ltb d.size off ≡ false = le→ltb d.size off (omega arith) in
            let len : (if ltb d.size (off + n) then d.size - off else n) ≡ min n (d.size - off) =
              ground arith in
            rw (wraps, within, len) (whole_read (min n (d.size - off)) dst off memory (omega arith))
      ]
