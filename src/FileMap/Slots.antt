-- ===== src/FileMap/Slots.antt =====
-- The blocks of a file: those with its content, then its indirect block.
use mathlib.Core.Path.{subst}
use native.Mathlib.Decide.{ℕ_discrete}
use operating_systems_ass.Base.{
  ℕ, ◌-◌, ◌<◌, ◌≤◌, ◌≡◌, refl, ◌≢◌, ◌∙◌, sym, ap, arith, ltb, ◌==◌, ==_ne, le→ltb, ◌⊎◌,
  if◌then◌else◌, lt→ltb,
}
use operating_systems_ass.Words.{word_at}
use operating_systems_ass.Blocks.{Superblock, Store, bblock}
use operating_systems_ass.Blocks.Bitmap.{IsBytes}
use operating_systems_ass.Blocks.Alloc.{used}
use operating_systems_ass.Dinode.{Dinode, ndirect}
use operating_systems_ass.FileMap.{maxfile}

-- The entry `j` of the indirect block `p`
unfoldable pub word_of : ℕ → Store → ℕ → ℕ
word_of p st j = if p == 0 then 0 else word_at (st p) j

-- The block with the content `k` of a file, and for `maxfile` its indirect block; 0 for none
unfoldable pub slot : Dinode → Store → ℕ → ℕ
slot d st k =
    if ltb k ndirect
    then d.addrs k
    else if k == maxfile
    then d.addrs ndirect
    else word_of (d.addrs ndirect) st (k - ndirect)

pub slot_direct : (d : Dinode) (st : Store) (k : ℕ) → k < ndirect → slot d st k ≡ d.addrs k
unfolding slot
slot_direct d st k h = rw (lt→ltb k ndirect h) refl

pub slot_indirect : (d : Dinode) (st : Store) → slot d st maxfile ≡ d.addrs ndirect
unfolding slot
slot_indirect d st = refl

pub slot_word :
    (d : Dinode) (st : Store) (k : ℕ)
    → ndirect ≤ k
    → k < maxfile
    → slot d st k ≡ word_of (d.addrs ndirect) st (k - ndirect)
unfolding slot
slot_word d st k l h = rw (le→ltb k ndirect l, ==_ne k maxfile (omega arith)) refl

pub word_of_kept :
    (p : ℕ) (st st' : Store) (j : ℕ) → (p ≢ 0 → st' p ≡ st p) → word_of p st' j ≡ word_of p st j
unfolding word_of
word_of_kept p st st' j e = elim (ℕ_discrete p 0) [
  | yes z ↦ rw z refl
  | no n ↦ ap (λ (b : ℕ → ℕ). if p == 0 then 0 else word_at b j) (e n)
]

pub word_of_some : (p : ℕ) (st : Store) (j : ℕ) → p ≢ 0 → word_of p st j ≡ word_at (st p) j
unfolding word_of
word_of_some p st j n = rw (==_ne p 0 n) refl

pub word_of_none : (p : ℕ) (st : Store) (j : ℕ) → p ≡ 0 → word_of p st j ≡ 0
unfolding word_of
word_of_none p st j z = rw z refl

-- A file that keeps its addresses and its indirect block keeps its blocks.
pub slot_kept :
    (d : Dinode) (st st' : Store) (k : ℕ)
    → k ≤ maxfile
    → (d.addrs ndirect ≢ 0 → st' (d.addrs ndirect) ≡ st (d.addrs ndirect))
    → slot d st' k ≡ slot d st k
unfolding slot
slot_kept d st st' k h e = rw (word_of_kept (d.addrs ndirect) st st' (k - ndirect) e) refl

-- The three kinds of blocks, for a claim on each
pub slot_kind :
    (k : ℕ) → k ≤ maxfile → (k < ndirect) ⊎ (k ≡ maxfile) ⊎ ((ndirect ≤ k) × (k < maxfile))
slot_kind k h = ground arith

-- The blocks of a file are in use, different, and none of the bitmap.
pub record IsMapped (sb : Superblock) (d : Dinode) (st : Store) : Type 0 where
  pub bytes : (c : ℕ) → IsBytes (st c)
  pub map_within : (y : ℕ) → y < sb.size → bblock y sb < sb.size
  pub map_used : (y : ℕ) → y < sb.size → used sb st (bblock y sb) ≢ 0
  pub boot_used : used sb st 0 ≢ 0
  pub in_use : (k : ℕ) → k ≤ maxfile → slot d st k ≢ 0 → used sb st (slot d st k) ≢ 0
  pub in_size : (k : ℕ) → k ≤ maxfile → slot d st k ≢ 0 → slot d st k < sb.size
  pub not_map : (k y : ℕ) → k ≤ maxfile → y < sb.size → slot d st k ≢ 0 → slot d st k ≢ bblock y sb
  pub apart :
      (k l : ℕ) → k ≤ maxfile → l ≤ maxfile → slot d st k ≢ 0 → slot d st k ≡ slot d st l → k ≡ l

-- A block in use is not the free block `x`.
pub not_free :
    (sb : Superblock) (st : Store) (x c : ℕ) → used sb st x ≡ 0 → used sb st c ≢ 0 → x ≢ c
not_free sb st x c free busy e = busy (subst (λ c. used sb st c ≡ 0) e free)

module _ (sb : Superblock) (d : Dinode) (st : Store) (valid : IsMapped sb d st) (k x : ℕ)
    (top : k ≤ maxfile) (empty : slot d st k ≡ 0) (free : used sb st x ≡ 0) (within : x < sb.size)
    (d' : Dinode) (st' : Store)
    (slots : (l : ℕ) → l ≤ maxfile → slot d' st' l ≡ (if k == l then x else slot d st l))
    (marks : (y : ℕ) → y < sb.size → used sb st' y ≡ (if x == y then 1 else used sb st y))
    (bytes' : (c : ℕ) → IsBytes (st' c)) where
  still_used : (y : ℕ) → y < sb.size → used sb st y ≢ 0 → used sb st' y ≢ 0
  still_used y l u z = ground (arith, marks y l, u, z)

  -- The free block `x` becomes the block `k` of the file.
  pub put-IsMapped : IsMapped sb d' st'
  put-IsMapped = record {
    bytes = bytes';
    map_within = valid.map_within;
    map_used = λ y l. still_used (bblock y sb) (valid.map_within y l) (valid.map_used y l);
    boot_used = still_used 0 (omega arith) valid.boot_used;
    in_use = λ l m. elim (ℕ_discrete k l) [
      | yes e ↦ λ n z.
          let here : slot d' st' l ≡ x = slots l m ∙ ground (arith, e) in
          let one : used sb st' x ≡ 1 = marks x within ∙ ground arith in
          let none_left : used sb st' x ≡ 0 = subst (λ q. used sb st' q ≡ 0) here z in
          omega (arith, one, none_left)
      | no ne ↦
          let there : slot d st l ≡ slot d' st' l = sym (slots l m ∙ ground (arith, ne)) in
          subst (λ q. q ≢ 0 → used sb st' q ≢ 0) there
            (λ n. still_used (slot d st l) (valid.in_size l m n) (valid.in_use l m n))
    ];
    in_size = λ l m n. elim (ℕ_discrete k l) [
      | yes e ↦ let here : slot d' st' l ≡ x = slots l m ∙ ground (arith, e) in omega (arith, here)
      | no ne ↦
          let there : slot d st l ≡ slot d' st' l = sym (slots l m ∙ ground (arith, ne)) in
          subst (λ q. q < sb.size) there (valid.in_size l m (λ z. n (sym there ∙ z)))
    ];
    not_map = λ l y hl hy n e. elim (ℕ_discrete k l) [
      | yes a ↦
          let this : slot d' st' l ≡ x = slots l hl ∙ ground (arith, a) in
          not_free sb st x (bblock y sb) free (valid.map_used y hy) (sym this ∙ e)
      | no a ↦
          let this : slot d' st' l ≡ slot d st l = slots l hl ∙ ground (arith, a) in
          valid.not_map l y hl hy (λ z. n (this ∙ z)) (sym this ∙ e)
    ];
    apart = λ l m hl hm n e. elim (ℕ_discrete k l) [
      | yes a ↦ elim (ℕ_discrete k m) [
        | yes b ↦ sym a ∙ b
        | no b ↦ absurd (clash m l hm a b (λ z. n (e ∙ z)) (sym e) hl)
      ]
      | no a ↦ elim (ℕ_discrete k m) [
        | yes b ↦ absurd (clash l m hl b a n e hm)
        | no b ↦
            let this : slot d' st' l ≡ slot d st l = slots l hl ∙ ground (arith, a) in
            let that : slot d' st' m ≡ slot d st m = slots m hm ∙ ground (arith, b) in
            valid.apart l m hl hm (λ z. n (this ∙ z)) (sym this ∙ (e ∙ that))
      ]
    ];
  }
    where
      clash :
          (l m : ℕ)
          → l ≤ maxfile
          → k ≡ m
          → k ≢ l
          → slot d' st' l ≢ 0
          → slot d' st' l ≡ slot d' st' m
          → m ≤ maxfile
          → ⊥
      clash l m hl b a n e hm =
          let this : slot d' st' l ≡ slot d st l = slots l hl ∙ ground (arith, a) in
          let that : slot d' st' m ≡ x = slots m hm ∙ ground (arith, b) in
          not_free sb st x (slot d st l) free (valid.in_use l hl (λ z. n (this ∙ z)))
            (sym that ∙ (sym e ∙ this))
