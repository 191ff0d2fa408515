-- ===== src/FileMap/Indirect.antt =====
-- bmap on the entries of the indirect block.
use mathlib.Core.Path.{subst}
use native.Mathlib.Decide.{ℕ_discrete}
use operating_systems_ass.Base.{
  ℕ, ◌+◌, ◌-◌, ◌%◌, ◌^◌, ◌<◌, ◌≤◌, ◌≡◌, refl, ◌≢◌, ◌∙◌, sym, ap, false, arith, ◌==◌, ==_iff, ==_ne,
  if◌then◌else◌, update, update_self, update_ne, inl, inr,
}
use operating_systems_ass.Words.{word_at, set_word, word_at-set_word, set_word-IsBytes}
use operating_systems_ass.Blocks.{bpb, bit_at, Superblock, Store, bblock, balloc}
use operating_systems_ass.Blocks.Alloc.{used, Taken, Allocates, balloc-Allocates, update-IsBytes}
use operating_systems_ass.Dinode.{Dinode, ndirect}
use operating_systems_ass.FileMap.{nindirect, maxfile, put_word, get_word}
use operating_systems_ass.FileMap.Slots.{
  slot, word_of, slot_direct, slot_indirect, slot_word, slot_kind, word_of_some, IsMapped, not_free,
}
use operating_systems_ass.FileMap.Mapping.{Gets, stay-Gets, taken_ne, indirect_stays, placed-Gets}

module _ (sb : Superblock) (d : Dinode) (st : Store) (valid : IsMapped sb d st) where
  module _ (j : ℕ) (h : j < nindirect) (small : sb.size ≤ 2 ^ 32)
      (present : d.addrs ndirect ≢ 0) where
    entry : slot d st (ndirect + j) ≡ word_at (st (d.addrs ndirect)) j
    entry =
        let index : ndirect + j - ndirect ≡ j = omega arith in
        slot_word d st (ndirect + j) (omega arith) (omega arith)
        ∙ (ap (word_of (d.addrs ndirect) st) index ∙ word_of_some (d.addrs ndirect) st j present)

    module _ (x : ℕ) (st₁ : Store) (took : Taken sb st valid.bytes x st₁) where
      with_word : Store
      with_word = update st₁ (d.addrs ndirect) (set_word j x (st₁ (d.addrs ndirect)))

      with_word_at : with_word (d.addrs ndirect) ≡ set_word j x (st₁ (d.addrs ndirect))
      unfolding with_word
      with_word_at = update_self st₁ (d.addrs ndirect) (set_word j x (st₁ (d.addrs ndirect)))

      with_word_kept : (c : ℕ) → c ≢ d.addrs ndirect → with_word c ≡ st₁ c
      unfolding with_word
      with_word_kept c n =
          update_ne st₁ (d.addrs ndirect) c (set_word j x (st₁ (d.addrs ndirect))) (λ e. n (sym e))

      not_indirect : (c : ℕ) → used sb st c ≡ 0 → c ≢ d.addrs ndirect
      not_indirect c free = not_free sb st c (d.addrs ndirect) free (
          subst (λ q. q ≢ 0 → used sb st q ≢ 0) (slot_indirect d st)
            (valid.in_use maxfile (omega arith)) present)

      not_map_block : (y : ℕ) → y < sb.size → bblock y sb ≢ d.addrs ndirect
      not_map_block y l e =
          subst (λ q. q ≢ 0 → q ≢ bblock y sb) (slot_indirect d st)
            (valid.not_map maxfile y (omega arith) l) present (sym e)

      word_slots :
          slot d st (ndirect + j) ≡ 0
          → (l : ℕ) → l ≤ maxfile
          → slot d with_word l ≡ (if ndirect + j == l then x else slot d st l)
      word_slots z l m = elim (slot_kind l m) [
        | inl low ↦
            let off : (ndirect + j == l) ≡ false = ground arith in
            slot_direct d with_word l low ∙ rw off (sym (slot_direct d st l low))
        | inr (inl at) ↦
            let off : (ndirect + j == l) ≡ false = ground arith in
            rw off (
              subst (λ l. slot d with_word l ≡ slot d st l) (sym at)
                (slot_indirect d with_word ∙ sym (slot_indirect d st)))
        | inr (inr mid) ↦
            let test : (j == l - ndirect) ≡ (ndirect + j == l) = ground arith in
            slot_word d with_word l mid.0 mid.1
            ∙ (word_of_some (d.addrs ndirect) with_word (l - ndirect) present
                ∙ (ap (λ (b : ℕ → ℕ). word_at b (l - ndirect)) with_word_at
                    ∙ (word_at-set_word j x (st₁ (d.addrs ndirect)) (l - ndirect)
                          (omega (arith, took.within))
                        ∙ (ap (λ t. if t then x else word_at (st₁ (d.addrs ndirect)) (l - ndirect))
                              test
                            ∙ ap (λ q. if ndirect + j == l then x else q)
                                (ap (λ (b : ℕ → ℕ). word_at b (l - ndirect))
                                    (indirect_stays sb d st valid x st₁ took present)
                                  ∙ (sym (word_of_some (d.addrs ndirect) st (l - ndirect) present)
                                      ∙ sym (slot_word d st l mid.0 mid.1)))))))
      ]

      word-Gets :
          slot d st (ndirect + j) ≡ 0
          → Gets sb d st
              (maxfile + 1)
              (ndirect + j)
              (record { addr = x; copy = d; store = with_word })
      unfolding with_word
      word-Gets z =
          placed-Gets sb d st valid x st₁ took d with_word (ndirect + j) (omega arith) z
            (word_slots z) refl with_word_kept
            (λ y l.
              ap (λ (b : ℕ → ℕ). bit_at b (y % bpb))
                (with_word_kept (bblock y sb) (not_map_block y l)))
            (update-IsBytes st₁ (d.addrs ndirect) (set_word j x (st₁ (d.addrs ndirect)))
              took.still_bytes
              (set_word-IsBytes j x (st₁ (d.addrs ndirect)) (took.still_bytes (d.addrs ndirect))))
            (λ w l.
              ap (λ (b : ℕ → ℕ). b w) (with_word_kept x (not_indirect x took.was_free))
              ∙ took.cleared w l)

    put_word-Gets :
        (r : ℕ × Store)
        → slot d st (ndirect + j) ≡ 0
        → Allocates sb st valid.bytes r
        → Gets sb d st (maxfile + 1) (ndirect + j) (put_word j (d.addrs ndirect) d r)
    unfolding put_word with_word
    put_word-Gets (x, st₁) z (inl took) =
        rw (==_ne x 0 (taken_ne sb d st valid x st₁ took)) (word-Gets x st₁ took z)
    put_word-Gets (x, st₁) z (inr (e, same, full)) =
        subst
          (λ st₁.
            Gets sb d st (maxfile + 1) (ndirect + j) (put_word j (d.addrs ndirect) d (x, st₁)))
          (sym same)
          (rw ((==_iff x 0).1 e)
            (stay-Gets sb d st valid (ndirect + j) (maxfile + 1) x (z ∙ sym e) (λ _. full)))

    pub get_word-Gets :
        Gets sb d st
          (maxfile + 1)
          (ndirect + j)
          (get_word sb j (record { addr = d.addrs ndirect; copy = d; store = st }))
    unfolding get_word
    get_word-Gets =
        rw (==_ne (d.addrs ndirect) 0 present)
          (elim (ℕ_discrete (word_at (st (d.addrs ndirect)) j) 0) [
            | yes z ↦ rw ((==_iff (word_at (st (d.addrs ndirect)) j) 0).1 z) (
                put_word-Gets (balloc sb st) (entry ∙ z)
                  (balloc-Allocates sb st valid.bytes valid.map_used))
            | no n ↦ rw (==_ne (word_at (st (d.addrs ndirect)) j) 0 n) (
                stay-Gets sb d st valid (ndirect + j) (maxfile + 1)
                  (word_at (st (d.addrs ndirect)) j) entry (λ z. absurd (n z)))
          ])
