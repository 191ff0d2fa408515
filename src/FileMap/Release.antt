-- ===== src/FileMap/Release.antt =====
-- The loops of itrunc give the blocks of a file back one after the other.
use mathlib.Core.Path.{subst}
use native.Mathlib.Decide.{ℕ_discrete}
use operating_systems_ass.Base.{
  ℕ, zero, suc, ◌+◌, ◌-◌, ◌<◌, ◌≤◌, ◌≡◌, refl, ◌≢◌, ◌∙◌, sym, ap, true, false, some, arith, ◌==◌,
  ==_iff, ==_ne, update, update_ne,
}
use operating_systems_ass.Words.{word_at}
use operating_systems_ass.Blocks.{Superblock, Store, bblock, bfree}
use operating_systems_ass.Dinode.{Dinode, ndirect}
use operating_systems_ass.FileMap.{
  nindirect, maxfile, free_addr, free_addrs, free_words, free_indirect,
}
use operating_systems_ass.FileMap.Slots.{
  slot, word_of, slot_direct, slot_indirect, slot_word, word_of_some, word_of_none, IsMapped,
}
use operating_systems_ass.FileMap.Released.{Released, none-Released, skip-Released, free-Released}

module _ (sb : Superblock) (d : Dinode) (st : Store) (valid : IsMapped sb d st) where
  -- The inode after its first `k` addresses are given back
  pub record Cleared (k : ℕ) (d₁ : Dinode) : Type 0 where
    pub zeroed : (i : ℕ) → i < k → d₁.addrs i ≡ 0
    pub kept : (i : ℕ) → k ≤ i → d₁.addrs i ≡ d.addrs i
    pub same_type : d₁.type ≡ d.type
    pub same_nlink : d₁.nlink ≡ d.nlink
    pub same_major : d₁.major ≡ d.major
    pub same_minor : d₁.minor ≡ d.minor

  zeroed-Cleared :
      (k : ℕ) (d₁ : Dinode)
      → Cleared k d₁
      → Cleared (suc k) (record d₁ { addrs = update d₁.addrs k 0 })
  zeroed-Cleared k d₁ c = record {
    zeroed = λ i h. elim (ℕ_discrete k i) [
      | yes e ↦ ground (arith, e)
      | no e ↦ update_ne d₁.addrs k i 0 e ∙ c.zeroed i (omega arith)
    ];
    kept = λ i h. update_ne d₁.addrs k i 0 (omega arith) ∙ c.kept i (omega arith);
    same_type = c.same_type;
    same_nlink = c.same_nlink;
    same_major = c.same_major;
    same_minor = c.same_minor;
  }

  skipped-Cleared : (k : ℕ) (d₁ : Dinode) → d.addrs k ≡ 0 → Cleared k d₁ → Cleared (suc k) d₁
  skipped-Cleared k d₁ z c = record {
    zeroed = λ i h. elim (ℕ_discrete k i) [
      | yes e ↦ subst (λ i. d₁.addrs i ≡ 0) e (c.kept k (omega arith) ∙ z)
      | no e ↦ c.zeroed i (omega arith)
    ];
    kept = λ i h. c.kept i (omega arith);
    same_type = c.same_type;
    same_nlink = c.same_nlink;
    same_major = c.same_major;
    same_minor = c.same_minor;
  }

  -- free_addr gives back the block `n` of the file, which is the address `k`.
  free_addr_lem :
      (n k : ℕ) (d₁ : Dinode) (st₁ : Store)
      → n ≤ maxfile
      → slot d st n ≡ d.addrs k
      → Cleared k d₁
      → Released sb d st valid n st₁
      → (d₂ : Dinode) × (st₂ : Store) × (free_addr sb k (d₁, st₁) ≡ some (d₂, st₂))
        × Cleared (suc k) d₂
        × Released sb d st valid (suc n) st₂
  unfolding free_addr
  free_addr_lem n k d₁ st₁ top at c r =
      let addr : d₁.addrs k ≡ slot d st n = c.kept k (omega arith) ∙ sym at in
      elim (ℕ_discrete (slot d st n) 0) [
        | yes z ↦
            let test : (d₁.addrs k == 0) ≡ true = (==_iff (d₁.addrs k) 0).1 (addr ∙ z) in
            (
              d₁,
              st₁,
              rw test refl,
              skipped-Cleared k d₁ (sym at ∙ z) c,
              skip-Released sb d st valid n st₁ z r,
            )
        | no m ↦
            let freed = free-Released sb d st valid n st₁ top m r in
            let runs : bfree sb (d₁.addrs k) st₁ ≡ some (freed.0) =
              ap (λ a. bfree sb a st₁) addr ∙ freed.1 in
            let test : (d₁.addrs k == 0) ≡ false = ==_ne (d₁.addrs k) 0 (λ z. m (sym addr ∙ z)) in
            (
              record d₁ { addrs = update d₁.addrs k 0 },
              freed.0,
              rw (test, runs) refl,
              zeroed-Cleared k d₁ c,
              freed.2,
            )
      ]

  pub free_addrs_lem :
      (k : ℕ)
      → k ≤ ndirect
      → (d₁ : Dinode) × (st₁ : Store) × (free_addrs k sb d st ≡ some (d₁, st₁))
        × Cleared k d₁
        × Released sb d st valid k st₁
  unfolding free_addrs
  free_addrs_lem zero h = (
    d,
    st,
    refl,
    record {
      zeroed = λ i l. absurd (omega (arith, l));
      kept = λ _ _. refl;
      same_type = refl;
      same_nlink = refl;
      same_major = refl;
      same_minor = refl;
    },
    none-Released sb d st valid,
  )
  free_addrs_lem (suc k) h =
      let before = free_addrs_lem k (omega arith) in
      let at : slot d st k ≡ d.addrs k = slot_direct d st k (omega arith) in
      let after = free_addr_lem k k before.0 before.1 (omega arith) at before.3 before.4 in
      (after.0, after.1, rw before.2 after.2, after.3, after.4)

  module _ (st₁ : Store) (first : Released sb d st valid ndirect st₁) where
    -- Without an indirect block
    no_words :
        (j : ℕ) → j ≤ nindirect → d.addrs ndirect ≡ 0 → Released sb d st valid (ndirect + j) st₁
    no_words zero h z = first
    no_words (suc j) h z =
        subst (λ n. Released sb d st valid n st₁) (omega arith)
          (skip-Released sb d st valid (ndirect + j) st₁
            (slot_word d st (ndirect + j) (omega arith) (omega arith)
              ∙ word_of_none (d.addrs ndirect) st (ndirect + j - ndirect) z)
            (no_words j (omega arith) z))

    free_words_lem :
        (j : ℕ)
        → j ≤ nindirect
        → d.addrs ndirect ≢ 0
        → (st₂ : Store) × (free_words j sb (d.addrs ndirect) st₁ ≡ some st₂)
          × Released sb d st valid (ndirect + j) st₂
    unfolding free_words
    free_words_lem zero h n = (st₁, refl, first)
    free_words_lem (suc j) h n =
        let p = d.addrs ndirect in
        let before = free_words_lem j (omega arith) n in
        let same : before.0 p ≡ st p = before.2.rest p (λ y l.
          subst (λ q. q ≢ 0 → q ≢ bblock y sb) (slot_indirect d st)
            (valid.not_map maxfile y (omega arith) l) n) in
        let index : ndirect + j - ndirect ≡ j = omega arith in
        let entry : slot d st (ndirect + j) ≡ word_at (before.0 p) j =
          slot_word d st (ndirect + j) (omega arith) (omega arith)
          ∙ (ap (word_of p st) index
              ∙ (word_of_some p st j n ∙ ap (λ (b : ℕ → ℕ). word_at b j) (sym same))) in
        let next : suc (ndirect + j) ≡ ndirect + suc j = omega arith in
        elim (ℕ_discrete (slot d st (ndirect + j)) 0) [
          | yes z ↦
              let test : (word_at (before.0 p) j == 0) ≡ true = (==_iff _ 0).1 (sym entry ∙ z) in
              (
                before.0,
                rw (before.1, test) refl,
                subst (λ n. Released sb d st valid n before.0) next
                    (skip-Released sb d st valid (ndirect + j) before.0 z before.2),
              )
          | no m ↦
              let freed =
                free-Released sb d st valid (ndirect + j) before.0 (omega arith) m before.2 in
              let test : (word_at (before.0 p) j == 0) ≡ false = ==_ne _ 0 (λ z. m (entry ∙ z)) in
              (
                freed.0,
                rw (before.1, test) (ap (λ a. bfree sb a before.0) (sym entry) ∙ freed.1),
                subst (λ n. Released sb d st valid n freed.0) next freed.2,
              )
        ]

  pub free_indirect_lem :
      (d₁ : Dinode) (st₁ : Store)
      → Cleared ndirect d₁
      → Released sb d st valid ndirect st₁
      → (d₂ : Dinode) × (st₂ : Store) × (free_indirect sb (d₁, st₁) ≡ some (d₂, st₂))
        × Cleared (ndirect + 1) d₂
        × Released sb d st valid (maxfile + 1) st₂
  unfolding free_indirect
  free_indirect_lem d₁ st₁ c r =
      let same : d₁.addrs ndirect ≡ d.addrs ndirect = c.kept ndirect (omega arith) in
      elim (ℕ_discrete (d.addrs ndirect) 0) [
        | yes z ↦
            let test : (d₁.addrs ndirect == 0) ≡ true =
              (==_iff (d₁.addrs ndirect) 0).1 (same ∙ z) in
            (
              d₁,
              st₁,
              rw test refl,
              skipped-Cleared ndirect d₁ z c,
              skip-Released sb d st valid maxfile st₁ (slot_indirect d st ∙ z)
                  (no_words st₁ r nindirect (omega arith) z),
            )
        | no n ↦
            let test : (d₁.addrs ndirect == 0) ≡ false =
              ==_ne (d₁.addrs ndirect) 0 (λ z. n (sym same ∙ z)) in
            let words = free_words_lem st₁ r nindirect (omega arith) n in
            let runs : free_words nindirect sb (d₁.addrs ndirect) st₁ ≡ some (words.0) =
              ap (λ p. free_words nindirect sb p st₁) same ∙ words.1 in
            let last =
              free_addr_lem maxfile ndirect d₁ words.0 (omega arith) (slot_indirect d st) c
                words.2 in
            (last.0, last.1, rw (test, runs) last.2, last.3, last.4)
      ]
