-- ===== src/InodeTable/Search.antt =====
-- The search of iget.
use mathlib.Core.Path.{subst}
use native.Mathlib.Decide.{ℕ_discrete}
use operating_systems_ass.Base.{
  ℕ, zero, suc, ◌+◌, ◌<◌, ◌≤◌, ◌≡◌, refl, ◌≢◌, ◌∙◌, ap, true, false, Option, none, some, arith,
  ◌==◌, ==_iff, ==_ne, if◌then◌else◌, Bool-cases, inl, inr,
}
use operating_systems_ass.InodeTable.{
  Itable, is_entry, Found, cached, recycles, remember, find_entry,
}

module _ (t : Itable) (dev inum : ℕ) where
  -- What `empty` is after the entries from `i` to `i + k`
  abbrev pub Empties : (k i : ℕ) → Option ℕ → Option ℕ → Type 0
  Empties k i (some x) e = e ≡ some x
  Empties k i none none = (j : ℕ) → i ≤ j → j < i + k → (t j).ref ≢ 0
  Empties k i none (some y) = (i ≤ y) × (y < i + k) × ((t y).ref ≡ 0)

  abbrev pub Scans : (k i : ℕ) → Option ℕ → Found → Type 0
  Scans k i empty (cached j) = (i ≤ j) × (j < i + k) × (is_entry (t j) dev inum ≡ true)
  Scans k i empty (recycles e) =
      ((j : ℕ) → i ≤ j → j < i + k → is_entry (t j) dev inum ≡ false) × Empties k i empty e

  Empties-suc :
      (k i : ℕ) (empty e : Option ℕ)
      → Empties k (i + 1) (remember empty i (t i)) e
      → Empties (suc k) i empty e
  unfolding remember
  Empties-suc k i (some x) e h = h
  Empties-suc k i none none h = λ j l m. elim (ℕ_discrete (t i).ref 0) [
    | yes z ↦
        let test : ((t i).ref == 0) ≡ true = (==_iff _ 0).1 z in
        absurd (cc (subst (λ b. Empties k (i + 1) (if b then some i else none) none) test h))
    | no n ↦
        let test : ((t i).ref == 0) ≡ false = ==_ne _ 0 n in
        let rest : Empties k (i + 1) none none =
          subst (λ b. Empties k (i + 1) (if b then some i else none) none) test h in
        elim (ℕ_discrete i j) [
          | yes e ↦ subst (λ j. (t j).ref ≢ 0) e n
          | no d ↦ rest j (omega arith) (omega arith)
        ]
  ]
  Empties-suc k i none (some y) h = elim (ℕ_discrete (t i).ref 0) [
    | yes z ↦
        let test : ((t i).ref == 0) ≡ true = (==_iff _ 0).1 z in
        let at : some y ≡ some i =
          subst (λ b. Empties k (i + 1) (if b then some i else none) (some y)) test h in
        let same : y ≡ i = ground (arith, at) in
        (omega arith, omega arith, ap (λ j. (t j).ref) same ∙ z)
    | no n ↦
        let test : ((t i).ref == 0) ≡ false = ==_ne _ 0 n in
        let rest : Empties k (i + 1) none (some y) =
          subst (λ b. Empties k (i + 1) (if b then some i else none) (some y)) test h in
        (omega (arith, rest.0), omega (arith, rest.1), rest.2)
  ]

  Scans-suc :
      (k i : ℕ) (empty : Option ℕ) (f : Found)
      → is_entry (t i) dev inum ≡ false
      → Scans k (i + 1) (remember empty i (t i)) f
      → Scans (suc k) i empty f
  Scans-suc k i empty (cached j) off h = (omega (arith, h.0), omega (arith, h.1), h.2)
  Scans-suc k i empty (recycles e) off h = (
    λ j l m. elim (ℕ_discrete i j) [
      | yes same ↦ subst (λ j. is_entry (t j) dev inum ≡ false) same off
      | no d ↦ h.0 j (omega arith) (omega arith)
    ],
    Empties-suc k i empty e h.1,
  )

  none-Empties : (i : ℕ) (empty : Option ℕ) → Empties 0 i empty empty
  none-Empties i none = λ j l m. absurd (omega (arith, l, m))
  none-Empties i (some x) = refl

  pub find_entry-Scans :
      (k i : ℕ) (empty : Option ℕ) → Scans k i empty (find_entry k i t dev inum empty)
  unfolding find_entry
  find_entry-Scans zero i empty = (λ j l m. absurd (omega (arith, l, m)), none-Empties i empty)
  find_entry-Scans (suc k) i empty = elim (Bool-cases (is_entry (t i) dev inum)) [
    | inl on ↦ rw on (omega arith, omega arith, on)
    | inr off ↦
        rw off (Scans-suc k i empty _ off (find_entry-Scans k (i + 1) (remember empty i (t i))))
  ]
