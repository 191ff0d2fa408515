-- ===== src/Buffer/Find.antt =====
-- The two searches of bget.
use operating_systems_ass.Base.{
  ℕ, ◌≡◌, refl, ◌⊎◌, inl, inr, sym, true, false, Option, none, some, List, [], ◌∷◌, arith,
  Bool-cases,
}
use mathlib.Core.Path.{subst}
use operating_systems_ass.Buffer.{Buf, is_block, find_cached, find_free, or_here}

abbrev pub Elem : ℕ → List ℕ → Type 0
Elem i [] = ⊥
Elem i (x ∷ l) = (x ≡ i) ⊎ Elem i l

module _ (t : ℕ → Buf) (dev blockno : ℕ) where
  pub cached-Elem :
      (l : List ℕ) (i : ℕ)
      → find_cached t l dev blockno ≡ some i
      → Elem i l × (is_block (t i) dev blockno ≡ true)
  unfolding find_cached
  cached-Elem [] i e = absurd (cc e)
  cached-Elem (j ∷ l) i e = elim (Bool-cases (is_block (t j) dev blockno)) [
    | inl at ↦
        let same : j ≡ i = ground (arith, at, e) in
        (inl same, subst (λ i. is_block (t i) dev blockno ≡ true) same at)
    | inr on ↦
        let rest : find_cached t l dev blockno ≡ some i = ground (arith, on, e) in
        let r = cached-Elem l i rest in (inr r.0, r.1)
  ]

  pub cached_none :
      (l : List ℕ) (i : ℕ)
      → find_cached t l dev blockno ≡ none
      → Elem i l
      → is_block (t i) dev blockno ≡ false
  unfolding find_cached
  cached_none [] i e m = elim m [ ]
  cached_none (j ∷ l) i e m = elim (Bool-cases (is_block (t j) dev blockno)) [
    | inl at ↦ absurd (ground (arith, at, e))
    | inr on ↦
        let rest : find_cached t l dev blockno ≡ none = ground (arith, on, e) in
        elim m [
          | inl same ↦ subst (λ i. is_block (t i) dev blockno ≡ false) same on
          | inr m' ↦ cached_none l i rest m'
        ]
  ]

  -- A search that meets one buffer only finds it.
  pub cached_only :
      (l : List ℕ) (i : ℕ)
      → Elem i l
      → is_block (t i) dev blockno ≡ true
      → ((j : ℕ) → Elem j l → is_block (t j) dev blockno ≡ true → j ≡ i)
      → find_cached t l dev blockno ≡ some i
  unfolding find_cached
  cached_only [] i m e only = elim m [ ]
  cached_only (j ∷ l) i m e only = elim (Bool-cases (is_block (t j) dev blockno)) [
    | inl at ↦ rw (at, only j (inl refl) at) refl
    | inr on ↦ elim m [
      | inl same ↦ absurd (cc (subst (λ j. is_block (t j) dev blockno ≡ true) (sym same) e, on))
      | inr m' ↦ rw on (cached_only l i m' e (λ k h. only k (inr h)))
    ]
  ]

  pub cached_absent :
      (l : List ℕ)
      → ((j : ℕ) → Elem j l → is_block (t j) dev blockno ≡ false)
      → find_cached t l dev blockno ≡ none
  unfolding find_cached
  cached_absent [] no_one = refl
  cached_absent (j ∷ l) no_one =
      rw (no_one j (inl refl)) (cached_absent l (λ k h. no_one k (inr h)))

or_here-cases : (o p : Option ℕ) (i : ℕ) → or_here o p ≡ some i → (o ≡ some i) ⊎ (p ≡ some i)
or_here-cases none p i e = inr e
or_here-cases (some j) p i e = inl e

pub free-Elem :
    (t : ℕ → Buf) (l : List ℕ) (i : ℕ) → find_free t l ≡ some i → Elem i l × ((t i).refcnt ≡ 0)
unfolding find_free
free-Elem t [] i e = absurd (cc e)
free-Elem t (j ∷ l) i e = elim (or_here-cases (find_free t l) _ i e) [
  | inl later ↦ let r = free-Elem t l i later in (inr r.0, r.1)
  | inr now ↦
      let zero_ref : (t j).refcnt ≡ 0 = ground (arith, now) in
      let same : j ≡ i = ground (arith, now) in
      (inl same, subst (λ i. (t i).refcnt ≡ 0) same zero_ref)
]
