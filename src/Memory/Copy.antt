-- ===== src/Memory/Copy.antt =====
-- safestrcpy in kernel/string.c.
use operating_systems_ass.Base.{
  ℕ, zero, suc, ◌+◌, ◌≤◌, ◌<◌, ◌≡◌, ◌≢◌, ◌⊎◌, inl, inr, ◌∙◌, refl, sym, ap, pos, arith, ◌==◌,
  ==_iff, update, update_self, update_ne, Bool-cases,
}
use operating_systems_ass.Memory.{Memory, safe_copy, safestrcpy}

-- The string at `t` of `m`, cut after `k` characters, is at `s` in `u`: `k` is all of its characters, or
-- `n - 1`. Other bytes than the `n` at `s` are as they were.
pub record Cut (s t n k : ℕ) (m u : Memory) : Type 0 where
  pub fits : k < n
  pub ends : u (s + k) ≡ 0
  pub same : (i : ℕ) → i < k → u (s + i) ≡ m (t + i)
  pub nonzero : (i : ℕ) → i < k → m (t + i) ≢ 0
  pub complete : (m (t + k) ≡ 0) ⊎ (k + 1 ≡ n)
  pub others : (a : ℕ) → (a < s) ⊎ (s + n ≤ a) → u a ≡ m a

abbrev pub Apart : (s t n : ℕ) → Type 0
Apart s t n = (s + n ≤ t) ⊎ (t + n ≤ s)

module _ (s t n : ℕ) (m : Memory) where
  first-Cut :
      (u : Memory)
      → u s ≡ 0
      → (m t ≡ 0) ⊎ (n ≡ 0)
      → ((a : ℕ) → (a < s) ⊎ (s + suc n ≤ a) → u a ≡ m a)
      → Cut s t (suc n) 0 m u
  first-Cut u e stop others = record {
    fits = omega arith;
    ends = let at : s + 0 ≡ s = omega arith in ap u at ∙ e;
    same = λ i l. absurd (omega arith);
    nonzero = λ i l. absurd (omega arith);
    complete = elim stop [
      | inl z ↦ let at : t + 0 ≡ t = omega arith in inl (ap m at ∙ z)
      | inr last ↦ inr (omega arith)
    ];
    others = others;
  }

  later-Cut :
      (u : Memory) (k : ℕ)
      → Apart s t (suc n)
      → m t ≢ 0
      → Cut (s + 1) (t + 1) n k (update m s (m t)) u
      → Cut s t (suc n) (suc k) m u
  later-Cut u k h ne c = record {
    fits = omega (arith, c.fits);
    ends = let at : s + suc k ≡ s + 1 + k = omega arith in ap u at ∙ c.ends;
    same = same;
    nonzero = nonzero;
    complete = elim c.complete [
      | inl z ↦
          let at : t + suc k ≡ t + 1 + k = omega arith in
          let kept : update m s (m t) (t + 1 + k) ≡ m (t + 1 + k) =
            update_ne m s (t + 1 + k) (m t) (λ e. ground (arith, h, c.fits, e)) in
          inl (ap m at ∙ (sym kept ∙ z))
      | inr last ↦ inr (omega arith)
    ];
    others =
        λ a o. c.others a (ground (arith, o)) ∙ update_ne m s a (m t) (λ e. ground (arith, o, e));
  }
    where
      source : (i : ℕ) → i < k → update m s (m t) (t + 1 + i) ≡ m (t + suc i)
      source i l =
          let at : t + 1 + i ≡ t + suc i = omega arith in
          update_ne m s (t + 1 + i) (m t) (λ e. ground (arith, h, c.fits, l, e)) ∙ ap m at

      same : (i : ℕ) → i < suc k → u (s + i) ≡ m (t + i)
      same zero l =
          let at_s : s + 0 ≡ s = omega arith in
          let at_t : t ≡ t + 0 = omega arith in
          ap u at_s ∙ (c.others s (inl (omega arith)) ∙ (update_self m s (m t) ∙ ap m at_t))
      same (suc i) l =
          let at : s + suc i ≡ s + 1 + i = omega arith in
          ap u at ∙ (c.same i (omega arith) ∙ source i (omega arith))

      nonzero : (i : ℕ) → i < suc k → m (t + i) ≢ 0
      nonzero zero l z = let at : t ≡ t + 0 = omega arith in ne (ap m at ∙ z)
      nonzero (suc i) l z = c.nonzero i (omega arith) (source i (omega arith) ∙ z)

safe_copy-Cut :
    (n s t : ℕ) (m : Memory) → Apart s t (suc n) → (k : ℕ) × Cut s t (suc n) k m (safe_copy s t n m)
unfolding safe_copy
safe_copy-Cut zero s t m h = (
  0,
  first-Cut s t 0 m _ (update_self m s 0) (inr refl)
      (λ a o. update_ne m s a 0 (λ e. ground (arith, o, e))),
)
safe_copy-Cut (suc n) s t m h = elim (Bool-cases (m t == 0)) [
  | inl z ↦ (
    0,
    rw z (
        first-Cut s t (suc n) m _
          (update_ne (update m s (m t)) (s + 1) s 0 (omega arith)
            ∙ (update_self m s (m t) ∙ (==_iff (m t) 0).0 z))
          (inl ((==_iff (m t) 0).0 z))
          (λ a o.
            update_ne (update m s (m t)) (s + 1) a 0 (λ e. ground (arith, o, e))
            ∙ update_ne m s a (m t) (λ e. ground (arith, o, e)))),
  )
  | inr nz ↦
      let (k, rest) = safe_copy-Cut n (s + 1) (t + 1) (update m s (m t)) (ground (arith, h)) in
      (suc k, rw nz (later-Cut s t (suc n) m _ k h (λ e. ground (arith, nz, e)) rest))
]

-- For a positive `n` and regions of `n` bytes that do not overlap, safestrcpy leaves at `s` the first
-- characters of the string at `t`, all of them if they are fewer than `n` and `n - 1` of them otherwise,
-- ended by a zero byte, and changes no other byte.
pub safestrcpy-Cut :
    (s t n : ℕ) (m : Memory)
    → Apart s t (suc n)
    → (k : ℕ) × Cut s t (suc n) k m (safestrcpy s t (pos (suc n)) m)
unfolding safestrcpy
safestrcpy-Cut s t n m h = safe_copy-Cut n s t m h
