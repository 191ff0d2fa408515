-- ===== src/Memory/Length.antt =====
-- strlen in kernel/string.c, with safestrcpy.
use native.Mathlib.Decide.{dec_lt}
use operating_systems_ass.Base.{
  ℕ, zero, suc, ◌+◌, ◌≤◌, ◌<◌, ◌≡◌, ◌≢◌, ◌∙◌, sym, ap, inl, inr, some, pos, arith, ◌==◌, ==_iff,
  Bool-cases,
}
use operating_systems_ass.Memory.{Memory, strlen_from, strlen, safestrcpy}
use operating_systems_ass.Memory.Copy.{Cut, Apart, safestrcpy-Cut}

strlen_from_lem :
    (fuel s n k : ℕ) (m : Memory)
    → n ≤ k
    → k < n + fuel
    → m (s + k) ≡ 0
    → ((i : ℕ) → i < k → m (s + i) ≢ 0)
    → strlen_from fuel s n m ≡ some k
unfolding strlen_from
strlen_from_lem zero s n k m l f z nz = absurd (omega arith)
strlen_from_lem (suc fuel) s n k m l f z nz = elim (Bool-cases (m (s + n) == 0)) [
  | inl at_end ↦ rw at_end (elim (dec_lt n k) [
    | yes early ↦ absurd (nz n early ((==_iff (m (s + n)) 0).0 at_end))
    | no late ↦ ap some (omega arith)
  ])
  | inr on ↦
      let more : n ≢ k = λ e. ground (arith, on, ap (λ i. m (s + i)) e ∙ z) in
      rw on (strlen_from_lem fuel s (n + 1) k m (omega arith) (omega arith) z nz)
]

-- For a positive `n` and regions of `n` bytes that do not overlap: safestrcpy leaves at `s` the first
-- characters of the string at `t`, all of them if they are fewer than `n` and `n - 1` of them otherwise,
-- ended by a zero byte, and changes no byte outside the `n` at `s`; and strlen of what it leaves ends
-- within `n` rounds and gives the number of characters that were copied.
pub strlen-safestrcpy :
    (s t n : ℕ) (m : Memory)
    → Apart s t (suc n)
    → (k : ℕ) × Cut s t (suc n) k m (safestrcpy s t (pos (suc n)) m)
      × (strlen (suc n) s (safestrcpy s t (pos (suc n)) m) ≡ some k)
unfolding strlen
strlen-safestrcpy s t n m h =
    let (k, c) = safestrcpy-Cut s t n m h in
    (
      k,
      c,
      strlen_from_lem (suc n) s 0 k _ (omega arith) (omega (arith, c.fits)) c.ends
          (λ i l z. c.nonzero i l (sym (c.same i l) ∙ z)),
    )
