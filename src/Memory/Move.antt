-- ===== src/Memory/Move.antt =====
-- memmove and memset in kernel/string.c, byte by byte.
use operating_systems_ass.Base.{
  ℕ, zero, suc, ◌+◌, ◌-◌, ◌≤◌, ◌<◌, ◌≡◌, refl, ◌⊎◌, inl, inr, ◌∙◌, sym, ap, ◌&&◌, arith, ltb, ==_ne,
  update, update_self, update_ne, Bool-cases,
}
use native.Mathlib.Decide.{dec_lt}
use operating_systems_ass.Memory.{Memory, move_down, move_up, memmove}

-- Bytes `src` to `src + n` of `m` are at `dst` in `m'`, and the rest is as it was.
abbrev pub Moved : (dst src n : ℕ) → Memory → Memory → Type 0
Moved dst src n m m' =
    ((i : ℕ) → i < n → m' (dst + i) ≡ m (src + i))
    × ((a : ℕ) → (a < dst) ⊎ (dst + n ≤ a) → m' a ≡ m a)

module _ (n d s : ℕ) (m u : Memory) where
  -- The first byte, and then the others.
  Moved-first :
      (d ≤ s) ⊎ (s + suc n ≤ d)
      → Moved (d + 1) (s + 1) n (update m d (m s)) u
      → Moved d s (suc n) m u
  Moved-first h rest = (
    copied rest,
    λ a o. rest.1 a (ground (arith, o)) ∙ update_ne m d a (m s) (λ e. ground (arith, o, e)),
  )
    where
      copied :
          Moved (d + 1) (s + 1) n (update m d (m s)) u → (i : ℕ) → i < suc n → u (d + i) ≡ m (s + i)
      copied rest zero l =
          let at_d : d + 0 ≡ d = omega arith in
          let at_s : s ≡ s + 0 = omega arith in
          ap u at_d ∙ (rest.1 d (inl (omega arith)) ∙ (update_self m d (m s) ∙ ap m at_s))
      copied rest (suc i) l =
          let at_d : d + suc i ≡ d + 1 + i = omega arith in
          let at_s : s + 1 + i ≡ s + suc i = omega arith in
          ap u at_d
          ∙ (rest.0 i (omega arith)
              ∙ (update_ne m d (s + 1 + i) (m s) (λ e. ground (arith, h, e)) ∙ ap m at_s))

  -- The last byte, and then the others.
  Moved-last : s < d → Moved d s n (update m (d + n) (m (s + n))) u → Moved d s (suc n) m u
  Moved-last h rest = (
    λ i l. elim (dec_lt i n) [
      | yes lower ↦ rest.0 i lower ∙ update_ne m (d + n) (s + i) _ (omega arith)
      | no upper ↦
          let last : i ≡ n = omega arith in
          ap (λ i. u (d + i)) last
          ∙ (rest.1 (d + n) (inr (omega arith))
              ∙ (update_self m (d + n) (m (s + n)) ∙ ap (λ i. m (s + i)) (sym last)))
    ],
    λ a o. rest.1 a (ground (arith, o)) ∙ update_ne m (d + n) a _ (λ e. ground (arith, o, e)),
  )

move_up-Moved : (n d s : ℕ) (m : Memory) → (d ≤ s) ⊎ (s + n ≤ d) → Moved d s n m (move_up d s n m)
unfolding move_up
move_up-Moved zero d s m h = (λ i l. absurd (omega arith), λ a o. refl)
move_up-Moved (suc n) d s m h =
    Moved-first n d s m _ h (move_up-Moved n (d + 1) (s + 1) _ (ground (arith, h)))

move_down-Moved : (n d s : ℕ) (m : Memory) → s < d → Moved d s n m (move_down (d + n) (s + n) n m)
unfolding move_down
move_down-Moved zero d s m h = (λ i l. absurd (omega arith), λ a o. refl)
move_down-Moved (suc n) d s m h =
    let at_d : d + suc n - 1 ≡ d + n = omega arith in
    let at_s : s + suc n - 1 ≡ s + n = omega arith in
    rw (at_d, at_s) (Moved-last n d s m _ h (move_down-Moved n d s _ h))

-- memmove copies `n` bytes from `src` to `dst` as they were before the call, also where the two
-- regions overlap, and changes no byte outside its destination.
pub memmove-Moved : (dst src n : ℕ) (m : Memory) → Moved dst src n m (memmove dst src n m)
unfolding memmove
memmove-Moved dst src zero m = (λ i l. absurd (omega arith), λ a o. refl)
memmove-Moved dst src (suc n) m = elim (Bool-cases (ltb src dst && ltb dst (src + suc n))) [
  | inl over ↦
      rw (==_ne (suc n) 0 (omega arith), over)
        (move_down-Moved (suc n) dst src m (ground (arith, over)))
  | inr beside ↦
      rw (==_ne (suc n) 0 (omega arith), beside)
        (move_up-Moved (suc n) dst src m (ground (arith, beside)))
]
