-- ===== src/Grep/Regex.antt =====
-- What a pattern of user/grep.c means, and its matcher.
use operating_systems_ass.Base.{
  ℕ, ◌≡◌, refl, ◌≢◌, ◌↔◌, ◌⊎◌, inl, inr, Bool, true, false, ◌&&◌, ◌||◌, [], ◌∷◌, arith, ◌==◌,
  ==_iff, Bool-cases,
}
use operating_systems_ass.Grep.{
  Text, accepts, is_end, matchstar, match_one, matchhere, match_from, match,
}

-- `re` is the rest of a pattern after a character that no star follows.
abbrev pub NoStar : Text → Type 0
NoStar [] = Unit
NoStar (d ∷ re) = d ≢ b'*'

-- The character is not the last `$`.
abbrev pub NotEnd : ℕ → Text → Type 0
NotEnd c [] = c ≢ b'$'
NotEnd c (d ∷ re) = Unit

-- The pattern matches at the front of the text.
pub data Here : Text → Text → Type 0 where
  done : {t : Text} → Here [] t
  at_end : {c : ℕ} → c ≡ b'$' → Here (c ∷ []) []
  one :
      {c x : ℕ} {re t : Text}
      → accepts c x ≡ true
      → NoStar re
      → NotEnd c re
      → Here re t
      → Here (c ∷ re) (x ∷ t)
  leave : {c d : ℕ} {re t : Text} → d ≡ b'*' → Here re t → Here (c ∷ d ∷ re) t
  more :
      {c d x : ℕ} {re t : Text}
      → d ≡ b'*'
      → accepts c x ≡ true
      → Here (c ∷ d ∷ re) t
      → Here (c ∷ d ∷ re) (x ∷ t)

-- It matches at the front of some end part of the text.
pub data Somewhere (re : Text) : Text → Type 0 where
  now : {t : Text} → Here re t → Somewhere re t
  later : {x : ℕ} {t : Text} → Somewhere re t → Somewhere re (x ∷ t)

abbrev pub Found : Text → Text → Type 0
Found [] t = Somewhere [] t
Found (c ∷ re) t = ((c ≡ b'^') × Here re t) ⊎ ((c ≢ b'^') × Somewhere (c ∷ re) t)

or_cases : (a b : Bool) → (a || b) ≡ true → (a ≡ true) ⊎ (b ≡ true)
or_cases a b h = ground arith

and_cases : (a b : Bool) → (a && b) ≡ true → (a ≡ true) × (b ≡ true)
and_cases a b h = ground arith

-- A test of the text that is right about the pattern `re`
abbrev Right : (re : Text) → (Text → Bool) → Type 0
Right re here = (t : Text) → (here t ≡ true) ↔ Here re t

module _ (c d : ℕ) (re : Text) (here : Text → Bool) (star : d ≡ b'*') (right : Right re here) where
  star_sound : (t : Text) → matchstar here c t ≡ true → Here (c ∷ d ∷ re) t
  unfolding matchstar
  star_sound [] h = leave star ((right []).0 h)
  star_sound (x ∷ t) h = elim (or_cases (here (x ∷ t)) _ h) [
    | inl at ↦ leave star ((right (x ∷ t)).0 at)
    | inr on ↦
        let both = and_cases _ (matchstar here c t) on in
        more star (ground (arith, both.0)) (star_sound t both.1)
  ]

  star_complete : {t : Text} → Here (c ∷ d ∷ re) t → matchstar here c t ≡ true
  unfolding matchstar
  star_complete {t = []} (leave e h) = (right []).1 h
  star_complete {t = x ∷ t} (leave e h) = rw ((right (x ∷ t)).1 h) refl
  star_complete {t = x ∷ t} (one a n e h) = absurd (n star)
  star_complete {t = x ∷ t} (more e a h) = ground (arith, a, star_complete h)

one_sound :
    (c : ℕ) (re : Text) (here : Text → Bool)
    → Right re here
    → NoStar re
    → NotEnd c re
    → (t : Text) → match_one here c t ≡ true
    → Here (c ∷ re) t
one_sound c re here right n e [] h = absurd (cc h)
one_sound c re here right n e (x ∷ t) h =
    let both = and_cases (accepts c x) (here t) h in one both.0 n e ((right t).0 both.1)

last_dollar : (c : ℕ) (t : Text) → c ≡ b'$' → (is_end t ≡ true) ↔ Here (c ∷ []) t
last_dollar c [] e = (λ _. at_end e, λ _. refl)
last_dollar c (x ∷ t) e = (λ h. absurd (cc h), not_here)
  where
    not_here : Here (c ∷ []) (x ∷ t) → false ≡ true
    not_here (one a n ne h) = absurd (ne e)

last_one : (c : ℕ) (t : Text) → c ≢ b'$' → Here (c ∷ []) t → match_one (matchhere []) c t ≡ true
unfolding matchhere
last_one c t ne (at_end e) = absurd (ne e)
last_one c t ne (one a n e h) = rw a refl

one_complete :
    (c d : ℕ) (re : Text) (here : Text → Bool) {t : Text}
    → d ≢ b'*'
    → Right (d ∷ re) here
    → Here (c ∷ d ∷ re) t
    → match_one here c t ≡ true
one_complete c d re here {t = x ∷ t} n right (one a m e h) = rw (a, (right t).1 h) refl
one_complete c d re here n right (leave e h) = absurd (n e)
one_complete c d re here n right (more e a h) = absurd (n e)

matchhere-Right : (re : Text) → Right re (matchhere re)
unfolding matchhere
matchhere-Right [] t = (λ _. done, λ _. refl)
matchhere-Right (c ∷ []) t = elim (Bool-cases (c == b'$')) [
  | inl dollar ↦ rw dollar (last_dollar c t ((==_iff c _).0 dollar))
  | inr other ↦
      let not_dollar : c ≢ b'$' = λ e. ground (arith, other, e) in
      rw other (
        λ h. one_sound c [] (matchhere []) (matchhere-Right []) tt not_dollar t h,
        last_one c t not_dollar,
      )
]
matchhere-Right (c ∷ d ∷ re) t = elim (Bool-cases (d == b'*')) [
  | inl star ↦
      let e = (==_iff d _).0 star in
      rw star (
        star_sound c d re (matchhere re) e (matchhere-Right re) t,
        star_complete c d re (matchhere re) e (matchhere-Right re),
      )
  | inr plain ↦
      let not_star : d ≢ b'*' = λ e. ground (arith, plain, e) in
      rw plain (
        λ h. one_sound c (d ∷ re) (matchhere (d ∷ re)) (matchhere-Right (d ∷ re)) not_star tt t h,
        one_complete c d re (matchhere (d ∷ re)) not_star (matchhere-Right (d ∷ re)),
      )
]

from_sound :
    (re : Text) (here : Text → Bool)
    → Right re here
    → (t : Text) → match_from here t ≡ true
    → Somewhere re t
unfolding match_from
from_sound re here right [] h = now ((right []).0 h)
from_sound re here right (x ∷ t) h = elim (or_cases (here (x ∷ t)) (match_from here t) h) [
  | inl at ↦ now ((right (x ∷ t)).0 at)
  | inr on ↦ later (from_sound re here right t on)
]

from_complete :
    (re : Text) (here : Text → Bool) {t : Text}
    → Right re here
    → Somewhere re t
    → match_from here t ≡ true
unfolding match_from
from_complete re here {t = []} right (now h) = (right []).1 h
from_complete re here {t = x ∷ t} right (now h) = rw ((right (x ∷ t)).1 h) refl
from_complete re here {t = x ∷ t} right (later h) = ground (arith, from_complete re here right h)

-- match answers true exactly on the texts in which the pattern is found: from the front on for a
-- pattern that begins with `^`, and anywhere otherwise.
pub match_iff : (re text : Text) → (match re text ≡ true) ↔ Found re text
unfolding match
match_iff [] t = (from_sound [] _ (matchhere-Right []) t, from_complete [] _ (matchhere-Right []))
match_iff (c ∷ re) t = elim (Bool-cases (c == b'^')) [
  | inl hat ↦
      let e = (==_iff c _).0 hat in
      rw hat (
        λ h. inl (e, (matchhere-Right re t).0 h),
        λ f. elim f [
          | inl found ↦ (matchhere-Right re t).1 found.1
          | inr wrong ↦ absurd (wrong.0 e)
        ],
      )
  | inr plain ↦
      let not_hat : c ≢ b'^' = λ e. ground (arith, plain, e) in
      let right = matchhere-Right (c ∷ re) in
      rw plain (
        λ h. inr (not_hat, from_sound (c ∷ re) _ right t h),
        λ f. elim f [
          | inl wrong ↦ absurd (not_hat wrong.0)
          | inr found ↦ from_complete (c ∷ re) _ right found.1
        ],
      )
]
