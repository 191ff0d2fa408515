-- ===== src/PathName/Elements.antt =====
-- The elements of a path, against the pieces between its slashes.
use operating_systems_ass.Base.{
  ℕ, zero, suc, ◌<◌, ◌≤◌, ◌≡◌, refl, ◌∙◌, sym, ap, false, arith, List, [], ◌∷◌, ◌++◌, if◌then◌else◌,
  take, length, Bool-cases, inl, inr,
}
use operating_systems_ass.PathName.{
  dirsiz, String, is_slash, skip_slashes, elem_of, after_elem, skip_one, skipelem, names_from,
  names,
}

-- A piece, cut to the size of a name, unless it is empty
unfoldable pub emit : String → List String → List String
emit [] pieces = pieces
emit (c ∷ piece) pieces = take dirsiz (c ∷ piece) ∷ pieces

-- The pieces of a path that are not empty; `piece` is the one that the path goes on with.
unfoldable pub split : (piece : String) → String → List String
split piece [] = emit piece []
split piece (c ∷ path) =
    if is_slash c then emit piece (split [] path) else split (piece ++ (c ∷ [])) path

split-skip_slashes : (path : String) → split [] (skip_slashes path) ≡ split [] path
unfolding split skip_slashes emit
split-skip_slashes [] = refl
split-skip_slashes (c ∷ path) = elim (Bool-cases (is_slash c)) [
  | inl s ↦ rw s (split-skip_slashes path)
  | inr n ↦ rw (n, n) refl
]

append_one : (xs : String) (c : ℕ) (ys : String) → (xs ++ (c ∷ [])) ++ ys ≡ xs ++ (c ∷ ys)
append_one [] c ys = refl
append_one (x ∷ xs) c ys = ap (λ l. x ∷ l) (append_one xs c ys)

append_none : (xs : String) → xs ++ [] ≡ xs
append_none [] = refl
append_none (x ∷ xs) = ap (λ l. x ∷ l) (append_none xs)

split-elem_of :
    (piece path : String)
    → split piece path ≡ emit (piece ++ elem_of path) (split [] (after_elem path))
unfolding split elem_of after_elem emit
split-elem_of piece [] = ap (λ p. emit p []) (sym (append_none piece))
split-elem_of piece (c ∷ path) = elim (Bool-cases (is_slash c)) [
  | inl s ↦ rw (s, s) (ap (λ p. emit p (split [] path)) (sym (append_none piece)))
  | inr n ↦ rw n (
      split-elem_of (piece ++ (c ∷ [])) path
      ∙ ap (λ p. emit p (split [] (after_elem path))) (append_one piece c (elem_of path)))
]

length-skip_slashes : (path : String) → length (skip_slashes path) ≤ length path
unfolding skip_slashes
length-skip_slashes [] = omega arith
length-skip_slashes (c ∷ path) = elim (Bool-cases (is_slash c)) [
  | inl s ↦ rw s (omega (arith, length-skip_slashes path))
  | inr n ↦ rw n (omega arith)
]

length-after_elem : (path : String) → length (after_elem path) ≤ length path
unfolding after_elem
length-after_elem [] = omega arith
length-after_elem (c ∷ path) = elim (Bool-cases (is_slash c)) [
  | inl s ↦ rw s (omega arith)
  | inr n ↦ rw n (omega (arith, length-after_elem path))
]

-- The first byte left is no slash.
no_slash :
    (path : String) (c : ℕ) (rest : String) → skip_slashes path ≡ c ∷ rest → is_slash c ≡ false
unfolding skip_slashes
no_slash [] c rest e = absurd (cc e)
no_slash (d ∷ path) c rest e = elim (Bool-cases (is_slash d)) [
  | inl s ↦ no_slash path c rest (sym (rw s refl) ∙ e)
  | inr n ↦ let same : d ≡ c = ground (arith, n, e) in ap is_slash (sym same) ∙ n
]

names-split_one :
    (fuel : ℕ) (path : String)
    → ((p : String) → length p < length path → names fuel p ≡ split [] p)
    → ((c : ℕ) (rest : String) → path ≡ c ∷ rest → is_slash c ≡ false)
    → names_from (names fuel) (skip_one path) ≡ split [] path
unfolding names_from skip_one split emit elem_of after_elem
names-split_one fuel [] next first = refl
names-split_one fuel (c ∷ path) next first =
    let n : is_slash c ≡ false = first c path refl in
    let shorter : length (skip_slashes (after_elem path)) < length (c ∷ path) =
      omega (arith, length-skip_slashes (after_elem path), length-after_elem path) in
    rw n (
      ap (λ l. take dirsiz (c ∷ elem_of path) ∷ l)
        (next (skip_slashes (after_elem path)) shorter ∙ split-skip_slashes (after_elem path))
      ∙ sym (split-elem_of (c ∷ []) path))

-- Repeated calls of skipelem give, in order, the pieces of the path between slashes that are not
-- empty, each cut to the size of a name, and then no further one; as many rounds as the path has
-- bytes, and one more, are enough.
pub names-split : (fuel : ℕ) (path : String) → length path < fuel → names fuel path ≡ split [] path
unfolding names skipelem
names-split zero path h = absurd (omega arith)
names-split (suc fuel) path h =
    names-split_one fuel (skip_slashes path)
      (λ p l. names-split fuel p (omega (arith, length-skip_slashes path))) (no_slash path)
    ∙ split-skip_slashes path
