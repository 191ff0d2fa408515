-- ===== src/PathName/Tests.antt =====
-- Tests of skipelem, and the theorem at a concrete path.
use operating_systems_ass.Base.{◌≡◌, refl, none, some, [], ◌∷◌, arith}
use operating_systems_ass.PathName.{
  String, skip_slashes, elem_of, after_elem, skip_one, skipelem, names, names_from,
}
use operating_systems_ass.PathName.Elements.{split, names-split}

-- "///a//bb"
abbrev path : String
path = b'/' ∷ b'/' ∷ b'/' ∷ b'a' ∷ b'/' ∷ b'/' ∷ b'b' ∷ b'b' ∷ []

first_elem : skipelem path ≡ some (b'a' ∷ [], b'b' ∷ b'b' ∷ [])
unfolding skipelem skip_one skip_slashes elem_of after_elem
first_elem = refl

only_slashes : skipelem (b'/' ∷ b'/' ∷ []) ≡ none
unfolding skipelem skip_one skip_slashes
only_slashes = refl

two_names : names 9 path ≡ (b'a' ∷ []) ∷ (b'b' ∷ b'b' ∷ []) ∷ []
unfolding names names_from skipelem skip_one skip_slashes elem_of after_elem
two_names = refl

names-split_example : names 9 path ≡ split [] path
names-split_example = names-split 9 path (omega arith)
